-- ===== src/Resolver/Lookup/Fork.antt =====
-- The forking resolver of resolver.c: a child process that looks names up, and the socket to it. A
-- message is the list of its bytes; what a read returns is what was written, up to the size that is
-- asked for. The id of a process is -1 where `fork` fails.
use iftop_dotqoo.Prelude.{
  Bool, Bool-cases, List, Option, [], arith, false, if◌then◌else◌, inl, inr, length, none, refl,
  some, suc, take, true, zero, ℕ, ◌-◌, ◌<◌, ◌==◌, ◌∷◌, ◌≡◌, ◌≤◌, ◌⊎◌,
}
use iftop_dotqoo.Prelude.Int.{eq_ℤ, negsuc, ℤ}
use iftop_dotqoo.Resolver.{Name}

abbrev pub namesize : ℕ
namesize = 64

-- The bytes of a `struct addr_storage` and of a `struct in6_addr`.
abbrev pub sizeof_addr_storage : ℕ
sizeof_addr_storage = 24

abbrev pub sizeof_in6_addr : ℕ
sizeof_in6_addr = 16

-- `fd` tells whether the descriptor is open.
pub record WorkerInfo : Type 0 where
  pub fd : Bool
  pub child : ℤ

-- The thread's worker, and the processes that have been killed, the last one first.
pub record Forking : Type 0 where
  pub workerinfo : Option WorkerInfo
  pub killed : List ℤ

-- What the parent does with the worker that it has.
pub data Spawned : Type 0 where
  refused : Spawned
  unable : WorkerInfo → Spawned
  works : WorkerInfo → Spawned

-- One round of the child: its answer, or its end.
unfoldable pub forking_resolver_worker : (List ℕ → Option Name) → List ℕ → Option Name
forking_resolver_worker gethostbyaddr sent =
    let a = take sizeof_addr_storage sent in
    let buf : Name = elim (gethostbyaddr a) [
      | none ↦ []
      | some h_name ↦ take (namesize - 1) h_name
    ] in
    if length a == sizeof_addr_storage then some buf else none

-- The worker of the thread, or a new one.
unfoldable pub spawn : Bool → ℤ → Option WorkerInfo → Spawned
spawn socketpair pid (some info) = works info
spawn false pid none = refused
spawn true pid none =
    if eq_ℤ pid (negsuc 0)
    then unable (record { fd = false; child = pid })
    else works (record { fd = true; child = pid })

abbrev nonempty : Name → Option Name
nonempty [] = none
nonempty (c ∷ name) = some (c ∷ name)

-- The request and its answer; a write to a closed descriptor fails, and so does a read after the child
-- has ended.
unfoldable pub ask_worker :
    (List ℕ → Option Name) → List ℕ → WorkerInfo → Forking → Forking × Option Name
unfolding forking_resolver_worker
ask_worker gethostbyaddr addr info s =
    let sent = take sizeof_in6_addr addr in
    let lost : Forking × Option Name =
      (record s { workerinfo = none; killed = info.child ∷ s.killed }, none) in
    let answered = forking_resolver_worker gethostbyaddr sent in
    if info.fd
    then elim answered [
      | none ↦ lost
      | some name ↦ (record s { workerinfo = some info }, nonempty name)
    ]
    else lost

-- `addr` holds the bytes from the address on, `socketpair` whether it gives sockets.
unfoldable pub resolve_forking :
    (List ℕ → Option Name) → Bool → ℤ → List ℕ → Forking → Forking × Option Name
unfolding spawn ask_worker
resolve_forking gethostbyaddr socketpair pid addr s = elim (spawn socketpair pid s.workerinfo) [
  | refused ↦ (s, none)
  | unable info ↦ (record s { workerinfo = some info }, none)
  | works info ↦ ask_worker gethostbyaddr addr info s
]

length-take_le : {A : Type 0} (n : ℕ) (xs : List A) → length (take n xs) ≤ n
length-take_le zero xs = omega arith
length-take_le (suc n) [] = omega arith
length-take_le (suc n) (x ∷ xs) = omega (arith, length-take_le n xs)

Spawned-cases :
    (r : Spawned)
    → (r ≡ refused)
      ⊎ ((info : WorkerInfo) × (r ≡ unable info))
      ⊎ ((info : WorkerInfo) × (r ≡ works info))
Spawned-cases refused = inl refl
Spawned-cases (unable info) = inr (inl (info, refl))
Spawned-cases (works info) = inr (inr (info, refl))

length-take-take : {A : Type 0} (m n : ℕ) (xs : List A) → n < m → length (take m (take n xs)) < m
length-take-take {A} m n xs less = omega (arith, shorter m (take n xs), length-take_le n xs)
  where
    shorter : (m : ℕ) (xs : List A) → length (take m xs) ≤ length xs
    shorter zero xs = omega arith
    shorter (suc m) [] = omega arith
    shorter (suc m) (x ∷ xs) = omega (arith, shorter m xs)

-- The child waits for more bytes than the parent sends.
ask_worker-lost :
    (gethostbyaddr : List ℕ → Option Name) (addr : List ℕ) (info : WorkerInfo) (s : Forking)
    → ask_worker gethostbyaddr addr info s
      ≡ (record s { workerinfo = none; killed = info.child ∷ s.killed }, none)
unfolding ask_worker forking_resolver_worker
ask_worker-lost gethostbyaddr addr info s =
    let sent = take sizeof_in6_addr addr in
    let few = length-take-take sizeof_addr_storage sizeof_in6_addr addr (omega arith) in
    let short : (length (take sizeof_addr_storage sent) == sizeof_addr_storage) ≡ false =
      ground (arith, few) in
    elim (Bool-cases info.fd) [ inl open' ↦ rw (open', short) | inr closed ↦ rw closed ]

-- The forking resolver finds no name, whatever the system knows, and whatever has happened before.
pub resolve_forking-none :
    (gethostbyaddr : List ℕ → Option Name) (socketpair : Bool) (pid : ℤ) (addr : List ℕ)
    (s : Forking)
    → (resolve_forking gethostbyaddr socketpair pid addr s).1 ≡ none
unfolding resolve_forking
resolve_forking-none gethostbyaddr socketpair pid addr s =
    elim (Spawned-cases (spawn socketpair pid s.workerinfo)) [
      | inl refused' ↦ rw (resolve_forking, refused')
      | inr (inl (info, failed)) ↦ rw (resolve_forking, failed)
      | inr (inr (info, there)) ↦
          rw (resolve_forking, there, ask_worker-lost gethostbyaddr addr info s)
    ]

-- After a `fork` that fails, the next look-up of the thread sends SIGKILL to -1, which is every process
-- that the program may signal. The thread had no worker before.
pub resolve_forking-kill :
    (gethostbyaddr : List ℕ → Option Name) (socketpair : Bool) (pid : ℤ) (addr other : List ℕ)
    (s : Forking)
    → s.workerinfo ≡ none
    → (resolve_forking gethostbyaddr socketpair pid other
        (resolve_forking gethostbyaddr true (negsuc 0) addr s).0).0.killed
      ≡ negsuc 0 ∷ s.killed
unfolding resolve_forking spawn ask_worker
resolve_forking-kill gethostbyaddr socketpair pid addr other s fresh =
    let broken : WorkerInfo = record { fd = false; child = negsuc 0 } in
    let first : resolve_forking gethostbyaddr true (negsuc 0) addr s
        ≡ (record s { workerinfo = some broken }, none) =
      rw (resolve_forking, fresh) in
    rw (first) refl
