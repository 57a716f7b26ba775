-- ===== src/Resolver/Drain.antt =====
-- The inner loop of `resolver_worker` of resolver.c, where no other thread comes in between, ends with
-- an empty queue.
use iftop_dotqoo.Prelude.{
  List, Option, Option-cases, [], arith, inl, inr, length, none, refl, some, suc, sym, zero, ℕ, ◌<◌,
  ◌∙◌, ◌∷◌, ◌≡◌,
}
use iftop_dotqoo.Hash.Lookup.{update}
use iftop_dotqoo.NsHash.{In6Addr, ns_ops}
use iftop_dotqoo.Resolver.{
  AddrStorage, Name, Resolver, ns_key, worker_loop, worker_store, worker_take,
}
use iftop_dotqoo.Resolver.Ring.{waiting, worker_take-cases}
use iftop_dotqoo.Resolver.Pending.{Pending, put_name}
use iftop_dotqoo.Resolver.Refine.{Refines, store_lem}

-- The names after each of the addresses has been looked up, where its look-up gives one.
unfoldable pub learn :
    (AddrStorage → Option Name) → List AddrStorage → (In6Addr → Option Name) → In6Addr → Option Name
learn do_resolve [] names = names
learn do_resolve (addr ∷ addrs) names = elim (do_resolve addr) [
  | none ↦ learn do_resolve addrs names
  | some hostname ↦ learn do_resolve addrs (update ns_ops names (ns_key addr) (some hostname))
]

abbrev pub pending : List AddrStorage → (In6Addr → Option Name) → Pending
pending queue names = record { queue = queue; names = names }

store_next :
    (addr : AddrStorage) (hostname : Name) (r : Resolver) (addrs : List AddrStorage)
    (names : In6Addr → Option Name)
    → Refines r (pending addrs names)
    → Refines
        (worker_store addr (some hostname) r)
        (pending addrs (update ns_ops names (ns_key addr) (some hostname)))
store_next addr hostname r addrs names v =
    unfold put_name in store_lem addr hostname r (pending addrs names) v

store_none : (addr : AddrStorage) (r : Resolver) → worker_store addr none r ≡ r
unfolding worker_store
store_none addr r = refl

module _ (do_resolve : AddrStorage → Option Name) where
  loop_step :
      (fuel : ℕ) (r : Resolver) (addr : AddrStorage) (r' : Resolver)
      → worker_take r ≡ some (addr, r')
      → worker_loop do_resolve (suc fuel) r
        ≡ worker_loop do_resolve fuel (worker_store addr (do_resolve addr) r')
  unfolding worker_loop
  loop_step fuel r addr r' e = rw (worker_loop, e)

  loop_end :
      (fuel : ℕ) (r : Resolver)
      → worker_take r ≡ none
      → worker_loop do_resolve (suc fuel) r ≡ some r
  unfolding worker_loop
  loop_end fuel r e = rw (worker_loop, e)

  learn-none :
      (addr : AddrStorage) (addrs : List AddrStorage) (names : In6Addr → Option Name)
      → do_resolve addr ≡ none
      → learn do_resolve (addr ∷ addrs) names ≡ learn do_resolve addrs names
  unfolding learn
  learn-none addr addrs names e = rw (learn, e)

  learn-some :
      (addr : AddrStorage) (addrs : List AddrStorage) (names : In6Addr → Option Name)
      (hostname : Name)
      → do_resolve addr ≡ some hostname
      → learn do_resolve (addr ∷ addrs) names
        ≡ learn do_resolve addrs (update ns_ops names (ns_key addr) (some hostname))
  unfolding learn
  learn-some addr addrs names hostname e = rw (learn, e)

  -- With no other thread in between (nobody adds an address, or takes one, while the worker runs,
  -- although the mutex is free during each look-up): the loop of the worker over a resolver that
  -- stands for the waiting `addrs` and some names, with one round for each address and one for the
  -- end, ends. Nobody waits then, and the names are those that the look-ups of the addresses gave, in
  -- their order.
  pub worker_loop-learn :
      (addrs : List AddrStorage) (fuel : ℕ) (r : Resolver) (names : In6Addr → Option Name)
      → Refines r (pending addrs names)
      → length addrs < fuel
      → (r' : Resolver) × (worker_loop do_resolve fuel r ≡ some r')
        × Refines r' (pending [] (learn do_resolve addrs names))
  worker_loop-learn addrs zero r names v enough = absurd (omega arith)
  worker_loop-learn [] (suc fuel) r names v enough = elim (worker_take-cases r v.bounds) [
    | inl (idle, nobody) ↦ (r, loop_end fuel r idle, unfold learn in v)
    | inr (addr, r', takes', first, bounds, same) ↦
        let queue = v.queue in absurd (ground (arith, queue, first))
  ]
  worker_loop-learn (a ∷ addrs) (suc fuel) r names v enough = elim (worker_take-cases r v.bounds) [
    | inl (idle, nobody) ↦ let queue = v.queue in absurd (ground (arith, queue, nobody))
    | inr (addr, r', takes', first, bounds, same) ↦
        let queue : a ∷ addrs ≡ addr ∷ waiting r' = sym v.queue ∙ first in
        let here : addr ≡ a = ground (arith, queue) in
        let there : waiting r' ≡ addrs = ground (arith, queue) in
        let taken' : worker_take r ≡ some (a, r') = takes' ∙ rw here in
        let w : Refines r' (pending addrs names) = record {
          bounds = bounds;
          table = rw same v.table;
          queue = there;
          names = λ k. rw same (v.names k);
        } in
        elim (Option-cases (do_resolve a)) [
          | inl unknown ↦
              rw
                (
                  loop_step fuel r a r' taken',
                  unknown,
                  store_none a r',
                  learn-none a addrs names unknown,
                )
                (worker_loop-learn addrs fuel r' names w (omega arith))
          | inr (hostname, found) ↦
              rw (loop_step fuel r a r' taken', found, learn-some a addrs names hostname found)
                (worker_loop-learn addrs fuel (worker_store a (some hostname) r')
                  (update ns_ops names (ns_key a) (some hostname))
                  (store_next a hostname r' addrs names w) (omega arith))
        ]
  ]
