-- ===== src/Resolver/Ring.antt =====
-- The ring of resolver.c as the list of the addresses that wait in it, the oldest first.
use iftop_dotqoo.Prelude.{
  ==_iff, Bool-cases, List, [], ap, arith, false, get_or, get_or-set_ne, get_or-set_self,
  if◌then◌else◌, inl, inr, length, length-set, none, refl, set, some, suc, true, zero, ℕ, ◌%◌, ◌++◌,
  ◌+◌, ◌-◌, ◌<◌, ◌==◌, ◌∙◌, ◌∷◌, ◌≡◌, ◌≢◌, ◌⊎◌,
}
use iftop_dotqoo.Resolver.{
  AddrStorage, Resolver, enqueue, no_addr, resolve_queue_length, stays_numerical, worker_take,
}

-- The `n` places from place `t` on.
unfoldable pub window : List AddrStorage → ℕ → ℕ → List AddrStorage
window q t zero = []
window q t (suc n) = get_or q t no_addr ∷ window q ((t + 1) % 20) n

pub record InBounds (r : Resolver) : Type 0 where
  pub size : length r.resolve_queue ≡ resolve_queue_length
  pub head_in : r.head < resolve_queue_length
  pub tail_in : r.tail < resolve_queue_length

abbrev pub n_waiting : Resolver → ℕ
n_waiting r = (r.head + resolve_queue_length - r.tail) % resolve_queue_length

unfoldable pub waiting : Resolver → List AddrStorage
unfolding window
waiting r = window r.resolve_queue r.tail (n_waiting r)

length-window : (q : List AddrStorage) (t n : ℕ) → length (window q t n) ≡ n
unfolding window
length-window q t zero = refl
length-window q t (suc n) = ap suc (length-window q ((t + 1) % 20) n)

pub length-waiting : (r : Resolver) → length (waiting r) ≡ n_waiting r
unfolding waiting
length-waiting r = length-window r.resolve_queue r.tail (n_waiting r)

-- A write behind the window makes it longer by what is written.
window-set :
    (q : List AddrStorage) (x : AddrStorage) (n t i : ℕ)
    → length q ≡ 20
    → t < 20
    → n < 20
    → i ≡ (t + n) % 20
    → window (set q i x) t (suc n) ≡ window q t n ++ x ∷ []
unfolding window
window-set q x zero t i size inside few e =
    let here : i ≡ t = omega arith in rw (here, get_or-set_self q t x no_addr (omega arith))
window-set q x (suc n) t i size inside few e =
    let apart : i ≢ t = λ same. absurd (omega (arith, same)) in
    rw (get_or-set_ne q i t x no_addr apart) (
      ap (λ l. get_or q t no_addr ∷ l)
        (window-set q x n ((t + 1) % 20) i size (omega arith) (omega arith) (omega arith)))

pub waiting-enqueue :
    (raddr : AddrStorage) (r : Resolver)
    → InBounds r
    → waiting (enqueue raddr r) ≡ (
        if length (waiting r) == 19
        then waiting r
        else if stays_numerical raddr
        then waiting r
        else waiting r ++ raddr ∷ [])
unfolding waiting enqueue
waiting-enqueue raddr r v = elim (Bool-cases ((r.head + 1) % 20 == r.tail)) [
  | inl full ↦
      let place = (==_iff ((r.head + 1) % 20) r.tail).0 full in
      let count : n_waiting r ≡ 19 = omega (arith, place) in
      let all : (length (waiting r) == 19) ≡ true =
        (==_iff (length (waiting r)) 19).1 (length-waiting r ∙ count) in
      rw (enqueue, full, all)
  | inr free ↦
      let apart : (r.head + 1) % 20 ≢ r.tail = λ e. absurd (ground (arith, e, free)) in
      let few : n_waiting r < 19 = omega (arith, apart) in
      let some_left : (length (waiting r) == 19) ≡ false = ground (arith, few, length-waiting r) in
      elim (Bool-cases (stays_numerical raddr)) [
        | inl numerical ↦ rw (enqueue, free, some_left, numerical)
        | inr named ↦
            let longer : ((r.head + 1) % 20 + 20 - r.tail) % 20 ≡ suc (n_waiting r) =
              omega (arith, apart) in
            rw (enqueue, free, some_left, named, longer)
              (window-set r.resolve_queue raddr (n_waiting r) r.tail r.head v.size v.tail_in
                (omega arith) (omega arith))
      ]
]

pub worker_take-cases :
    (r : Resolver)
    → InBounds r
    → ((worker_take r ≡ none) × (waiting r ≡ []))
      ⊎ ((addr : AddrStorage) × (r' : Resolver) × (worker_take r ≡ some (addr, r'))
          × (waiting r ≡ addr ∷ waiting r')
          × InBounds r'
          × (r'.ns_hash ≡ r.ns_hash))
unfolding worker_take waiting window
worker_take-cases r v = elim (Bool-cases (r.head == r.tail)) [
  | inl none_left ↦
      let place = (==_iff r.head r.tail).0 none_left in
      let count : n_waiting r ≡ 0 = omega (arith, place) in inl (rw none_left, rw count)
  | inr left ↦
      let apart : r.head ≢ r.tail = λ e. absurd (ground (arith, e, left)) in
      let r' = record r { tail = (r.tail + 1) % 20 } in
      let count : n_waiting r ≡ suc (n_waiting r') = omega (arith, apart) in
      inr (
        get_or r.resolve_queue r.tail no_addr,
        r',
        rw left,
        rw count,
        record { size = v.size; head_in = v.head_in; tail_in = omega arith },
        refl,
      )
]

pub enqueue-InBounds :
    (raddr : AddrStorage) (r : Resolver) → InBounds r → InBounds (enqueue raddr r)
unfolding enqueue
enqueue-InBounds raddr r v = elim (Bool-cases ((r.head + 1) % 20 == r.tail)) [
  | inl full ↦ rw (enqueue, full) v
  | inr free ↦ elim (Bool-cases (stays_numerical raddr)) [
    | inl numerical ↦ rw (enqueue, free, numerical) v
    | inr named ↦
        rw (enqueue, free, named)
          (record {
            size = length-set r.resolve_queue r.head raddr ∙ v.size;
            head_in = omega arith;
            tail_in = v.tail_in;
          })
  ]
]

pub ns_hash-enqueue : (raddr : AddrStorage) (r : Resolver) → (enqueue raddr r).ns_hash ≡ r.ns_hash
unfolding enqueue
ns_hash-enqueue raddr r = ground arith
