-- ===== src/Vector.antt =====
-- vector.c: the growing array. `items` are the items in use, `n` is the number that the block has
-- room for; what stands behind the items in use is not modelled. An access outside the block is a
-- fault. An item is an index here, where the code has a pointer into the block.
use iftop_dotqoo.Prelude.{
  ==_iff, Bool-cases, List, Option, [], ap, arith, drop, false, if◌then◌else◌, inl, inr, leb,
  length, length-append, ltb, ltb→lt, none, refl, some, suc, take, true, zero, ℕ, ◌&&◌, ◌*◌, ◌++◌,
  ◌-◌, ◌/◌, ◌<◌, ◌==◌, ◌||◌, ◌∷◌, ◌≡◌, ◌≤◌,
}
use iftop_dotqoo.Run.{Returns, Run, fault, ok, ◌>>=◌, buffer_overflow}

pub record Vector {ℓ} (A : Type ℓ) : Type ℓ where
  pub items : List A
  pub n : ℕ

module _ {ℓ} {A : Type ℓ} where
  abbrev pub n_used : Vector A → ℕ
  n_used v = length v.items

  unfoldable pub vector_new : Vector A
  vector_new = record { items = []; n = 16 }

  -- `memset` clears from the last item in use on as much as the old block had room for.
  unfoldable pub vector_reallocate : Vector A → ℕ → Run (Vector A)
  vector_reallocate v n =
      if ltb n (n_used v) || n == 0
      then ok v
      else if ltb n v.n
      then fault buffer_overflow
      else ok (record v { n = n })

  unfoldable pub vector_push_back : Vector A → A → Run (Vector A)
  unfolding vector_reallocate
  vector_push_back v t = do
    v ← if n_used v == v.n then vector_reallocate v (v.n * 2) else ok v
    if ltb (n_used v) v.n
        then ok (record v { items = v.items ++ t ∷ [] })
        else fault buffer_overflow

  unfoldable pub vector_pop_back : Vector A → Run (Vector A)
  unfolding vector_reallocate
  vector_pop_back v =
      let v' = record v { items = take (n_used v - 1) v.items } in
      if ltb 0 (n_used v)
      then if ltb (n_used v - 1) (v.n / 2) then vector_reallocate v' (v.n / 2) else ok v'
      else ok v

  -- An empty vector is read in front of its block.
  back_of : List A → Run A
  back_of [] = fault buffer_overflow
  back_of (x ∷ []) = ok x
  back_of (x ∷ y ∷ items) = back_of (y ∷ items)

  unfoldable pub vector_back : Vector A → Run A
  unfolding back_of
  vector_back v = back_of v.items

  -- A block that is full is cleared one item too far. The result is the index that `t` stands for,
  -- or `none` for NULL.
  unfoldable pub vector_remove : Vector A → ℕ → Run (Vector A × Option ℕ)
  unfolding vector_reallocate
  vector_remove v t =
      let v' = record v { items = take t v.items ++ drop (suc t) v.items } in
      let shrunk = vector_reallocate v' (v.n / 2) >>= λ w. ok (w, some t) in
      if leb (n_used v) t
      then ok (v, none)
      else if n_used v == v.n
      then fault buffer_overflow
      else if ltb (n_used v - 1) (v.n / 2) && ltb 16 v.n
      then shrunk
      else ok (v', some t)

  length-take : (k : ℕ) (xs : List A) → k ≤ length xs → length (take k xs) ≡ k
  length-take zero xs h = refl
  length-take (suc k) [] h = absurd (omega arith)
  length-take (suc k) (x ∷ xs) h = ap suc (length-take k xs (omega arith))

  -- There is room for the items in use, and some.
  pub record IsRoomy (v : Vector A) : Type 0 where
    pub room : n_used v ≤ v.n
    pub some_room : 0 < v.n

  -- An item that is pushed to a vector with some room stands behind the others, in a block that
  -- has grown where it had to, and that has room for them.
  pub vector_push_back_lem :
      (v : Vector A) (t : A)
      → IsRoomy v
      → Returns (λ v'. (v'.items ≡ v.items ++ t ∷ []) × IsRoomy v') (vector_push_back v t)
  unfolding vector_push_back vector_reallocate
  vector_push_back_lem v t w =
      let more = length-append v.items (t ∷ []) in
      elim (Bool-cases (n_used v == v.n)) [
        | inl full ↦
            let used : n_used v ≡ v.n = (==_iff (n_used v) v.n).0 full in
            let some_room = w.some_room in
            let kept : (ltb (v.n * 2) (n_used v) || v.n * 2 == 0) ≡ false =
              ground (arith, used, some_room) in
            let grown : ltb (v.n * 2) v.n ≡ false = ground (arith, some_room) in
            let fits : ltb (n_used v) (v.n * 2) ≡ true = ground (arith, used, some_room) in
            (
              record { items = v.items ++ t ∷ []; n = v.n * 2 },
              rw (full, kept, grown, fits),
              (
                refl,
                record { room = omega (arith, more, w.room, w.some_room); some_room = omega arith },
              ),
            )
        | inr spare ↦
            let room = w.room in
            let fits : ltb (n_used v) v.n ≡ true = ground (arith, room, spare) in
            (
              record { items = v.items ++ t ∷ []; n = v.n },
              rw (spare, fits),
              (
                refl,
                record {
                  room = omega (arith, more, ltb→lt (n_used v) v.n fits);
                  some_room = w.some_room;
                },
              ),
            )
      ]

  length-take_pred : (xs : List A) → length (take (length xs - 1) xs) ≡ length xs - 1
  length-take_pred xs = length-take (length xs - 1) xs (omega arith)

  -- In a block for at least 2 items, a pop that leaves less than half of it in use writes behind
  -- the smaller block. One that leaves more takes the last item away, and one of an empty vector
  -- does nothing.
  pub vector_pop_back_lem :
      (v : Vector A)
      → 1 < v.n
      → vector_pop_back v ≡ (
          if n_used v == 0
          then ok v
          else if ltb (n_used v - 1) (v.n / 2)
          then fault buffer_overflow
          else ok (record v { items = take (n_used v - 1) v.items }))
  unfolding vector_pop_back vector_reallocate
  vector_pop_back_lem v large =
      let left = length-take_pred v.items in
      elim (Bool-cases (ltb (n_used v - 1) (v.n / 2))) [
        | inl small ↦ rw small (ground (arith, left))
        | inr half ↦ rw half (ground arith)
      ]

  back_of-append : (xs : List A) (t : A) → back_of (xs ++ t ∷ []) ≡ ok t
  unfolding back_of
  back_of-append [] t = refl
  back_of-append (x ∷ []) t = refl
  back_of-append (x ∷ y ∷ xs) t = back_of-append (y ∷ xs) t

  -- The item that was pushed last, to a vector with some room, is the one at the back.
  pub vector_back-push_back :
      (v : Vector A) (t : A) → IsRoomy v → vector_push_back v t >>= vector_back ≡ ok t
  unfolding vector_back
  vector_back-push_back v t w =
      let (v', pushed, (items, roomy)) = vector_push_back_lem v t w in
      rw (pushed, items) (back_of-append v.items t)
