-- ===== src/Hash/Walk.antt =====
-- The walk of a whole table by hash_next_item: `while (hash_next_item(t, &n) == HASH_STATUS_OK)`
-- of ui_common.c, and the loops of iftop.c and mqtt.c that fetch the next node first.
use iftop_dotqoo.Prelude.{
  List, [], ap, arith, drop, drop-suc, flatten, length, length-append, refl, suc, zero, ℕ, ◌++◌,
  ◌+◌, ◌∷◌, ◌≡◌, ◌≤◌,
}
use iftop_dotqoo.Hash.{Chain, HashType, Table, next_item, next_used}
use iftop_dotqoo.Hash.Chain.{IsChain}
use iftop_dotqoo.Hash.Table.{IsTable, IsValid}

module _ {ℓ κ} {K : Type ℓ} {R : Type κ} (ops : HashType K) where
  -- The nodes from `n` on that a loop over `hash_next_item` visits, for at most `fuel` of them.
  unfoldable pub walk : ℕ → Table K R → Chain K R → List (K × R)
  walk zero t n = []
  walk (suc fuel) t [] = []
  walk (suc fuel) t (p ∷ c) = let rest = walk fuel t (next_item ops t (p ∷ c)) in p ∷ rest

  -- Where the walk stands when `c` is left of one chain, and `bs` are the buckets after it.
  abbrev pub cursor : Chain K R → Table K R → Chain K R
  cursor [] bs = next_used bs
  cursor (p ∷ c) bs = p ∷ c

  pub cursor-cons : (c : Chain K R) (bs : Table K R) → next_used (c ∷ bs) ≡ cursor c bs
  unfolding next_used
  cursor-cons [] bs = refl
  cursor-cons (p ∷ c) bs = refl

  pub next_item-cursor :
      (t bs : Table K R) (i : ℕ) (p : K × R) (c : Chain K R)
      → ops.hash p.0 ≡ i
      → drop (suc i) t ≡ bs
      → next_item ops t (p ∷ c) ≡ cursor c bs
  unfolding next_item
  next_item-cursor t bs i p [] h e = rw (h, e)
  next_item-cursor t bs i p (q ∷ c) h e = refl

  walk-cursor :
      (fuel : ℕ) (t : Table K R) (c : Chain K R) (bs : Table K R) (i : ℕ)
      → IsChain ops i c
      → drop (suc i) t ≡ bs
      → IsTable ops (suc i) bs
      → length c + length (flatten bs) ≤ fuel
      → walk fuel t (cursor c bs) ≡ c ++ flatten bs
  unfolding walk next_used flatten
  walk-cursor zero t (p ∷ c) bs i v e w enough = absurd (omega arith)
  walk-cursor (suc fuel) t (p ∷ c) bs i v e w enough =
      rw (next_item-cursor t bs i p c v.0 e)
        (ap (λ l. p ∷ l) (walk-cursor fuel t c bs i v.2 e w (omega arith)))
  walk-cursor zero t [] [] i v e w enough = refl
  walk-cursor (suc fuel) t [] [] i v e w enough = refl
  walk-cursor fuel t [] (c ∷ bs) i v e w enough =
      let size = length-append c (flatten bs) in
      rw (cursor-cons c bs)
        (walk-cursor fuel t c bs (suc i) w.0 (drop-suc (suc i) t c bs e) w.1 (omega (arith, size)))

  walk-used :
      (fuel : ℕ) (t u : Table K R)
      → t ≡ u
      → IsTable ops 0 u
      → length (flatten u) ≤ fuel
      → walk fuel t (next_used u) ≡ flatten u
  unfolding walk next_used flatten
  walk-used zero t [] e w m = refl
  walk-used (suc fuel) t [] e w m = refl
  walk-used fuel t (c ∷ bs) e w m =
      let size = length-append c (flatten bs) in
      rw (cursor-cons c bs) (walk-cursor fuel t c bs 0 w.0 (rw e) w.1 (omega (arith, size)))

  -- The loop meets every entry of a valid table once, bucket by bucket, and then ends; its fuel is
  -- at least the number of entries.
  pub walk-flatten :
      (fuel : ℕ) (t : Table K R)
      → IsValid ops t
      → length (flatten t) ≤ fuel
      → walk fuel t (next_item ops t []) ≡ flatten t
  unfolding next_item
  walk-flatten fuel t v enough = walk-used fuel t t refl v.placed enough
