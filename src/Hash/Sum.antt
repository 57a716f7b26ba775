-- ===== src/Hash/Sum.antt =====
-- A number that each record of a table of hash.c has, summed over the table, under the operations
-- that add a record and write to one.
use iftop_dotqoo.Prelude.{
  Bool-cases, [], ap, arith, get_or, inl, inr, length, set, some, suc, zero, ℕ, ◌+◌, ◌<◌, ◌∷◌, ◌≡◌,
}
use iftop_dotqoo.Hash.{
  Chain, HashType, IsLawful, Table, assign, find, hash_find, hash_insert, write_rec,
}

module _ {ℓ κ} {K : Type ℓ} {R : Type κ} (weight : R → ℕ) where
  unfoldable pub chain_sum : Chain K R → ℕ
  chain_sum [] = 0
  chain_sum (p ∷ c) = weight p.1 + chain_sum c

  unfoldable pub table_sum : Table K R → ℕ
  unfolding chain_sum
  table_sum [] = 0
  table_sum (c ∷ t) = chain_sum c + table_sum t

  table_sum-set :
      (t : Table K R) (j : ℕ) (c : Chain K R)
      → j < length t
      → table_sum (set t j c) + chain_sum (get_or t j []) ≡ table_sum t + chain_sum c
  unfolding table_sum
  table_sum-set [] j c h = absurd (omega arith)
  table_sum-set (d ∷ t) zero c h = omega arith
  table_sum-set (d ∷ t) (suc j) c h = omega (arith, table_sum-set t j c (omega arith))

module _ {ℓ κ} {K : Type ℓ} {R : Type κ} (ops : HashType K) (law : IsLawful ops)
    (weight : R → ℕ) where
  chain_sum-assign :
      (k : K) (old r : R) (c : Chain K R)
      → find ops k c ≡ some old
      → chain_sum weight (assign ops k r c) + weight old ≡ chain_sum weight c + weight r
  unfolding chain_sum find assign
  chain_sum-assign k old r [] found = absurd (ground arith)
  chain_sum-assign k old r (p ∷ c) found = elim (Bool-cases (ops.compare p.0 k)) [
    | inl hit ↦
        let same : p.1 ≡ old = ground arith in
        let equal_weight = ap weight same in rw hit (omega arith)
    | inr miss ↦
        let later : find ops k c ≡ some old = ground arith in
        let ih = chain_sum-assign k old r c later in rw miss (omega arith)
  ]

  pub table_sum-hash_insert :
      (t : Table K R) (k : K) (r : R)
      → length t ≡ ops.size
      → table_sum weight (hash_insert ops t k r).0 ≡ table_sum weight t + weight r
  unfolding hash_insert chain_sum
  table_sum-hash_insert t k r width = omega (
    arith,
    table_sum-set weight t (ops.hash k) ((k, r) ∷ get_or t (ops.hash k) [])
        (omega (arith, law.hash-lt-size k)),
  )

  pub table_sum-write_rec :
      (t : Table K R) (k : K) (old r : R)
      → length t ≡ ops.size
      → hash_find ops t k ≡ some old
      → table_sum weight (write_rec ops t k r) + weight old ≡ table_sum weight t + weight r
  unfolding write_rec hash_find
  table_sum-write_rec t k old r width found =
      let chain = get_or t (ops.hash k) [] in
      omega (
        arith,
        table_sum-set weight t (ops.hash k) (assign ops k r chain)
            (omega (arith, law.hash-lt-size k)),
        chain_sum-assign k old r chain found,
      )
