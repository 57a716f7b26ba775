-- ===== src/Hash/Table.antt =====
-- The whole table of hash.c: every key is in the bucket of its hash, once.
use iftop_dotqoo.Prelude.{
  [], arith, get_or, length, length-set, replicate, set, subst, suc, zero, ℕ, ◌+◌, ◌∙◌, ◌∷◌, ◌≡◌,
}
use iftop_dotqoo.Hash.{Chain, HashType, Table}
use iftop_dotqoo.Hash.Chain.{IsChain}

module _ {ℓ} {K : Type ℓ} (ops : HashType K) where
  -- Chain `j` of the list is bucket `i + j` of the table.
  abbrev pub IsTable {κ} : {R : Type κ} → ℕ → Table K R → Type 0
  IsTable i [] = Unit
  IsTable i (c ∷ bs) = IsChain ops i c × IsTable (suc i) bs

  pub record IsValid {κ} {R : Type κ} (t : Table K R) : Type 0 where
    pub width : length t ≡ ops.size
    pub placed : IsTable 0 t

pub IsTable-replicate {ℓ κ} :
    {K : Type ℓ} (ops : HashType K) (R : Type κ) (i n : ℕ) → IsTable ops {R = R} i (replicate n [])
IsTable-replicate ops R i zero = tt
IsTable-replicate ops R i (suc n) = (tt, IsTable-replicate ops R (suc i) n)

module _ {ℓ κ} {K : Type ℓ} {R : Type κ} (ops : HashType K) where
  IsTable-get_or :
      (i j b : ℕ) (t : Table K R) → i + j ≡ b → IsTable ops i t → IsChain ops b (get_or t j [])
  IsTable-get_or i j b [] e v = tt
  IsTable-get_or i zero b (c ∷ bs) e v =
      let same : i ≡ b = omega arith in subst (λ n. IsChain ops n c) same v.0
  IsTable-get_or i (suc j) b (c ∷ bs) e v = IsTable-get_or (suc i) j b bs (omega arith) v.1

  IsTable-set :
      (i j b : ℕ) (t : Table K R) (c : Chain K R)
      → i + j ≡ b
      → IsTable ops i t
      → IsChain ops b c
      → IsTable ops i (set t j c)
  IsTable-set i j b [] c e v w = tt
  IsTable-set i zero b (d ∷ bs) c e v w =
      let same : b ≡ i = omega arith in (subst (λ n. IsChain ops n c) same w, v.1)
  IsTable-set i (suc j) b (d ∷ bs) c e v w = (v.0, IsTable-set (suc i) j b bs c (omega arith) v.1 w)

  pub get_or-IsChain : (t : Table K R) (j : ℕ) → IsValid ops t → IsChain ops j (get_or t j [])
  get_or-IsChain t j v = IsTable-get_or 0 j j t (omega arith) v.placed

  pub set-IsValid :
      (t : Table K R) (j : ℕ) (c : Chain K R)
      → IsValid ops t
      → IsChain ops j c
      → IsValid ops (set t j c)
  set-IsValid t j c v w = record {
    width = length-set t j c ∙ v.width;
    placed = IsTable-set 0 j j t c (omega arith) v.placed w;
  }
