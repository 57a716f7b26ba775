-- ===== src/Hash/Chain.antt =====
-- One chain of the table of hash.c: lookups in it, and its well-formedness, under the changes that
-- `hash_insert`, `hash_delete` and a write through a found record make.
use iftop_dotqoo.Prelude.{
  Bool-cases, Option-cases, [], ap, arith, false, if◌then◌else◌, inl, inr, none, refl, some, subst,
  true, ℕ, ◌++◌, ◌∷◌, ◌≡◌, ◌⊎◌,
}
use iftop_dotqoo.Hash.{Chain, HashType, IsLawful, assign, find, unlink}

module _ {ℓ} {K : Type ℓ} (ops : HashType K) where
  -- No node of the chain is under `key`.
  abbrev pub Fresh {κ} : {R : Type κ} → K → Chain K R → Type 0
  Fresh key [] = Unit
  Fresh key (p ∷ c) = (ops.compare p.0 key ≡ false) × Fresh key c

  -- Every node belongs in bucket `i`, and no two are under one key.
  abbrev pub IsChain {κ} : {R : Type κ} → ℕ → Chain K R → Type 0
  IsChain i [] = Unit
  IsChain i (p ∷ c) = (ops.hash p.0 ≡ i) × Fresh p.0 c × IsChain i c

module _ {ℓ} {K : Type ℓ} (ops : HashType K) (law : IsLawful ops) where
  pub compare_self : (k : K) → ops.compare k k ≡ true
  compare_self k = (law.compare_iff k k).1 refl

  pub compare_comm : (a b : K) → ops.compare a b ≡ ops.compare b a
  compare_comm a b = ground (arith, law.compare_iff a b, law.compare_iff b a)

  compare_apart : (a k q : K) → ops.compare a k ≡ true → ops.compare k q ≡ ops.compare a q
  compare_apart a k q e = rw ((law.compare_iff a k).0 e)

  pub hash-compare : (a b : K) → ops.compare a b ≡ true → ops.hash a ≡ ops.hash b
  hash-compare a b h = ap ops.hash ((law.compare_iff a b).0 h)

module _ {ℓ κ} {K : Type ℓ} {R : Type κ} (ops : HashType K) (law : IsLawful ops) where
  pub find-Fresh : (k : K) (c : Chain K R) → Fresh ops k c → find ops k c ≡ none
  unfolding find
  find-Fresh k [] h = refl
  find-Fresh k (p ∷ c) h = ground (arith, find-Fresh k c h.1)

  pub Fresh-find : (k : K) (c : Chain K R) → find ops k c ≡ none → Fresh ops k c
  unfolding find
  Fresh-find k [] h = tt
  Fresh-find k (p ∷ c) h = ground (arith, Fresh-find k c)

  pub Fresh-append :
      (k : K) (c d : Chain K R) → Fresh ops k (c ++ d) → Fresh ops k c × Fresh ops k d
  Fresh-append k [] d h = (tt, h)
  Fresh-append k (p ∷ c) d h = let (l, r) = Fresh-append k c d h.1 in ((h.0, l), r)

  pub append-Fresh :
      (k : K) (c d : Chain K R) → Fresh ops k c → Fresh ops k d → Fresh ops k (c ++ d)
  append-Fresh k [] d h g = g
  append-Fresh k (p ∷ c) d h g = (h.0, append-Fresh k c d h.1 g)

  pub find-other :
      (k q : K) (c : Chain K R) → Fresh ops k c → ops.compare k q ≡ true → find ops q c ≡ none
  find-other k q c h e = find-Fresh q c (subst (λ x. Fresh ops x c) ((law.compare_iff k q).0 e) h)

  pub find-unlink :
      (k q : K) (i : ℕ) (c d : Chain K R)
      → IsChain ops i c
      → unlink ops k c ≡ some d
      → find ops q d ≡ (if ops.compare k q then none else find ops q c)
  unfolding unlink find
  find-unlink k q i [] d v e = ground arith
  find-unlink k q i (p ∷ c) d v e = elim (Bool-cases (ops.compare p.0 k)) [
    | inl hit ↦ ground (arith, compare_apart ops law p.0 k q hit, find-other p.0 q c v.1)
    | inr miss ↦ elim (Option-cases (unlink ops k c)) [
      | inl gone ↦ ground arith
      | inr (d', found) ↦ ground (
        arith,
        find-unlink k q i c d' v.2 found,
        law.compare_iff p.0 q,
        law.compare_iff k q,
        law.compare_iff p.0 k,
        compare_comm ops law p.0 k,
      )
    ]
  ]

  pub unlink-find : (k : K) (c : Chain K R) → unlink ops k c ≡ none → find ops k c ≡ none
  unfolding unlink find
  unlink-find k [] e = refl
  unlink-find k (p ∷ c) e = ground (arith, unlink-find k c)

  pub unlink-some :
      (k : K) (c d : Chain K R) → unlink ops k c ≡ some d → (r : R) × (find ops k c ≡ some r)
  unfolding unlink find
  unlink-some k [] d e = absurd (ground arith)
  unlink-some k (p ∷ c) d e = elim (Bool-cases (ops.compare p.0 k)) [
    | inl hit ↦ (p.1, rw hit)
    | inr miss ↦ elim (Option-cases (unlink ops k c)) [
      | inl gone ↦ absurd (ground arith)
      | inr (d', found) ↦ rw miss (unlink-some k c d' found)
    ]
  ]

  -- A successful `unlink` drops the head, or goes on behind it.
  unlink-cons :
      (k : K) (p : K × R) (c d : Chain K R)
      → unlink ops k (p ∷ c) ≡ some d
      → (d ≡ c) ⊎ ((d' : Chain K R) × (unlink ops k c ≡ some d') × (d ≡ p ∷ d'))
  unfolding unlink
  unlink-cons k p c d e = elim (Bool-cases (ops.compare p.0 k)) [
    | inl hit ↦ inl (ground arith)
    | inr miss ↦ elim (Option-cases (unlink ops k c)) [
      | inl gone ↦ absurd (ground arith)
      | inr (d', found) ↦ inr (d', found, ground arith)
    ]
  ]

  unlink-Fresh :
      (k q : K) (c d : Chain K R) → unlink ops k c ≡ some d → Fresh ops q c → Fresh ops q d
  unfolding unlink
  unlink-Fresh k q [] d e h = absurd (ground arith)
  unlink-Fresh k q (p ∷ c) d e h = elim (unlink-cons k p c d e) [
    | inl same ↦ rw same h.1
    | inr (d', found, same) ↦ rw same (h.0, unlink-Fresh k q c d' found h.1)
  ]

  pub unlink-IsChain :
      (k : K) (i : ℕ) (c d : Chain K R)
      → unlink ops k c ≡ some d
      → IsChain ops i c
      → IsChain ops i d
  unfolding unlink
  unlink-IsChain k i [] d e v = absurd (ground arith)
  unlink-IsChain k i (p ∷ c) d e v = elim (unlink-cons k p c d e) [
    | inl same ↦ rw same v.2
    | inr (d', found, same) ↦
        rw same (v.0, unlink-Fresh k p.0 c d' found v.1, unlink-IsChain k i c d' found v.2)
  ]

  pub find-assign :
      (k q : K) (r old : R) (c : Chain K R)
      → find ops k c ≡ some old
      → find ops q (assign ops k r c) ≡ (if ops.compare k q then some r else find ops q c)
  unfolding find assign
  find-assign k q r old [] e = absurd (ground arith)
  find-assign k q r old (p ∷ c) e = elim (Bool-cases (ops.compare p.0 k)) [
    | inl hit ↦ ground (arith, compare_apart ops law p.0 k q hit)
    | inr miss ↦ ground (
      arith,
      find-assign k q r old c,
      law.compare_iff p.0 q,
      law.compare_iff k q,
      law.compare_iff p.0 k,
      compare_comm ops law p.0 k,
    )
  ]

  assign-Fresh : (k q : K) (r : R) (c : Chain K R) → Fresh ops q c → Fresh ops q (assign ops k r c)
  unfolding assign
  assign-Fresh k q r [] h = tt
  assign-Fresh k q r (p ∷ c) h = elim (Bool-cases (ops.compare p.0 k)) [
    | inl hit ↦ rw hit h
    | inr miss ↦ rw miss (h.0, assign-Fresh k q r c h.1)
  ]

  pub assign-IsChain :
      (k : K) (r : R) (i : ℕ) (c : Chain K R) → IsChain ops i c → IsChain ops i (assign ops k r c)
  unfolding assign
  assign-IsChain k r i [] v = tt
  assign-IsChain k r i (p ∷ c) v = elim (Bool-cases (ops.compare p.0 k)) [
    | inl hit ↦ rw hit v
    | inr miss ↦ rw miss (v.0, assign-Fresh k p.0 r c v.1, assign-IsChain k r i c v.2)
  ]

  -- The node in the middle of a chain, under a key that is fresh for the nodes before it.
  pub unlink-append :
      (k : K) (r : R) (done c : Chain K R)
      → Fresh ops k done
      → unlink ops k (done ++ (k, r) ∷ c) ≡ some (done ++ c)
  unfolding unlink
  unlink-append k r [] c h = rw (compare_self ops law k)
  unlink-append k r (p ∷ done) c h = rw (h.0, unlink-append k r done c h.1)

  pub assign-append :
      (k : K) (r r' : R) (done c : Chain K R)
      → Fresh ops k done
      → assign ops k r' (done ++ (k, r) ∷ c) ≡ done ++ (k, r') ∷ c
  unfolding assign
  assign-append k r r' [] c h = rw (compare_self ops law k)
  assign-append k r r' (p ∷ done) c h = rw (h.0, assign-append k r r' done c h.1)
