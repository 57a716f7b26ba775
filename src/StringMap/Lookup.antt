-- ===== src/StringMap/Lookup.antt =====
-- What `stringmap_find` sees after `stringmap_insert` of stringmap.c.
use iftop_dotqoo.Prelude.{
  Bool-cases, Option, arith, false, if◌then◌else◌, inl, inr, none, refl, some, true, ◌↔◌, ◌≡◌,
}
use iftop_dotqoo.Prelude.Int.{eq_ℤ, pos, ℤ}
use iftop_dotqoo.StringMap.{
  Tree, insert_loop, item_of, nil, node, stringmap_find, stringmap_insert, find_loop,
}

-- `strcmp` returns 0 for equal strings only.
pub record IsStrcmp {ℓ} {K : Type ℓ} (strcmp : K → K → ℤ) : Type ℓ where
  pub zero_iff : (a b : K) → (eq_ℤ (strcmp a b) (pos 0) ≡ true) ↔ (a ≡ b)

abbrev pub or_new {ℓ} : {A : Type ℓ} → Option A → A → A
or_new none d = d
or_new (some d') d = d'

module _ {ℓ κ} {K : Type ℓ} {A : Type κ} (strcmp : K → K → ℤ) (law : IsStrcmp strcmp) where
  insert_loop-old :
      (t : Tree K A) (k : K) (d : A) → (insert_loop strcmp t k d).1 ≡ item_of (find_loop strcmp t k)
  unfolding insert_loop find_loop
  insert_loop-old nil k d = refl
  insert_loop-old (node key d' l g) k d =
      ground (arith, insert_loop-old l k d, insert_loop-old g k d)

  find_loop-insert_self :
      (t : Tree K A) (k : K) (d : A)
      → item_of (find_loop strcmp (insert_loop strcmp t k d).0 k)
        ≡ some (or_new (item_of (find_loop strcmp t k)) d)
  unfolding insert_loop find_loop
  find_loop-insert_self nil k d = let same = (law.zero_iff k k).1 refl in rw same
  find_loop-insert_self (node key d' l g) k d =
      ground (arith, find_loop-insert_self l k d, find_loop-insert_self g k d)

  find_loop-insert_other :
      (t : Tree K A) (k q : K) (d : A)
      → eq_ℤ (strcmp q k) (pos 0) ≡ false
      → item_of (find_loop strcmp (insert_loop strcmp t k d).0 q) ≡ item_of (find_loop strcmp t q)
  unfolding insert_loop find_loop
  find_loop-insert_other nil k q d apart = ground (arith, apart)
  find_loop-insert_other (node key d' l g) k q d apart =
      let left = find_loop-insert_other l k q d apart in
      let right = find_loop-insert_other g k q d apart in ground (arith, left, right)

  find_loop-insert :
      (t : Tree K A) (k q : K) (d : A)
      → item_of (find_loop strcmp (insert_loop strcmp t k d).0 q) ≡ (
          if eq_ℤ (strcmp q k) (pos 0)
          then some (or_new (item_of (find_loop strcmp t k)) d)
          else item_of (find_loop strcmp t q))
  find_loop-insert t k q d = elim (Bool-cases (eq_ℤ (strcmp q k) (pos 0))) [
    | inl e ↦ rw e (rw ((law.zero_iff q k).0 e) (find_loop-insert_self t k d))
    | inr apart ↦ rw apart (find_loop-insert_other t k q d apart)
  ]

  -- An insertion into a map that is not NULL is what the next lookup of its key finds, unless the
  -- key was there: then its item stays. Other keys keep their items. The result is the item that
  -- the key had before.
  pub stringmap_find-insert :
      (t : Tree K A) (k q : K) (d : A)
      → (item_of (stringmap_find strcmp (stringmap_insert strcmp (some t) k d).0 q) ≡ (
          if eq_ℤ (strcmp q k) (pos 0)
          then some (or_new (item_of (stringmap_find strcmp (some t) k)) d)
          else item_of (stringmap_find strcmp (some t) q)))
        × ((stringmap_insert strcmp (some t) k d).1 ≡ item_of (stringmap_find strcmp (some t) k))
  unfolding stringmap_insert stringmap_find
  stringmap_find-insert t k q d = (find_loop-insert t k q d, insert_loop-old t k d)
