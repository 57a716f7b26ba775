-- ===== src/Hash/Refine.antt =====
-- Any sequence of calls of hash.c, as the program makes them, against a map.
use iftop_dotqoo.Prelude.{
  List, Option, Option-cases, [], arith, inl, inr, none, refl, some, sym, ◌∙◌, ◌∷◌, ◌≡◌,
}
use iftop_dotqoo.Hash.{
  HashType, IsLawful, Table, hash_delete, hash_delete_all, hash_find, hash_initialise, hash_insert,
  write_rec,
}
use iftop_dotqoo.Hash.Table.{IsValid}
use iftop_dotqoo.Hash.Lookup.{
  hash_delete_all_lem, hash_delete_lem, hash_initialise_lem, hash_insert_lem, update, write_rec_lem,
}

-- A key is looked up, given a record, or deleted, or all keys are. A record is given as in
-- `handle_ip_packet`: written where the key is found, and inserted where it is not.
pub data Call {ℓ κ} (K : Type ℓ) (R : Type κ) : Type (ℓ ⊔ κ) where
  look : K → Call K R
  give : K → R → Call K R
  delete : K → Call K R
  delete_all : Call K R

module _ {ℓ κ} {K : Type ℓ} {R : Type κ} (ops : HashType K) where
  unfoldable pub hash_call : Call K R → Table K R → Table K R × Option R
  hash_call (look k) t = (t, hash_find ops t k)
  hash_call (give k r) t = elim (hash_find ops t k) [
    | none ↦ ((hash_insert ops t k r).0, none)
    | some old ↦ (write_rec ops t k r, some old)
  ]
  hash_call (delete k) t = ((hash_delete ops t k).0, none)
  hash_call delete_all t = elim (hash_delete_all (some t)) [ none ↦ (t, none) | some e ↦ (e, none) ]

  unfoldable pub map_call : Call K R → (K → Option R) → (K → Option R) × Option R
  map_call (look k) m = (m, m k)
  map_call (give k r) m = (update ops m k (some r), m k)
  map_call (delete k) m = (update ops m k none, none)
  map_call delete_all m = (λ q. none, none)

  -- What the calls find, in their order.
  unfoldable pub run_hash : List (Call K R) → Table K R → List (Option R)
  unfolding hash_call
  run_hash [] t = []
  run_hash (c ∷ calls) t = let (t', found) = hash_call c t in found ∷ run_hash calls t'

  unfoldable pub run_map : List (Call K R) → (K → Option R) → List (Option R)
  unfolding map_call
  run_map [] m = []
  run_map (c ∷ calls) m = let (m', found) = map_call c m in found ∷ run_map calls m'

module _ {ℓ κ} {K : Type ℓ} {R : Type κ} (ops : HashType K) (law : IsLawful ops) where
  -- The table is valid and stands for the map.
  record Stands (t : Table K R) (m : K → Option R) : Type (ℓ ⊔ κ) where
    valid : IsValid ops t
    finds : (k : K) → hash_find ops t k ≡ m k

  update_same :
      (t : Table K R) (m : K → Option R) (k q : K) (v : Option R)
      → hash_find ops t q ≡ m q
      → update ops (hash_find ops t) k v q ≡ update ops m k v q
  update_same t m k q v e = ground arith

  hash_call-Stands :
      (c : Call K R) (t : Table K R) (m : K → Option R)
      → Stands t m
      → Stands (hash_call ops c t).0 (map_call ops c m).0
        × ((hash_call ops c t).1 ≡ (map_call ops c m).1)
  unfolding hash_call map_call
  hash_call-Stands (look k) t m s = (s, s.finds k)
  hash_call-Stands (give k r) t m s = elim (Option-cases (hash_find ops t k)) [
    | inl absent ↦
        let (v, finds) = hash_insert_lem ops law t k r s.valid absent in
        rw (hash_call, absent)
          (
            record { valid = v; finds = λ q. finds q ∙ update_same t m k q (some r) (s.finds q) },
            sym absent ∙ s.finds k,
          )
    | inr (old, found) ↦
        let (v, finds) = write_rec_lem ops law t k old r s.valid found in
        rw (hash_call, found)
          (
            record { valid = v; finds = λ q. finds q ∙ update_same t m k q (some r) (s.finds q) },
            sym found ∙ s.finds k,
          )
  ]
  hash_call-Stands (delete k) t m s =
      let (v, finds, status) = hash_delete_lem ops law t k s.valid in
      (record { valid = v; finds = λ q. finds q ∙ update_same t m k q none (s.finds q) }, refl)
  hash_call-Stands delete_all t m s =
      let (v, finds) = hash_initialise_lem {R = R} ops law in
      rw (hash_call, hash_delete_all_lem ops law t s.valid)
        (record { valid = v; finds = finds }, refl)

  run_hash-Stands :
      (calls : List (Call K R)) (t : Table K R) (m : K → Option R)
      → Stands t m
      → run_hash ops calls t ≡ run_map ops calls m
  unfolding run_hash run_map
  run_hash-Stands [] t m s = refl
  run_hash-Stands (c ∷ calls) t m s =
      let (next, same) = hash_call-Stands c t m s in
      rw (same, run_hash-Stands calls (hash_call ops c t).0 (map_call ops c m).0 next)

  -- From a new table on, no sequence of look-ups, changes and deletions, of one key or of all, tells
  -- the table from the map that starts empty.
  pub run_hash-run_map :
      (calls : List (Call K R))
      → run_hash ops calls (hash_initialise {R = R} ops).0 ≡ run_map ops calls (λ q. none)
  run_hash-run_map calls =
      let (v, finds) = hash_initialise_lem {R = R} ops law in
      run_hash-Stands calls (hash_initialise {R = R} ops).0 (λ q. none)
        (record { valid = v; finds = finds })
