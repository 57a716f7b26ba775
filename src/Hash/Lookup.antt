-- ===== src/Hash/Lookup.antt =====
-- What hash_find sees after each operation of hash.c, and that each keeps the table valid.
use iftop_dotqoo.Prelude.{
  Bool-cases, Option, Option-cases, [], ap, get_or, get_or-replicate, get_or-set_ne,
  get_or-set_self, if◌then◌else◌, inl, inr, length, length-replicate, none, refl, replicate, set,
  some, subst, ℕ_discrete, ◌<◌, ◌∷◌, ◌≡◌,
}
use iftop_dotqoo.Hash.{
  Chain, HashStatus, HashType, IsLawful, Table, find, hash_delete, hash_delete_all, hash_find,
  hash_initialise, hash_insert, hash_status_key_not_found, hash_status_ok, unlink, write_rec,
  free_nodes, delete_chains,
}
use iftop_dotqoo.Hash.Chain.{
  Fresh-find, assign-IsChain, find-assign, find-unlink, hash-compare, unlink-IsChain, unlink-find,
  unlink-some,
}
use iftop_dotqoo.Hash.Table.{IsTable-replicate, IsValid, get_or-IsChain, set-IsValid}

-- The table as the map that it stands for, and that map with one key changed.
abbrev pub update {ℓ κ} :
    {K : Type ℓ} {R : Type κ} → HashType K → (K → Option R) → K → Option R → K → Option R
update ops m k v q = if ops.compare k q then v else m q

-- What an operation that looks for a key reports.
abbrev pub found_status {ℓ} : {R : Type ℓ} → Option R → HashStatus
found_status none = hash_status_key_not_found
found_status (some r) = hash_status_ok

module _ {ℓ κ} {K : Type ℓ} {R : Type κ} where
  free_nodes-nil : (c : Chain K R) → free_nodes c ≡ []
  unfolding free_nodes
  free_nodes-nil [] = refl
  free_nodes-nil (p ∷ c) = free_nodes-nil c

  delete_chains-replicate : (t : Table K R) → delete_chains t ≡ replicate (length t) []
  unfolding delete_chains
  delete_chains-replicate [] = refl
  delete_chains-replicate (c ∷ bs) = rw (free_nodes-nil c, delete_chains-replicate bs)

module _ {ℓ κ} {K : Type ℓ} {R : Type κ} (ops : HashType K) (law : IsLawful ops) where
  abbrev chain_of : Table K R → K → Chain K R
  chain_of t k = get_or t (ops.hash k) []

  -- A write to the bucket of `k` is seen at the keys of that bucket only.
  hash_find-set :
      (t : Table K R) (k q : K) (v : Option R) (c : Chain K R)
      → length t ≡ ops.size
      → find ops q c ≡ (if ops.compare k q then v else find ops q (chain_of t k))
      → hash_find ops (set t (ops.hash k) c) q ≡ update ops (hash_find ops t) k v q
  unfolding hash_find
  hash_find-set t k q v c valid reads = elim (ℕ_discrete (ops.hash k) (ops.hash q)) [
    | yes e ↦ rw (← e) (rw (get_or-set_self t (ops.hash k) c [] inside) reads)
    | no n ↦
        rw (get_or-set_ne t (ops.hash k) (ops.hash q) c [] n) (elim (Bool-cases (ops.compare k q)) [
          | inl same ↦ absurd (n (hash-compare ops law k q same))
          | inr apart ↦ rw apart
        ])
  ]
    where
      inside : ops.hash k < length t
      inside = rw valid (law.hash-lt-size k)

  -- A new table is valid, and no key is found in it.
  pub hash_initialise_lem :
      IsValid ops (hash_initialise {R = R} ops).0
      × ((k : K) → hash_find ops (hash_initialise {R = R} ops).0 k ≡ none)
  unfolding hash_initialise hash_find find
  hash_initialise_lem = (
    record { width = length-replicate ops.size []; placed = IsTable-replicate ops R 0 ops.size },
    λ k. rw (get_or-replicate {A = Chain K R} ops.size (ops.hash k) []),
  )

  -- An insertion into a table with all its buckets, of a key that is there or not, is what the
  -- next lookup of that key finds. Lookups of other keys find what they found before.
  pub hash_find-insert :
      (t : Table K R) (k q : K) (r : R)
      → length t ≡ ops.size
      → hash_find ops (hash_insert ops t k r).0 q ≡ update ops (hash_find ops t) k (some r) q
  unfolding hash_insert find
  hash_find-insert t k q r w = hash_find-set t k q (some r) _ w refl

  -- Insertion of a key that is not in a valid table keeps the table valid and adds that key alone.
  pub hash_insert_lem :
      (t : Table K R) (k : K) (r : R)
      → IsValid ops t
      → hash_find ops t k ≡ none
      → IsValid ops (hash_insert ops t k r).0
        × ((q : K)
            → hash_find ops (hash_insert ops t k r).0 q ≡ update ops (hash_find ops t) k (some r) q)
  unfolding hash_insert
  hash_insert_lem t k r v absent = (
    set-IsValid ops t (ops.hash k) _ v
        (refl, Fresh-find ops law k _ (unfold hash_find in absent), get_or-IsChain ops t _ v),
    λ q. hash_find-insert t k q r v.width,
  )

  pub update-none :
      (t : Table K R) (k q : K)
      → hash_find ops t k ≡ none
      → hash_find ops t q ≡ update ops (hash_find ops t) k none q
  update-none t k q e = elim (Bool-cases (ops.compare k q)) [
    | inl same ↦ rw same (subst (λ x. hash_find ops t x ≡ none) ((law.compare_iff k q).0 same) e)
    | inr apart ↦ rw apart
  ]

  -- Deletion from a valid table keeps it valid, takes away its key alone, and reports whether it
  -- was there.
  pub hash_delete_lem :
      (t : Table K R) (k : K)
      → IsValid ops t
      → IsValid ops (hash_delete ops t k).0
        × ((q : K)
            → hash_find ops (hash_delete ops t k).0 q ≡ update ops (hash_find ops t) k none q)
        × ((hash_delete ops t k).1 ≡ found_status (hash_find ops t k))
  unfolding hash_delete
  hash_delete_lem t k v = elim (Option-cases (unlink ops k (chain_of t k))) [
    | inl gone ↦
        let absent : hash_find ops t k ≡ none = unfold hash_find in unlink-find ops law k _ gone in
        rw gone (v, λ q. update-none t k q absent, rw absent)
    | inr (c, e) ↦
        let home = get_or-IsChain ops t (ops.hash k) v in
        let (r, here) = unlink-some ops law k _ c e in
        let found : hash_find ops t k ≡ some r = unfold hash_find in here in
        rw e (
          set-IsValid ops t (ops.hash k) c v (unlink-IsChain ops law k _ _ c e home),
          λ q. hash_find-set t k q none c v.width (find-unlink ops law k q _ _ c home e),
          rw found,
        )
  ]

  -- A write through the record that `hash_find` gave in a valid table changes that record alone,
  -- and keeps the table valid.
  pub write_rec_lem :
      (t : Table K R) (k : K) (old r : R)
      → IsValid ops t
      → hash_find ops t k ≡ some old
      → IsValid ops (write_rec ops t k r)
        × ((q : K)
            → hash_find ops (write_rec ops t k r) q ≡ update ops (hash_find ops t) k (some r) q)
  unfolding write_rec
  write_rec_lem t k old r v found = (
    set-IsValid ops t (ops.hash k) _ v
        (assign-IsChain ops law k r (ops.hash k) _ (get_or-IsChain ops t _ v)),
    λ q.
        hash_find-set t k q (some r) _ v.width
          (find-assign ops law k q r old _ (unfold hash_find in found)),
  )

  -- Deleting everything in a valid table leaves what initialisation makes.
  pub hash_delete_all_lem :
      (t : Table K R)
      → IsValid ops t
      → hash_delete_all (some t) ≡ some (hash_initialise {R = R} ops).0
  unfolding hash_delete_all hash_initialise
  hash_delete_all_lem t v = rw (← v.width) (ap some (delete_chains-replicate t))
