-- ===== src/Hash.antt =====
-- The chained hash table of hash.c and hash.h. The function pointers of `hash_type` are a record
-- of operations on keys; the table is the list of its chains, each a list of keys with their
-- records. A pointer to a node is the chain from that node on, and NULL is the empty chain.
-- Allocation never fails here (`xmalloc` aborts), and keys are values, so `copy_key` and
-- `delete_key` do nothing. A bucket outside the table, which C would read out of bounds, is empty.
pub mod Chain
pub mod Table
pub mod Node
pub mod Lookup
pub mod Walk
pub mod Sum
pub mod Refine
use iftop_dotqoo.Prelude.{
  Bool, List, Option, [], drop, get_or, if◌then◌else◌, none, replicate, set, some, suc, true, ℕ,
  ◌<◌, ◌↔◌, ◌∷◌, ◌≡◌,
}
use mathlib.Core.Option

pub data HashStatus : Type 0 where
  hash_status_ok hash_status_mem_exhausted hash_status_key_not_found : HashStatus

-- `compare`, `hash` and `size` of `hash_type`.
pub record HashType {ℓ} (K : Type ℓ) : Type ℓ where
  pub compare : K → K → Bool
  pub hash : K → ℕ
  pub size : ℕ

-- What the table relies on: `compare` is the equality of keys, and a hash is a bucket.
pub record IsLawful {ℓ} {K : Type ℓ} (ops : HashType K) : Type ℓ where
  pub compare_iff : (a b : K) → (ops.compare a b ≡ true) ↔ (a ≡ b)
  pub hash-lt-size : (k : K) → ops.hash k < ops.size

abbrev pub Chain {ℓ κ} : Type ℓ → Type κ → Type (ℓ ⊔ κ)
Chain K R = List (K × R)

abbrev pub Table {ℓ κ} : Type ℓ → Type κ → Type (ℓ ⊔ κ)
Table K R = List (Chain K R)

module _ {ℓ κ} {K : Type ℓ} {R : Type κ} where
  -- The walk over the buckets from `i` on: the first chain that is not NULL.
  unfoldable pub next_used : Table K R → Chain K R
  next_used [] = []
  next_used ([] ∷ bs) = next_used bs
  next_used ((e ∷ c) ∷ bs) = e ∷ c

  -- The two loops of `hash_delete_all`: the nodes of a chain are freed, and its bucket is NULL.
  free_nodes : Chain K R → Chain K R
  free_nodes [] = []
  free_nodes (n ∷ nn) = free_nodes nn

  delete_chains : Table K R → Table K R
  unfolding free_nodes
  delete_chains [] = []
  delete_chains (n ∷ bs) = free_nodes n ∷ delete_chains bs

  -- A NULL table is left alone.
  unfoldable pub hash_delete_all : Option (Table K R) → Option (Table K R)
  unfolding delete_chains
  hash_delete_all none = none
  hash_delete_all (some t) = some (delete_chains t)

module _ {ℓ κ} {K : Type ℓ} {R : Type κ} (ops : HashType K) where
  -- `xcalloc` zeroes the buckets.
  unfoldable pub hash_initialise : Table K R × HashStatus
  hash_initialise = (replicate ops.size [], hash_status_ok)

  unfoldable pub hash_insert : Table K R → K → R → Table K R × HashStatus
  hash_insert t key rec =
      let bucket = ops.hash key in (set t bucket ((key, rec) ∷ get_or t bucket []), hash_status_ok)

  -- The chain without its first node under `key`, or `none` where there is no such node.
  unfoldable pub unlink : K → Chain K R → Option (Chain K R)
  unlink key [] = none
  unlink key (p ∷ c) =
      if ops.compare p.0 key then some c else Option.map (λ d. p ∷ d) (unlink key c)

  relink : Table K R → ℕ → Option (Chain K R) → Table K R × HashStatus
  relink t bucket none = (t, hash_status_key_not_found)
  relink t bucket (some c) = (set t bucket c, hash_status_ok)

  unfoldable pub hash_delete : Table K R → K → Table K R × HashStatus
  unfolding relink
  hash_delete t key = let bucket = ops.hash key in relink t bucket (unlink key (get_or t bucket []))

  unfoldable pub find : K → Chain K R → Option R
  find key [] = none
  find key (p ∷ c) = if ops.compare p.0 key then some p.1 else find key c

  -- `none` is `HASH_STATUS_KEY_NOT_FOUND`; otherwise the result is what is stored in `*rec`.
  unfoldable pub hash_find : Table K R → K → Option R
  hash_find t key = find key (get_or t (ops.hash key) [])

  -- The node after `*ppnode`: in its chain, or else at the head of the next chain in use.
  unfoldable pub next_item : Table K R → Chain K R → Chain K R
  next_item t [] = next_used t
  next_item t (p ∷ []) = next_used (drop (suc (ops.hash p.0)) t)
  next_item t (p ∷ q ∷ c) = q ∷ c

  node_status : Chain K R → HashStatus
  node_status [] = hash_status_key_not_found
  node_status (p ∷ c) = hash_status_ok

  -- A NULL table leaves the node as it is.
  unfoldable pub hash_next_item : Option (Table K R) → Chain K R → Chain K R × HashStatus
  unfolding node_status
  hash_next_item none node = (node, hash_status_key_not_found)
  hash_next_item (some t) node = let next = next_item t node in (next, node_status next)

  -- A write to the record of the first node under `key`, through the pointer that `hash_find` gave.
  unfoldable pub assign : K → R → Chain K R → Chain K R
  assign key r [] = []
  assign key r (p ∷ c) = if ops.compare p.0 key then (p.0, r) ∷ c else p ∷ assign key r c

  unfoldable pub write_rec : Table K R → K → R → Table K R
  write_rec t key r = let bucket = ops.hash key in set t bucket (assign key r (get_or t bucket []))
