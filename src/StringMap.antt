-- ===== src/StringMap.antt =====
-- stringmap.c: the binary tree under the configuration. A child is NULL (`nil`) or a node. A map is
-- NULL (`none`) or the node that `stringmap_new` made, whose key is NULL (`some nil`) until the
-- first insertion. Keys are compared by the C library's `strcmp`, an argument here.
pub mod Lookup
use iftop_dotqoo.Prelude.{Option, if◌then◌else◌, none, some}
use iftop_dotqoo.Prelude.Int.{eq_ℤ, ltb_ℤ, pos, ℤ}

-- `d` is the item; smaller keys are under `l`, greater ones under `g`.
pub data Tree {ℓ κ} (K : Type ℓ) (A : Type κ) : Type (ℓ ⊔ κ) where
  nil : Tree K A
  node : K → A → Tree K A → Tree K A → Tree K A

abbrev pub StringMap {ℓ κ} : Type ℓ → Type κ → Type (ℓ ⊔ κ)
StringMap K A = Option (Tree K A)

module _ {ℓ κ} {K : Type ℓ} {A : Type κ} where
  unfoldable pub stringmap_new : StringMap K A
  stringmap_new = some nil

  -- The item of a node that was found.
  abbrev pub item_of : Tree K A → Option A
  item_of nil = none
  item_of (node key d l g) = some d

module _ {ℓ κ} {K : Type ℓ} {A : Type κ} (strcmp : K → K → ℤ) where
  -- The loop of `stringmap_insert` from the node `S2` on: the tree after it, and the item that the
  -- key already had.
  unfoldable pub insert_loop : Tree K A → K → A → Tree K A × Option A
  insert_loop nil k d = (node k d nil nil, none)
  insert_loop (node key d' l g) k d =
      let less = insert_loop l k d in
      let greater = insert_loop g k d in
      if eq_ℤ (strcmp k key) (pos 0)
      then (node key d' l g, some d')
      else if ltb_ℤ (strcmp k key) (pos 0)
      then (node key d' less.0 g, less.1)
      else (node key d' l greater.0, greater.1)

  unfoldable pub stringmap_insert : StringMap K A → K → A → StringMap K A × Option A
  unfolding insert_loop
  stringmap_insert none k d = (none, none)
  stringmap_insert (some t) k d = let (t', old) = insert_loop t k d in (some t', old)

  -- The loop of `stringmap_find`; `nil` is NULL.
  find_loop : Tree K A → K → Tree K A
  find_loop nil k = nil
  find_loop (node key d l g) k =
      let less = find_loop l k in
      let greater = find_loop g k in
      if eq_ℤ (strcmp k key) (pos 0)
      then node key d l g
      else if ltb_ℤ (strcmp k key) (pos 0)
      then less
      else greater

  unfoldable pub stringmap_find : StringMap K A → K → Tree K A
  unfolding find_loop
  stringmap_find none k = nil
  stringmap_find (some t) k = find_loop t k
