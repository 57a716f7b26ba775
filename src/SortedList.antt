-- ===== src/SortedList.antt =====
-- sorted_list.c: the list in the order of its comparison. The root holds no data, so a list is
-- the list of its items, and a pointer to a node is the list from that node on.
pub mod Order
use iftop_dotqoo.Prelude.{List, Option, [], if◌then◌else◌, none, some, ◌∷◌}
use iftop_dotqoo.Prelude.Int.{ltb_ℤ, pos, ℤ}

module _ {ℓ} {A : Type ℓ} where
  unfoldable pub sorted_list_initialise : List A
  sorted_list_initialise = []

  -- The walk goes on as long as the item is greater than the next one.
  unfoldable pub sorted_list_insert : (A → A → ℤ) → List A → A → List A
  sorted_list_insert compare [] item = item ∷ []
  sorted_list_insert compare (x ∷ next) item =
      let rest = sorted_list_insert compare next item in
      if ltb_ℤ (pos 0) (compare item x) then x ∷ rest else item ∷ x ∷ next

  -- `none` is a NULL `prev`; the result is empty for NULL.
  unfoldable pub sorted_list_next_item : List A → Option (List A) → List A
  sorted_list_next_item list none = list
  sorted_list_next_item list (some []) = []
  sorted_list_next_item list (some (x ∷ next)) = next

  -- The loop frees the nodes one by one.
  unfoldable pub sorted_list_destroy : List A → List A
  sorted_list_destroy [] = []
  sorted_list_destroy (p ∷ n) = sorted_list_destroy n
