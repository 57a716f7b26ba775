-- ===== src/SortedList/Order.antt =====
-- `sorted_list_insert` of sorted_list.c keeps the order, and adds the item once.
use iftop_dotqoo.Prelude.{All, Bool, Bool-cases, List, [], false, inl, inr, true, ◌∷◌, ◌≡◌}
use iftop_dotqoo.Prelude.Int.{ltb_ℤ, pos, ℤ}
use iftop_dotqoo.SortedList.{sorted_list_insert}
use mathlib.Core.List.{Perm}
use mathlib.Core.List.Perm

module _ {ℓ} {A : Type ℓ} (compare : A → A → ℤ) where
  -- The test of the loop.
  abbrev pub is_greater : A → A → Bool
  is_greater a b = ltb_ℤ (pos 0) (compare a b)

  -- `compare` orders the items: one that is greater than another is not less, and what is not
  -- greater can be chained.
  pub record IsOrder : Type ℓ where
    pub asymmetric : (a b : A) → is_greater a b ≡ true → is_greater b a ≡ false
    pub chained :
        (a b c : A) → is_greater a b ≡ false → is_greater b c ≡ false → is_greater a c ≡ false

  -- No item is greater than one that stands behind it.
  abbrev pub IsSorted : List A → Type ℓ
  IsSorted [] = Unit
  IsSorted (x ∷ xs) = All (λ y. is_greater x y ≡ false) xs × IsSorted xs

  module _ (order : IsOrder) where
    All-insert :
        (x item : A) (xs : List A)
        → is_greater x item ≡ false
        → All (λ y. is_greater x y ≡ false) xs
        → All (λ y. is_greater x y ≡ false) (sorted_list_insert compare xs item)
    unfolding sorted_list_insert
    All-insert x item [] h w = (h, tt)
    All-insert x item (y ∷ ys) h w = elim (Bool-cases (is_greater item y)) [
      | inl more ↦ rw more (w.0, All-insert x item ys h w.1)
      | inr stop ↦ rw stop (h, w)
    ]

    All-chained :
        (item x : A) (xs : List A)
        → is_greater item x ≡ false
        → All (λ y. is_greater x y ≡ false) xs
        → All (λ y. is_greater item y ≡ false) xs
    All-chained item x [] h w = tt
    All-chained item x (y ∷ ys) h w = (order.chained item x y h w.0, All-chained item x ys h w.1)

    insert-IsSorted :
        (xs : List A) (item : A) → IsSorted xs → IsSorted (sorted_list_insert compare xs item)
    unfolding sorted_list_insert
    insert-IsSorted [] item v = (tt, tt)
    insert-IsSorted (x ∷ xs) item v = elim (Bool-cases (is_greater item x)) [
      | inl more ↦
          rw more
            (All-insert x item xs (order.asymmetric item x more) v.0, insert-IsSorted xs item v.1)
      | inr stop ↦ rw stop ((stop, All-chained item x xs stop v.0), v)
    ]

    insert-Perm : (xs : List A) (item : A) → Perm (sorted_list_insert compare xs item) (item ∷ xs)
    unfolding sorted_list_insert
    insert-Perm [] item = Perm.refl (item ∷ [])
    insert-Perm (x ∷ xs) item = elim (Bool-cases (is_greater item x)) [
      | inl more ↦ rw more (Perm.trans (Perm.cons x (insert-Perm xs item)) (Perm.swap item x xs))
      | inr stop ↦ rw stop (Perm.refl (item ∷ x ∷ xs))
    ]

    -- An insertion keeps a list in order, where the comparison is an order, and adds the item to the
    -- others once.
    pub sorted_list_insert_lem :
        (list : List A) (item : A)
        → IsSorted list
        → IsSorted (sorted_list_insert compare list item)
          × Perm (sorted_list_insert compare list item) (item ∷ list)
    sorted_list_insert_lem list item v = (insert-IsSorted list item v, insert-Perm list item)
