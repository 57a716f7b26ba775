-- ===== src/Tests/Containers.antt =====
-- The sorted list with numbers, and the string map with two directives of a configuration file.
use iftop_dotqoo.Prelude.{List, [], arith, if◌then◌else◌, refl, some, true, ℕ, ◌==◌, ◌↔◌, ◌∷◌, ◌≡◌}
use iftop_dotqoo.Prelude.Int.{eq_ℤ, negsuc, pos, sub_ℕ, ℤ}
use iftop_dotqoo.SortedList.{sorted_list_insert}
use iftop_dotqoo.SortedList.Order.{IsOrder}
use iftop_dotqoo.StringMap.{Tree, item_of, nil, node, stringmap_find, stringmap_insert}
use iftop_dotqoo.StringMap.Lookup.{IsStrcmp, or_new, stringmap_find-insert}
use iftop_dotqoo.Vector.{Vector}

abbrev by_size : ℕ → ℕ → ℤ
by_size a b = sub_ℕ a b

by_size-IsOrder : IsOrder by_size
by_size-IsOrder = record { asymmetric = ground arith; chained = ground arith }

sorted_once : sorted_list_insert by_size (2 ∷ 5 ∷ []) 3 ≡ 2 ∷ 3 ∷ 5 ∷ []
unfolding sorted_list_insert
sorted_once = refl

-- A comparison of strings, byte by byte.
abbrev strcmp : List ℕ → List ℕ → ℤ
strcmp [] [] = pos 0
strcmp [] (b ∷ bs) = negsuc 0
strcmp (a ∷ as') [] = pos 1
strcmp (a ∷ as') (b ∷ bs) = let rest = strcmp as' bs in if a == b then rest else sub_ℕ a b

strcmp_iff : (a b : List ℕ) → (eq_ℤ (strcmp a b) (pos 0) ≡ true) ↔ (a ≡ b)
strcmp_iff [] [] = ground arith
strcmp_iff [] (b ∷ bs) = ground arith
strcmp_iff (a ∷ as') [] = ground arith
strcmp_iff (a ∷ as') (b ∷ bs) = ground (arith, strcmp_iff as' bs)

strcmp-IsStrcmp : IsStrcmp strcmp
strcmp-IsStrcmp = record { zero_iff = strcmp_iff }

-- "port" with 80, under "net" with 8.
abbrev port : List ℕ
port = 112 ∷ 111 ∷ 114 ∷ 116 ∷ []

abbrev directives : Tree (List ℕ) ℕ
directives = node (110 ∷ 101 ∷ 116 ∷ []) 8 nil (node port 80 nil nil)

stringmap_find-insert_example :
    (item_of (stringmap_find strcmp (stringmap_insert strcmp (some directives) port 81).0 port) ≡ (
      if true
      then some (or_new (item_of (stringmap_find strcmp (some directives) port)) 81)
      else item_of (stringmap_find strcmp (some directives) port)))
    × ((stringmap_insert strcmp (some directives) port 81).1
        ≡ item_of (stringmap_find strcmp (some directives) port))
stringmap_find-insert_example = stringmap_find-insert strcmp strcmp-IsStrcmp directives port port 81

abbrev pair : Vector ℕ
pair = record { items = 1 ∷ 2 ∷ []; n = 2 }

abbrev lone : Vector ℕ
lone = record { items = 1 ∷ []; n = 16 }
