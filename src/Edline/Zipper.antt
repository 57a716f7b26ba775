-- ===== src/Edline/Zipper.antt =====
-- The editor that edline.c is meant to be: the text in front of the cursor, its last character first,
-- and the text behind the cursor.
use iftop_dotqoo.Prelude.{
  Bool, List, Option, [], arith, drop, get_or, if◌then◌else◌, length, none, not, refl, some, suc,
  take, ℕ, ◌&&◌, ◌++◌, ◌+◌, ◌==◌, ◌∷◌, ◌≡◌,
}
use iftop_dotqoo.Text.{Text}
use iftop_dotqoo.Edline.{
  Key, backspace, cancel, char, delete, end_line, enter, home, kill_line, kill_word, left, no_key,
  right,
}

-- The whole text.
unfoldable pub unwind : Text → Text → Text
unwind [] a = a
unwind (c ∷ b) a = unwind b (c ∷ a)

-- The cursor behind the text.
unfoldable pub turn : Text → Text → Text
turn b [] = b
turn b (c ∷ a) = turn (c ∷ b) a

abbrev pub at_cursor : Text → ℕ
at_cursor [] = 0
at_cursor (c ∷ a) = c

module _ (isspace : ℕ → Bool) where
  -- Back while there is a space under the cursor, and back to where there is one.
  unfoldable pub over_spaces : Text → Text → Text × Text
  over_spaces [] a = ([], a)
  over_spaces (c ∷ b) a =
      let further = over_spaces b (c ∷ a) in if isspace (at_cursor a) then further else (c ∷ b, a)

  unfoldable pub over_word : Text → Text → Text × Text
  over_word [] a = ([], a)
  over_word (c ∷ b) a =
      let further = over_word b (c ∷ a) in if isspace (at_cursor a) then (c ∷ b, a) else further

module _ (isprint isspace : ℕ → Bool) where
  unfoldable pub move : Key → Text → Text → Text × Text
  unfolding unwind turn over_spaces over_word
  move kill_line b a = ([], [])
  move left [] a = ([], a)
  move left (c ∷ b) a = (b, c ∷ a)
  move right b [] = (b, [])
  move right b (c ∷ a) = (c ∷ b, a)
  move home b a = ([], unwind b a)
  move end_line b a = (turn b a, [])
  move delete b [] = (b, [])
  move delete b (c ∷ a) = (b, a)
  move backspace [] a = ([], a)
  move backspace (c ∷ b) a = (b, a)
  move kill_word b a =
      let (b1, a1) = over_spaces isspace b a in let (b2, a2) = over_word isspace b1 a1 in (b2, a)
  move no_key b a = (b, a)
  move enter b a = (b, a)
  move cancel b a = (b, a)
  move (char c) b a = if isprint c && not (c == b'\t') then (c ∷ b, a) else (b, a)

  -- What a sequence of keys ends in: a text, or nothing; `none` waits for more keys.
  unfoldable pub compose : List Key → Text → Text → Option (Option Text)
  unfolding move
  compose [] b a = none
  compose (enter ∷ keys) b a = some (some (unwind b a))
  compose (cancel ∷ keys) b a = some none
  compose (key ∷ keys) b a = let (b', a') = move key b a in compose keys b' a'

pub length-unwind : (b a : Text) → length (unwind b a) ≡ length b + length a
unfolding unwind
length-unwind [] a = omega arith
length-unwind (c ∷ b) a = omega (arith, length-unwind b (c ∷ a))

pub length-turn : (b a : Text) → length (turn b a) ≡ length b + length a
unfolding turn
length-turn b [] = omega arith
length-turn b (c ∷ a) = omega (arith, length-turn (c ∷ b) a)

pub unwind-turn : (b a : Text) → unwind (turn b a) [] ≡ unwind b a
unfolding unwind turn
unwind-turn b [] = refl
unwind-turn b (c ∷ a) = unwind-turn (c ∷ b) a

pub take-unwind :
    (b a x : Text) (n k : ℕ)
    → n ≡ length b + k
    → take n (unwind b a) ++ x ≡ unwind b (take k a ++ x)
unfolding unwind
take-unwind [] a x n k e = let same : n ≡ k = omega (arith, e) in rw same
take-unwind (c ∷ b) a x n k e = take-unwind b (c ∷ a) x n (suc k) (omega (arith, e))

pub drop-unwind : (b a : Text) (n k : ℕ) → n ≡ length b + k → drop n (unwind b a) ≡ drop k a
unfolding unwind
drop-unwind [] a n k e = let same : n ≡ k = omega (arith, e) in rw same
drop-unwind (c ∷ b) a n k e = drop-unwind b (c ∷ a) n (suc k) (omega (arith, e))

pub get_or-unwind :
    (b a : Text) (n k : ℕ) → n ≡ length b + k → get_or (unwind b a) n 0 ≡ get_or a k 0
unfolding unwind
get_or-unwind [] a n k e = let same : n ≡ k = omega (arith, e) in rw same
get_or-unwind (c ∷ b) a n k e = get_or-unwind b (c ∷ a) n (suc k) (omega (arith, e))
