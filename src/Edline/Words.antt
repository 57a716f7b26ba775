-- ===== src/Edline/Words.antt =====
-- The text around the cursor of edline.c after a cut, and where ^W stops.
use iftop_dotqoo.Prelude.{
  Bool, Bool-cases, [], ap, arith, drop, get_or, inl, inr, length, refl, suc, sym, take, zero, ℕ,
  ◌++◌, ◌+◌, ◌∙◌, ◌∷◌, ◌≡◌,
}
use iftop_dotqoo.Text.{Text}
use iftop_dotqoo.Edline.{skip_spaces, skip_word}
use iftop_dotqoo.Edline.Zipper.{
  at_cursor, drop-unwind, get_or-unwind, over_spaces, over_word, take-unwind, unwind,
}

pub cut_text :
    (b a rest : Text) (i j k : ℕ)
    → i ≡ length b
    → j ≡ length b + k
    → drop k a ≡ rest
    → take i (unwind b a) ++ drop j (unwind b a) ≡ unwind b rest
cut_text b a rest i j k e f g =
    take-unwind b a (drop j (unwind b a)) i 0 (omega (arith, e))
    ∙ ap (unwind b) (drop-unwind b a j k f ∙ g)

pub cut_char :
    (b a : Text) (c : ℕ)
    → take (length b) (unwind b a) ++ c ∷ drop (length b) (unwind b a) ≡ unwind b (c ∷ a)
cut_char b a c =
    take-unwind b a (c ∷ drop (length b) (unwind b a)) (length b) 0 (omega arith)
    ∙ ap (λ s. unwind b (c ∷ s)) (drop-unwind b a (length b) 0 (omega arith))

cursor_char : (a : Text) → get_or a 0 0 ≡ at_cursor a
cursor_char [] = refl
cursor_char (c ∷ a) = refl

under_cursor : (c : ℕ) (b a : Text) → get_or (unwind b (c ∷ a)) (suc (length b)) 0 ≡ at_cursor a
under_cursor c b a = get_or-unwind b (c ∷ a) (suc (length b)) 1 (omega arith) ∙ cursor_char a

module _ (isspace : ℕ → Bool) where
  skip_spaces-over :
      (b a : Text)
      → (skip_spaces isspace (unwind b a) (length b) ≡ length (over_spaces isspace b a).0)
        × (unwind (over_spaces isspace b a).0 (over_spaces isspace b a).1 ≡ unwind b a)
  unfolding skip_spaces over_spaces unwind
  skip_spaces-over [] a = (refl, refl)
  skip_spaces-over (c ∷ b) a = elim (Bool-cases (isspace (at_cursor a))) [
    | inl space ↦ rw (under_cursor c b a, space) (skip_spaces-over b (c ∷ a))
    | inr letter ↦ rw (under_cursor c b a, letter) (refl, refl)
  ]

  skip_word-over :
      (b a : Text)
      → (skip_word isspace (unwind b a) (length b) ≡ length (over_word isspace b a).0)
        × (unwind (over_word isspace b a).0 (over_word isspace b a).1 ≡ unwind b a)
  unfolding skip_word over_word unwind
  skip_word-over [] a = (refl, refl)
  skip_word-over (c ∷ b) a = elim (Bool-cases (isspace (at_cursor a))) [
    | inl space ↦ rw (under_cursor c b a, space) (refl, refl)
    | inr letter ↦ rw (under_cursor c b a, letter) (skip_word-over b (c ∷ a))
  ]

  -- Where ^W stops, in front of the word.
  pub killed-over :
      (b a : Text)
      → let (b1, a1) = over_spaces isspace b a in
        let (b2, a2) = over_word isspace b1 a1 in
        (skip_word isspace (unwind b a) (skip_spaces isspace (unwind b a) (length b)) ≡ length b2)
        × (unwind b2 a2 ≡ unwind b a)
  killed-over b a =
      let (b1, a1) = over_spaces isspace b a in
      let (stop, same) = skip_spaces-over b a in
      let (stop', same') = skip_word-over b1 a1 in
      (
        ap (skip_word isspace (unwind b a)) stop
            ∙ ap (λ s. skip_word isspace s (length b1)) (sym same)
            ∙ stop',
        same' ∙ same,
      )

pub take-drop : (n : ℕ) (s : Text) → take n s ++ drop n s ≡ s
take-drop zero s = refl
take-drop (suc n) [] = refl
take-drop (suc n) (c ∷ s) = ap (λ t. c ∷ t) (take-drop n s)

-- The text up to a place in front of the cursor, and the text behind the cursor.
pub killed_text :
    (b a b2 a2 : Text)
    → unwind b2 a2 ≡ unwind b a
    → take (length b2) (unwind b a) ++ drop (length b) (unwind b a) ≡ unwind b2 a
killed_text b a b2 a2 same =
    rw (drop-unwind b a (length b) 0 (omega arith), ← same)
      (take-unwind b2 a2 a (length b2) 0 (omega arith))
