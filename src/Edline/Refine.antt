-- ===== src/Edline/Refine.antt =====
-- The line of edline.c is edited as the two texts around the cursor are.
use iftop_dotqoo.Prelude.{
  ==_iff, Bool, Bool-cases, List, Option, [], ap, arith, drop, false, inl, inr, length, none, not,
  refl, some, suc, sym, take, true, ℕ, ◌&&◌, ◌*◌, ◌++◌, ◌+◌, ◌-◌, ◌==◌, ◌∙◌, ◌∷◌, ◌≡◌,
}
use iftop_dotqoo.Text.{Text}
use iftop_dotqoo.Edline.{
  Edited, Key, Line, accepts, backspace, cancel, char, delete, edit, edline, end_line, enter,
  first_line, gives_up, home, key_loop, kill_line, kill_word, left, no_key, right, type_char, waits,
}
use iftop_dotqoo.Edline.Zipper.{
  compose, length-turn, length-unwind, move, over_spaces, over_word, turn, unwind, unwind-turn,
}
use iftop_dotqoo.Edline.Words.{cut_char, cut_text, killed-over, killed_text, take-drop}

-- The line with the cursor between two texts, in a block of some size.
abbrev pub at : Text → Text → ℕ → Line
at b a slen = record { str = unwind b a; pos = length b; slen = slen }

line_eq :
    (s s' : Text) (p p' n : ℕ)
    → s ≡ s'
    → p ≡ p'
    → ◌≡◌ {A = Line}
        (record { str = s; pos = p; slen = n })
        (record { str = s'; pos = p'; slen = n })
line_eq s s' p p' n e f = λ i. record { str = e i; pos = f i; slen = n }

-- What the caller gets.
abbrev pub outcome : Edited → Option (Option Text)
outcome (waits l) = none
outcome (accepts s) = some (some s)
outcome gives_up = some none

abbrev pub text_of : Option Text → Text
text_of none = []
text_of (some s) = s

module _ (isprint isspace : ℕ → Bool) where
  -- One key.
  edit-at :
      (key : Key) (b a : Text) (n : ℕ)
      → (n' : ℕ) × (edit isprint isspace key (at b a n)
          ≡ at (move isprint isspace key b a).0 (move isprint isspace key b a).1 n')
  unfolding edit move type_char
  edit-at kill_line b a n = (n, refl)
  edit-at left [] a n = (n, refl)
  edit-at left (c ∷ b) a n = (n, line_eq _ _ _ _ n refl (ground arith))
  edit-at right b [] n =
      let size = length-unwind b [] in (n, line_eq _ _ _ _ n refl (ground (arith, size)))
  edit-at right b (c ∷ a) n =
      let size = length-unwind b (c ∷ a) in (n, line_eq _ _ _ _ n refl (ground (arith, size)))
  edit-at home b a n = (n, refl)
  edit-at end_line b a n =
      (n, line_eq _ _ _ _ n (sym (unwind-turn b a)) (length-unwind b a ∙ sym (length-turn b a)))
  edit-at delete b [] n =
      let size = length-unwind b [] in
      let last : (length b == length (unwind b [])) ≡ true = ground (arith, size) in (n, rw last)
  edit-at delete b (c ∷ a) n =
      let size = length-unwind b (c ∷ a) in
      let before : (length b == length (unwind b (c ∷ a))) ≡ false = ground (arith, size) in
      (
        n,
        rw before (
            line_eq _ _ _ _ n (cut_text b (c ∷ a) a (length b) (length b + 1) 1 refl refl refl)
              refl),
      )
  edit-at backspace [] a n = (n, refl)
  edit-at backspace (c ∷ b) a n =
      let behind : (suc (length b) == 0) ≡ false = ground arith in
      (
        n,
        rw behind (
            line_eq _ _ _ _ n
              (cut_text b (c ∷ a) a (suc (length b) - 1) (suc (length b)) 1 (omega arith)
                (omega arith) refl)
              (omega arith)),
      )
  edit-at kill_word b a n =
      let (b1, a1) = over_spaces isspace b a in
      let (b2, a2) = over_word isspace b1 a1 in
      let (stop, same) = killed-over isspace b a in
      let text = killed_text b a b2 a2 same in
      elim (Bool-cases (length b2 == length b)) [
        | inl here ↦
            let level : length b2 ≡ length b = (==_iff (length b2) (length b)).0 here in
            (
              n,
              rw (stop, here)
                  (line_eq _ _ _ _ n
                    (sym (take-drop (length b) (unwind b a))
                      ∙ ap (λ i. take i (unwind b a) ++ drop (length b) (unwind b a)) (sym level)
                      ∙ text)
                    (sym level)),
            )
        | inr apart ↦ (n, rw (stop, apart) (line_eq _ _ _ _ n text refl))
      ]
  edit-at no_key b a n = (n, refl)
  edit-at enter b a n = (n, refl)
  edit-at cancel b a n = (n, refl)
  edit-at (char c) b a n = elim (Bool-cases (isprint c && not (c == b'\t'))) [
    | inl printed ↦ (
      (type_char c (at b a n)).slen,
      rw printed (line_eq _ _ _ _ (type_char c (at b a n)).slen (cut_char b a c) (omega arith)),
    )
    | inr other ↦ (n, rw other)
  ]

  turned :
      (key : Key) (keys : List Key) (b a : Text) (n : ℕ)
      → ((b a : Text) (n : ℕ)
          → outcome (key_loop isprint isspace keys (at b a n)) ≡ compose isprint isspace keys b a)
      → outcome (key_loop isprint isspace keys (edit isprint isspace key (at b a n)))
        ≡ compose isprint isspace keys
            (move isprint isspace key b a).0
            (move isprint isspace key b a).1
  turned key keys b a n rest =
      let (n', e) = edit-at key b a n in
      let (b', a') = move isprint isspace key b a in rw e (rest b' a' n')

  key_loop-compose :
      (keys : List Key) (b a : Text) (n : ℕ)
      → outcome (key_loop isprint isspace keys (at b a n)) ≡ compose isprint isspace keys b a
  unfolding key_loop compose
  key_loop-compose [] b a n = refl
  key_loop-compose (enter ∷ keys) b a n = unfold edit in refl
  key_loop-compose (cancel ∷ keys) b a n = refl
  key_loop-compose (kill_line ∷ keys) b a n = turned kill_line keys b a n (key_loop-compose keys)
  key_loop-compose (left ∷ keys) b a n = turned left keys b a n (key_loop-compose keys)
  key_loop-compose (right ∷ keys) b a n = turned right keys b a n (key_loop-compose keys)
  key_loop-compose (home ∷ keys) b a n = turned home keys b a n (key_loop-compose keys)
  key_loop-compose (end_line ∷ keys) b a n = turned end_line keys b a n (key_loop-compose keys)
  key_loop-compose (delete ∷ keys) b a n = turned delete keys b a n (key_loop-compose keys)
  key_loop-compose (backspace ∷ keys) b a n = turned backspace keys b a n (key_loop-compose keys)
  key_loop-compose (kill_word ∷ keys) b a n = turned kill_word keys b a n (key_loop-compose keys)
  key_loop-compose (no_key ∷ keys) b a n = turned no_key keys b a n (key_loop-compose keys)
  key_loop-compose ((char c) ∷ keys) b a n = turned (char c) keys b a n (key_loop-compose keys)

  first_line-at :
      (initial : Option Text) → (n : ℕ) × (first_line initial ≡ at (turn [] (text_of initial)) [] n)
  unfolding first_line
  first_line-at none = (256, unfold unwind in unfold turn in refl)
  first_line-at (some s) =
      let size = length-turn [] s in
      (
        length s * 2 + 1,
        line_eq _ _ _ _ (length s * 2 + 1) (sym (unwind-turn [] s ∙ (unfold unwind in refl)))
            (omega (arith, size)),
      )

  -- Whatever keys are pressed, the line that starts with some text ends as the two texts around the
  -- cursor do, with the cursor behind the text at first.
  pub edline-compose :
      (initial : Option Text) (keys : List Key)
      → outcome (edline isprint isspace initial keys)
        ≡ compose isprint isspace keys (turn [] (text_of initial)) []
  unfolding edline
  edline-compose initial keys =
      let (n, e) = first_line-at initial in
      rw e (key_loop-compose keys (turn [] (text_of initial)) [] n)
