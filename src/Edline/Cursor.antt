-- ===== src/Edline/Cursor.antt =====
-- The line of edline.c as the text in front of the cursor and the text behind it.
use iftop_dotqoo.Prelude.{
  Bool, Bool-cases, Option, [], arith, drop, inl, inr, length, length-append, none, not, refl, some,
  suc, take, zero, ℕ, ◌&&◌, ◌++◌, ◌+◌, ◌-◌, ◌<◌, ◌==◌, ◌∷◌, ◌≡◌, ◌≤◌,
}
use iftop_dotqoo.Text.{Text}
use iftop_dotqoo.Edline.{
  Key, Line, backspace, cancel, char, delete, edit, end_line, enter, first_line, home, kill_line,
  kill_word, left, no_key, right, skip_spaces, skip_word, type_char,
}

-- The cursor is in the text, and the block holds the text and its zero.
pub record IsLine (l : Line) : Type 0 where
  pub in_text : l.pos ≤ length l.str
  pub room : length l.str < l.slen

pub first_line-IsLine : (initial : Option Text) → IsLine (first_line initial)
unfolding first_line
first_line-IsLine none = record { in_text = omega arith; room = omega arith }
first_line-IsLine (some initial) = record { in_text = omega arith; room = omega arith }

skip_spaces_le : (isspace : ℕ → Bool) (str : Text) (i : ℕ) → skip_spaces isspace str i ≤ i
unfolding skip_spaces
skip_spaces_le isspace str zero = omega arith
skip_spaces_le isspace str (suc i) = let rest = skip_spaces_le isspace str i in ground (arith, rest)

skip_word_le : (isspace : ℕ → Bool) (str : Text) (i : ℕ) → skip_word isspace str i ≤ i
unfolding skip_word
skip_word_le isspace str zero = omega arith
skip_word_le isspace str (suc i) = let rest = skip_word_le isspace str i in ground (arith, rest)

length-drop : (j : ℕ) (str : Text) → length (drop j str) ≡ length str - j
length-drop zero str = omega arith
length-drop (suc j) [] = omega arith
length-drop (suc j) (c ∷ str) = omega (arith, length-drop j str)

length-take : (i : ℕ) (str : Text) → i ≤ length str → length (take i str) ≡ i
length-take zero str h = refl
length-take (suc i) [] h = absurd (omega arith)
length-take (suc i) (c ∷ str) h = omega (arith, length-take i str (omega arith))

length-cut :
    (i j : ℕ) (str : Text)
    → i ≤ j
    → j ≤ length str
    → length (take i str ++ drop j str) ≡ i + (length str - j)
length-cut i j str h k = omega (
  arith,
  length-append (take i str) (drop j str),
  length-take i str (omega arith),
  length-drop j str,
)

length-type :
    (i c : ℕ) (str : Text)
    → i ≤ length str
    → length (take i str ++ c ∷ drop i str) ≡ suc (length str)
length-type i c str h =
    omega
      (arith, length-append (take i str) (c ∷ drop i str), length-take i str h, length-drop i str)

-- A part of the text is taken out, from `i` to `j`.
cut-IsLine :
    (i j : ℕ) (l : Line)
    → IsLine l
    → i ≤ j
    → j ≤ length l.str
    → IsLine (record l { str = take i l.str ++ drop j l.str; pos = i })
cut-IsLine i j l v h k =
    let size = length-cut i j l.str h k in
    let room = v.room in record { in_text = omega (arith, size); room = omega (arith, size, room) }

type_char-IsLine : (c : ℕ) (l : Line) → IsLine l → IsLine (type_char c l)
unfolding type_char
type_char-IsLine c l v =
    let size = length-type l.pos c l.str v.in_text in
    let room = v.room in
    let inside = v.in_text in
    record { in_text = omega (arith, size, inside); room = ground (arith, size, room) }

module _ (isprint isspace : ℕ → Bool) where
  -- Every key keeps the cursor in the text, and the text in its block.
  pub edit-IsLine : (key : Key) (l : Line) → IsLine l → IsLine (edit isprint isspace key l)
  unfolding edit
  edit-IsLine kill_line l v =
      let room = v.room in record { in_text = omega arith; room = omega (arith, room) }
  edit-IsLine left l v =
      let inside = v.in_text in record { in_text = ground (arith, inside); room = v.room }
  edit-IsLine right l v = record { in_text = ground arith; room = v.room }
  edit-IsLine home l v = record { in_text = omega arith; room = v.room }
  edit-IsLine end_line l v = record { in_text = omega arith; room = v.room }
  edit-IsLine delete l v =
      let inside = v.in_text in
      elim (Bool-cases (l.pos == length l.str)) [
        | inl end ↦ rw end v
        | inr before ↦
            rw before
              (cut-IsLine l.pos (l.pos + 1) l v (omega arith) (ground (arith, before, inside)))
      ]
  edit-IsLine backspace l v =
      let inside = v.in_text in
      elim (Bool-cases (l.pos == 0)) [
        | inl start ↦ rw start v
        | inr behind ↦ rw behind (cut-IsLine (l.pos - 1) l.pos l v (omega arith) inside)
      ]
  edit-IsLine kill_word l v =
      let i = skip_word isspace l.str (skip_spaces isspace l.str l.pos) in
      let first = skip_spaces_le isspace l.str l.pos in
      let second = skip_word_le isspace l.str (skip_spaces isspace l.str l.pos) in
      elim (Bool-cases (i == l.pos)) [
        | inl here ↦ rw here v
        | inr apart ↦ rw apart (cut-IsLine i l.pos l v (omega (arith, first, second)) v.in_text)
      ]
  edit-IsLine no_key l v = v
  edit-IsLine enter l v = v
  edit-IsLine cancel l v = v
  edit-IsLine (char c) l v = elim (Bool-cases (isprint c && not (c == b'\t'))) [
    | inl printed ↦ rw printed (type_char-IsLine c l v)
    | inr other ↦ rw other v
  ]
