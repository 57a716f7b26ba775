-- ===== src/Edline.antt =====
-- edline.c: the text that is edited on a line of the screen, key by key. What is drawn is left out, and
-- so is the beep; `isprint` and `isspace`, which depend on the locale, are arguments.
pub mod Cursor
pub mod Zipper
pub mod Words
pub mod Refine
use iftop_dotqoo.Prelude.{
  Bool, List, Option, [], drop, get_or, if◌then◌else◌, length, ltb, none, not, some, suc, take,
  zero, ℕ, ◌&&◌, ◌*◌, ◌++◌, ◌+◌, ◌-◌, ◌==◌, ◌∷◌,
}
use iftop_dotqoo.Text.{Text}

-- What `getch` returns, by the case that takes it; KEY_ENTER and the carriage return are `enter`, and
-- escape and ^G are `cancel`.
pub data Key : Type 0 where
  kill_line left right home end_line delete backspace kill_word no_key enter cancel : Key
  char : ℕ → Key

-- The text without its zero, the cursor, and the size of the block that holds the text.
pub record Line : Type 0 where
  pub str : Text
  pub pos : ℕ
  pub slen : ℕ

unfoldable pub first_line : Option Text → Line
first_line none = record { str = []; pos = 0; slen = 256 }
first_line (some initial) = record {
  str = initial;
  pos = length initial;
  slen = length initial * 2 + 1;
}

-- The loops of ^W; the character behind the text is its zero.
unfoldable pub skip_spaces : (ℕ → Bool) → Text → ℕ → ℕ
skip_spaces isspace str zero = 0
skip_spaces isspace str (suc i) =
    let further = skip_spaces isspace str i in
    if isspace (get_or str (suc i) 0) then further else suc i

unfoldable pub skip_word : (ℕ → Bool) → Text → ℕ → ℕ
skip_word isspace str zero = 0
skip_word isspace str (suc i) =
    let further = skip_word isspace str i in
    if isspace (get_or str (suc i) 0) then suc i else further

abbrev remove : ℕ → ℕ → Text → Text
remove i j str = take i str ++ drop j str

unfoldable pub type_char : ℕ → Line → Line
type_char c l = record {
  str = take l.pos l.str ++ c ∷ drop l.pos l.str;
  pos = l.pos + 1;
  slen = if length l.str == l.slen - 1 then l.slen * 2 else l.slen;
}

module _ (isprint isspace : ℕ → Bool) where
  unfoldable pub edit : Key → Line → Line
  unfolding skip_spaces skip_word type_char
  edit kill_line l = record l { str = []; pos = 0 }
  edit left l = record l { pos = if l.pos == 0 then 0 else l.pos - 1 }
  edit right l = record l {
    pos = if ltb (length l.str) (l.pos + 1) then length l.str else l.pos + 1;
  }
  edit home l = record l { pos = 0 }
  edit end_line l = record l { pos = length l.str }
  edit delete l =
      if l.pos == length l.str then l else record l { str = remove l.pos (l.pos + 1) l.str }
  edit backspace l =
      if l.pos == 0 then l else record l { str = remove (l.pos - 1) l.pos l.str; pos = l.pos - 1 }
  edit kill_word l =
      let i = skip_word isspace l.str (skip_spaces isspace l.str l.pos) in
      if i == l.pos then l else record l { str = remove i l.pos l.str; pos = i }
  edit no_key l = l
  edit enter l = l
  edit cancel l = l
  edit (char c) l = if isprint c && not (c == b'\t') then type_char c l else l

-- What the function returns, or the line if it waits for more keys.
pub data Edited : Type 0 where
  waits : Line → Edited
  accepts : Text → Edited
  gives_up : Edited

module _ (isprint isspace : ℕ → Bool) where
  unfoldable pub key_loop : List Key → Line → Edited
  unfolding edit
  key_loop [] l = waits l
  key_loop (enter ∷ keys) l = accepts (edit isprint isspace enter l).str
  key_loop (cancel ∷ keys) l = gives_up
  key_loop (key ∷ keys) l = key_loop keys (edit isprint isspace key l)

  unfoldable pub edline : Option Text → List Key → Edited
  unfolding key_loop first_line
  edline initial keys = key_loop keys (first_line initial)
