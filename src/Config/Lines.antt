-- ===== src/Config/Lines.antt =====
-- A line `key: value` as `read_config_file` of cfgfile.c takes it apart.
use iftop_dotqoo.Prelude.{
  ==_iff, All, All-append, Bool, Bool-cases, List, [], ap, arith, false, inl, inr, not, refl, some,
  true, ℕ, ◌&&◌, ◌++◌, ◌==◌, ◌∙◌, ◌∷◌, ◌≡◌,
}
use iftop_dotqoo.Text.{
  All-map, Text, drop_while, equal, is_blank, strchr, strcmp-IsStrcmp, take_while, take_while-All,
}
use iftop_dotqoo.Config.{
  config_directives, directive_loop, drop_blanks, drop_newlines, ends_key, ends_line, ends_with,
  parse_line, strip_newlines,
}

-- A value that survives: it has no comment and no line end, no blanks around it, and no backslash
-- at its end.
pub record IsValue (v : Text) : Type 0 where
  pub plain : All (λ c. ends_line c ≡ false) v
  pub front : drop_while is_blank v ≡ v
  pub back : drop_blanks v ≡ v
  pub open_end : ends_with b'\\' v ≡ false

-- The characters of a name: no blank, no colon, no end of a line.
abbrev pub in_name : ℕ → Bool
in_name c = not (ends_key c) && not (ends_line c)

abbrev pub IsName : Text → Type 0
IsName k = All (λ c. in_name c ≡ true) k

unfoldable pub line_of : Text → Text → Text
line_of k v = k ++ (b':' ∷ b' ' ∷ v)

drop_newlines-plain :
    (s : Text) → All (λ c. ends_line c ≡ false) s → drop_newlines (s ++ b'\n' ∷ []) ≡ s
unfolding drop_newlines
drop_newlines-plain [] h = refl
drop_newlines-plain (c ∷ []) h = let other = h.0 in ground (arith, other)
drop_newlines-plain (c ∷ b ∷ s) h = rw (drop_newlines, drop_newlines-plain (b ∷ s) h.1)

ends_with-append : (x : ℕ) (s v : Text) (c : ℕ) → ends_with x (s ++ c ∷ v) ≡ ends_with x (c ∷ v)
unfolding ends_with
ends_with-append x [] v c = refl
ends_with-append x (a ∷ []) v c = refl
ends_with-append x (a ∷ b ∷ s) v c = ends_with-append x (b ∷ s) v c

take_while-stop :
    (accept : ℕ → Bool) (s v : Text) (c : ℕ)
    → All (λ a. accept a ≡ true) s
    → accept c ≡ false
    → take_while accept (s ++ c ∷ v) ≡ s
unfolding take_while
take_while-stop accept [] v c h stop = rw stop
take_while-stop accept (a ∷ s) v c h stop =
    rw (h.0) (ap (λ l. a ∷ l) (take_while-stop accept s v c h.1 stop))

pub strchr-append :
    (s v : Text) (c : ℕ) → All (λ a. (a == c) ≡ false) s → strchr (s ++ c ∷ v) c ≡ some (s, v)
unfolding strchr
strchr-append [] v c h = rw ((==_iff c c).1 refl)
strchr-append (a ∷ s) v c h = rw (h.0, strchr-append s v c h.1)

ends_with-separator :
    (v : Text) → ends_with b'\\' v ≡ false → ends_with b'\\' (b':' ∷ b' ' ∷ v) ≡ false
unfolding ends_with
ends_with-separator [] h = refl
ends_with-separator (a ∷ v) h = h

drop_while-first : (c : ℕ) (s : Text) → is_blank c ≡ false → drop_while is_blank (c ∷ s) ≡ c ∷ s
unfolding drop_while
drop_while-first c s h = rw h

drop_while-space : (s : Text) → drop_while is_blank (b' ' ∷ s) ≡ drop_while is_blank s
unfolding drop_while
drop_while-space s = refl

-- The pieces of a line.
module _ (c : ℕ) (k v : Text) (name : IsName (c ∷ k)) (value : IsValue v) where
  pub line_plain : All (λ a. ends_line a ≡ false) (line_of (c ∷ k) v)
  unfolding line_of
  line_plain =
      All-append (λ a. ends_line a ≡ false) (c ∷ k) (b':' ∷ b' ' ∷ v)
        (All-map in_name ends_line true false (c ∷ k) (λ a h. ground (arith, h)) name)
        (refl, (refl, value.plain))

  pub strip_newlines-line_of : strip_newlines (line_of (c ∷ k) v ++ b'\n' ∷ []) ≡ line_of (c ∷ k) v
  unfolding strip_newlines line_of
  strip_newlines-line_of =
      ap (λ l. c ∷ l)
        (drop_newlines-plain (k ++ (b':' ∷ b' ' ∷ v)) (unfold line_of in line_plain.1))

  pub ends_with-line_of : ends_with b'\\' (line_of (c ∷ k) v) ≡ false
  unfolding line_of
  ends_with-line_of =
      ends_with-append b'\\' (c ∷ k) (b' ' ∷ v) b':' ∙ ends_with-separator v value.open_end

  pub parse_line-line_of : parse_line (line_of (c ∷ k) v) ≡ some (c ∷ k, v)
  unfolding parse_line
  parse_line-line_of =
      let first : is_blank c ≡ false = let h = name.0 in ground (arith, h) in
      let whole =
        take_while-All (λ a. not (ends_line a)) (line_of (c ∷ k) v)
          (All-map ends_line (λ a. not (ends_line a)) false true (line_of (c ∷ k) v) (λ a h. rw h)
            line_plain) in
      let key =
        take_while-stop (λ a. not (ends_key a)) (c ∷ k) (b' ' ∷ v) b':'
          (All-map in_name (λ a. not (ends_key a)) true true (c ∷ k) (λ a h. ground (arith, h))
            name)
          refl in
      let colon =
        strchr-append (c ∷ k) (b' ' ∷ v) b':'
          (All-map in_name (λ a. a == b':') true false (c ∷ k) (λ a h. ground (arith, h)) name) in
      let key' : take_while (λ a. not (ends_key a)) (drop_while is_blank (line_of (c ∷ k) v))
          ≡ c ∷ k =
        unfold line_of in rw (drop_while-first c (k ++ (b':' ∷ b' ' ∷ v)) first, key) in
      let colon' : strchr (line_of (c ∷ k) v) b':' ≡ some (c ∷ k, b' ' ∷ v) =
        unfold line_of in colon in
      rw (parse_line, whole, colon')
        (rw (whole, key') (rw (drop_while-space v, value.front, value.back)))

-- The names of the directives are names.
abbrev pub all_in_name : Text → Bool
all_in_name [] = true
all_in_name (c ∷ s) = in_name c && all_in_name s

pub all_in_name-IsName : (s : Text) → all_in_name s ≡ true → IsName s
all_in_name-IsName [] h = tt
all_in_name-IsName (c ∷ s) h =
    let here : in_name c ≡ true = ground (arith, h) in
    let there : all_in_name s ≡ true = ground (arith, h) in (here, all_in_name-IsName s there)

abbrev pub is_key : Text → Bool
is_key [] = false
is_key (c ∷ s) = all_in_name (c ∷ s)

pub directives-is_key : All (λ d. is_key d ≡ true) config_directives
directives-is_key = (
  refl,
  (
    refl,
    (
      refl,
      (
        refl,
        (
          refl,
          (
            refl,
            (
              refl,
              (
                refl,
                (
                  refl,
                  (
                    refl,
                    (
                      refl,
                      (
                        refl,
                        (refl, (refl, (refl, (refl, (refl, (refl, (refl, (refl, (refl, tt))))))))),
                      ),
                    ),
                  ),
                ),
              ),
            ),
          ),
        ),
      ),
    ),
  ),
)

pub directive_loop-is_key :
    (directives : List Text) (k : Text)
    → All (λ d. is_key d ≡ true) directives
    → directive_loop directives k ≡ true
    → is_key k ≡ true
unfolding directive_loop
directive_loop-is_key [] k h e = absurd (ground (arith, e))
directive_loop-is_key (d ∷ directives) k h e = elim (Bool-cases (equal k d)) [
  | inl same ↦ rw ((strcmp-IsStrcmp.zero_iff k d).0 same) h.0
  | inr apart ↦ directive_loop-is_key directives k h.1 (rw apart at e)
]
