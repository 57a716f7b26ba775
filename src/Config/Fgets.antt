-- ===== src/Config/Fgets.antt =====
-- The text of a configuration file, which `read_config_file` of cfgfile.c reads by pieces of at most
-- MAX_CONFIG_LINE - 1 characters.
use iftop_dotqoo.Prelude.{
  All, List, [], ap, arith, false, length, length-append, refl, some, suc, zero, ℕ, ◌++◌, ◌-◌, ◌<◌,
  ◌==◌, ◌∙◌, ◌∷◌, ◌≡◌, ◌≤◌,
}
use iftop_dotqoo.Text.{All-map, Text}
use iftop_dotqoo.Config.{
  config_get_string, config_init, ends_line, fgets, fgets_all, max_config_line, read_config_file,
}
use iftop_dotqoo.Config.Lines.{all_in_name-IsName, line_of, line_plain}
use iftop_dotqoo.Config.RoundTrip.{
  IsDirective, file_of, first_value, read_config_file-file_of, valid-is_key,
}

-- The lines of some directives, one behind the other.
unfoldable pub text_of : List (Text × Text) → Text
text_of [] = []
text_of ((k, v) ∷ directives) = line_of k v ++ (b'\n' ∷ text_of directives)

-- The line and its end fit the buffer.
abbrev pub IsShort : Text × Text → Type 0
IsShort (k, v) = length (line_of k v) < max_config_line - 1

fgets-line :
    (n : ℕ) (line rest : Text)
    → All (λ c. (c == b'\n') ≡ false) line
    → length line < n
    → fgets n (line ++ (b'\n' ∷ rest)) ≡ (line ++ (b'\n' ∷ []), rest)
unfolding fgets
fgets-line zero line rest plain short = absurd (omega arith)
fgets-line (suc n) [] rest plain short = refl
fgets-line (suc n) (c ∷ line) rest plain short =
    rw (plain.0, fgets-line n line rest plain.1 (omega arith)) refl

fgets_all-fgets :
    (fuel c : ℕ) (s line rest : Text)
    → fgets (max_config_line - 1) (c ∷ s) ≡ (line, rest)
    → fgets_all (suc fuel) (c ∷ s) ≡ line ∷ fgets_all fuel rest
unfolding fgets_all
fgets_all-fgets fuel c s line rest e = ap (λ (p : Text × Text). p.0 ∷ fgets_all fuel p.1) e

-- The first line of the text.
first_line :
    (fuel c : ℕ) (k v rest : Text)
    → IsDirective (c ∷ k, v)
    → IsShort (c ∷ k, v)
    → fgets_all (suc fuel) (line_of (c ∷ k) v ++ (b'\n' ∷ rest))
      ≡ (line_of (c ∷ k) v ++ (b'\n' ∷ [])) ∷ fgets_all fuel rest
unfolding line_of
first_line fuel c k v rest (known, value) short =
    let name = all_in_name-IsName (c ∷ k) (valid-is_key (c ∷ k) known) in
    let plain : All (λ a. (a == b'\n') ≡ false) (line_of (c ∷ k) v) =
      All-map ends_line (λ a. a == b'\n') false false (line_of (c ∷ k) v) (λ a h. ground (arith, h))
        (line_plain c k v name value) in
    fgets_all-fgets fuel c ((k ++ (b':' ∷ b' ' ∷ v)) ++ (b'\n' ∷ rest))
      (line_of (c ∷ k) v ++ (b'\n' ∷ [])) rest
      (fgets-line (max_config_line - 1) (line_of (c ∷ k) v) rest plain short)

fgets_all-text_of :
    (fuel : ℕ) (directives : List (Text × Text))
    → All IsDirective directives
    → All IsShort directives
    → length (text_of directives) ≤ fuel
    → fgets_all fuel (text_of directives) ≡ file_of directives
unfolding text_of file_of
fgets_all-text_of zero [] known short enough = unfold fgets_all in refl
fgets_all-text_of (suc fuel) [] known short enough = unfold fgets_all in refl
fgets_all-text_of fuel (([], v) ∷ directives) known short enough =
    absurd (let h = valid-is_key [] known.0.0 in ground (arith, h))
fgets_all-text_of zero ((c ∷ k, v) ∷ directives) known short enough = absurd (omega arith)
fgets_all-text_of (suc fuel) ((c ∷ k, v) ∷ directives) known short enough =
    let room : length (text_of directives) ≤ fuel =
      omega (arith, enough, length-append (line_of (c ∷ k) v) (b'\n' ∷ text_of directives)) in
    first_line fuel c k v (text_of directives) known.0 short.0
    ∙ ap (λ l. (line_of (c ∷ k) v ++ (b'\n' ∷ [])) ∷ l)
        (fgets_all-text_of fuel directives known.1 short.1 room)

-- A new configuration that reads the text of the lines `key: value` of some directives has for each
-- directive the first value that the lines give it, and no value where they give none. The
-- directives are known ones, the values have no comment, line end, outer blank or final backslash,
-- and each line is shorter than 2047 characters.
pub read_config_file-text_of :
    (directives : List (Text × Text)) (q : Text)
    → All IsDirective directives
    → All IsShort directives
    → config_get_string
        (read_config_file
          (some (fgets_all (length (text_of directives)) (text_of directives)))
          config_init).0
        q
      ≡ first_value directives q
read_config_file-text_of directives q known short =
    rw (fgets_all-text_of (length (text_of directives)) directives known short (omega arith))
      (read_config_file-file_of directives q known)
