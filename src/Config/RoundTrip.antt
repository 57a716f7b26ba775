-- ===== src/Config/RoundTrip.antt =====
-- A file that is written line by line, `key: value`, is read back by `read_config_file` of cfgfile.c.
use iftop_dotqoo.Prelude.{
  All, Bool-cases, List, Option, Option-cases, [], arith, if◌then◌else◌, inl, inr, none, or_else,
  or_else-none, refl, some, sym, true, ◌++◌, ◌∙◌, ◌∷◌, ◌≡◌,
}
use iftop_dotqoo.StringMap.{Tree, insert_loop, nil, stringmap_insert}
use iftop_dotqoo.Text.{Text, equal, strcmp, strcmp-IsStrcmp}
use iftop_dotqoo.Config.{
  config_directives, config_get_string, config_init, continued, is_cfgdirective_valid,
  read_config_file, read_line, read_lines,
}
use iftop_dotqoo.Config.Lines.{
  IsValue, all_in_name-IsName, directive_loop-is_key, directives-is_key, ends_with-line_of, is_key,
  line_of, parse_line-line_of, strip_newlines-line_of,
}
use iftop_dotqoo.Config.Precedence.{config_get_string-insert}

-- A file with a line for each of some directives, known ones with values that survive.
unfoldable pub file_of : List (Text × Text) → List Text
unfolding line_of
file_of [] = []
file_of ((k, v) ∷ directives) = (line_of k v ++ b'\n' ∷ []) ∷ file_of directives

abbrev pub IsDirective : Text × Text → Type 0
IsDirective (k, v) = (is_cfgdirective_valid k ≡ true) × IsValue v

-- The first value of a directive.
abbrev pub first_value : List (Text × Text) → Text → Option Text
first_value [] q = none
first_value ((k, v) ∷ directives) q = if equal q k then some v else first_value directives q

pub valid-is_key : (k : Text) → is_cfgdirective_valid k ≡ true → is_key k ≡ true
unfolding is_cfgdirective_valid
valid-is_key k h = directive_loop-is_key config_directives k directives-is_key h

-- One line of the file.
read_lines-line_of :
    (k v : Text) (lines : List Text) (t : Tree Text Text)
    → is_cfgdirective_valid k ≡ true
    → IsValue v
    → read_lines none ((line_of k v ++ b'\n' ∷ []) ∷ lines) (some t)
      ≡ read_lines none lines (stringmap_insert strcmp (some t) k v).0
unfolding read_lines continued
read_lines-line_of [] v lines t known value =
    absurd (let h = valid-is_key [] known in ground (arith, h))
read_lines-line_of (c ∷ k) v lines t known value =
    let name = all_in_name-IsName (c ∷ k) (valid-is_key (c ∷ k) known) in
    rw (strip_newlines-line_of c k v name value, ends_with-line_of c k v name value)
      (rw (read_line, parse_line-line_of c k v name value, known))

pub insert-some :
    (t : Tree Text Text) (k v : Text)
    → (t' : Tree Text Text) × ((stringmap_insert strcmp (some t) k v).0 ≡ some t')
unfolding stringmap_insert
insert-some t k v = ((insert_loop strcmp t k v).0, refl)

-- The value that an insertion leaves, in front of those of the lines after it.
first_value-insert :
    (t : Tree Text Text) (k v q : Text) (later : Option Text)
    → or_else (config_get_string (stringmap_insert strcmp (some t) k v).0 q) later
      ≡ or_else (config_get_string (some t) q) (if equal q k then some v else later)
first_value-insert t k v q later = elim (Bool-cases (equal q k)) [
  | inl same ↦
      let here : q ≡ k = (strcmp-IsStrcmp.zero_iff q k).0 same in
      rw (config_get_string-insert t k q v, same, here)
        (elim (Option-cases (config_get_string (some t) k)) [
          | inl absent ↦ rw absent
          | inr (old, found) ↦ rw found
        ])
  | inr apart ↦ rw (config_get_string-insert t k q v, apart)
]

read_lines-file_of :
    (directives : List (Text × Text)) (t : Tree Text Text) (q : Text)
    → All IsDirective directives
    → config_get_string (read_lines none (file_of directives) (some t)) q
      ≡ or_else (config_get_string (some t) q) (first_value directives q)
unfolding file_of
read_lines-file_of [] t q h = unfold read_lines in sym (or_else-none (config_get_string (some t) q))
read_lines-file_of ((k, v) ∷ directives) t q h =
    let (t', e) = insert-some t k v in
    rw (read_lines-line_of k v (file_of directives) t h.0.0 h.0.1, e)
      (read_lines-file_of directives t' q h.1
        ∙ rw (← e) (first_value-insert t k v q (first_value directives q)))

-- A new configuration that reads the lines of some directives has for each directive the first value
-- that the lines give it, and no value where they give none. The directives are known ones, and the
-- values have no comment, line end, outer blank or final backslash.
pub read_config_file-file_of :
    (directives : List (Text × Text)) (q : Text)
    → All IsDirective directives
    → config_get_string (read_config_file (some (file_of directives)) config_init).0 q
      ≡ first_value directives q
unfolding read_config_file config_init
read_config_file-file_of directives q h =
    read_lines-file_of directives nil q h ∙ (unfold config_get_string in refl)
