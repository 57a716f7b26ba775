-- ===== src/Config.antt =====
-- cfgfile.c: the directives of the configuration, in a string map under their names. A value is the
-- list of its characters; the map owns the copies, so that values can be shared here.
pub mod Precedence
pub mod Lines
pub mod RoundTrip
pub mod Alike
pub mod Fgets
use iftop_dotqoo.Prelude.{
  Bool, List, Option, [], false, if◌then◌else◌, none, not, some, suc, true, zero, ℕ, ◌++◌, ◌-◌,
  ◌==◌, ◌||◌, ◌∷◌,
}
use iftop_dotqoo.Prelude.Int.{ltb_ℤ, negsuc, pos, ℤ}
use iftop_dotqoo.StringMap.{
  StringMap, Tree, item_of, nil, node, stringmap_find, stringmap_insert, stringmap_new,
}
use iftop_dotqoo.Text.{Text, codes, drop_while, equal, is_blank, strchr, strcmp, take_while}
use mathlib.Core.Option

abbrev pub Config : Type 0
Config = StringMap Text Text

abbrev pub config_directives : List Text
config_directives =
    codes "interface"
    ∷ codes "dns-resolution"
    ∷ codes "port-resolution"
    ∷ codes "filter-code"
    ∷ codes "show-bars"
    ∷ codes "promiscuous"
    ∷ codes "hide-source"
    ∷ codes "hide-destination"
    ∷ codes "use-bytes"
    ∷ codes "sort"
    ∷ codes "line-display"
    ∷ codes "show-totals"
    ∷ codes "log-scale"
    ∷ codes "max-bandwidth"
    ∷ codes "net-filter"
    ∷ codes "net-filter6"
    ∷ codes "link-local"
    ∷ codes "port-display"
    ∷ codes "timed-output"
    ∷ codes "no-curses"
    ∷ codes "num-lines"
    ∷ []

unfoldable pub directive_loop : List Text → Text → Bool
directive_loop [] s = false
directive_loop (d ∷ directives) s =
    let rest = directive_loop directives s in if equal s d then true else rest

unfoldable pub is_cfgdirective_valid : Text → Bool
unfolding directive_loop
is_cfgdirective_valid s = directive_loop config_directives s

unfoldable pub config_init : Config
unfolding stringmap_new
config_init = stringmap_new

-- The characters without the newlines at the end, of which the first character is never one.
unfoldable pub drop_newlines : Text → Text
drop_newlines [] = []
drop_newlines (c ∷ s) =
    let rest = drop_newlines s in
    elim rest [ [] ↦ if c == b'\n' then [] else c ∷ [] | x ∷ xs ↦ c ∷ x ∷ xs ]

unfoldable pub strip_newlines : Text → Text
unfolding drop_newlines
strip_newlines [] = []
strip_newlines (c ∷ s) = c ∷ drop_newlines s

unfoldable pub ends_with : ℕ → Text → Bool
ends_with c [] = false
ends_with c (a ∷ []) = a == c
ends_with c (a ∷ b ∷ s) = ends_with c (b ∷ s)

unfoldable pub drop_last : Text → Text
drop_last [] = []
drop_last (a ∷ []) = []
drop_last (a ∷ b ∷ s) = a ∷ drop_last (b ∷ s)

unfoldable pub drop_blanks : Text → Text
drop_blanks [] = []
drop_blanks (c ∷ s) =
    let rest = drop_blanks s in
    elim rest [ [] ↦ if is_blank c then [] else c ∷ [] | x ∷ xs ↦ c ∷ x ∷ xs ]

abbrev pub ends_line : ℕ → Bool
ends_line c = c == b'#' || c == b'\n'

abbrev pub ends_key : ℕ → Bool
ends_key c = is_blank c || c == b':'

-- The key and the value of a line, where it has both.
unfoldable pub parse_line : Text → Option (Text × Text)
unfolding take_while drop_while strchr drop_blanks
parse_line line =
    let text = take_while (λ c. not (ends_line c)) line in
    let key = take_while (λ c. not (ends_key c)) (drop_while is_blank text) in
    elim (strchr text b':') [
      | none ↦ none
      | some (before, value) ↦ elim key [
        | [] ↦ none
        | c ∷ cs ↦ some (c ∷ cs, drop_blanks (drop_while is_blank value))
      ]
    ]

-- The first directive of a name stays.
unfoldable pub read_line : Text → Config → Config
unfolding parse_line is_cfgdirective_valid stringmap_insert
read_line line config = elim (parse_line line) [
  | none ↦ config
  | some (key, value) ↦
      if is_cfgdirective_valid key then (stringmap_insert strcmp config key value).0 else config
]

abbrev pub max_config_line : ℕ
max_config_line = 2048

-- `fgets` with room for `n` characters: what it reads, and what is left of the file.
unfoldable pub fgets : ℕ → Text → Text × Text
fgets zero s = ([], s)
fgets (suc n) [] = ([], [])
fgets (suc n) (c ∷ s) =
    let rest = fgets n s in if c == b'\n' then (c ∷ [], s) else (c ∷ rest.0, rest.1)

-- What the calls of `fgets` in the outer loop return, where no line goes on behind a backslash.
unfoldable pub fgets_all : ℕ → Text → List Text
unfolding fgets
fgets_all zero s = []
fgets_all (suc fuel) [] = []
fgets_all (suc fuel) (c ∷ s) =
    let (line, rest) = fgets (max_config_line - 1) (c ∷ s) in line ∷ fgets_all fuel rest

-- The line so far, with what the next call of `fgets` puts over the backslash at its end.
unfoldable pub continued : Option Text → Text → Text
unfolding drop_last
continued none line = line
continued (some line) next = drop_last line ++ next

-- The loop; the list holds what the calls of `fgets` return, none of them a text that starts with a
-- zero byte, in front of which the program would look for the backslash. The line so far ends in a backslash.
unfoldable pub read_lines : Option Text → List Text → Config → Config
unfolding continued strip_newlines read_line ends_with
read_lines none [] config = config
read_lines (some line) [] config = read_line line config
read_lines so_far (next ∷ lines) config =
    let line = strip_newlines (continued so_far next) in
    let more = ends_with b'\\' line in
    read_lines (if more then some line else none) lines
      (if more then config else read_line line config)

-- `none` is a file that cannot be opened; the result is the C function's.
unfoldable pub read_config_file : Option (List Text) → Config → Config × ℕ
unfolding read_lines
read_config_file none config = (config, 0)
read_config_file (some lines) config = (read_lines none lines config, 1)

unfoldable pub config_get_string : Config → Text → Option Text
unfolding stringmap_find
config_get_string config directive = item_of (stringmap_find strcmp config directive)

unfoldable pub config_get_bool : Config → Text → Bool
unfolding config_get_string
config_get_bool config directive = elim (config_get_string config directive) [
  | none ↦ false
  | some s ↦ equal s (codes "yes") || equal s (codes "true")
]

-- The status and the number, where one is stored. `strtol` gives the number, what is left of the
-- text, and whether the number is out of range.
unfoldable pub config_get_int : (Text → ℤ × Text × Bool) → Config → Text → ℤ × Option ℤ
unfolding config_get_string
config_get_int strtol config directive = elim (config_get_string config directive) [
  | none ↦ (pos 0, none)
  | some [] ↦ (negsuc 0, none)
  | some (c ∷ s) ↦
      let (value, t, erange) = strtol (c ∷ s) in
      (elim t [ [] ↦ if erange then negsuc 0 else pos 1 | x ∷ xs ↦ negsuc 0 ], some value)
]

-- The table of an enumeration, without the entry that ends it.
unfoldable pub enum_loop : List (Text × ℕ) → Text → Option ℕ
enum_loop [] s = none
enum_loop ((name, value) ∷ enumeration) s =
    let rest = enum_loop enumeration s in if equal s name then some value else rest

unfoldable pub config_get_enum : Config → Text → List (Text × ℕ) → Option ℕ
unfolding config_get_string enum_loop
config_get_enum config directive enumeration = elim (config_get_string config directive) [
  | none ↦ none
  | some s ↦ enum_loop enumeration s
]

-- A write to the item of the node that `stringmap_find` gave.
unfoldable pub set_item : Tree Text Text → Text → Text → Tree Text Text
set_item nil k s = nil
set_item (node key d l g) k s =
    let less = set_item l k s in
    let greater = set_item g k s in
    if equal k key
    then node key s l g
    else if ltb_ℤ (strcmp k key) (pos 0)
    then node key d less g
    else node key d l greater

unfoldable pub config_set_string : Config → Text → Text → Config
unfolding config_get_string set_item stringmap_insert
config_set_string config directive s = elim (config_get_string config directive) [
  | none ↦ (stringmap_insert strcmp config directive s).0
  | some old ↦ Option.map (λ t. set_item t directive s) config
]
