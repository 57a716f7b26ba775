-- ===== src/Config/Precedence.antt =====
-- Which value of a directive holds in cfgfile.c: one that is set holds for good, and of those that the
-- file has, the first.
use iftop_dotqoo.Prelude.{
  Bool-cases, List, Option, Option-cases, [], arith, false, if◌then◌else◌, inl, inr, none, refl,
  some, ◌∙◌, ◌∷◌, ◌≡◌,
}
use iftop_dotqoo.StringMap.{Tree, item_of, nil, node, stringmap_find, stringmap_insert}
use iftop_dotqoo.StringMap.Lookup.{or_new, stringmap_find-insert}
use iftop_dotqoo.Text.{Text, equal, strcmp, strcmp-IsStrcmp}
use iftop_dotqoo.Config.{
  Config, config_get_string, config_set_string, continued, ends_with, is_cfgdirective_valid,
  parse_line, read_config_file, read_line, read_lines, set_item, strip_newlines,
}

-- What an insertion is for the reads of the configuration.
pub config_get_string-insert :
    (t : Tree Text Text) (k q s : Text)
    → config_get_string (stringmap_insert strcmp (some t) k s).0 q ≡ (
        if equal q k
        then some (or_new (config_get_string (some t) k) s)
        else config_get_string (some t) q)
unfolding config_get_string
config_get_string-insert t k q s = (stringmap_find-insert strcmp strcmp-IsStrcmp t k q s).0

pub insert_keeps :
    (t : Tree Text Text) (k q s v : Text)
    → config_get_string (some t) q ≡ some v
    → config_get_string (stringmap_insert strcmp (some t) k s).0 q ≡ some v
insert_keeps t k q s v e = elim (Bool-cases (equal q k)) [
  | inl same ↦
      let here : q ≡ k = (strcmp-IsStrcmp.zero_iff q k).0 same in
      let old : config_get_string (some t) k ≡ some v = rw (← here) e in
      config_get_string-insert t k q s ∙ rw (same, old)
  | inr apart ↦ config_get_string-insert t k q s ∙ rw apart e
]

-- No line, and no file, changes a directive that has a value.
pub read_line-keeps :
    (line : Text) (config : Config) (q v : Text)
    → config_get_string config q ≡ some v
    → config_get_string (read_line line config) q ≡ some v
unfolding read_line
read_line-keeps line none q v e = absurd (unfold config_get_string in ground (arith, e))
read_line-keeps line (some t) q v e = elim (Option-cases (parse_line line)) [
  | inl empty ↦ rw (read_line, empty) e
  | inr ((key, value), parsed) ↦ elim (Bool-cases (is_cfgdirective_valid key)) [
    | inl known ↦ rw (read_line, parsed, known) (insert_keeps t key q value v e)
    | inr strange ↦ rw (read_line, parsed, strange) e
  ]
]

read_lines-keeps :
    (so_far : Option Text) (lines : List Text) (config : Config) (q v : Text)
    → config_get_string config q ≡ some v
    → config_get_string (read_lines so_far lines config) q ≡ some v
unfolding read_lines
read_lines-keeps none [] config q v e = e
read_lines-keeps (some line) [] config q v e = read_line-keeps line config q v e
read_lines-keeps so_far (next ∷ lines) config q v e =
    let line = strip_newlines (continued so_far next) in
    elim (Bool-cases (ends_with b'\\' line)) [
      | inl more ↦ rw more (read_lines-keeps (some line) lines config q v e)
      | inr whole ↦ rw whole (
          read_lines-keeps none lines (read_line line config) q v
            (read_line-keeps line config q v e))
    ]

pub read_config_file-keeps :
    (file : Option (List Text)) (config : Config) (q v : Text)
    → config_get_string config q ≡ some v
    → config_get_string (read_config_file file config).0 q ≡ some v
unfolding read_config_file
read_config_file-keeps none config q v e = e
read_config_file-keeps (some lines) config q v e = read_lines-keeps none lines config q v e

set_item_self :
    (t : Tree Text Text) (k s old : Text)
    → item_of (stringmap_find strcmp (some t) k) ≡ some old
    → item_of (stringmap_find strcmp (some (set_item t k s)) k) ≡ some s
unfolding set_item stringmap_find
set_item_self nil k s old e = absurd (ground (arith, e))
set_item_self (node key d l g) k s old e =
    let left = set_item_self l k s old in
    let right = set_item_self g k s old in ground (arith, e, left, right)

pub set_item-other :
    (t : Tree Text Text) (k q s : Text)
    → equal q k ≡ false
    → item_of (stringmap_find strcmp (some (set_item t k s)) q)
      ≡ item_of (stringmap_find strcmp (some t) q)
unfolding set_item stringmap_find
set_item-other nil k q s apart = refl
set_item-other (node key d l g) k q s apart =
    let left = set_item-other l k q s apart in
    let right = set_item-other g k q s apart in
    ground (
      arith,
      left,
      right,
      strcmp-IsStrcmp.zero_iff k key,
      strcmp-IsStrcmp.zero_iff q key,
      strcmp-IsStrcmp.zero_iff q k,
    )

-- A directive that is set has its new value, whether it had one or not, and no other changes.
pub config_set_string_lem :
    (t : Tree Text Text) (k q s : Text)
    → config_get_string (config_set_string (some t) k s) q
      ≡ (if equal q k then some s else config_get_string (some t) q)
unfolding config_set_string
config_set_string_lem t k q s = elim (Option-cases (config_get_string (some t) k)) [
  | inl absent ↦ rw (config_set_string, absent) (config_get_string-insert t k q s ∙ rw absent)
  | inr (old, found) ↦ elim (Bool-cases (equal q k)) [
    | inl same ↦
        let here : q ≡ k = (strcmp-IsStrcmp.zero_iff q k).0 same in
        rw (config_set_string, found, same, here)
          (unfold config_get_string in set_item_self t k s old (unfold config_get_string in found))
    | inr apart ↦
        rw (config_set_string, found, apart)
          (unfold config_get_string in set_item-other t k q s apart)
  ]
]

-- A directive that is set before a file is read, as the options of the command line are, has the
-- same value afterwards, whatever the file says.
pub read_config_file-config_set_string :
    (t : Tree Text Text) (k s : Text) (file : Option (List Text))
    → config_get_string (read_config_file file (config_set_string (some t) k s)).0 k ≡ some s
read_config_file-config_set_string t k s file =
    read_config_file-keeps file (config_set_string (some t) k s) k s
      (config_set_string_lem t k k s ∙ rw ((strcmp-IsStrcmp.zero_iff k k).1 refl))
