-- ===== src/Config/Alike.antt =====
-- What cfgfile.c leaves of a directive depends on what it was before the file was read, and on nothing
-- else that was set.
use iftop_dotqoo.Prelude.{
  Bool-cases, List, Option, Option-cases, [], inl, inr, none, refl, some, ◌∷◌, ◌≡◌,
}
use iftop_dotqoo.StringMap.{Tree, stringmap_insert}
use iftop_dotqoo.Text.{Text, equal, strcmp, strcmp-IsStrcmp}
use iftop_dotqoo.Config.{
  Config, config_get_string, continued, ends_with, is_cfgdirective_valid, parse_line,
  read_config_file, read_line, read_lines, strip_newlines,
}
use iftop_dotqoo.Config.Precedence.{config_get_string-insert}
use iftop_dotqoo.Config.RoundTrip.{insert-some}

-- Two configurations that have been made agree on the directive `q`.
abbrev AgreeOn : Text → Config → Config → Type 0
AgreeOn q a b =
    (t : Tree Text Text) × (u : Tree Text Text) × (a ≡ some t)
    × (b ≡ some u)
    × (config_get_string (some t) q ≡ config_get_string (some u) q)

insert_alike :
    (t u : Tree Text Text) (k q s : Text)
    → config_get_string (some t) q ≡ config_get_string (some u) q
    → config_get_string (stringmap_insert strcmp (some t) k s).0 q
      ≡ config_get_string (stringmap_insert strcmp (some u) k s).0 q
insert_alike t u k q s e = elim (Bool-cases (equal q k)) [
  | inl same ↦
      let here : q ≡ k = (strcmp-IsStrcmp.zero_iff q k).0 same in
      let e' : config_get_string (some t) k ≡ config_get_string (some u) k = rw (← here) e in
      rw (config_get_string-insert t k q s, config_get_string-insert u k q s, same, e') refl
  | inr apart ↦ rw (config_get_string-insert t k q s, config_get_string-insert u k q s, apart) e
]

read_line_alike :
    (line q : Text) (t u : Tree Text Text)
    → config_get_string (some t) q ≡ config_get_string (some u) q
    → AgreeOn q (read_line line (some t)) (read_line line (some u))
unfolding read_line
read_line_alike line q t u e = elim (Option-cases (parse_line line)) [
  | inl empty ↦ (t, u, rw (read_line, empty), rw (read_line, empty), e)
  | inr ((key, value), parsed) ↦ elim (Bool-cases (is_cfgdirective_valid key)) [
    | inr strange ↦ (t, u, rw (read_line, parsed, strange), rw (read_line, parsed, strange), e)
    | inl known ↦
        let (t', a) = insert-some t key value in
        let (u', b) = insert-some u key value in
        (
          t',
          u',
          rw (read_line, parsed, known) a,
          rw (read_line, parsed, known) b,
          rw (← a, ← b) (insert_alike t u key q value e),
        )
  ]
]

read_lines_alike :
    (so_far : Option Text) (lines : List Text) (q : Text) (t u : Tree Text Text)
    → config_get_string (some t) q ≡ config_get_string (some u) q
    → config_get_string (read_lines so_far lines (some t)) q
      ≡ config_get_string (read_lines so_far lines (some u)) q
unfolding read_lines
read_lines_alike none [] q t u e = e
read_lines_alike (some line) [] q t u e =
    let (t', u', a, b, e') = read_line_alike line q t u e in rw (a, b) e'
read_lines_alike so_far (next ∷ lines) q t u e =
    let line = strip_newlines (continued so_far next) in
    elim (Bool-cases (ends_with b'\\' line)) [
      | inl more ↦ rw more (read_lines_alike (some line) lines q t u e)
      | inr whole ↦
          let (t', u', a, b, e') = read_line_alike line q t u e in
          rw (whole, a, b) (read_lines_alike none lines q t' u' e')
    ]

pub read_config_file_alike :
    (file : Option (List Text)) (q : Text) (t u : Tree Text Text)
    → config_get_string (some t) q ≡ config_get_string (some u) q
    → config_get_string (read_config_file file (some t)).0 q
      ≡ config_get_string (read_config_file file (some u)).0 q
unfolding read_config_file
read_config_file_alike none q t u e = e
read_config_file_alike (some lines) q t u e = read_lines_alike none lines q t u e
