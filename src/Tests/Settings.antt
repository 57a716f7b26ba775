-- ===== src/Tests/Settings.antt =====
-- Configuration files and net filters.
use iftop_dotqoo.Prelude.{All, List, [], arith, length, refl, some, ◌∷◌, ◌≡◌}
use iftop_dotqoo.StringMap.{nil}
use iftop_dotqoo.Text.{Text, codes, drop_while}
use iftop_dotqoo.Config.{
  config_get_string, config_init, config_set_string, drop_blanks, ends_with, fgets, fgets_all,
  is_cfgdirective_valid, read_config_file, read_lines,
}
use iftop_dotqoo.Config.Lines.{IsValue, line_of}
use iftop_dotqoo.Config.Precedence.{read_config_file-config_set_string}
use iftop_dotqoo.Config.Fgets.{IsShort, read_config_file-text_of, text_of}

-- `sort` is set on the command line, and the file says something else.
read_config_file-config_set_string_example :
    config_get_string
      (read_config_file
        (some (codes "sort: source\n" ∷ codes "show-bars: no" ∷ []))
        (config_set_string (some nil) (codes "sort") (codes "2s"))).0
      (codes "sort")
    ≡ some (codes "2s")
read_config_file-config_set_string_example =
    read_config_file-config_set_string nil (codes "sort") (codes "2s")
      (some (codes "sort: source\n" ∷ codes "show-bars: no" ∷ []))

-- A continued line, a comment, a directive that is unknown and one that comes twice.
lines_run :
    config_get_string
      (read_config_file
        (some (
          codes "interface: eth\\\n"
          ∷ codes "0 # the router\n"
          ∷ codes "colour: red\n"
          ∷ codes "interface: lo\n"
          ∷ []))
        config_init).0
      (codes "interface")
    ≡ some (codes "eth0")
unfolding config_get_string read_config_file config_init read_lines
lines_run = refl

abbrev settings : List (Text × Text)
settings = (codes "interface", codes "eth0") ∷ (codes "interface", codes "lo") ∷ []

eth0-IsValue : IsValue (codes "eth0")
unfolding drop_while drop_blanks ends_with
eth0-IsValue = record {
  plain = ((refl, (refl, (refl, (refl, tt)))));
  front = refl;
  back = refl;
  open_end = refl;
}

lo-IsValue : IsValue (codes "lo")
unfolding drop_while drop_blanks ends_with
lo-IsValue = record { plain = (refl, (refl, tt)); front = refl; back = refl; open_end = refl }

settings-IsShort : All IsShort settings
unfolding line_of
settings-IsShort = (omega arith, (omega arith, tt))

read_config_file-text_of_example :
    config_get_string
      (read_config_file
        (some (fgets_all (length (text_of settings)) (text_of settings)))
        config_init).0
      (codes "interface")
    ≡ some (codes "eth0")
unfolding is_cfgdirective_valid
read_config_file-text_of_example =
    read_config_file-text_of settings (codes "interface")
      ((refl, eth0-IsValue), ((refl, lo-IsValue), tt)) settings-IsShort

-- A line that is too long comes in two pieces.
long_line : fgets 3 (codes "sort") ≡ (codes "sor", codes "t")
unfolding fgets
long_line = refl
