-- ===== src/Options/Args.antt =====
-- The command line of options.c: the arguments that `read_args_from_file` finds, and the options that
-- `options_read_args` sets. `getopt` is an argument: it gives the options in their order, and whether
-- other words follow them. The program's name in front of the arguments is left out.
pub mod File
pub mod Lists
pub mod Reads
pub mod Step
pub mod Last
use iftop_dotqoo.Prelude.{
  Bool, List, [], false, if◌then◌else◌, length, ltb, replicate, true, ℕ, ◌*◌, ◌+◌, ◌^◌, ◌∷◌,
}
use iftop_dotqoo.Prelude.Int.{negsuc, pos, ℤ}
use iftop_dotqoo.Run.{Run, fault, ok, ◌>>=◌, buffer_overflow, integer_overflow, null_dereference}
use iftop_dotqoo.Options.{Options}
use iftop_dotqoo.Text.{Text, atoi, atol, codes, strtok}
use iftop_dotqoo.Config.{Config, config_set_string}

-- What `getopt` returns: -h, -p, ?, :, then -i, -f, -F, -P, -t, -T, -d, -Z, -M and -B with `optarg`.
pub data Opt : Type 0 where
  help promiscuous unknown_option no_argument : Opt
  interface filter_code net_filter ports delete_interval : Text → Opt
  threshold duration protocols send_interval broker : Text → Opt

-- The variables that the options set. `mqtt_addr` has 64 bytes.
pub record Args : Type 0 where
  pub config : Config
  pub options : Options
  pub port_list : List ℤ
  pub mqtt_addr : Text

-- The program ends with a status, or goes on.
pub data Outcome : Type 0 where
  exits : ℕ → Outcome
  goes_on : Args → Outcome

abbrev pub port_list_len : ℕ
port_list_len = 10

-- One entry of the array for each word, from the first on.
unfoldable pub overwrite : List Text → List ℤ → Run (List ℤ)
overwrite [] list = ok list
overwrite (word ∷ words) [] = fault buffer_overflow
overwrite (word ∷ words) (x ∷ list) = overwrite words list >>= λ l. ok (atoi word ∷ l)

-- `atoi` of the first word is called whether there is one or not.
unfoldable pub set_words : List Text → List ℤ → Run (List ℤ)
unfolding overwrite
set_words [] list = fault null_dereference
set_words (word ∷ words) list = overwrite (word ∷ words) list

unfoldable pub set_list : Text → List ℤ → Run (List ℤ)
unfolding strtok set_words
set_list arg list = set_words (strtok b',' arg) list

unfoldable pub is_int : ℤ → Bool
is_int (pos n) = ltb n (2 ^ 31)
is_int (negsuc n) = ltb n (2 ^ 31)

-- The product, which the program computes in an `int`.
abbrev pub minutes : ℤ → ℤ
minutes (pos n) = pos (n * 60)
minutes (negsuc n) = negsuc (n * 60 + 59)

unfoldable pub set_mqtt_addr : Text → Args → Run Outcome
set_mqtt_addr arg s =
    if ltb (length arg) 64
    then ok (goes_on (record s { mqtt_addr = arg }))
    else fault buffer_overflow

abbrev pub configure : Text → Text → Args → Args
configure directive value s = record s { config = config_set_string s.config directive value }

-- One turn of the loop. The case of -M has no `break`, and its product may overflow, which has no
-- defined behaviour.
unfoldable pub read_opt : Opt → Args → Run Outcome
unfolding set_list set_mqtt_addr is_int
read_opt help s = ok (exits 0)
read_opt unknown_option s = ok (exits 1)
read_opt no_argument s = ok (exits 1)
read_opt (interface arg) s = ok (goes_on (configure (codes "interface") arg s))
read_opt (filter_code arg) s = ok (goes_on (configure (codes "filter-code") arg s))
read_opt promiscuous s = ok (goes_on (configure (codes "promiscuous") (codes "true") s))
read_opt (net_filter arg) s = ok (goes_on (configure (codes "net-filter") arg s))
read_opt (ports arg) s = set_list arg (replicate port_list_len (negsuc 0)) >>= λ l.
    ok (goes_on (record s { port_list = l }))
read_opt (delete_interval arg) s =
    ok (goes_on (record s { options = record (s.options) { history_delete_interval = atol arg } }))
read_opt (threshold arg) s =
    ok (goes_on (record s { options = record (s.options) { threshold = atol arg } }))
read_opt (duration arg) s =
    ok (goes_on (record s { options = record (s.options) { duration = atoi arg } }))
read_opt (protocols arg) s = set_list arg s.options.block_protocols >>= λ l.
    ok (goes_on (record s { options = record (s.options) { block_protocols = l } }))
read_opt (send_interval arg) s =
    if is_int (minutes (atoi arg))
    then set_mqtt_addr arg
        (record s { options = record (s.options) { send_interval = minutes (atoi arg) } })
    else fault integer_overflow
read_opt (broker arg) s = set_mqtt_addr arg s

-- The loop; `others` tells whether words follow the options.
unfoldable pub read_opts : List Opt → Bool → Args → Run Outcome
unfolding read_opt
read_opts [] others s = ok (if others then exits 1 else goes_on s)
read_opts (o ∷ opts) others s =
    read_opt o s >>= λ r. elim r [ exits n ↦ ok (exits n) | goes_on s' ↦ read_opts opts others s' ]

abbrev pub preset : Args → Args
preset s = configure (codes "no-curses") (codes "true") (
    configure (codes "port-resolution") (codes "false")
      (configure (codes "dns-resolution") (codes "false") s))
