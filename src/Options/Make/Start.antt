-- ===== src/Options/Make/Start.antt =====
-- The first lines of `main` in iftop.c: the defaults, the command line, the configuration file, and the
-- options that they make.
use iftop_dotqoo.Prelude.{Bool, List, Option, if◌then◌else◌, replicate, ℕ}
use iftop_dotqoo.Prelude.Int.{pos}
use iftop_dotqoo.Run.{Run, fault, ok, ◌>>=◌, uninitialised_read}
use iftop_dotqoo.Text.{Text, codes}
use iftop_dotqoo.Config.{config_init, read_config_file}
use iftop_dotqoo.Options.Args.{Args, Opt, exits, goes_on, port_list_len}
use iftop_dotqoo.Options.Args.File.{options_read_args}
use iftop_dotqoo.Options.Make.{Display, reads_unset}
use iftop_dotqoo.Options.Make.NetFilter6.{Library, options_make}
use iftop_dotqoo.Options.Make.Defaults.{Host, options_set_defaults}

-- The program has ended with a status, or runs with these variables.
pub data Started : Type 0 where
  stopped : ℕ → Started
  running : Args → Display → Started

-- The list of ports is a static array.
unfoldable pub before_args : Library → Host → Args
unfolding options_set_defaults config_init
before_args library host = record {
  config = config_init;
  options = (options_set_defaults library host).0;
  port_list = replicate port_list_len (pos 0);
  mqtt_addr = codes "tcp://test.mosquitto.org:1883";
}

-- What follows the command line; `file` holds the lines of the configuration file.
unfoldable pub after_args : Library → Host → Option (List Text) → Args → Args × Display
unfolding options_make read_config_file options_set_defaults
after_args library host file s =
    let (config, status) = read_config_file file s.config in
    let (config', options', display') =
      options_make library config s.options (options_set_defaults library host).1 in
    (record s { config = config'; options = options' }, display')

-- The options are made from the rate too, where that is read from a variable that is not set.
unfoldable pub start_up :
    Library
    → Host
    → (List Text → List Opt × Bool)
    → Option (List Text)
    → List Text
    → Option (List Text)
    → Run Started
unfolding options_read_args before_args after_args reads_unset read_config_file
start_up library host getopt args_file argv file =
    options_read_args getopt args_file argv (before_args library host) >>= λ r. elim r [
      | exits n ↦ ok (stopped n)
      | goes_on s ↦
          let (s', display) = after_args library host file s in
          if reads_unset (codes "max-bandwidth") (read_config_file file s.config).0
          then fault uninitialised_read
          else ok (running s' display)
    ]
