-- ===== src/Options/Make/Settled.antt =====
-- What the start of iftop.c fixes before the capture begins, and where it reads a variable that is not
-- set.
use iftop_dotqoo.Prelude.{Bool, List, Option, ap, none, refl, some, sym, ◌∙◌, ◌≡◌}
use iftop_dotqoo.StringMap.{nil}
use iftop_dotqoo.Text.{Text, codes}
use iftop_dotqoo.Config.{
  Config, config_get_string, config_init, config_set_string, read_config_file,
}
use iftop_dotqoo.Config.Alike.{read_config_file_alike}
use iftop_dotqoo.Config.Precedence.{read_config_file-keeps}
use iftop_dotqoo.Options.Args.{Args, Opt, preset}
use iftop_dotqoo.Options.Args.Reads.{IsRead, IsSetUp, configure-IsSetUp, value_of}
use iftop_dotqoo.Options.Make.{reads_unset}
use iftop_dotqoo.Options.Make.NetFilter6.{Library}
use iftop_dotqoo.Options.Make.Defaults.{Host, options_set_defaults}
use iftop_dotqoo.Options.Make.Start.{before_args}
use iftop_dotqoo.Options.Make.Preset.{IsPreset, last_of-none, value_of-none}

pub before_args-IsSetUp : (library : Library) (host : Host) → IsSetUp (before_args library host)
unfolding before_args config_init options_set_defaults
before_args-IsSetUp library host = record { tree = (nil, refl); room = refl }

pub preset-IsSetUp : (s : Args) → IsSetUp s → IsSetUp (preset s)
preset-IsSetUp s v = configure-IsSetUp _ _ _ (configure-IsSetUp _ _ _ (configure-IsSetUp _ _ _ v))

-- No option and no line of the file changes what is preset.
kept :
    (opts : List Opt) (s s' : Args) (file : Option (List Text))
    → IsPreset s.config
    → IsRead opts s s'
    → IsPreset (read_config_file file s'.config).0
kept opts s s' file v w =
    let value =
      λ (q : Text) (x : Text) (h : (o : Opt) → value_of q o ≡ none)
          (e : config_get_string s.config q ≡ some x).
        read_config_file-keeps file s'.config q x
          (w.settings q ∙ last_of-none (value_of q) h opts (config_get_string s.config q) ∙ e) in
    record {
      dns =
          value (codes "dns-resolution") (codes "false")
            (value_of-none (codes "dns-resolution") refl refl refl refl) v.dns;
      port =
          value (codes "port-resolution") (codes "false")
            (value_of-none (codes "port-resolution") refl refl refl refl) v.port;
      text =
          value (codes "no-curses") (codes "true")
            (value_of-none (codes "no-curses") refl refl refl refl) v.text;
    }

-- Whether the rate of the configuration file is read from a variable that is not set.
abbrev pub unset_rate : Option (List Text) → Bool
unset_rate file = reads_unset (codes "max-bandwidth") (read_config_file file config_init).0

new_rate :
    (library : Library) (host : Host)
    → config_get_string (preset (before_args library host)).config (codes "max-bandwidth") ≡ none
unfolding before_args config_set_string config_get_string
new_rate library host = refl

no_rate : config_get_string (some nil) (codes "max-bandwidth") ≡ none
unfolding config_get_string
no_rate = refl

reads_unset-same :
    (a b : Config)
    → config_get_string a (codes "max-bandwidth") ≡ config_get_string b (codes "max-bandwidth")
    → reads_unset (codes "max-bandwidth") a ≡ reads_unset (codes "max-bandwidth") b
unfolding reads_unset
reads_unset-same a b e = rw (reads_unset, e) refl

-- No option sets the rate, so that it is what the file alone says.
pub rate_alone :
    (library : Library) (host : Host) (opts : List Opt) (s : Args) (file : Option (List Text))
    → IsSetUp s
    → IsRead opts (preset (before_args library host)) s
    → reads_unset (codes "max-bandwidth") (read_config_file file s.config).0 ≡ unset_rate file
unfolding config_init
rate_alone library host opts s file set_up w =
    let (t, here) = set_up.tree in
    let q = codes "max-bandwidth" in
    let absent : config_get_string s.config q ≡ none =
      w.settings q
      ∙ last_of-none (value_of q) (value_of-none q refl refl refl refl) opts
          (config_get_string (preset (before_args library host)).config q)
      ∙ new_rate library host in
    let same : config_get_string (some t) q ≡ config_get_string (some nil) q =
      ap (λ c. config_get_string c q) (sym here) ∙ absent ∙ sym no_rate in
    ap (λ c. reads_unset q (read_config_file file c).0) here
    ∙ reads_unset-same (read_config_file file (some t)).0 (read_config_file file (some nil)).0
        (read_config_file_alike file q t nil same)
