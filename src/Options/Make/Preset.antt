-- ===== src/Options/Make/Preset.antt =====
-- The directives that options.c presets before it reads the command line.
use iftop_dotqoo.Prelude.{
  Bool, List, Option, [], false, none, refl, some, true, ◌||◌, ◌∙◌, ◌∷◌, ◌≡◌,
}
use iftop_dotqoo.Options.{Options}
use iftop_dotqoo.Text.{Text, codes, equal}
use iftop_dotqoo.Config.{Config, config_get_bool, config_get_string}
use iftop_dotqoo.Options.NetFilter.{options_config_get_net_filter}
use iftop_dotqoo.Options.Args.{
  Opt, broker, delete_interval, duration, filter_code, help, interface, net_filter, no_argument,
  ports, promiscuous, protocols, send_interval, threshold, unknown_option,
}
use iftop_dotqoo.Options.Args.Reads.{last_of, value_of}
use iftop_dotqoo.Options.Make.{
  Display, options_config_get_bool, options_config_get_bw_rate, options_config_get_string,
}
use iftop_dotqoo.Options.Make.NetFilter6.{Library, make_first, make_head, make_next, options_make}
use iftop_dotqoo.Options.Make.Steps.{
  options_config_get_bw_rate_lem, options_config_get_net_filter6-IsKept,
  options_config_get_promiscuous-IsKept,
}

bool_lem :
    (config : Config) (name v : Text) (b : Bool)
    → config_get_string config name ≡ some v
    → (options_config_get_bool config name b).0 ≡ (equal v (codes "yes") || equal v (codes "true"))
unfolding options_config_get_bool config_get_bool
bool_lem config name v b e = rw (options_config_get_bool, e, config_get_bool, e)

-- What the command line leaves of the three directives that are preset.
pub record IsPreset (config : Config) : Type 0 where
  pub dns : config_get_string config (codes "dns-resolution") ≡ some (codes "false")
  pub port : config_get_string config (codes "port-resolution") ≡ some (codes "false")
  pub text : config_get_string config (codes "no-curses") ≡ some (codes "true")

make_first-preset :
    (config : Config) (options : Options) (d : Display)
    → IsPreset config
    → ((make_first config options d).1.dnsresolution ≡ false)
      × ((make_first config options d).1.portresolution ≡ false)
unfolding make_first
make_first-preset config options d v =
    let kept = options_config_get_promiscuous-IsKept config options (make_head config d) in
    (
      kept.0 ∙ bool_lem config (codes "dns-resolution") (codes "false") d.dnsresolution v.dns,
      kept.1 ∙ bool_lem config (codes "port-resolution") (codes "false") d.portresolution v.port,
    )

pub options_make-preset :
    (library : Library) (config : Config) (options : Options) (d : Display)
    → IsPreset config
    → let (config', options', d') = options_make library config options d in
      (d'.dnsresolution ≡ false) × (d'.portresolution ≡ false) × (d'.no_curses ≡ true)
unfolding options_make make_next
options_make-preset library config options d v =
    let (options1, d1) = make_first config options d in
    let first = make_first-preset config options d v in
    let (rate, same) =
      options_config_get_bw_rate_lem library.value (codes "max-bandwidth") config d1 in
    let (config1, d2, found) =
      options_config_get_bw_rate library.value (codes "max-bandwidth") config d1 in
    let d3 = make_next library config1 d2 in
    let config2 = (options_config_get_net_filter library.inet_aton config1 options1).0 in
    let last = options_config_get_net_filter6-IsKept library.inet_pton config2 d3 in
    (
      last.0 ∙ rate.0 ∙ first.0,
      last.1 ∙ rate.1 ∙ first.1,
      last.2
          ∙ bool_lem config1 (codes "no-curses") (codes "true") d2.no_curses
              (same (codes "no-curses") refl ∙ v.text),
    )

-- The interface is the configuration's, or the one that is there.
pub options_make-interface :
    (library : Library) (config : Config) (options : Options) (d : Display)
    → (options_make library config options d).2.interface
      ≡ (options_config_get_string config (codes "interface") d.interface).0
unfolding options_make make_next make_first
options_make-interface library config options d =
    let (options1, d1) = make_first config options d in
    let rate = (options_config_get_bw_rate_lem library.value (codes "max-bandwidth") config d1).0 in
    let (config1, d2, found) =
      options_config_get_bw_rate library.value (codes "max-bandwidth") config d1 in
    let d3 = make_next library config1 d2 in
    let config2 = (options_config_get_net_filter library.inet_aton config1 options1).0 in
    (options_config_get_net_filter6-IsKept library.inet_pton config2 d3).3
    ∙ rate.3
    ∙ (options_config_get_promiscuous-IsKept config options (make_head config d)).3

-- The last value of a directive that no option sets.
pub last_of-none :
    (f : Opt → Option (Option Text))
    → ((o : Opt) → f o ≡ none)
    → (opts : List Opt) (d : Option Text) → last_of f opts d ≡ d
last_of-none f h [] d = refl
last_of-none f h (o ∷ opts) d = rw (h o) (last_of-none f h opts d)

pub value_of-none :
    (q : Text)
    → equal q (codes "interface") ≡ false
    → equal q (codes "filter-code") ≡ false
    → equal q (codes "promiscuous") ≡ false
    → equal q (codes "net-filter") ≡ false
    → (o : Opt) → value_of q o ≡ none
value_of-none q a b c d help = refl
value_of-none q a b c d unknown_option = refl
value_of-none q a b c d no_argument = refl
value_of-none q a b c d (interface arg) = rw a
value_of-none q a b c d (filter_code arg) = rw b
value_of-none q a b c d promiscuous = rw c
value_of-none q a b c d (net_filter arg) = rw d
value_of-none q a b c d (ports arg) = refl
value_of-none q a b c d (delete_interval arg) = refl
value_of-none q a b c d (threshold arg) = refl
value_of-none q a b c d (duration arg) = refl
value_of-none q a b c d (protocols arg) = refl
value_of-none q a b c d (send_interval arg) = refl
value_of-none q a b c d (broker arg) = refl
