-- ===== src/Options/Make/Filtered.antt =====
-- The net filter of iftop.c's command line, from `main` to the packets that it lets through.
use iftop_dotqoo.Prelude.{
  All, Bool, List, Option, [], ap, false, none, refl, some, true, ℕ, ◌++◌, ◌<◌, ◌==◌, ◌^◌, ◌∙◌, ◌∷◌,
  ◌≡◌, ◌≤◌,
}
use iftop_dotqoo.Prelude.Int.{pos}
use iftop_dotqoo.Run.{fault, ok, uninitialised_read}
use iftop_dotqoo.Options.{Options}
use iftop_dotqoo.Text.{Text, atoi, codes, drop_while, is_digit}
use iftop_dotqoo.Config.{Config, config_get_string, config_set_string, read_config_file}
use iftop_dotqoo.Config.Precedence.{read_config_file-keeps}
use iftop_dotqoo.Options.NetFilter.Prefix.{octets, same_prefix}
use iftop_dotqoo.Options.NetFilter.Cidr.{options_config_get_net_filter_lem}
use iftop_dotqoo.Options.Args.{Args, Opt, preset}
use iftop_dotqoo.Options.Args.File.{options_read_args, read_args_from_file}
use iftop_dotqoo.Options.Args.Reads.{fits, last_of, value_of}
use iftop_dotqoo.Options.Args.Last.{read_opts_lem}
use iftop_dotqoo.Options.Make.{Display, options_config_get_bw_rate}
use iftop_dotqoo.Options.Make.NetFilter6.{Library, make_first, options_make}
use iftop_dotqoo.Options.Make.Defaults.{Host, options_set_defaults}
use iftop_dotqoo.Options.Make.Start.{after_args, before_args, running, start_up}
use iftop_dotqoo.Packet.{in_filter_net}
use iftop_dotqoo.Options.Make.Steps.{options_config_get_bw_rate_lem}
use iftop_dotqoo.Options.Make.Settled.{before_args-IsSetUp, preset-IsSetUp, rate_alone, unset_rate}

-- A directive that no option has given a value is new.
preset-fresh :
    (library : Library) (host : Host)
    → config_get_string (preset (before_args library host)).config (codes "net-filter") ≡ none
unfolding before_args config_set_string config_get_string
preset-fresh library host = refl

-- What the file reader leaves is there when the net filter is read.
options_make-net_filter :
    (library : Library) (config : Config) (options : Options) (d : Display) (addr mask : Text)
    (net n a : ℕ)
    → config_get_string config (codes "net-filter") ≡ some (addr ++ b'/' ∷ mask)
    → All (λ c. (c == b'/') ≡ false) addr
    → library.inet_aton addr ≡ some net
    → drop_while is_digit mask ≡ []
    → atoi mask ≡ pos n
    → n ≤ 32
    → net < 2 ^ 32
    → a < 2 ^ 32
    → let (config', options', d') = options_make library config options d in
      (options'.netfilter ≡ true)
      × (in_filter_net options' a ≡ same_prefix n (octets a) (octets net))
unfolding options_make
options_make-net_filter library config options d addr mask net n a given whole known digits value
      few net_fits a_fits =
    let (options1, d1) = make_first config options d in
    let (rate, same) =
      options_config_get_bw_rate_lem library.value (codes "max-bandwidth") config d1 in
    let config1 = (options_config_get_bw_rate library.value (codes "max-bandwidth") config d1).0 in
    let (found, on, through) =
      options_config_get_net_filter_lem library.inet_aton config1 options1 addr mask net n a
        (same (codes "net-filter") refl ∙ given) whole known digits value few net_fits a_fits in
    (on, through)

-- A start without options_args.txt, on a command line that `getopt` reads as options that fit, the
-- last -F of which is `addr/mask`: it goes on with the net filter on, which lets exactly the addresses
-- through whose first bits, as many as the mask says, are those of `addr`; whatever the configuration
-- file says, where its rate is not read from a variable that is not set. `inet_aton` reads `addr`, which has no slash, as 32 bits, and the mask is digits with a
-- value of at most 32.
pub start_up-net_filter :
    (library : Library) (host : Host) (getopt : List Text → List Opt × Bool) (argv : List Text)
    (file : Option (List Text)) (opts : List Opt) (addr mask : Text) (net n a : ℕ)
    → getopt argv ≡ (opts, false)
    → All (λ o. fits o ≡ true) opts
    → last_of (value_of (codes "net-filter")) opts none ≡ some (addr ++ b'/' ∷ mask)
    → All (λ c. (c == b'/') ≡ false) addr
    → library.inet_aton addr ≡ some net
    → drop_while is_digit mask ≡ []
    → atoi mask ≡ pos n
    → n ≤ 32
    → net < 2 ^ 32
    → a < 2 ^ 32
    → unset_rate file ≡ false
    → (s : Args) × (d : Display) × (start_up library host getopt none argv file ≡ ok (running s d))
      × (s.options.netfilter ≡ true)
      × (in_filter_net s.options a ≡ same_prefix n (octets a) (octets net))
unfolding start_up options_read_args read_args_from_file after_args
start_up-net_filter library host getopt argv file opts addr mask net n a read h last whole known
      digits value few net_fits a_fits rated =
    let before = before_args library host in
    let ready = preset-IsSetUp before (before_args-IsSetUp library host) in
    let (s, parsed, s_ready, w) = read_opts_lem opts (preset before) ready h in
    let given = read_config_file-keeps file s.config (codes "net-filter") (addr ++ b'/' ∷ mask) (
      w.settings (codes "net-filter")
      ∙ ap (last_of (value_of (codes "net-filter")) opts) (preset-fresh library host)
      ∙ last) in
    let (s', d) = after_args library host file s in
    let set_rate = rate_alone library host opts s file s_ready w ∙ rated in
    let (on, through) =
      options_make-net_filter library (read_config_file file s.config).0 s.options
        (options_set_defaults library host).1 addr mask net n a given whole known digits value few
        net_fits a_fits in
    (
      s',
      d,
      rw (start_up, options_read_args, read_args_from_file, read, parsed, set_rate),
      on,
      through,
    )

-- A start of this kind whose rate is read from a variable that is not set.
pub start_up-unset :
    (library : Library) (host : Host) (getopt : List Text → List Opt × Bool) (argv : List Text)
    (file : Option (List Text)) (opts : List Opt)
    → getopt argv ≡ (opts, false)
    → All (λ o. fits o ≡ true) opts
    → unset_rate file ≡ true
    → start_up library host getopt none argv file ≡ fault uninitialised_read
unfolding start_up options_read_args read_args_from_file
start_up-unset library host getopt argv file opts read h unset =
    let before = before_args library host in
    let ready = preset-IsSetUp before (before_args-IsSetUp library host) in
    let (s, parsed, s_ready, w) = read_opts_lem opts (preset before) ready h in
    let not_set = rate_alone library host opts s file s_ready w ∙ unset in
    rw (start_up, options_read_args, read_args_from_file, read, parsed, not_set)
