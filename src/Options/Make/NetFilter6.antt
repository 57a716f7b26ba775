-- ===== src/Options/Make/NetFilter6.antt =====
-- The net filter for IPv6 and the whole of `options_make` in options.c. An address is the list of its
-- 16 bytes; `inet_pton` is an argument.
use iftop_dotqoo.Prelude.{
  Bool, List, Option, [], bit_and, false, if◌then◌else◌, leb, ltb, none, some, true, ℕ, ◌%◌, ◌*◌,
  ◌-◌, ◌==◌, ◌^◌, ◌||◌, ◌∷◌,
}
use iftop_dotqoo.Prelude.Int.{pos_part, ℤ}
use iftop_dotqoo.Options.{Options}
use iftop_dotqoo.Text.{Text, atoi, codes, drop_while, is_digit, strchr}
use iftop_dotqoo.Config.{Config, config_get_string, set_item}
use iftop_dotqoo.Options.NetFilter.{options_config_get_net_filter}
use iftop_dotqoo.Options.Make.{
  Display, linedisplay_enumeration, options_config_get_bool, options_config_get_bw_rate,
  options_config_get_enum, options_config_get_int, options_config_get_promiscuous,
  options_config_get_string, showports_enumeration, sort_enumeration,
}
use mathlib.Core.Option

-- The bytes of the prefix are written; those behind it keep what they hold.
unfoldable pub write_prefix : ℕ → List ℕ → List ℕ
write_prefix n [] = []
write_prefix n (b ∷ mask) =
    let rest = write_prefix (n - 8) mask in
    if leb 8 n then 0xff ∷ rest else if n == 0 then b ∷ mask else 0xff * 2 ^ (8 - n) % 256 ∷ mask

unfoldable pub and_bytes : List ℕ → List ℕ → List ℕ
and_bytes [] mask = []
and_bytes (b ∷ bs) [] = b ∷ bs
and_bytes (b ∷ bs) (m ∷ mask) = bit_and b m ∷ and_bytes bs mask

-- A length that is 0 or above 128 is reported, and leaves the filter off.
unfoldable pub set_mask6 : (Text → Option (List ℕ)) → Text → Display → Display × Bool
unfolding write_prefix and_bytes
set_mask6 inet_pton mask display =
    let masked =
      λ (d : Display). record d { netfilter6net = and_bytes d.netfilter6net d.netfilter6mask } in
    let n = pos_part (atoi mask) in
    let long = record display {
      netfilter6mask = write_prefix n display.netfilter6mask;
      netfilter6 = true;
    } in
    elim (drop_while is_digit mask) [
      | [] ↦ (masked (if ltb 128 n || ltb n 1 then display else long), true)
      | c ∷ s ↦ elim (inet_pton mask) [
        | none ↦ (display, false)
        | some m ↦ (masked (record display { netfilter6mask = m; netfilter6 = true }), true)
      ]
    ]

unfoldable pub options_config_get_net_filter6 :
    (Text → Option (List ℕ)) → Config → Display → Config × Display × Bool
unfolding set_mask6 set_item
options_config_get_net_filter6 inet_pton config display =
    let off = record display { netfilter6 = false } in
    elim (config_get_string config (codes "net-filter6")) [
      | none ↦ (config, display, false)
      | some s ↦ elim (strchr s b'/') [
        | none ↦ (config, off, false)
        | some (addr, mask) ↦
            let cut = Option.map (λ t. set_item t (codes "net-filter6") addr) config in
            elim (inet_pton addr) [
              | none ↦ (cut, off, false)
              | some net ↦
                  let (display', found) =
                    set_mask6 inet_pton mask (record off { netfilter6net = net }) in
                  (cut, display', found)
            ]
      ]
    ]

-- The library functions that `options_make` calls, and the contents of its uninitialised variable.
pub record Library : Type 0 where
  pub inet_aton : Text → Option ℕ
  pub inet_pton : Text → Option (List ℕ)
  pub strtol : Text → ℤ × Text × Bool
  pub value : ℕ

abbrev pub flag_of : Config → Text → Bool → Bool
flag_of config name value = (options_config_get_bool config name value).0

-- The calls of `options_make` in front of the one for the promiscuous mode.
abbrev pub make_head : Config → Display → Display
make_head config display = record display {
  interface = (options_config_get_string config (codes "interface") display.interface).0;
  dnsresolution = flag_of config (codes "dns-resolution") display.dnsresolution;
  portresolution = flag_of config (codes "port-resolution") display.portresolution;
  filtercode = (options_config_get_string config (codes "filter-code") display.filtercode).0;
  showbars = flag_of config (codes "show-bars") display.showbars;
}

-- Those up to the one for the bandwidth.
unfoldable pub make_first : Config → Options → Display → Options × Display
make_first config options display =
    let (options', d, found) =
      options_config_get_promiscuous config options (make_head config display) in
    (
      options',
      record d {
        aggregate_src = flag_of config (codes "hide-source") d.aggregate_src;
        aggregate_dest = flag_of config (codes "hide-destination") d.aggregate_dest;
        bandwidth_in_bytes = flag_of config (codes "use-bytes") d.bandwidth_in_bytes;
        sort = (options_config_get_enum config (codes "sort") sort_enumeration d.sort).0;
        linedisplay =
            (options_config_get_enum config (codes "line-display") linedisplay_enumeration
              d.linedisplay).0;
        show_totals = flag_of config (codes "show-totals") d.show_totals;
        log_scale = flag_of config (codes "log-scale") d.log_scale;
      },
    )

-- The calls behind it, up to the net filters.
unfoldable pub make_next : Library → Config → Display → Display
make_next library config display = record display {
  showports =
      (options_config_get_enum config (codes "port-display") showports_enumeration
        display.showports).0;
  screenfilter = (options_config_get_string config (codes "screen-filter") display.screenfilter).0;
  link_local = (options_config_get_bool config (codes "link-local") display.link_local).0;
  timed_output =
      (options_config_get_int library.strtol config (codes "timed-output") display.timed_output).0;
  no_curses = (options_config_get_bool config (codes "no-curses") display.no_curses).0;
  num_lines =
      (options_config_get_int library.strtol config (codes "num-lines") display.num_lines).0;
}

unfoldable pub options_make : Library → Config → Options → Display → Config × Options × Display
unfolding make_next
options_make library config options display =
    let (options1, display1) = make_first config options display in
    let (config1, display2, rate) =
      options_config_get_bw_rate library.value (codes "max-bandwidth") config display1 in
    let display3 = make_next library config1 display2 in
    let (config2, options2, net) =
      options_config_get_net_filter library.inet_aton config1 options1 in
    let (config3, display4, net6) =
      options_config_get_net_filter6 library.inet_pton config2 display3 in
    (config3, options2, display4)
