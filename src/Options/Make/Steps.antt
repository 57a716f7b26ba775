-- ===== src/Options/Make/Steps.antt =====
-- What the getters of options.c leave as it is.
use iftop_dotqoo.Prelude.{
  Bool-cases, List, Option, Option-cases, [], false, inl, inr, ltb, none, refl, some, ℕ, ◌||◌, ◌∷◌,
  ◌≡◌,
}
use iftop_dotqoo.Prelude.Int.{pos_part}
use iftop_dotqoo.StringMap.{Tree}
use iftop_dotqoo.Options.{Options}
use iftop_dotqoo.Text.{Text, atoi, codes, drop_while, equal, is_digit, strchr, take_while}
use iftop_dotqoo.Config.{Config, config_get_string, set_item}
use iftop_dotqoo.Config.Precedence.{set_item-other}
use iftop_dotqoo.Options.Make.{
  Display, options_config_get_bw_rate, options_config_get_promiscuous, unit_of,
}
use iftop_dotqoo.Options.Make.NetFilter6.{options_config_get_net_filter6, set_mask6}
use mathlib.Core.Option

-- The three switches that every command line sets, and the interface.
abbrev pub IsKept : Display → Display → Type 0
IsKept d d' =
    (d'.dnsresolution ≡ d.dnsresolution)
    × (d'.portresolution ≡ d.portresolution)
    × (d'.no_curses ≡ d.no_curses)
    × (d'.interface ≡ d.interface)

pub options_config_get_promiscuous-IsKept :
    (config : Config) (options : Options) (d : Display)
    → IsKept d (options_config_get_promiscuous config options d).1
unfolding options_config_get_promiscuous
options_config_get_promiscuous-IsKept config options d =
    elim (Option-cases (config_get_string config (codes "promiscuous"))) [
      | inl absent ↦ rw (options_config_get_promiscuous, absent) (refl, refl, refl, refl)
      | inr (s, found) ↦ rw (options_config_get_promiscuous, found) (refl, refl, refl, refl)
    ]

-- A change of one item of the map, for the other directives.
map-set_item :
    (config : Config) (k q s : Text)
    → equal q k ≡ false
    → config_get_string (Option.map (λ (t : Tree Text Text). set_item t k s) config) q
      ≡ config_get_string config q
map-set_item none k q s apart = refl
map-set_item (some t) k q s apart = unfold config_get_string in set_item-other t k q s apart

pub options_config_get_bw_rate_lem :
    (value : ℕ) (directive : Text) (config : Config) (d : Display)
    → IsKept d (options_config_get_bw_rate value directive config d).1
      × ((q : Text)
          → equal q directive ≡ false
          → config_get_string (options_config_get_bw_rate value directive config d).0 q
            ≡ config_get_string config q)
unfolding options_config_get_bw_rate
options_config_get_bw_rate_lem value directive config d =
    elim (Option-cases (config_get_string config directive)) [
      | inl absent ↦
          rw (options_config_get_bw_rate, absent) ((refl, refl, refl, refl), λ q apart. refl)
      | inr (s, found) ↦ elim (Option-cases (unit_of (drop_while is_digit s))) [
        | inl strange ↦
            rw (options_config_get_bw_rate, found, strange)
              ((refl, refl, refl, refl), λ q apart. refl)
        | inr (mult, known) ↦
            rw (options_config_get_bw_rate, found, known)
              (
                (refl, refl, refl, refl),
                λ q apart. map-set_item config directive q (take_while is_digit s) apart,
              )
      ]
    ]

set_mask6-cases :
    (inet_pton : Text → Option (List ℕ)) (mask rest : Text) (d : Display)
    → drop_while is_digit mask ≡ rest
    → IsKept d (set_mask6 inet_pton mask d).0
unfolding set_mask6
set_mask6-cases inet_pton mask [] d e =
    let n = pos_part (atoi mask) in
    elim (Bool-cases (ltb 128 n || ltb n 1)) [
      | inl wrong ↦ rw (set_mask6, e, wrong) (refl, refl, refl, refl)
      | inr right ↦ rw (set_mask6, e, right) (refl, refl, refl, refl)
    ]
set_mask6-cases inet_pton mask (c ∷ s) d e = elim (Option-cases (inet_pton mask)) [
  | inl strange ↦ rw (set_mask6, e, strange) (refl, refl, refl, refl)
  | inr (m, known) ↦ rw (set_mask6, e, known) (refl, refl, refl, refl)
]

pub options_config_get_net_filter6-IsKept :
    (inet_pton : Text → Option (List ℕ)) (config : Config) (d : Display)
    → IsKept d (options_config_get_net_filter6 inet_pton config d).1
unfolding options_config_get_net_filter6
options_config_get_net_filter6-IsKept inet_pton config d =
    elim (Option-cases (config_get_string config (codes "net-filter6"))) [
      | inl absent ↦ rw (options_config_get_net_filter6, absent) (refl, refl, refl, refl)
      | inr (s, found) ↦ elim (Option-cases (strchr s b'/')) [
        | inl whole ↦ rw (options_config_get_net_filter6, found, whole) (refl, refl, refl, refl)
        | inr ((addr, mask), cut) ↦ elim (Option-cases (inet_pton addr)) [
          | inl strange ↦
              rw (options_config_get_net_filter6, found, cut, strange) (refl, refl, refl, refl)
          | inr (net, known) ↦
              let off = record d { netfilter6 = false; netfilter6net = net } in
              rw (options_config_get_net_filter6, found, cut, known)
                (set_mask6-cases inet_pton mask (drop_while is_digit mask) off refl)
        ]
      ]
    ]
