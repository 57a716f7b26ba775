-- ===== src/Options/Make.antt =====
-- How options.c takes the options from the configuration: the getters, and `options_make`. The fields
-- of `options_t` that only the display would read are the record `Display`; a C string that may be
-- NULL is an Option.
pub mod NetFilter6
pub mod Defaults
pub mod Steps
pub mod Start
pub mod Preset
pub mod Settled
pub mod Filtered
use iftop_dotqoo.Prelude.{
  Bool, List, Option, [], false, if◌then◌else◌, none, some, true, ℕ, ◌*◌, ◌==◌, ◌||◌, ◌∷◌,
}
use iftop_dotqoo.Prelude.Int.{ℤ}
use iftop_dotqoo.Options.{Options}
use iftop_dotqoo.Text.{Text, codes, decimal, drop_while, is_digit, take_while}
use iftop_dotqoo.Config.{
  Config, config_get_bool, config_get_enum, config_get_int, config_get_string, set_item,
}
use mathlib.Core.Option

pub record Display : Type 0 where
  pub interface : Option Text
  pub dnsresolution : Bool
  pub portresolution : Bool
  pub filtercode : Option Text
  pub showbars : Bool
  pub showports : ℕ
  pub promiscuous : Bool
  pub aggregate_src : Bool
  pub aggregate_dest : Bool
  pub timed_output : ℤ
  pub no_curses : Bool
  pub num_lines : ℤ
  pub bandwidth_in_bytes : Bool
  pub sort : ℕ
  pub screenfilter : Option Text
  pub linedisplay : ℕ
  pub show_totals : Bool
  pub max_bandwidth : ℕ
  pub log_scale : Bool
  pub netfilter6 : Bool
  pub netfilter6net : List ℕ
  pub netfilter6mask : List ℕ
  pub link_local : Bool

-- The tables, without the entry that ends each.
abbrev pub sort_enumeration : List (Text × ℕ)
sort_enumeration =
    (codes "2s", 0)
    ∷ (codes "10s", 1)
    ∷ (codes "40s", 2)
    ∷ (codes "source", 3)
    ∷ (codes "destination", 4)
    ∷ []

abbrev pub linedisplay_enumeration : List (Text × ℕ)
linedisplay_enumeration =
    (codes "two-line", 0)
    ∷ (codes "one-line-both", 1)
    ∷ (codes "one-line-sent", 3)
    ∷ (codes "one-line-received", 2)
    ∷ []

abbrev pub showports_enumeration : List (Text × ℕ)
showports_enumeration =
    (codes "off", 0)
    ∷ (codes "source-only", 1)
    ∷ (codes "destination-only", 2)
    ∷ (codes "on", 3)
    ∷ []

-- The getters: the new value and the C function's result. The string is a copy.
unfoldable pub options_config_get_string : Config → Text → Option Text → Option Text × Bool
options_config_get_string config name value = elim (config_get_string config name) [
  | none ↦ (value, false)
  | some s ↦ (some s, true)
]

unfoldable pub options_config_get_bool : Config → Text → Bool → Bool × Bool
unfolding config_get_bool
options_config_get_bool config name value = elim (config_get_string config name) [
  | none ↦ (value, false)
  | some s ↦ (config_get_bool config name, true)
]

-- A number that cannot be read whole is stored all the same.
unfoldable pub options_config_get_int : (Text → ℤ × Text × Bool) → Config → Text → ℤ → ℤ × Bool
unfolding config_get_int
options_config_get_int strtol config name value = elim (config_get_string config name) [
  | none ↦ (value, false)
  | some s ↦ (elim ((config_get_int strtol config name).1) [ none ↦ value | some n ↦ n ], true)
]

unfoldable pub options_config_get_enum : Config → Text → List (Text × ℕ) → ℕ → ℕ × Bool
unfolding config_get_enum
options_config_get_enum config name enumeration result = elim (config_get_string config name) [
  | none ↦ (result, false)
  | some s ↦ elim (config_get_enum config name enumeration) [
    | none ↦ (result, false)
    | some i ↦ (i, true)
  ]
]

unfoldable pub options_config_get_promiscuous :
    Config → Options → Display → Options × Display × Bool
unfolding config_get_bool
options_config_get_promiscuous config options display =
    elim (config_get_string config (codes "promiscuous")) [
      | none ↦ (options, display, false)
      | some s ↦
          let asked = config_get_bool config (codes "promiscuous") in
          (
            if asked then record options { promiscuous_but_choosy = false } else options,
            record display { promiscuous = asked },
            true,
          )
    ]

-- What the text behind the digits multiplies by; `none` is reported.
unfoldable pub unit_of : Text → Option ℕ
unit_of [] = some 1
unit_of (u ∷ []) =
    if u == b'k' || u == b'K'
    then some 1024
    else if u == b'm' || u == b'M'
    then some (1024 * 1024)
    else if u == b'g' || u == b'G'
    then some (1024 * 1024 * 1024)
    else if u == b'b' || u == b'B'
    then some 1
    else none
unit_of (u ∷ v ∷ units) = none

-- Whether the rate is computed from a variable that `sscanf` has not set: the value has no digits, and
-- nothing but a unit.
unfoldable pub reads_unset : Text → Config → Bool
unfolding unit_of
reads_unset directive config = elim (config_get_string config directive) [
  | none ↦ false
  | some s ↦ elim (take_while is_digit s) [
    | [] ↦ elim (unit_of s) [ none ↦ false | some mult ↦ true ]
    | c ∷ cs ↦ false
  ]
]

-- The rate goes to `options.max_bandwidth`, and the units are cut off the configuration's own copy.
-- `value` is what the variable holds where there are no digits to read: then `reads_unset` is true,
-- and the read of the variable is a fault of `start_up`. Rates that do not fit a
-- `long long` keep their value here.
unfoldable pub options_config_get_bw_rate : ℕ → Text → Config → Display → Config × Display × Bool
unfolding unit_of decimal set_item
options_config_get_bw_rate value directive config display =
    elim (config_get_string config directive) [
      | none ↦ (config, display, false)
      | some s ↦
          let digits = take_while is_digit s in
          let read : ℕ = elim digits [ [] ↦ value | c ∷ cs ↦ decimal 0 (c ∷ cs) ] in
          elim (unit_of (drop_while is_digit s)) [
            | none ↦ (config, display, false)
            | some mult ↦ (
              Option.map (λ t. set_item t directive digits) config,
              record display { max_bandwidth = read * mult },
              true,
            )
          ]
    ]
