-- ===== src/Options/NetFilter.antt =====
-- The net filter of options.c: `-F net/mask`, where the mask is a number of bits or an address.
-- `inet_aton` is an argument: the 32 bits of `s_addr`, or `none` for a text that is no address.
-- The machine is little-endian.
pub mod Prefix
pub mod Cidr
use iftop_dotqoo.Prelude.{
  Bool, Option, [], bit_and, false, if◌then◌else◌, none, some, true, ℕ, ◌%◌, ◌*◌, ◌+◌, ◌-◌, ◌/◌,
  ◌==◌, ◌^◌, ◌∷◌,
}
use iftop_dotqoo.Prelude.Int.{ltb_ℤ, pos, pos_part, ℤ}
use iftop_dotqoo.Options.{Options}
use iftop_dotqoo.Text.{Text, atoi, codes, drop_while, is_digit, strchr}
use iftop_dotqoo.Config.{Config, config_get_string, set_item}
use mathlib.Core.Option

-- `htonl` on 32 bits.
unfoldable pub htonl : ℕ → ℕ
htonl w = w / 2 ^ 24 % 256 + w / 2 ^ 16 % 256 * 2 ^ 8 + w / 2 ^ 8 % 256 * 2 ^ 16 + w % 256 * 2 ^ 24

-- `htonl(~mm)`, where `mm` is 32 ones shifted by `n`.
unfoldable pub mask_of_length : ℕ → ℕ
unfolding htonl
mask_of_length n = if n == 32 then htonl 0xffffffff else htonl (0xffffffff - 0xffffffff / 2 ^ n)

-- A length above 32 is reported, and leaves the mask as it is.
unfoldable pub set_length : ℤ → Options → Options
unfolding mask_of_length
set_length n options =
    if ltb_ℤ (pos 32) n
    then options
    else record options { netfiltermask = mask_of_length (pos_part n) }

abbrev pub masked_net : Options → Options
masked_net options = record options {
  netfilternet = bit_and options.netfilternet options.netfiltermask;
}

-- What the text behind the slash does; the flag is the C function's result.
unfoldable pub set_mask : (Text → Option ℕ) → Text → Options → Options × Bool
unfolding set_length
set_mask inet_aton mask options = elim (drop_while is_digit mask) [
  | [] ↦ (masked_net (record (set_length (atoi mask) options) { netfilter = true }), true)
  | c ∷ s ↦ elim (inet_aton mask) [
    | none ↦ (options, false)
    | some m ↦ (masked_net (record options { netfiltermask = m; netfilter = true }), true)
  ]
]

unfoldable pub set_net_filter : (Text → Option ℕ) → Text → Options → Options × Bool
unfolding set_mask
set_net_filter inet_aton s options =
    let off = record options { netfilter = false } in
    elim (strchr s b'/') [
      | none ↦ (off, false)
      | some (addr, mask) ↦ elim (inet_aton addr) [
        | none ↦ (off, false)
        | some net ↦ set_mask inet_aton mask (record off { netfilternet = net })
      ]
    ]

-- The slash in the configuration's own copy of the value is overwritten by its end.
unfoldable pub cut_net_filter : Text → Config → Config
unfolding set_item
cut_net_filter s config = elim (strchr s b'/') [
  | none ↦ config
  | some (addr, mask) ↦ Option.map (λ t. set_item t (codes "net-filter") addr) config
]

unfoldable pub options_config_get_net_filter :
    (Text → Option ℕ) → Config → Options → Config × Options × Bool
unfolding set_net_filter cut_net_filter
options_config_get_net_filter inet_aton config options =
    elim (config_get_string config (codes "net-filter")) [
      | none ↦ (config, options, false)
      | some s ↦
          let (options', found) = set_net_filter inet_aton s options in
          (cut_net_filter s config, options', found)
    ]
