-- ===== src/Options/NetFilter/Cidr.antt =====
-- A net filter that is given as address and number of bits, and the packets that it then lets
-- through.
use iftop_dotqoo.Prelude.{
  All, Option, [], arith, false, refl, some, true, ℕ, ◌++◌, ◌<◌, ◌==◌, ◌^◌, ◌∷◌, ◌≡◌, ◌≤◌,
}
use iftop_dotqoo.Prelude.Int.{ltb_ℤ, pos}
use iftop_dotqoo.Options.{Options}
use iftop_dotqoo.Text.{Text, atoi, codes, drop_while, is_digit}
use iftop_dotqoo.Config.{Config, config_get_string}
use iftop_dotqoo.Config.Lines.{strchr-append}
use iftop_dotqoo.Packet.{in_filter_net}
use iftop_dotqoo.Options.NetFilter.{
  cut_net_filter, mask_of_length, masked_net, options_config_get_net_filter, set_length, set_mask,
  set_net_filter,
}
use iftop_dotqoo.Options.NetFilter.Prefix.{mask_of_length-same_prefix, octets, same_prefix}

set_length-pos :
    (n : ℕ) (options : Options)
    → n ≤ 32
    → set_length (pos n) options ≡ record options { netfiltermask = mask_of_length n }
unfolding set_length
set_length-pos n options few =
    let not_above : ltb_ℤ (pos 32) (pos n) ≡ false = ground arith in rw (not_above) refl

set_mask_lem :
    (inet_aton : Text → Option ℕ) (mask : Text) (n : ℕ) (options : Options)
    → drop_while is_digit mask ≡ []
    → atoi mask ≡ pos n
    → n ≤ 32
    → set_mask inet_aton mask options
      ≡ (masked_net (record options { netfiltermask = mask_of_length n; netfilter = true }), true)
unfolding set_mask set_length
set_mask_lem inet_aton mask n options digits value few =
    rw (set_mask, digits, value, set_length-pos n options few) refl

cidr_result :
    (inet_aton : Text → Option ℕ) (config : Config) (options : Options) (addr mask : Text)
    (net n : ℕ)
    → config_get_string config (codes "net-filter") ≡ some (addr ++ b'/' ∷ mask)
    → All (λ c. (c == b'/') ≡ false) addr
    → inet_aton addr ≡ some net
    → drop_while is_digit mask ≡ []
    → atoi mask ≡ pos n
    → n ≤ 32
    → options_config_get_net_filter inet_aton config options ≡ (
      cut_net_filter (addr ++ b'/' ∷ mask) config,
      masked_net (record options {
        netfilter = true;
        netfilternet = net;
        netfiltermask = mask_of_length n;
      }),
      true,
    )
unfolding options_config_get_net_filter
cidr_result inet_aton config options addr mask net n given whole known digits value few =
    let off = record options { netfilter = false; netfilternet = net } in
    rw
      (
        options_config_get_net_filter,
        given,
        set_net_filter,
        strchr-append addr mask b'/' whole,
        known,
        set_mask_lem inet_aton mask n off digits value few,
      )
      refl

-- The filter that `-F addr/mask` sets is on, and lets exactly the addresses through whose first
-- bits, as many as the mask says, are those of the address; for a text without a slash that
-- `inet_aton` reads as 32 bits, and a mask of digits with a value of at most 32.
pub options_config_get_net_filter_lem :
    (inet_aton : Text → Option ℕ) (config : Config) (options : Options) (addr mask : Text)
    (net n a : ℕ)
    → config_get_string config (codes "net-filter") ≡ some (addr ++ b'/' ∷ mask)
    → All (λ c. (c == b'/') ≡ false) addr
    → inet_aton addr ≡ some net
    → drop_while is_digit mask ≡ []
    → atoi mask ≡ pos n
    → n ≤ 32
    → net < 2 ^ 32
    → a < 2 ^ 32
    → let (config', options', found) = options_config_get_net_filter inet_aton config options in
      (found ≡ true)
      × (options'.netfilter ≡ true)
      × (in_filter_net options' a ≡ same_prefix n (octets a) (octets net))
unfolding in_filter_net
options_config_get_net_filter_lem inet_aton config options addr mask net n a given whole known
      digits value few net_fits a_fits =
    rw (cidr_result inet_aton config options addr mask net n given whole known digits value few)
      (refl, refl, mask_of_length-same_prefix n a net few a_fits net_fits)
