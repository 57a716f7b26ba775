-- ===== src/Options/Make/Defaults.antt =====
-- The options before the command line is read: `options_set_defaults` of options.c, and its choice of
-- an interface. The names of the interfaces, whether one of them is up, the time and the setting of
-- the build are what the record `Host` holds.
use iftop_dotqoo.Prelude.{
  Bool, List, Option, [], false, if◌then◌else◌, none, not, replicate, some, true, ℕ, ◌&&◌, ◌==◌,
  ◌∷◌,
}
use iftop_dotqoo.Prelude.Int.{negsuc, pos}
use iftop_dotqoo.Options.{Options}
use iftop_dotqoo.Text.{Text, codes, equal}
use iftop_dotqoo.Options.Make.{Display}
use iftop_dotqoo.Options.Make.NetFilter6.{Library}

pub record Host : Type 0 where
  pub need_promiscuous_for_outgoing : Bool
  pub nameindex : Option (List Text)
  pub iff_up : Text → Bool
  pub time : ℕ

abbrev pub bad_interface_names : List Text
bad_interface_names =
    codes "lo:"
    ∷ codes "lo"
    ∷ codes "stf"
    ∷ codes "gif"
    ∷ codes "dummy"
    ∷ codes "vmnet"
    ∷ codes "wmaster"
    ∷ []

-- `strncmp` of a name and a prefix, over the length of the prefix.
unfoldable pub starts_with : Text → Text → Bool
starts_with [] s = true
starts_with (p ∷ prefix) [] = false
starts_with (p ∷ prefix) (c ∷ s) = let rest = starts_with prefix s in c == p && rest

unfoldable pub bad_name_loop : List Text → Text → Bool
unfolding starts_with
bad_name_loop [] i = false
bad_name_loop (p ∷ names) i =
    let rest = bad_name_loop names i in if starts_with p i then true else rest

unfoldable pub is_bad_interface_name : Text → Bool
unfolding bad_name_loop
is_bad_interface_name i = bad_name_loop bad_interface_names i

unfoldable pub interface_loop : (Text → Bool) → List Text → Option Text
unfolding is_bad_interface_name
interface_loop iff_up [] = none
interface_loop iff_up (name ∷ names) =
    let rest = interface_loop iff_up names in
    if not (equal name (codes "lo")) && not (is_bad_interface_name name)
    then if iff_up name then some name else rest
    else rest

unfoldable pub get_first_interface : Host → Option Text
unfolding interface_loop
get_first_interface host = elim host.nameindex [
  | none ↦ none
  | some names ↦ interface_loop host.iff_up names
]

-- What an address is read as; a variable that is not written holds the zeros that it starts with.
abbrev or_zero : Option ℕ → ℕ
or_zero none = 0
or_zero (some n) = n

abbrev or_zeros : Option (List ℕ) → List ℕ
or_zeros none = replicate 16 0
or_zeros (some bytes) = bytes

unfoldable pub options_set_defaults : Library → Host → Options × Display
unfolding get_first_interface
options_set_defaults library host = (
  record {
    promiscuous_but_choosy = host.need_promiscuous_for_outgoing;
    netfilter = false;
    netfilternet = or_zero (library.inet_aton (codes "10.0.1.0"));
    netfiltermask = or_zero (library.inet_aton (codes "255.255.255.0"));
    history_delete_interval = pos 0;
    threshold = pos 0;
    duration = pos 0;
    block_protocols = replicate 32 (negsuc 0);
    send_interval = pos 0;
    send_last = host.time;
  },
  record {
    interface = elim (get_first_interface host) [ none ↦ some (codes "eth0") | some i ↦ some i ];
    dnsresolution = true;
    portresolution = true;
    filtercode = none;
    showbars = true;
    showports = 3;
    promiscuous = host.need_promiscuous_for_outgoing;
    aggregate_src = false;
    aggregate_dest = false;
    timed_output = pos 0;
    no_curses = false;
    num_lines = pos 10;
    bandwidth_in_bytes = true;
    sort = 1;
    screenfilter = none;
    linedisplay = 0;
    show_totals = true;
    max_bandwidth = 0;
    log_scale = false;
    netfilter6 = false;
    netfilter6net = or_zeros (library.inet_pton (codes "fe80::"));
    netfilter6mask = or_zeros (library.inet_pton (codes "ffff::"));
    link_local = false;
  },
)
