-- ===== src/Program.antt =====
-- `main` of iftop.c, with `packet_init` and `set_filter_code`, and the key loop of tui.c. What pcap
-- answers is the record `Pcap`; a filter program is known by its text.
pub mod Filter
pub mod Start
pub mod Traffic
use iftop_dotqoo.Prelude.{
  Bool, List, Option, [], false, if◌then◌else◌, length, none, not, some, true, ℕ, ◌++◌, ◌+◌, ◌==◌,
  ◌||◌, ◌∷◌,
}
use iftop_dotqoo.Prelude.Int.{ℤ}
use iftop_dotqoo.Run.{Run, fault, ok, ◌>>=◌, null_dereference}
use iftop_dotqoo.Text.{Text, codes}
use iftop_dotqoo.Options.Args.{Args, Opt, broker}
use iftop_dotqoo.Options.Make.{Display}
use iftop_dotqoo.Options.Make.NetFilter6.{Library}
use iftop_dotqoo.Options.Make.Defaults.{Host}
use iftop_dotqoo.Options.Make.Start.{Started, running, start_up, stopped}
use iftop_dotqoo.Mqtt.{Mqtt}
use iftop_dotqoo.Mqtt.Topic.{init_mqtt, strcpy, unset}
use iftop_dotqoo.Mqtt.Shutdown.{destory_mqtt}
use iftop_dotqoo.Capture.{Broker, Capture, World, init_history, tick}
use iftop_dotqoo.Packet.{Interface}
use iftop_dotqoo.Frame.{Datagram, Datalink, interface_of, packet_handler}
use iftop_dotqoo.Adapter.{System, get_addrs_ioctl, is_some}

-- `pcap_open_live` gives the link layer of its handle, or nothing where it fails; `pcap_compile` and
-- `pcap_setfilter` say whether they succeed.
pub record Pcap : Type 0 where
  pub open_live : Text → Bool → Option Datalink
  pub compile : Text → Bool
  pub setfilter : Text → Bool
  pub geterr : Text
  pub word_align : ℕ → ℕ

-- The text that is compiled, in the space that is allocated for it.
unfoldable pub filter_text : Option Text → Run Text
unfolding strcpy
filter_text none = ok (codes "ip or ip6")
filter_text (some filter) =
    strcpy (length filter + length (codes "() and (ip or ip6)") + 1) [] 0
      (codes "(" ++ (filter ++ codes ") and (ip or ip6)"))

-- `none` is success.
unfoldable pub set_filter_code : Pcap → Option Text → Run (Option Text)
unfolding filter_text
set_filter_code pcap filter = do
  x ← filter_text filter
  ok (
      if not (pcap.compile x)
      then some pcap.geterr
      else if not (pcap.setfilter x)
      then some pcap.geterr
      else none)

abbrev pub Handler : Type 0
Handler = ℕ → List ℕ → Option Datagram

-- The program has ended with a status, or the packets of an interface go to a handler.
pub data Initialised : Type 0 where
  gives_up : ℕ → Initialised
  opened : Interface → Handler → Initialised

unfoldable pub open_pcap : Pcap → Display → Text → Interface → Run Initialised
unfolding set_filter_code
open_pcap pcap display name iface = elim (pcap.open_live name display.promiscuous) [
  | none ↦ ok (gives_up 1)
  | some dlt ↦ elim (packet_handler pcap.word_align iface dlt) [
    | none ↦ ok (gives_up 1)
    | some handler ↦ do
      m ← set_filter_code pcap display.filtercode
      ok (if is_some m then gives_up 1 else opened iface handler)
  ]
]

-- The address of the interface is 0, as a static variable, where none is found.
unfoldable pub packet_init : System → Pcap → Display → List ℤ → Run Initialised
unfolding open_pcap get_addrs_ioctl interface_of
packet_init system pcap display port_list = elim display.interface [
  | none ↦ if system.socket then fault null_dereference else ok (gives_up 1)
  | some name ↦ elim (get_addrs_ioctl system name) [
    | none ↦ ok (gives_up 1)
    | some (result, hw, found) ↦
        let if_ip_addr : ℕ = elim found.if_ip_addr [ none ↦ 0 | some a ↦ a ] in
        open_pcap pcap display name (interface_of result hw if_ip_addr port_list)
  ]
]

-- What the program finds outside: the arguments and files of its start, the system, pcap, the line
-- of `boxid`, whether the broker is reached, and the times of `init_MQTT` and `init_history`.
pub record Outside : Type 0 where
  pub library : Library
  pub host : Host
  pub getopt : List Text → List Opt × Bool
  pub args_file : Option (List Text)
  pub argv : List Text
  pub config_file : Option (List Text)
  pub system : System
  pub pcap : Pcap
  pub boxid : Option (List ℕ)
  pub connects : Bool
  pub begun : ℕ
  pub now : ℕ

pub data Monitor : Type 0 where
  ended : ℕ → Monitor
  monitors : Display → Interface → Handler → Capture → Monitor

unfoldable pub connect_client : Outside → Args → Display → Initialised → Run Monitor
unfolding init_mqtt init_history
connect_client o s display (gives_up n) = ok (ended n)
connect_client o s display (opened iface handler) =
    init_mqtt o.boxid o.connects o.begun unset >>= λ client. elim client [
      | none ↦ ok (ended 1)
      | some (m, send, retr) ↦ ok (monitors display iface handler (init_history o.now s.options m))
    ]

unfoldable pub open_capture : Outside → Started → Run Monitor
unfolding packet_init connect_client
open_capture o (stopped n) = ok (ended n)
open_capture o (running s display) =
    packet_init o.system o.pcap display s.port_list >>= connect_client o s display

-- `main` up to the start of the capture thread.
unfoldable pub main : Outside → Run Monitor
unfolding start_up open_capture
main o = start_up o.library o.host o.getopt o.args_file o.argv o.config_file >>= open_capture o

-- One round of the key loop: the character, or nothing at the end of the input; whether a signal has
-- come; and what a `tick` finds.
pub record Key : Type 0 where
  pub i : Option ℕ
  pub foad : Bool
  pub broker : Broker
  pub t : ℕ

abbrev pub is_key : ℕ → Option ℕ → Bool
is_key c none = false
is_key c (some i) = i == c

-- Whether the loop has ended, after these rounds at most.
unfoldable pub loop : World → List Key → Capture → Run (Capture × Bool)
unfolding tick
loop world [] s = ok (s, false)
loop world (k ∷ ks) s =
    let pressed = if is_key b'u' k.i then tick world k.broker false k.t s else ok s in
    let more = pressed >>= loop world ks in if is_key b'q' k.i || k.foad then ok (s, true) else more

-- `main` behind the loop: the client waits for its delivery report. `looks` is what it sees of it.
unfoldable pub main_ends : List (Option ℤ) → Capture → Run Mqtt
unfolding destory_mqtt
main_ends looks s = destory_mqtt looks s.mqtt
