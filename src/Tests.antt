-- ===== src/Tests.antt =====
-- Concrete runs: the theorems applied to small tables, packets and messages.
mod Tables
mod Containers
mod Reports
mod Packets
mod Names
mod Settings
mod Typing
mod CommandLine
pub mod Startup
mod Traffic
mod Accounts
mod Lookups
mod Printouts
pub mod Client
use iftop_dotqoo.Prelude.{[], arith, false, none, refl, some, take, true, ◌∙◌, ◌∷◌, ◌≡◌}
use iftop_dotqoo.Prelude.Int.{negsuc, pos}
use iftop_dotqoo.Hash.{hash_find, hash_initialise, hash_insert}
use iftop_dotqoo.Hash.Table.{IsValid}
use iftop_dotqoo.Hash.Lookup.{hash_initialise_lem, hash_insert_lem, update}
use iftop_dotqoo.AddrHash.{AddrPair, addr_ops, addr_ops-IsLawful, compare}
use iftop_dotqoo.Options.{Options}
use iftop_dotqoo.History.{History, HistoryType}
use iftop_dotqoo.Message.{Platform}
use iftop_dotqoo.Mqtt.{Mqtt}
use iftop_dotqoo.Mqtt.Safety.{IsSound, idle}
use iftop_dotqoo.Mqtt.Topic.{unset}
use iftop_dotqoo.Capture.{Broker, Capture, World}
use iftop_dotqoo.Capture.Tick.{IsReady, IsUsual}
use iftop_dotqoo.Packet.{Interface}

-- 192.168.1.1:50000 to 8.8.8.8:443 over TCP, and 192.168.1.2:6000 to 8.8.4.4:53 over UDP.
abbrev pub web : AddrPair
web = record { protocol = 6; src = 16885952; src_port = 50000; dst = 134744072; dst_port = 443 }

abbrev pub dns : AddrPair
dns = record { protocol = 17; src = 33663168; src_port = 6000; dst = 67373064; dst_port = 53 }

-- A connection that is approved, and one that has ended at once.
abbrev pub steady : HistoryType
steady = record {
  total_sent = 5000;
  total_recv = 90000;
  create_time = 100;
  last_update_time = 160;
  approval = true;
}

abbrev pub brief : HistoryType
brief = record {
  total_sent = 60;
  total_recv = 120;
  create_time = 100;
  last_update_time = 101;
  approval = false;
}

abbrev pub no_history : History
no_history = (hash_initialise addr_ops).0

abbrev pub one_item : History
one_item = (hash_insert addr_ops no_history web steady).0

abbrev pub two_items : History
two_items = (hash_insert addr_ops one_item dns brief).0

abbrev pub no_history_lem :
    IsValid addr_ops no_history × ((k : AddrPair) → hash_find addr_ops no_history k ≡ none)
no_history_lem = hash_initialise_lem {R = HistoryType} addr_ops addr_ops-IsLawful

pub no_history-IsValid : IsValid addr_ops no_history
no_history-IsValid = no_history_lem.0

pub web-absent : hash_find addr_ops no_history web ≡ none
web-absent = no_history_lem.1 web

pub one_item-IsValid : IsValid addr_ops one_item
one_item-IsValid =
    (hash_insert_lem addr_ops addr_ops-IsLawful no_history web steady no_history-IsValid
      web-absent).0

pub reads_one :
    (q : AddrPair)
    → hash_find addr_ops one_item q
      ≡ update addr_ops (hash_find addr_ops no_history) web (some steady) q
reads_one =
    (hash_insert_lem addr_ops addr_ops-IsLawful no_history web steady no_history-IsValid
      web-absent).1

pub web-found : hash_find addr_ops one_item web ≡ some steady
unfolding compare
web-found = reads_one web

pub dns-absent : hash_find addr_ops one_item dns ≡ none
unfolding compare
dns-absent = reads_one dns ∙ no_history_lem.1 dns

pub two_items-IsValid : IsValid addr_ops two_items
two_items-IsValid =
    (hash_insert_lem addr_ops addr_ops-IsLawful one_item dns brief one_item-IsValid dns-absent).0

-- The net 192.168.1.0/24, seen from inside. ICMP is blocked.
abbrev pub options : Options
options = record {
  promiscuous_but_choosy = false;
  netfilter = true;
  netfilternet = 108736;
  netfiltermask = 16777215;
  history_delete_interval = pos 20;
  threshold = pos 1000;
  duration = pos 5;
  block_protocols = pos 1 ∷ negsuc 0 ∷ [];
  send_interval = pos 60;
  send_last = 0;
}

abbrev pub platform : Platform
platform = record { long_size = 4; time_size = 4; behind_src = λ k. 0; behind_dst = λ k. 0 }

-- The compression is replaced by a cut to the room there is.
abbrev pub world : World
world = record {
  stale = λ d. d.approval;
  deflate = λ bytes room. take room bytes;
  platform = platform;
}

pub world-IsUsual : IsUsual world
world-IsUsual = record { kind = λ d. refl; wide = omega arith }

abbrev pub broker : Broker
broker = record { connects = true; publish_token = pos 7 }

-- The client when it is connected and has nothing under way.
abbrev pub connected : Mqtt
connected = record unset { last_try = 50 }

pub connected-IsSound : IsSound connected
connected-IsSound = idle refl refl refl

abbrev pub capture : Capture
capture = record {
  options = options;
  history = two_items;
  sent_in_total = 0;
  recv_in_total = 0;
  last_timestamp = 50;
  mqtt = connected;
}

pub capture-IsReady : IsReady capture
capture-IsReady = record { table = two_items-IsValid; client = connected-IsSound }

abbrev pub iface : Interface
iface = record {
  have_hw_addr = true;
  if_hw_addr = 2 ∷ 0 ∷ 0 ∷ 0 ∷ 0 ∷ 1 ∷ [];
  have_ip_addr = false;
  if_ip_addr = 0;
  port_list = pos 137 ∷ pos 138 ∷ negsuc 0 ∷ [];
}
