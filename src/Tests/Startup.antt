-- ===== src/Tests/Startup.antt =====
-- A start of the program on an interface with two addresses, and the traffic that it monitors.
use iftop_dotqoo.Prelude.{List, [], arith, none, refl, some, true, ℕ, ◌∷◌, ◌≡◌, ◌≤◌}
use iftop_dotqoo.Text.{codes}
use iftop_dotqoo.NsHash.{In6Addr}
use iftop_dotqoo.Frame.{dlt_en10mb, interface_of}
use iftop_dotqoo.Adapter.{
  Found, IfAddr, System, get_addrs_ioctl, is_some, sockaddr_in, sockaddr_in6, sockaddr_other,
}
use iftop_dotqoo.Adapter.First.{IsUseful, first_ipv4, get_addrs_ioctl-interface_of, ipv4_count}
use iftop_dotqoo.Program.{Outside, Pcap}
use iftop_dotqoo.Tests.CommandLine.{file, getopt, host, library}
use iftop_dotqoo.Tests.Client.{box}

-- A global and a link-local address.
abbrev pub global : In6Addr
global = record { word0 = 288; word1 = 7; word2 = 0; word3 = 1 }

abbrev pub near : In6Addr
near = record { word0 = 0x80fe; word1 = 0; word2 = 0; word3 = 1 }

abbrev pub listed : List IfAddr
listed =
    record { ifa_name = codes "lo"; ifa_addr = some (sockaddr_in 16777343) }
    ∷ record { ifa_name = codes "wlan0"; ifa_addr = some sockaddr_other }
    ∷ record { ifa_name = codes "wlan0"; ifa_addr = some (sockaddr_in 1291954368) }
    ∷ record { ifa_name = codes "wlan0"; ifa_addr = some (sockaddr_in6 near) }
    ∷ record { ifa_name = codes "wlan0"; ifa_addr = some (sockaddr_in6 global) }
    ∷ []

abbrev pub system : System
system = record {
  socket = true;
  siocgifhwaddr = some (2 ∷ 0 ∷ 0 ∷ 0 ∷ 0 ∷ 1 ∷ 0 ∷ 0 ∷ []);
  use_getifaddrs = true;
  getifaddrs = some listed;
  siocgifaddr = none;
  as_in6 = λ a. near;
}

one_ipv4 : ipv4_count (codes "wlan0") listed ≤ 1
unfolding ipv4_count
one_ipv4 = omega arith

get_addrs_ioctl-interface_of_example :
    (result : ℕ) × (hw : List ℕ) × (f : Found) × (get_addrs_ioctl system (codes "wlan0")
      ≡ some (result, hw, f))
    × (f.if_ip_addr ≡ some 1291954368)
    × ((a : ℕ) → (interface_of result hw a []).have_ip_addr ≡ true)
    × ((a : ℕ) → (interface_of result hw a []).have_hw_addr ≡ true)
    × ((a : In6Addr) → f.if_ip6_addr ≡ some a → IsUseful (codes "wlan0") a listed)
    × ((a : In6Addr) → IsUseful (codes "wlan0") a listed → is_some f.if_ip6_addr ≡ true)
unfolding first_ipv4
get_addrs_ioctl-interface_of_example =
    get_addrs_ioctl-interface_of system (codes "wlan0") listed [] refl refl refl one_ipv4

abbrev pub pcap : Pcap
pcap = record {
  open_live = λ name promiscuous. some dlt_en10mb;
  compile = λ x. true;
  setfilter = λ x. true;
  geterr = codes "syntax error";
  word_align = λ n. n;
}

abbrev pub outside : Outside
outside = record {
  library = library;
  host = host;
  getopt = getopt;
  args_file = none;
  argv = [];
  config_file = file;
  system = system;
  pcap = pcap;
  boxid = some box;
  connects = true;
  begun = 50;
  now = 50;
}
