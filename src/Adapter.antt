-- ===== src/Adapter.antt =====
-- addrs_ioctl.c: the addresses of the network interface. What the system calls return is the record
-- `System`; the addresses of an `ifaddrs` list are in its order.
pub mod First
use iftop_dotqoo.Prelude.{
  Bool, List, Option, [], bit_and, false, if◌then◌else◌, none, replicate, some, take, true, ℕ, ◌&&◌,
  ◌+◌, ◌==◌, ◌||◌, ◌∷◌,
}
use iftop_dotqoo.Text.{Text, equal}
use iftop_dotqoo.NsHash.{In6Addr}

pub data SockAddr : Type 0 where
  sockaddr_in : ℕ → SockAddr
  sockaddr_in6 : In6Addr → SockAddr
  sockaddr_other : SockAddr

pub record IfAddr : Type 0 where
  pub ifa_name : Text
  pub ifa_addr : Option SockAddr

-- `as_in6` is what lies where the address of a `sockaddr_in6` would, in a `sockaddr_in`. The build
-- chooses between getifaddrs and the ioctl.
pub record System : Type 0 where
  pub socket : Bool
  pub siocgifhwaddr : Option (List ℕ)
  pub use_getifaddrs : Bool
  pub getifaddrs : Option (List IfAddr)
  pub siocgifaddr : Option ℕ
  pub as_in6 : ℕ → In6Addr

-- The addresses that have been found.
pub record Found : Type 0 where
  pub if_ip_addr : Option ℕ
  pub if_ip6_addr : Option In6Addr

-- `IN6_IS_ADDR_LINKLOCAL` or `IN6_IS_ADDR_SITELOCAL`, on a little-endian word.
unfoldable pub is_local : In6Addr → Bool
is_local a = bit_and a.word0 0xc0ff == 0x80fe || bit_and a.word0 0xc0ff == 0xc0fe

abbrev pub is_some {ℓ} : {A : Type ℓ} → Option A → Bool
is_some none = false
is_some (some a) = true

unfoldable pub take_in6 : In6Addr → Found → Found
unfolding is_local
take_in6 a f = if is_local a then f else record f { if_ip6_addr = some a }

-- An IPv4 address behind the first one goes on to the code for IPv6.
unfoldable pub take_addr : (ℕ → In6Addr) → Option SockAddr → Found → Found
unfolding take_in6
take_addr as_in6 none f = f
take_addr as_in6 (some sockaddr_other) f = f
take_addr as_in6 (some (sockaddr_in6 a)) f = take_in6 a f
take_addr as_in6 (some (sockaddr_in a)) f =
    if is_some f.if_ip_addr then take_in6 (as_in6 a) f else record f { if_ip_addr = some a }

unfoldable pub ifaddrs_loop : (ℕ → In6Addr) → Text → List IfAddr → Found → Found
unfolding take_addr
ifaddrs_loop as_in6 interface [] f = f
ifaddrs_loop as_in6 interface (ifa ∷ ifas) f =
    let f' = if equal ifa.ifa_name interface then take_addr as_in6 ifa.ifa_addr f else f in
    let rest = ifaddrs_loop as_in6 interface ifas f' in
    if is_some f.if_ip_addr && is_some f.if_ip6_addr then f else rest

abbrev pub nothing : Found
nothing = record { if_ip_addr = none; if_ip6_addr = none }

unfoldable pub find_ip : System → Text → Found
unfolding ifaddrs_loop
find_ip system interface =
    if system.use_getifaddrs
    then elim system.getifaddrs [
      | none ↦ nothing
      | some ifas ↦ ifaddrs_loop system.as_in6 interface ifas nothing
    ]
    else record nothing { if_ip_addr = system.siocgifaddr }

-- The result with the addresses, where the function does not return -1.
unfoldable pub get_addrs_ioctl : System → Text → Option (ℕ × List ℕ × Found)
unfolding find_ip
get_addrs_ioctl system interface =
    let f = find_ip system interface in
    let got_hw_addr = if is_some system.siocgifhwaddr then 1 else 0 in
    let got_ip_addr = if is_some f.if_ip_addr then 2 else 0 in
    let got_ip6_addr = if is_some f.if_ip6_addr then 4 else 0 in
    let if_hw_addr : List ℕ = elim system.siocgifhwaddr [
      | none ↦ replicate 6 0
      | some data' ↦ take 6 data'
    ] in
    if system.socket then some (got_hw_addr + got_ip_addr + got_ip6_addr, if_hw_addr, f) else none
