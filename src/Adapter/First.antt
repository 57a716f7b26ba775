-- ===== src/Adapter/First.antt =====
-- addrs_ioctl.c: which address is found when the system lists them, and what `packet_init` of
-- iftop.c reads in the result.
use iftop_dotqoo.Prelude.{
  Bool, Bool-cases, List, Option, Option-cases, [], ap, arith, bit_and, false, if◌then◌else◌, inl,
  inr, none, not, or_else, or_else-none, or_else_assoc, refl, replicate, some, sym, take, true, ℕ,
  ◌&&◌, ◌+◌, ◌==◌, ◌∙◌, ◌∷◌, ◌≡◌, ◌≤◌, ◌⊎◌,
}
use iftop_dotqoo.Text.{Text, equal}
use iftop_dotqoo.NsHash.{In6Addr}
use iftop_dotqoo.Frame.{interface_of}
use iftop_dotqoo.Prelude.Int.{ℤ}
use iftop_dotqoo.Adapter.{
  Found, IfAddr, SockAddr, System, find_ip, get_addrs_ioctl, ifaddrs_loop, is_local, is_some,
  nothing, sockaddr_in, sockaddr_in6, sockaddr_other, take_addr, take_in6,
}

abbrev ipv4_of : Option SockAddr → Option ℕ
ipv4_of none = none
ipv4_of (some (sockaddr_in a)) = some a
ipv4_of (some (sockaddr_in6 a)) = none
ipv4_of (some sockaddr_other) = none

-- The first IPv4 address of the interface in a list of addresses.
unfoldable pub first_ipv4 : Text → List IfAddr → Option ℕ
first_ipv4 interface [] = none
first_ipv4 interface (ifa ∷ ifas) =
    let rest = first_ipv4 interface ifas in
    if equal ifa.ifa_name interface then or_else (ipv4_of ifa.ifa_addr) rest else rest

-- How many IPv4 addresses the interface has.
unfoldable pub ipv4_count : Text → List IfAddr → ℕ
ipv4_count interface [] = 0
ipv4_count interface (ifa ∷ ifas) =
    let rest = ipv4_count interface ifas in
    if equal ifa.ifa_name interface && is_some (ipv4_of ifa.ifa_addr) then rest + 1 else rest

-- The interface has the IPv6 address `a`, which is neither link-local nor site-local.
pub data IsUseful (interface : Text) (a : In6Addr) : List IfAddr → Type 0 where
  here :
      (ifa : IfAddr) (ifas : List IfAddr)
      → equal ifa.ifa_name interface ≡ true
      → ifa.ifa_addr ≡ some (sockaddr_in6 a)
      → is_local a ≡ false
      → IsUseful interface a (ifa ∷ ifas)
  there :
      (ifa : IfAddr) (ifas : List IfAddr)
      → IsUseful interface a ifas
      → IsUseful interface a (ifa ∷ ifas)

module _ (as_in6 : ℕ → In6Addr) (interface : Text) where
  take_in6-ipv4 : (a : In6Addr) (f : Found) → (take_in6 a f).if_ip_addr ≡ f.if_ip_addr
  unfolding take_in6
  take_in6-ipv4 a f = ground arith

  take_addr-ipv4 :
      (addr : Option SockAddr) (f : Found)
      → (take_addr as_in6 addr f).if_ip_addr ≡ or_else f.if_ip_addr (ipv4_of addr)
  unfolding take_addr
  take_addr-ipv4 none f = sym (or_else-none f.if_ip_addr)
  take_addr-ipv4 (some sockaddr_other) f = sym (or_else-none f.if_ip_addr)
  take_addr-ipv4 (some (sockaddr_in6 a)) f = take_in6-ipv4 a f ∙ sym (or_else-none f.if_ip_addr)
  take_addr-ipv4 (some (sockaddr_in a)) f = ground (arith, take_in6-ipv4 (as_in6 a) f)

  ifaddrs_loop-ipv4 :
      (ifas : List IfAddr) (f : Found)
      → (ifaddrs_loop as_in6 interface ifas f).if_ip_addr
        ≡ or_else f.if_ip_addr (first_ipv4 interface ifas)
  unfolding ifaddrs_loop first_ipv4
  ifaddrs_loop-ipv4 [] f = sym (or_else-none f.if_ip_addr)
  ifaddrs_loop-ipv4 (ifa ∷ ifas) f = ground (
    arith,
    ifaddrs_loop-ipv4 ifas (take_addr as_in6 ifa.ifa_addr f),
    ifaddrs_loop-ipv4 ifas f,
    take_addr-ipv4 ifa.ifa_addr f,
    or_else_assoc f.if_ip_addr (ipv4_of ifa.ifa_addr) (first_ipv4 interface ifas),
  )

  -- What one address leaves, where it is not a second IPv4 address.
  take_addr-ipv6 :
      (ifa : IfAddr) (ifas : List IfAddr) (f : Found) (a : In6Addr)
      → equal ifa.ifa_name interface ≡ true
      → (is_some f.if_ip_addr && is_some (ipv4_of ifa.ifa_addr)) ≡ false
      → (take_addr as_in6 ifa.ifa_addr f).if_ip6_addr ≡ some a
      → (f.if_ip6_addr ≡ some a) ⊎ IsUseful interface a (ifa ∷ ifas)
  unfolding take_addr take_in6
  take_addr-ipv6 ifa ifas f a named single e = elim (Option-cases ifa.ifa_addr) [
    | inl missing ↦ inl (ground (arith, missing))
    | inr (sockaddr_other, is) ↦ inl (ground (arith, is))
    | inr (sockaddr_in b, is) ↦ inl (ground (arith, is))
    | inr (sockaddr_in6 b, is) ↦ elim (Bool-cases (is_local b)) [
      | inl near ↦ inl (ground (arith, is))
      | inr far ↦
          let same : b ≡ a = ground (arith, is) in
          inr (here ifa ifas named (is ∙ ap (λ x. some (sockaddr_in6 x)) same) (rw (← same) far))
    ]
  ]

  ifaddrs_loop-ipv6 :
      (ifas : List IfAddr) (f : Found) (a : In6Addr)
      → ipv4_count interface ifas + (if is_some f.if_ip_addr then 1 else 0) ≤ 1
      → (ifaddrs_loop as_in6 interface ifas f).if_ip6_addr ≡ some a
      → (f.if_ip6_addr ≡ some a) ⊎ IsUseful interface a ifas
  unfolding ifaddrs_loop ipv4_count
  ifaddrs_loop-ipv6 [] f a few e = inl e
  ifaddrs_loop-ipv6 (ifa ∷ ifas) f a few e =
      elim (Bool-cases (is_some f.if_ip_addr && is_some f.if_ip6_addr)) [
        | inl complete ↦ inl (ground arith)
        | inr searching ↦ elim (Bool-cases (equal ifa.ifa_name interface)) [
          | inr other ↦ elim (ifaddrs_loop-ipv6 ifas f a (ground arith) (ground arith)) [
            | inl before ↦ inl before
            | inr later ↦ inr (there ifa ifas later)
          ]
          | inl named ↦
              let first = take_addr-ipv4 ifa.ifa_addr f in
              elim (ifaddrs_loop-ipv6 ifas (take_addr as_in6 ifa.ifa_addr f) a (ground arith)
                (ground arith)) [
                  | inl now ↦ take_addr-ipv6 ifa ifas f a named (ground arith) now
                  | inr later ↦ inr (there ifa ifas later)
                ]
        ]
      ]

  take_addr-keeps :
      (addr : Option SockAddr) (f : Found)
      → is_some f.if_ip6_addr ≡ true
      → is_some (take_addr as_in6 addr f).if_ip6_addr ≡ true
  unfolding take_addr take_in6
  take_addr-keeps none f h = h
  take_addr-keeps (some sockaddr_other) f h = h
  take_addr-keeps (some (sockaddr_in a)) f h = ground arith
  take_addr-keeps (some (sockaddr_in6 a)) f h = ground arith

  ifaddrs_loop-keeps :
      (ifas : List IfAddr) (f : Found)
      → is_some f.if_ip6_addr ≡ true
      → is_some (ifaddrs_loop as_in6 interface ifas f).if_ip6_addr ≡ true
  unfolding ifaddrs_loop
  ifaddrs_loop-keeps [] f h = h
  ifaddrs_loop-keeps (ifa ∷ ifas) f h = ground (
    arith,
    take_addr-keeps ifa.ifa_addr f,
    ifaddrs_loop-keeps ifas f,
    ifaddrs_loop-keeps ifas (take_addr as_in6 ifa.ifa_addr f),
  )

  take_in6-finds :
      (ifa : IfAddr) (a : In6Addr) (f : Found)
      → ifa.ifa_addr ≡ some (sockaddr_in6 a)
      → is_local a ≡ false
      → is_some (take_addr as_in6 ifa.ifa_addr f).if_ip6_addr ≡ true
  unfolding take_addr take_in6
  take_in6-finds ifa a f is far = rw is (ground arith)

  ifaddrs_loop-finds :
      (a : In6Addr) (ifas : List IfAddr) (f : Found)
      → IsUseful interface a ifas
      → is_some (ifaddrs_loop as_in6 interface ifas f).if_ip6_addr ≡ true
  unfolding ifaddrs_loop
  ifaddrs_loop-finds a _ f (here ifa ifas named is far) = ground (
    arith,
    take_in6-finds ifa a f is far,
    ifaddrs_loop-keeps ifas (take_addr as_in6 ifa.ifa_addr f),
  )
  ifaddrs_loop-finds a _ f (there ifa ifas later) = ground (
    arith,
    ifaddrs_loop-finds a ifas f later,
    ifaddrs_loop-finds a ifas (take_addr as_in6 ifa.ifa_addr f) later,
  )

flag : Bool → ℕ → ℕ
flag b n = if b then n else 0

-- The bits of the result are the three flags.
result_bits :
    (hw ip ip6 : Bool)
    → let result = flag hw 1 + flag ip 2 + flag ip6 4 in
      (not (bit_and result 0x01 == 0) ≡ hw) × (not (bit_and result 0x02 == 0) ≡ ip)
unfolding flag
result_bits true true true = (refl, refl)
result_bits true true false = (refl, refl)
result_bits true false true = (refl, refl)
result_bits true false false = (refl, refl)
result_bits false true true = (refl, refl)
result_bits false true false = (refl, refl)
result_bits false false true = (refl, refl)
result_bits false false false = (refl, refl)

-- The system lists the addresses, and the interface has one IPv4 address at most. Then
-- `get_addrs_ioctl` returns, `packet_init` takes the interface to have an IP address just if it has
-- an IPv4 address, and then it is that one; to have a hardware address just if the system gives one;
-- and the IPv6 address that is found is one of the interface's that is neither link-local nor
-- site-local, and one is found if there is one.
pub get_addrs_ioctl-interface_of :
    (system : System) (interface : Text) (ifas : List IfAddr) (port_list : List ℤ)
    → system.socket ≡ true
    → system.use_getifaddrs ≡ true
    → system.getifaddrs ≡ some ifas
    → ipv4_count interface ifas ≤ 1
    → (result : ℕ) × (hw : List ℕ) × (f : Found) × (get_addrs_ioctl system interface
        ≡ some (result, hw, f))
      × (f.if_ip_addr ≡ first_ipv4 interface ifas)
      × ((a : ℕ)
          → (interface_of result hw a port_list).have_ip_addr ≡ is_some (first_ipv4 interface ifas))
      × ((a : ℕ) → (interface_of result hw a port_list).have_hw_addr ≡ is_some system.siocgifhwaddr)
      × ((a : In6Addr) → f.if_ip6_addr ≡ some a → IsUseful interface a ifas)
      × ((a : In6Addr) → IsUseful interface a ifas → is_some f.if_ip6_addr ≡ true)
unfolding get_addrs_ioctl find_ip interface_of flag
get_addrs_ioctl-interface_of system interface ifas port_list open' lists listed few =
    let f = ifaddrs_loop system.as_in6 interface ifas nothing in
    let found = ifaddrs_loop-ipv4 system.as_in6 interface ifas nothing in
    let bits =
      result_bits (is_some system.siocgifhwaddr) (is_some f.if_ip_addr) (is_some f.if_ip6_addr) in
    let hw : List ℕ = elim system.siocgifhwaddr [
      | none ↦ replicate 6 0
      | some data' ↦ take 6 data'
    ] in
    (
      flag (is_some system.siocgifhwaddr) 1
          + flag (is_some f.if_ip_addr) 2
          + flag (is_some f.if_ip6_addr) 4,
      hw,
      f,
      rw (get_addrs_ioctl, find_ip, open', lists, listed),
      found,
      λ a. bits.1 ∙ ap (λ x. is_some x) found,
      λ a. bits.0,
      λ a e.
          elim (ifaddrs_loop-ipv6 system.as_in6 interface ifas nothing a (omega (arith, few)) e) [
            | inl before ↦ cc
            | inr useful ↦ useful
          ],
      λ a useful. ifaddrs_loop-finds system.as_in6 interface a ifas nothing useful,
    )
