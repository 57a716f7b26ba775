-- ===== src/Resolver/Lookup.antt =====
-- The ways in which resolver.c looks up the name of an address, `do_resolve`, of which the build
-- chooses one. The functions of the system and of ares are arguments.
pub mod Growth
pub mod Reverse
pub mod Fork
pub mod Ares
use iftop_dotqoo.Prelude.{
  Bool, List, Option, [], if◌then◌else◌, none, some, suc, take, zero, ℕ, ◌%◌, ◌&&◌, ◌*◌, ◌++◌, ◌/◌,
  ◌==◌, ◌^◌, ◌||◌, ◌∷◌,
}
use iftop_dotqoo.Text.{Text, codes}
use iftop_dotqoo.Text.Decimal.{print_decimal}
use iftop_dotqoo.Resolver.{AddrStorage, Name, af_inet, af_inet6}

abbrev pub is_inet : AddrStorage → Bool
is_inet addr = addr.af == af_inet || addr.af == af_inet6

-- With getnameinfo; a result other than 0 is `none`.
unfoldable pub resolve_getnameinfo : (AddrStorage → Option Name) → AddrStorage → Option Name
resolve_getnameinfo getnameinfo addr = if is_inet addr then getnameinfo addr else none

-- What gethostbyaddr_r returns, for a buffer of some size.
pub data HostAnswer : Type 0 where
  erange failed : HostAnswer
  host : Name → HostAnswer

abbrev pub name_of : HostAnswer → Option Name
name_of erange = none
name_of failed = none
name_of (host name) = some name

abbrev pub unless_erange : HostAnswer → Option HostAnswer → Option HostAnswer
unless_erange erange larger = larger
unless_erange failed larger = some failed
unless_erange (host name) larger = some (host name)

-- The loop that doubles the buffer; `none` is the end of the fuel.
unfoldable pub enlarge : (ℕ → HostAnswer) → ℕ → ℕ → Option HostAnswer
enlarge answer zero hstbuflen = none
enlarge answer (suc fuel) hstbuflen =
    let larger = enlarge answer fuel (hstbuflen * 2) in unless_erange (answer hstbuflen) larger

unfoldable pub resolve_gethostbyaddr_r :
    (AddrStorage → ℕ → HostAnswer) → ℕ → AddrStorage → Option (Option Name)
unfolding enlarge
resolve_gethostbyaddr_r gethostbyaddr_r fuel addr =
    if is_inet addr
    then elim (enlarge (gethostbyaddr_r addr) fuel 1024) [ none ↦ none | some a ↦ some (name_of a) ]
    else some none

-- The octet `i` of an IPv4 address.
abbrev pub octet : ℕ → AddrStorage → ℕ
octet i addr = addr.word0 / 2 ^ (8 * i) % 256

abbrev pub dotted : ℕ → Text → Text
dotted n s = print_decimal n ++ (b'.' ∷ s)

-- The name under which the name of an IPv4 address is asked for: "%d.%d.%d.%d.in-addr.arpa."
unfoldable pub reverse_name : AddrStorage → Text
reverse_name addr =
    dotted (octet 3 addr) (
      dotted (octet 2 addr) (dotted (octet 1 addr) (dotted (octet 0 addr) (codes "in-addr.arpa."))))

-- A record of the answer; `rdata` is its name where it is a pointer.
pub record Answer : Type 0 where
  pub parses : Bool
  pub is_ptr : Bool
  pub rdata : Name

unfoldable pub ptr_loop : List Answer → Option Name → Option Name
ptr_loop [] ret = ret
ptr_loop (rr ∷ answers) ret =
    ptr_loop answers (if rr.parses && rr.is_ptr then some (take 255 rr.rdata) else ret)

-- With libresolv; `none` is a search that fails, or a message that cannot be parsed.
unfoldable pub resolve_libresolv : (Text → Option (List Answer)) → AddrStorage → Option Name
unfolding reverse_name ptr_loop
resolve_libresolv res_search addr =
    if addr.af == af_inet
    then elim (res_search (reverse_name addr)) [
      | none ↦ none
      | some answers ↦ ptr_loop answers none
    ]
    else none
