-- ===== src/Resolver/Half.antt =====
-- The table of names in resolver.c is keyed by the first 16 bytes of a `struct addr_storage`, of which
-- only 8 belong to the address.
use iftop_dotqoo.Prelude.{lt→ltb, refl, some, sym, take, true, ℕ, ◌-◌, ◌<◌, ◌∙◌, ◌≡◌}
use iftop_dotqoo.Hash.{hash_find}
use iftop_dotqoo.NsHash.{In6Addr, ns_ops}
use iftop_dotqoo.Resolver.{AddrStorage, Name, Resolver, af_inet6, make_raddr, ns_key, resolve}

make_raddr_ipv6 :
    (addr : In6Addr)
    → ns_key (make_raddr af_inet6 addr)
      ≡ record { word0 = 10; word1 = 16; word2 = addr.word0; word3 = addr.word1 }
unfolding make_raddr
make_raddr_ipv6 addr = refl

-- Two IPv6 addresses with the same first 64 bits: once the first has a name, `resolve` gives the
-- second one that name, and neither looks it up nor queues it.
pub resolve-same_half :
    (inet_ntop : AddrStorage → Name) (addr other : In6Addr) (buflen : ℕ) (r : Resolver)
    (hostname : Name)
    → other.word0 ≡ addr.word0
    → other.word1 ≡ addr.word1
    → 1 < buflen
    → hash_find ns_ops r.ns_hash (ns_key (make_raddr af_inet6 addr)) ≡ some hostname
    → resolve inet_ntop true af_inet6 other buflen r ≡ (r, some (take (buflen - 1) hostname))
unfolding resolve
resolve-same_half inet_ntop addr other buflen r hostname w0 w1 room found =
    let same : ns_key (make_raddr af_inet6 addr) ≡ ns_key (make_raddr af_inet6 other) =
      make_raddr_ipv6 addr ∙ rw (← w0, ← w1) (sym (make_raddr_ipv6 other)) in
    let here : hash_find ns_ops r.ns_hash (ns_key (make_raddr af_inet6 other)) ≡ some hostname =
      rw (← same) found in
    rw (resolve, here, lt→ltb 1 buflen room)
