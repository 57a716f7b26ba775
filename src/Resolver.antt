-- ===== src/Resolver.antt =====
-- resolver.c: the queue of addresses to resolve, and the table of the names that are known. Each
-- function holds the mutex of the queue for the steps that are one definition here: `resolve`, and
-- the two halves of a round of `resolver_worker`, between which the name is looked up. A name is the
-- list of its characters. `inet_ntop` and the look-up of a name are arguments.
pub mod Ring
pub mod Half
pub mod Pending
pub mod Refine
pub mod Drain
pub mod Lookup
use iftop_dotqoo.Prelude.{
  Bool, List, Option, bit_and, get_or, if◌then◌else◌, ltb, none, replicate, set, some, suc, take,
  zero, ℕ, ◌%◌, ◌&&◌, ◌+◌, ◌-◌, ◌==◌, ◌||◌,
}
use iftop_dotqoo.Hash.{Table, hash_delete, hash_find, hash_insert}
use iftop_dotqoo.NsHash.{In6Addr, ns_hash_create, ns_ops}

abbrev pub Name : Type 0
Name = List ℕ

abbrev pub resolve_queue_length : ℕ
resolve_queue_length = 20

-- The address of IPv4 is `word0`.
pub record AddrStorage : Type 0 where
  pub af : ℕ
  pub len : ℕ
  pub word0 : ℕ
  pub word1 : ℕ
  pub word2 : ℕ
  pub word3 : ℕ

abbrev pub af_inet : ℕ
af_inet = 2

abbrev pub af_inet6 : ℕ
af_inet6 = 10

pub record Resolver : Type 0 where
  pub resolve_queue : List AddrStorage
  pub head : ℕ
  pub tail : ℕ
  pub ns_hash : Table In6Addr Name

abbrev pub no_addr : AddrStorage
no_addr = record { af = 0; len = 0; word0 = 0; word1 = 0; word2 = 0; word3 = 0 }

unfoldable pub resolver_initialise : Resolver
resolver_initialise = record {
  resolve_queue = replicate resolve_queue_length no_addr;
  head = 0;
  tail = 0;
  ns_hash = ns_hash_create;
}

-- `raddr`: cleared, and then `len` bytes of the address are copied.
unfoldable pub make_raddr : ℕ → In6Addr → AddrStorage
make_raddr af addr =
    if af == af_inet
    then record { af = af; len = 4; word0 = addr.word0; word1 = 0; word2 = 0; word3 = 0 }
    else record {
      af = af;
      len = 16;
      word0 = addr.word0;
      word1 = addr.word1;
      word2 = addr.word2;
      word3 = addr.word3;
    }

-- What the functions of ns_hash.c find where they are given a `struct addr_storage`: its first 16
-- bytes, which hold `af`, `len` and the first half of an IPv6 address.
abbrev pub ns_key : AddrStorage → In6Addr
ns_key raddr = record {
  word0 = raddr.af;
  word1 = raddr.len;
  word2 = raddr.word0;
  word3 = raddr.word1;
}

-- `IN6_IS_ADDR_LINKLOCAL` and `IN6_IS_ADDR_SITELOCAL` of <netinet/in.h>, on a little-endian word.
unfoldable pub stays_numerical : AddrStorage → Bool
stays_numerical raddr =
    raddr.af == af_inet6
    && (bit_and raddr.word0 0xc0ff == 0x80fe || bit_and raddr.word0 0xc0ff == 0xc0fe)

unfoldable pub enqueue : AddrStorage → Resolver → Resolver
unfolding stays_numerical
enqueue raddr r =
    if (r.head + 1) % resolve_queue_length == r.tail
    then r
    else if stays_numerical raddr
    then r
    else record r {
      resolve_queue = set r.resolve_queue r.head raddr;
      head = (r.head + 1) % resolve_queue_length;
    }

module _ (inet_ntop : AddrStorage → Name) where
  -- The name that is written to `result`, which has `buflen` bytes; `none` leaves it as it is.
  unfoldable pub resolve : Bool → ℕ → In6Addr → ℕ → Resolver → Resolver × Option Name
  unfolding make_raddr
  resolve dnsresolution af addr buflen r =
      let raddr = make_raddr af addr in
      let reply =
        λ (hostname : Name). if ltb 1 buflen then some (take (buflen - 1) hostname) else none in
      if dnsresolution
      then elim (hash_find ns_ops r.ns_hash (ns_key raddr)) [
        | some hostname ↦ (r, reply hostname)
        | none ↦
            let hostname = inet_ntop raddr in
            let t = (hash_insert ns_ops r.ns_hash (ns_key raddr) hostname).0 in
            (enqueue raddr (record r { ns_hash = t }), reply hostname)
      ]
      else (r, none)

-- The first half of a round of `resolver_worker`; `none` where the queue is empty.
unfoldable pub worker_take : Resolver → Option (AddrStorage × Resolver)
worker_take r =
    if r.head == r.tail
    then none
    else some (
      get_or r.resolve_queue r.tail no_addr,
      record r { tail = (r.tail + 1) % resolve_queue_length },
    )

-- The name that is there is deleted.
unfoldable pub forget : AddrStorage → Table In6Addr Name → Table In6Addr Name
forget addr t = elim (hash_find ns_ops t (ns_key addr)) [
  | none ↦ t
  | some old ↦ (hash_delete ns_ops t (ns_key addr)).0
]

-- The second half: the name replaces the one that is there.
unfoldable pub worker_store : AddrStorage → Option Name → Resolver → Resolver
unfolding forget
worker_store addr none r = r
worker_store addr (some hostname) r = record r {
  ns_hash = (hash_insert ns_ops (forget addr r.ns_hash) (ns_key addr) hostname).0;
}

-- The inner loop of `resolver_worker`, where no other thread comes in between, although the mutex is
-- free during `do_resolve`; calls of other threads between `worker_take` and `worker_store` are in
-- Resolver/Refine. `none` is the end of the fuel.
unfoldable pub worker_loop : (AddrStorage → Option Name) → ℕ → Resolver → Option Resolver
worker_loop do_resolve zero r = none
worker_loop do_resolve (suc fuel) r = elim (worker_take r) [
  | none ↦ some r
  | some (addr, r') ↦ worker_loop do_resolve fuel (worker_store addr (do_resolve addr) r')
]
