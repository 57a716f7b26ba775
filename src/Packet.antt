-- ===== src/Packet.antt =====
-- `handle_ip_packet` of iftop.c: the direction of a packet, the filters, and its account. A packet
-- is the bytes from the IP header on; a byte behind the end of the list reads as 0, where C would
-- read whatever follows the captured bytes. The machine is little-endian, as `ROUTER_ADDR` is.
pub mod Account
pub mod Handled
pub mod Direction
pub mod Bytes
pub mod Race
use iftop_dotqoo.Prelude.{
  Bool, List, Option, bit_and, false, get_or, if◌then◌else◌, leb, ltb, none, not, some, true, ℕ,
  ◌%◌, ◌&&◌, ◌*◌, ◌+◌, ◌==◌, ◌^◌, ◌||◌,
}
use iftop_dotqoo.Prelude.Int.{ℤ}
use iftop_dotqoo.Hash.{hash_find, hash_insert, write_rec}
use iftop_dotqoo.AddrHash.{AddrPair, addr_ops}
use iftop_dotqoo.Options.{Options}
use iftop_dotqoo.PortList.{in_port_list, is_blocked, stays_inside}
use iftop_dotqoo.Run.{Run, fault, ok, ◌>>=◌, out_of_bounds}
use iftop_dotqoo.History.{History, HistoryType, history_create}
use iftop_dotqoo.Capture.{Broker, Capture, World, tick}

abbrev pub byte_at : List ℕ → ℕ → ℕ
byte_at packet i = get_or packet i 0

-- `ntohs` of the 16 bits at `i`, and the 32 bits at `i` as an `s_addr` holds them.
unfoldable pub net16 : List ℕ → ℕ → ℕ
net16 packet i = byte_at packet i * 256 + byte_at packet (i + 1)

unfoldable pub host32 : List ℕ → ℕ → ℕ
host32 packet i =
    byte_at packet i
    + byte_at packet (i + 1) * 2 ^ 8
    + byte_at packet (i + 2) * 2 ^ 16
    + byte_at packet (i + 3) * 2 ^ 24

-- The fields of `struct ip` that are read.
unfoldable pub ip_hl : List ℕ → ℕ
ip_hl packet = byte_at packet 0 % 16

unfoldable pub ip_len : List ℕ → ℕ
unfolding net16
ip_len packet = net16 packet 2

unfoldable pub ip_p : List ℕ → ℕ
ip_p packet = byte_at packet 9

unfoldable pub ip_src : List ℕ → ℕ
unfolding host32
ip_src packet = host32 packet 12

unfoldable pub ip_dst : List ℕ → ℕ
unfolding host32
ip_dst packet = host32 packet 16

abbrev pub ipproto_tcp : ℕ
ipproto_tcp = 6

abbrev pub ipproto_udp : ℕ
ipproto_udp = 17

abbrev pub router_addr : ℕ
router_addr = 524292268

-- The direction that the link layer gives: `hw_dir` is 1, 0 or -1.
pub data HwDir : Type 0 where
  leaving entering unknown : HwDir

-- What is known of the interface, and the ports that are ignored.
pub record Interface : Type 0 where
  pub have_hw_addr : Bool
  pub if_hw_addr : List ℕ
  pub have_ip_addr : Bool
  pub if_ip_addr : ℕ
  pub port_list : List ℤ

unfoldable pub has_ports : List ℕ → Bool
unfolding ip_p
has_ports packet = ip_p packet == ipproto_tcp || ip_p packet == ipproto_udp

unfoldable pub th_sport : List ℕ → ℕ
unfolding has_ports ip_hl net16
th_sport packet = if has_ports packet then net16 packet (ip_hl packet * 4) else 0

unfoldable pub th_dport : List ℕ → ℕ
unfolding has_ports ip_hl net16
th_dport packet = if has_ports packet then net16 packet (ip_hl packet * 4 + 2) else 0

unfoldable pub assign_addr_pair : List ℕ → Bool → AddrPair
unfolding th_sport th_dport ip_src ip_dst
assign_addr_pair packet false = record {
  protocol = 0;
  src = ip_src packet;
  src_port = th_sport packet;
  dst = ip_dst packet;
  dst_port = th_dport packet;
}
assign_addr_pair packet true = record {
  protocol = 0;
  src = ip_dst packet;
  src_port = th_dport packet;
  dst = ip_src packet;
  dst_port = th_sport packet;
}

unfoldable pub in_filter_net : Options → ℕ → Bool
in_filter_net options addr = bit_and addr options.netfiltermask == options.netfilternet

-- `IN_MULTICAST` of <netinet/in.h>, as it is called: on the bits of `s_addr`.
unfoldable pub in_multicast : ℕ → Bool
in_multicast addr = bit_and addr 0xf0000000 == 0xe0000000

unfoldable pub ip_addr_match : Interface → ℕ → Bool
ip_addr_match iface addr = addr == iface.if_ip_addr

-- Whether the pair is flipped, and whether the packet counts as outgoing; `none` drops the packet.
unfoldable pub classify_by_ip : Options → Interface → List ℕ → Option (Bool × Bool)
unfolding ip_src ip_dst ip_addr_match in_multicast
classify_by_ip options iface packet =
    if iface.have_ip_addr && ip_addr_match iface (ip_src packet)
    then some (false, true)
    else if iface.have_ip_addr && ip_addr_match iface (ip_dst packet)
    then some (true, false)
    else if in_multicast (ip_dst packet)
    then some (true, false)
    else if options.promiscuous_but_choosy
    then none
    else if ltb (ip_src packet) (ip_dst packet)
    then some (true, false)
    else some (false, false)

unfoldable pub classify_by_net : Options → List ℕ → Option (Bool × Bool)
unfolding ip_src ip_dst in_filter_net
classify_by_net options packet =
    if in_filter_net options (ip_src packet) && not (in_filter_net options (ip_dst packet))
    then some (false, true)
    else if in_filter_net options (ip_dst packet) && not (in_filter_net options (ip_src packet))
    then some (true, false)
    else none

unfoldable pub classify : Options → Interface → List ℕ → HwDir → Option (Bool × Bool)
unfolding classify_by_ip classify_by_net
classify options iface packet hw_dir =
    if options.netfilter then classify_by_net options packet else elim hw_dir [
      | leaving ↦ some (false, true)
      | entering ↦ some (true, false)
      | unknown ↦ classify_by_ip options iface packet
    ]

-- Dynamic ports are all one destination, port 0; other ports are looked up in the list of ignored
-- ports. `none` drops the packet.
unfoldable pub filter_ports : Interface → AddrPair → Option AddrPair
filter_ports iface ap =
    if leb 49152 ap.dst_port && leb ap.dst_port 65535
    then some (record ap { dst_port = 0 })
    else if in_port_list iface.port_list ap.src_port || in_port_list iface.port_list ap.dst_port
    then none
    else some ap

-- From the known direction on: the key, without its dynamic port, and the filters on it.
unfoldable pub settle : Interface → List ℕ → Bool × Bool → Option (AddrPair × Bool)
unfolding assign_addr_pair filter_ports ip_p
settle iface packet (flip, outgoing) =
    let ap = record (assign_addr_pair packet flip) { protocol = ip_p packet } in
    if ap.src == router_addr
    then none
    else elim (filter_ports iface ap) [ none ↦ none | some ap' ↦ some (ap', outgoing) ]

-- The key that the packet is accounted under, and whether it counts as outgoing.
unfoldable pub key_of : Options → Interface → List ℕ → HwDir → Option (AddrPair × Bool)
key_of options iface packet hw_dir = elim (classify options iface packet hw_dir) [
  | none ↦ none
  | some c ↦ settle iface packet c
]

abbrev pub add64 : ℕ → ℕ → ℕ
add64 total len = (total + len) % 2 ^ 64

-- The record after a packet of `len` bytes at time `t`.
unfoldable pub update_record : ℕ → ℕ → Bool → HistoryType → HistoryType
update_record t len from_src ht =
    let ht' = record ht { last_update_time = t } in
    if from_src
    then record ht' { total_sent = add64 ht.total_sent len }
    else record ht' { total_recv = add64 ht.total_recv len }

-- `now` is what `time(NULL)` returns in `history_create`.
unfoldable pub record_packet : ℕ → ℕ → AddrPair → ℕ → Bool → History → History
unfolding update_record
record_packet t now ap len from_src history = elim (hash_find addr_ops history ap) [
  | none ↦
      let ht = history_create now in
      write_rec addr_ops (hash_insert addr_ops history ap ht).0 ap (update_record t len from_src ht)
  | some ht ↦ write_rec addr_ops history ap (update_record t len from_src ht)
]

unfoldable pub account : ℕ → ℕ → AddrPair → Bool → List ℕ → Capture → Capture
unfolding record_packet ip_len ip_src
account t now ap outgoing packet s =
    let len = ip_len packet in
    let from_src = ip_src packet == ap.src in
    let s' = record s { history = record_packet t now ap len from_src s.history } in
    if outgoing
    then record s' { sent_in_total = add64 s.sent_in_total len }
    else record s' { recv_in_total = add64 s.recv_in_total len }

-- What follows the call of `tick`.
unfoldable pub account_packet : Interface → ℕ → ℕ → ℕ → List ℕ → HwDir → Capture → Capture
unfolding key_of account ip_p
account_packet iface i t now packet hw_dir s =
    if is_blocked i s.options.block_protocols (ip_p packet)
    then s
    else elim (key_of s.options iface packet hw_dir) [
      | none ↦ s
      | some (ap, outgoing) ↦ account t now ap outgoing packet s
    ]

-- `i` is what the uninitialised variable holds, where a negative number is written as the unsigned
-- one of the same bits; `t` and `now` are what the two calls of `time` return. A search of the
-- blocked protocols that leaves their array is a fault.
unfoldable pub handle_ip_packet :
    World → Broker → Interface → ℕ → ℕ → ℕ → List ℕ → HwDir → Capture → Run Capture
unfolding account_packet stays_inside ip_p
handle_ip_packet world broker iface i t now packet hw_dir s = tick world broker false t s >>= λ s'.
    if stays_inside i s'.options.block_protocols (ip_p packet)
    then ok (account_packet iface i t now packet hw_dir s')
    else fault out_of_bounds
