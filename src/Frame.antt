-- ===== src/Frame.antt =====
-- The packet handlers of iftop.c, one for each link layer: where the IP header starts in a frame,
-- and the direction that the link layer gives. `none` is a frame that is not handed on.
pub mod Ethernet
pub mod Loop
use iftop_dotqoo.Prelude.{
  Bool, List, Option, [], bit_and, drop, false, if◌then◌else◌, ltb, none, not, some, take, true, ℕ,
  ◌&&◌, ◌*◌, ◌+◌, ◌/◌, ◌==◌, ◌^◌, ◌||◌, ◌∷◌,
}
use iftop_dotqoo.Packet.{
  HwDir, Interface, byte_at, entering, handle_ip_packet, leaving, net16, unknown,
}
use iftop_dotqoo.Prelude.Int.{ℤ}
use iftop_dotqoo.Run.{Run, ok, ◌>>=◌}
use iftop_dotqoo.Capture.{Broker, Capture, World}

-- Bytes `i` to `i + 5`, as `memcmp` compares a hardware address.
unfoldable pub hw_addr_at : List ℕ → ℕ → List ℕ
hw_addr_at packet i = take 6 (drop i packet)

unfoldable pub same_bytes : List ℕ → List ℕ → Bool
same_bytes [] [] = true
same_bytes [] (b ∷ bs) = false
same_bytes (a ∷ as') [] = false
same_bytes (a ∷ as') (b ∷ bs) = a == b && same_bytes as' bs

abbrev pub broadcast_addr : List ℕ
broadcast_addr = 255 ∷ 255 ∷ 255 ∷ 255 ∷ 255 ∷ 255 ∷ []

abbrev pub ethertype_ip : ℕ
ethertype_ip = 0x0800

abbrev pub ethertype_ipv6 : ℕ
ethertype_ipv6 = 0x86dd

abbrev pub ethertype_8021q : ℕ
ethertype_8021q = 0x8100

abbrev pub ethertype_atalk : ℕ
ethertype_atalk = 0x809b

-- An IP header and the direction of its frame.
abbrev pub Datagram : Type 0
Datagram = List ℕ × HwDir

unfoldable pub handle_raw_packet : List ℕ → Option Datagram
handle_raw_packet packet = some (packet, unknown)

-- `BPF_WORDALIGN` is pcap's.
unfoldable pub handle_pflog_packet : (ℕ → ℕ) → List ℕ → Option Datagram
handle_pflog_packet word_align packet = some (drop (word_align (byte_at packet 0)) packet, unknown)

unfoldable pub handle_null_packet : List ℕ → Option Datagram
handle_null_packet packet = some (drop 4 packet, unknown)

-- A SNAP header has 8 bytes: dsap, ssap, control, 3 bytes of organisation, 2 bytes of type.
unfoldable pub handle_llc_packet : List ℕ → HwDir → Option Datagram
handle_llc_packet llc dir =
    let orgcode = byte_at llc 3 * 2 ^ 16 + byte_at llc 4 * 2 ^ 8 + byte_at llc 5 in
    let et = byte_at llc 6 * 2 ^ 8 + byte_at llc 7 in
    if byte_at llc 1 == 0xaa && byte_at llc 0 == 0xaa && byte_at llc 2 == 0x03
    then if orgcode == 0x000000 || orgcode == 0x0000f8
      then some (drop 8 llc, dir)
      else if orgcode == 0x080007 && et == ethertype_atalk
      then some (drop 8 llc, dir)
      else none
    else none

-- The header has an access control byte, a frame control byte, the two addresses, and the length
-- of the routing information where the first bit of the source address is set.
unfoldable pub token_dir : Interface → List ℕ → HwDir
unfolding hw_addr_at same_bytes
token_dir iface packet =
    if same_bytes (hw_addr_at packet 8) iface.if_hw_addr
    then leaving
    else if same_bytes (hw_addr_at packet 2) iface.if_hw_addr
        || same_bytes broadcast_addr (hw_addr_at packet 2)
    then entering
    else unknown

unfoldable pub handle_tokenring_packet : Interface → List ℕ → Option Datagram
unfolding token_dir handle_llc_packet net16
handle_tokenring_packet iface packet =
    let rif_length = bit_and (net16 packet 14) 0x1f00 / 2 ^ 8 in
    let packet' = if bit_and (byte_at packet 8) 0x80 == 0 then packet else drop rif_length packet in
    if bit_and (byte_at packet 1) 0xC0 / 2 ^ 6 == 1
    then handle_llc_packet (drop 14 packet') (token_dir iface packet)
    else none

unfoldable pub handle_ppp_packet : ℕ → List ℕ → Option Datagram
unfolding net16
handle_ppp_packet caplen packet =
    if ltb caplen 2
    then none
    else if byte_at packet 0 == 0xff
    then if ltb caplen 4
      then none
      else if net16 packet 2 == 0x0021
          || net16 packet 2 == ethertype_ip
          || net16 packet 2 == ethertype_ipv6
      then some (drop 4 packet, unknown)
      else none
    else none

unfoldable pub handle_cooked_packet : List ℕ → Option Datagram
unfolding net16
handle_cooked_packet packet =
    let pkttype = net16 packet 0 in
    let dir = if pkttype == 0 then entering else if pkttype == 4 then leaving else unknown in
    some (drop 16 packet, dir)

unfoldable pub eth_dir : Interface → List ℕ → HwDir
unfolding hw_addr_at same_bytes
eth_dir iface packet =
    if iface.have_hw_addr && same_bytes (hw_addr_at packet 6) iface.if_hw_addr
    then leaving
    else if iface.have_hw_addr && same_bytes (hw_addr_at packet 0) iface.if_hw_addr
    then entering
    else if same_bytes broadcast_addr (hw_addr_at packet 0)
    then entering
    else unknown

-- The type and the payload, behind a VLAN tag if there is one.
unfoldable pub eth_payload : List ℕ → ℕ × List ℕ
unfolding net16
eth_payload packet =
    let payload = drop 14 packet in
    if net16 packet 12 == ethertype_8021q
    then (net16 payload 2, drop 4 payload)
    else (net16 packet 12, payload)

unfoldable pub handle_eth_packet : Interface → List ℕ → Option Datagram
unfolding eth_dir eth_payload
handle_eth_packet iface packet =
    let (ether_type, payload) = eth_payload packet in
    if ether_type == ethertype_ip then some (payload, eth_dir iface packet) else none

-- The 802.11 header is taken to have 34 bytes; the length of the radiotap header is little-endian.
unfoldable pub handle_radiotap_packet : List ℕ → Option Datagram
handle_radiotap_packet packet =
    let it_len = byte_at packet 2 + byte_at packet 3 * 2 ^ 8 in
    some (drop (it_len + 34) packet, unknown)

-- The link layers that `packet_init` knows.
pub data Datalink : Type 0 where
  dlt_en10mb dlt_pflog dlt_raw dlt_null dlt_loop dlt_ieee802_11_radio : Datalink
  dlt_ieee802 dlt_ppp dlt_linux_sll dlt_other : Datalink

-- The choice of `packet_handler`; `none` is a link layer that ends the program.
unfoldable pub packet_handler :
    (ℕ → ℕ) → Interface → Datalink → Option (ℕ → List ℕ → Option Datagram)
packet_handler word_align iface dlt_en10mb = some λ caplen packet. handle_eth_packet iface packet
packet_handler word_align iface dlt_pflog =
    some λ caplen packet. handle_pflog_packet word_align packet
packet_handler word_align iface dlt_raw = some λ caplen packet. handle_raw_packet packet
packet_handler word_align iface dlt_null = some λ caplen packet. handle_null_packet packet
packet_handler word_align iface dlt_loop = some λ caplen packet. handle_null_packet packet
packet_handler word_align iface dlt_ieee802_11_radio =
    some λ caplen packet. handle_radiotap_packet packet
packet_handler word_align iface dlt_ieee802 =
    some λ caplen packet. handle_tokenring_packet iface packet
packet_handler word_align iface dlt_ppp = some λ caplen packet. handle_ppp_packet caplen packet
packet_handler word_align iface dlt_linux_sll = some λ caplen packet. handle_cooked_packet packet
packet_handler word_align iface dlt_other = none

-- The flags of `get_addrs_ioctl`'s result in `packet_init`: bit 0 for the hardware address, bit 1
-- for the IP address. A negative result ends the program.
unfoldable pub interface_of : ℕ → List ℕ → ℕ → List ℤ → Interface
interface_of result if_hw_addr if_ip_addr port_list = record {
  have_hw_addr = not (bit_and result 0x01 == 0);
  if_hw_addr = if_hw_addr;
  have_ip_addr = not (bit_and result 0x02 == 0);
  if_ip_addr = if_ip_addr;
  port_list = port_list;
}

-- A frame as `pcap_loop` hands it on, with what the calls of its handler find: the broker's
-- answers, the uninitialised variable and the two times of `handle_ip_packet`.
pub record Arrival : Type 0 where
  pub broker : Broker
  pub i : ℕ
  pub t : ℕ
  pub now : ℕ
  pub caplen : ℕ
  pub packet : List ℕ

module _ (world : World) (iface : Interface) (handler : ℕ → List ℕ → Option Datagram) where
  -- A datagram that the handler finds goes to `handle_ip_packet`.
  unfoldable pub handle_frame : Arrival → Capture → Run Capture
  handle_frame a s = elim (handler a.caplen a.packet) [
    | none ↦ ok s
    | some (datagram, dir) ↦ handle_ip_packet world a.broker iface a.i a.t a.now datagram dir s
  ]

  unfoldable pub packet_loop : List Arrival → Capture → Run Capture
  unfolding handle_frame
  packet_loop [] s = ok s
  packet_loop (a ∷ arrivals) s = handle_frame a s >>= λ s'. packet_loop arrivals s'
