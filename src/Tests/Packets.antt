-- ===== src/Tests/Packets.antt =====
-- Packets of one conversation, in plain and in tagged Ethernet frames.
use iftop_dotqoo.Prelude.{
  Bool, List, Option, [], arith, false, none, not, refl, some, true, ℕ, ◌++◌, ◌∷◌, ◌≡◌, ◌≢◌, ◌⊎◌,
}
use iftop_dotqoo.Run.{fault}
use iftop_dotqoo.AddrHash.{AddrPair}
use iftop_dotqoo.PortList.{in_port_list, is_blocked}
use iftop_dotqoo.Capture.{Capture, init_history}
use iftop_dotqoo.Capture.Tick.{IsReady}
use iftop_dotqoo.Packet.{
  account_packet, assign_addr_pair, classify, classify_by_net, entering, filter_ports,
  handle_ip_packet, has_ports, host32, in_filter_net, ip_dst, ip_hl, ip_p, ip_src, key_of, net16,
  settle, th_dport, th_sport, unknown,
}
use iftop_dotqoo.Packet.Account.{IsAccounted, account_packet_lem}
use iftop_dotqoo.Run.{out_of_bounds}
use iftop_dotqoo.Packet.Handled.{handle_ip_packet-outside}
use iftop_dotqoo.Packet.Direction.{IsReply, key_of-reply}
use iftop_dotqoo.Frame.{Arrival, Datagram, ethertype_8021q, handle_eth_packet}
use iftop_dotqoo.Frame.Ethernet.{handle_eth_packet-vlan}
use iftop_dotqoo.Tests.{
  broker, capture, capture-IsReady, connected, iface, options, web, world, world-IsUsual,
}

-- A TCP packet of 1500 bytes under the key `web`, and one of 60 bytes that answers it.
abbrev pub request : List ℕ
request =
    69 ∷ 0 ∷ 5 ∷ 220 ∷ 0 ∷ 0 ∷ 0 ∷ 0 ∷ 64 ∷ 6 ∷ 0 ∷ 0 ∷ 192 ∷ 168 ∷ 1 ∷ 1 ∷ 8 ∷ 8 ∷ 8 ∷ 8 ∷ 195 ∷ 80
    ∷ 1 ∷ 187 ∷ []

abbrev reply : List ℕ
reply =
    69 ∷ 0 ∷ 0 ∷ 60 ∷ 0 ∷ 0 ∷ 0 ∷ 0 ∷ 64 ∷ 6 ∷ 0 ∷ 0 ∷ 8 ∷ 8 ∷ 8 ∷ 8 ∷ 192 ∷ 168 ∷ 1 ∷ 1 ∷ 1 ∷ 187
    ∷ 195 ∷ 80 ∷ []

abbrev neighbour : List ℕ
neighbour =
    69 ∷ 0 ∷ 0 ∷ 60 ∷ 0 ∷ 0 ∷ 0 ∷ 0 ∷ 64 ∷ 6 ∷ 0 ∷ 0 ∷ 192 ∷ 168 ∷ 1 ∷ 1 ∷ 192 ∷ 168 ∷ 1 ∷ 2 ∷ 1
    ∷ 187 ∷ 195 ∷ 80 ∷ []

request_key : key_of options iface request unknown ≡ some (web, true)
unfolding key_of classify classify_by_net in_filter_net ip_src ip_dst host32 settle assign_addr_pair
    th_sport th_dport has_ports ip_hl ip_p net16 filter_ports in_port_list
request_key = refl

reply-IsReply : IsReply request reply
unfolding ip_src ip_dst host32 th_sport th_dport has_ports ip_hl ip_p net16
reply-IsReply = record { src = refl; dst = refl; sport = refl; dport = refl; protocol = refl }

neighbour_inside :
    in_filter_net options (ip_src neighbour) ≡ in_filter_net options (ip_dst neighbour)
unfolding in_filter_net ip_src ip_dst host32
neighbour_inside = refl

key_of-reply_example : key_of options iface reply entering ≡ some (web, not true)
key_of-reply_example =
    key_of-reply iface options request reply unknown entering web true refl reply-IsReply
      request_key

account_packet_lem_example :
    ((account_packet iface 0 200 201 request unknown capture ≡ capture)
      × ((is_blocked 0 options.block_protocols (ip_p request) ≡ true)
          ⊎ (key_of options iface request unknown ≡ none)))
    ⊎ ((key : AddrPair) × (outgoing : Bool) × (is_blocked 0 options.block_protocols (ip_p request)
          ≡ false)
        × (key_of options iface request unknown ≡ some (key, outgoing))
        × IsReady (account_packet iface 0 200 201 request unknown capture)
        × IsAccounted 200 201 key outgoing request capture
            (account_packet iface 0 200 201 request unknown capture))
account_packet_lem_example =
    account_packet_lem iface 0 200 201 request unknown capture capture-IsReady

-- From the interface's own address to another one.
abbrev macs : List ℕ
macs = 2 ∷ 0 ∷ 0 ∷ 0 ∷ 0 ∷ 9 ∷ 2 ∷ 0 ∷ 0 ∷ 0 ∷ 0 ∷ 1 ∷ []

ipv4_untagged : net16 (8 ∷ 0 ∷ request) 0 ≢ ethertype_8021q
unfolding net16
ipv4_untagged = ground arith

handle_eth_packet-vlan_example :
    handle_eth_packet iface (macs ++ 0x81 ∷ 0x00 ∷ 0 ∷ 5 ∷ 8 ∷ 0 ∷ request)
    ≡ handle_eth_packet iface (macs ++ 8 ∷ 0 ∷ request)
handle_eth_packet-vlan_example =
    handle_eth_packet-vlan iface macs refl 0 5 (8 ∷ 0 ∷ request) ipv4_untagged

abbrev first_frame : Arrival
first_frame = record {
  broker = broker;
  i = 0;
  t = 200;
  now = 201;
  caplen = 38;
  packet = macs ++ 8 ∷ 0 ∷ request;
}

abbrev handler : ℕ → List ℕ → Option Datagram
handler caplen packet = handle_eth_packet iface packet

-- The array has two entries, and the search starts at the tenth.
handle_ip_packet-outside_example :
    handle_ip_packet world broker iface 10 200 201 request unknown capture ≡ fault out_of_bounds
handle_ip_packet-outside_example =
    handle_ip_packet-outside world broker iface 10 200 201 request unknown capture world-IsUsual
      refl capture-IsReady (λ (h : ⊥). h) (λ (h : ⊥). h)

abbrev begun : Capture
begun = init_history 50 options connected
