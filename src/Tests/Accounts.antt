-- ===== src/Tests/Accounts.antt =====
-- The bytes of a packet, and a sweep in the middle of its account.
use iftop_dotqoo.Prelude.{none, refl, some, true, ℕ, ◌%◌, ◌+◌, ◌^◌, ◌≡◌}
use iftop_dotqoo.Run.{fault, ok, use_after_free}
use iftop_dotqoo.PortList.{in_port_list, is_blocked}
use iftop_dotqoo.Hash.{find, hash_find, hash_initialise, hash_insert, write_rec}
use iftop_dotqoo.AddrHash.{addr_ops, compare, hash, hash_uint32}
use iftop_dotqoo.History.{
  History, history_rotate, is_low_traffic_connection, is_short_connection, lifetime, to_u64,
  total_bytes,
}
use iftop_dotqoo.History.Bytes.{bytes_of, deleted_bytes, history_rotate-bytes}
use iftop_dotqoo.Hash.Sum.{table_sum}
use iftop_dotqoo.History.Verdict.{verdict}
use iftop_dotqoo.Packet.{account_packet, classify, record_packet, settle, unknown, update_record}
use iftop_dotqoo.Packet.Account.{record_for}
use iftop_dotqoo.Packet.Bytes.{account_packet-bytes, accounted_len, history_bytes, total_bytes_of}
use iftop_dotqoo.Packet.Race.{hold, write_held, write_held-history_rotate}
use iftop_dotqoo.Tests.{capture, capture-IsReady, dns, iface, options, two_items, two_items-IsValid}
use iftop_dotqoo.Tests.Packets.{request}

request_len : accounted_len iface 0 request unknown capture ≡ 1500
unfolding accounted_len is_blocked classify settle in_port_list
request_len = refl

account_packet-bytes_example :
    let s' = account_packet iface 0 60 60 request unknown capture in
    let len = accounted_len iface 0 request unknown capture in
    (history_bytes s' % 2 ^ 64 ≡ (history_bytes capture + len) % 2 ^ 64)
    × (total_bytes_of s' % 2 ^ 64 ≡ (total_bytes_of capture + len) % 2 ^ 64)
account_packet-bytes_example =
    account_packet-bytes iface 0 60 60 request unknown capture capture-IsReady

-- The connection has ended at once, and is swept while a packet of it is added up.
brief-swept : verdict options 130 (record_for 130 two_items dns) ≡ none
unfolding verdict record_for is_short_connection hash_find find hash_insert hash_initialise hash
    hash_uint32 compare lifetime is_low_traffic_connection total_bytes to_u64
brief-swept = refl

write_held-history_rotate_example :
    (write_held 130 60 dns true (hold 130 dns two_items)
      ≡ ok (record_packet 130 130 dns 60 true two_items))
    × (swept : History) × (size : ℕ) × (history_rotate options
          (λ d. d.approval)
          130
          (hold 130 dns two_items)
        ≡ some (swept, size))
    × (write_held 130 60 dns true swept
        ≡ elim (verdict options 130 (record_for 130 two_items dns)) [
          | none ↦ fault use_after_free
          | some ht ↦ ok (write_rec addr_ops swept dns (update_record 130 60 true ht))
        ])
write_held-history_rotate_example =
    write_held-history_rotate options (λ d. d.approval) 130 130 130 60 dns true two_items
      two_items-IsValid

history_rotate-bytes_example :
    (swept : History) × (size : ℕ) × (history_rotate options (λ d. d.approval) 130 two_items
      ≡ some (swept, size))
    × (table_sum bytes_of swept + table_sum (deleted_bytes options 130) two_items
        ≡ table_sum bytes_of two_items)
history_rotate-bytes_example =
    history_rotate-bytes options 130 (λ d. d.approval) two_items two_items-IsValid
