-- ===== src/Packet/Bytes.antt =====
-- Where the bytes of a packet go in iftop.c: into one record, and into one of the two totals.
use iftop_dotqoo.Prelude.{
  Bool, Bool-cases, List, Option-cases, arith, false, if◌then◌else◌, inl, inr, length, none, refl,
  some, true, ℕ, ◌%◌, ◌+◌, ◌==◌, ◌^◌, ◌∙◌, ◌≡◌,
}
use iftop_dotqoo.Hash.{hash_find, hash_insert, write_rec}
use iftop_dotqoo.Hash.Table.{IsValid}
use iftop_dotqoo.Hash.Chain.{compare_self}
use iftop_dotqoo.Hash.Lookup.{hash_insert_lem}
use iftop_dotqoo.Hash.Sum.{table_sum, table_sum-hash_insert, table_sum-write_rec}
use iftop_dotqoo.AddrHash.{AddrPair, addr_ops, addr_ops-IsLawful}
use iftop_dotqoo.PortList.{is_blocked}
use iftop_dotqoo.History.Bytes.{bytes_of}
use iftop_dotqoo.History.{History, HistoryType, history_create}
use iftop_dotqoo.Capture.{Capture}
use iftop_dotqoo.Capture.Tick.{IsReady}
use iftop_dotqoo.Packet.{
  HwDir, Interface, account, account_packet, ip_len, ip_p, ip_src, key_of, record_packet,
  update_record,
}

-- The bytes in all records of the table, and in the two totals.
unfoldable pub history_bytes : Capture → ℕ
unfolding table_sum
history_bytes s = table_sum bytes_of s.history

unfoldable pub total_bytes_of : Capture → ℕ
total_bytes_of s = s.sent_in_total + s.recv_in_total

-- The length of a packet that is accounted, and 0 for any other.
unfoldable pub accounted_len : Interface → ℕ → List ℕ → HwDir → Capture → ℕ
unfolding key_of ip_len ip_p
accounted_len iface i packet hw_dir s =
    if is_blocked i s.options.block_protocols (ip_p packet)
    then 0
    else elim (key_of s.options iface packet hw_dir) [ none ↦ 0 | some c ↦ ip_len packet ]

update_record-bytes :
    (t len : ℕ) (from_src : Bool) (ht : HistoryType)
    → bytes_of (update_record t len from_src ht) % 2 ^ 64 ≡ (bytes_of ht + len) % 2 ^ 64
unfolding update_record
update_record-bytes t len true ht = omega arith
update_record-bytes t len false ht = omega arith

write_rec-bytes :
    (history : History) (key : AddrPair) (old r : HistoryType) (len : ℕ)
    → length history ≡ addr_ops.size
    → hash_find addr_ops history key ≡ some old
    → bytes_of r % 2 ^ 64 ≡ (bytes_of old + len) % 2 ^ 64
    → table_sum bytes_of (write_rec addr_ops history key r) % 2 ^ 64
      ≡ (table_sum bytes_of history + len) % 2 ^ 64
write_rec-bytes history key old r len width found more =
    omega
      (arith, table_sum-write_rec addr_ops addr_ops-IsLawful bytes_of history key old r width found)

history_create-bytes : (now : ℕ) → bytes_of (history_create now) ≡ 0
unfolding history_create
history_create-bytes now = refl

module _ (t now len : ℕ) (key : AddrPair) (from_src : Bool) (history : History)
    (v : IsValid addr_ops history) where
  record_packet-bytes :
      table_sum bytes_of (record_packet t now key len from_src history) % 2 ^ 64
      ≡ (table_sum bytes_of history + len) % 2 ^ 64
  unfolding record_packet
  record_packet-bytes = elim (Option-cases (hash_find addr_ops history key)) [
    | inl absent ↦
        let ht = history_create now in
        let (w, found) = hash_insert_lem addr_ops addr_ops-IsLawful history key ht v absent in
        let self : hash_find addr_ops (hash_insert addr_ops history key ht).0 key ≡ some ht =
          found key ∙ rw (compare_self addr_ops addr_ops-IsLawful key) in
        let grown =
          table_sum-hash_insert addr_ops addr_ops-IsLawful bytes_of history key ht v.width in
        let empty = history_create-bytes now in
        let written =
          write_rec-bytes (hash_insert addr_ops history key ht).0 key ht
            (update_record t len from_src ht) len w.width self
            (update_record-bytes t len from_src ht) in
        rw (record_packet, absent) (omega arith)
    | inr (ht, found) ↦
        rw (record_packet, found)
          (write_rec-bytes history key ht (update_record t len from_src ht) len v.width found
            (update_record-bytes t len from_src ht))
  ]

module _ (iface : Interface) (i t now : ℕ) (packet : List ℕ) (hw_dir : HwDir) (s : Capture)
    (v : IsReady s) where
  account-bytes :
      (key : AddrPair) (outgoing : Bool)
      → let s' = account t now key outgoing packet s in
        (history_bytes s' % 2 ^ 64 ≡ (history_bytes s + ip_len packet) % 2 ^ 64)
        × (total_bytes_of s' % 2 ^ 64 ≡ (total_bytes_of s + ip_len packet) % 2 ^ 64)
  unfolding account history_bytes total_bytes_of
  account-bytes key true = (
    record_packet-bytes t now (ip_len packet) key (ip_src packet == key.src) s.history v.table,
    omega arith,
  )
  account-bytes key false = (
    record_packet-bytes t now (ip_len packet) key (ip_src packet == key.src) s.history v.table,
    omega arith,
  )

  -- In a sound capture, the bytes in all records together, and those in the two totals, both grow by
  -- the length of the packet if it is accounted, and stay if it is not, as 64-bit numbers.
  pub account_packet-bytes :
      let s' = account_packet iface i t now packet hw_dir s in
      let len = accounted_len iface i packet hw_dir s in
      (history_bytes s' % 2 ^ 64 ≡ (history_bytes s + len) % 2 ^ 64)
      × (total_bytes_of s' % 2 ^ 64 ≡ (total_bytes_of s + len) % 2 ^ 64)
  unfolding account_packet accounted_len
  account_packet-bytes = elim (Bool-cases (is_blocked i s.options.block_protocols (ip_p packet))) [
    | inl blocked ↦ rw (account_packet, accounted_len, blocked) (omega arith, omega arith)
    | inr open' ↦ elim (Option-cases (key_of s.options iface packet hw_dir)) [
      | inl dropped ↦ rw (account_packet, accounted_len, open', dropped) (omega arith, omega arith)
      | inr ((key, outgoing), accepted) ↦
          rw (account_packet, accounted_len, open', accepted) (account-bytes key outgoing)
    ]
  ]
