-- ===== src/Packet/Account.antt =====
-- The account of a packet in iftop.c: one record changes, by the length of the packet.
use iftop_dotqoo.Prelude.{
  Bool, Bool-cases, List, Option, Option-cases, ap, arith, false, if◌then◌else◌, inl, inr, none,
  refl, some, true, ℕ, ◌==◌, ◌∙◌, ◌≡◌, ◌⊎◌,
}
use iftop_dotqoo.Hash.{hash_find, hash_insert, write_rec}
use iftop_dotqoo.Hash.Chain.{compare_self}
use iftop_dotqoo.Hash.Table.{IsValid}
use iftop_dotqoo.Hash.Lookup.{hash_insert_lem, update, write_rec_lem}
use iftop_dotqoo.AddrHash.{AddrPair, addr_ops, addr_ops-IsLawful}
use iftop_dotqoo.PortList.{is_blocked}
use iftop_dotqoo.History.{History, HistoryType, history_create}
use iftop_dotqoo.Capture.{Capture}
use iftop_dotqoo.Capture.Tick.{IsReady}
use iftop_dotqoo.Packet.{
  HwDir, Interface, account, account_packet, add64, ip_len, ip_p, ip_src, key_of, record_packet,
  update_record,
}

-- The record that a packet under `ap` is added to: the one that is there, or a new one.
unfoldable pub record_for : ℕ → History → AddrPair → HistoryType
record_for now history ap = elim (hash_find addr_ops history ap) [
  | none ↦ history_create now
  | some ht ↦ ht
]

module _ (t now len : ℕ) (key : AddrPair) (from_src : Bool) (history : History) where
  record_packet_new :
      hash_find addr_ops history key ≡ none
      → record_packet t now key len from_src history
        ≡ write_rec addr_ops
            (hash_insert addr_ops history key (history_create now)).0
            key
            (update_record t len from_src (history_create now))
  unfolding record_packet
  record_packet_new e = ground arith

  record_packet_old :
      (ht : HistoryType)
      → hash_find addr_ops history key ≡ some ht
      → record_packet t now key len from_src history
        ≡ write_rec addr_ops history key (update_record t len from_src ht)
  unfolding record_packet
  record_packet_old ht e = ground arith

record_for_new :
    (now : ℕ) (history : History) (key : AddrPair)
    → hash_find addr_ops history key ≡ none
    → record_for now history key ≡ history_create now
unfolding record_for
record_for_new now history key e = ground arith

record_for_old :
    (now : ℕ) (history : History) (key : AddrPair) (ht : HistoryType)
    → hash_find addr_ops history key ≡ some ht
    → record_for now history key ≡ ht
unfolding record_for
record_for_old now history key ht e = ground arith

update_twice :
    (m n : AddrPair → Option HistoryType) (key : AddrPair) (v w : Option HistoryType) (q : AddrPair)
    → n q ≡ update addr_ops m key v q
    → update addr_ops n key w q ≡ update addr_ops m key w q
update_twice m n key v w q e = ground arith

-- In a valid table, a packet is added to the record of its key, which is made if it is not there.
-- The table stays valid and no other record changes.
pub record_packet_lem :
    (t now len : ℕ) (key : AddrPair) (from_src : Bool) (history : History)
    → IsValid addr_ops history
    → IsValid addr_ops (record_packet t now key len from_src history)
      × ((q : AddrPair)
          → hash_find addr_ops (record_packet t now key len from_src history) q
            ≡ update addr_ops
                (hash_find addr_ops history)
                key
                (some (update_record t len from_src (record_for now history key)))
                q)
record_packet_lem t now len key from_src history v =
    elim (Option-cases (hash_find addr_ops history key)) [
      | inl absent ↦
          let ht = history_create now in
          let ht' = update_record t len from_src ht in
          let (v', found) = hash_insert_lem addr_ops addr_ops-IsLawful history key ht v absent in
          let self = compare_self addr_ops addr_ops-IsLawful key in
          let (w, written) =
            write_rec_lem addr_ops addr_ops-IsLawful _ key ht ht' v' (found key ∙ rw self) in
          rw
            (
              record_packet_new t now len key from_src history absent,
              record_for_new now history key absent,
            )
            (
              w,
              λ q.
                  written q
                  ∙ update_twice (hash_find addr_ops history)
                      (hash_find addr_ops (hash_insert addr_ops history key ht).0) key (some ht)
                      (some ht') q (found q),
            )
      | inr (ht, found) ↦
          rw
            (
              record_packet_old t now len key from_src history ht found,
              record_for_old now history key ht found,
            )
            (write_rec_lem addr_ops addr_ops-IsLawful history key ht
              (update_record t len from_src ht) v found)
    ]

-- The part of a capture that an accounted packet leaves alone, and what it changes.
pub record IsAccounted (t now : ℕ) (key : AddrPair) (outgoing : Bool) (packet : List ℕ)
    (s s' : Capture) : Type 0 where
  pub reads :
      (q : AddrPair)
      → hash_find addr_ops s'.history q
        ≡ update addr_ops
            (hash_find addr_ops s.history)
            key
            (some (
              update_record t
                (ip_len packet)
                (ip_src packet == key.src)
                (record_for now s.history key)))
            q
  pub sent :
      s'.sent_in_total
      ≡ (if outgoing then add64 s.sent_in_total (ip_len packet) else s.sent_in_total)
  pub recv :
      s'.recv_in_total
      ≡ (if outgoing then s.recv_in_total else add64 s.recv_in_total (ip_len packet))
  pub rest : (s'.options ≡ s.options) × (s'.last_timestamp ≡ s.last_timestamp) × (s'.mqtt ≡ s.mqtt)

account_lem :
    (t now : ℕ) (key : AddrPair) (outgoing : Bool) (packet : List ℕ) (s : Capture)
    → IsReady s
    → IsReady (account t now key outgoing packet s)
      × IsAccounted t now key outgoing packet s (account t now key outgoing packet s)
unfolding account
account_lem t now key true packet s v =
    let (w, reads) =
      record_packet_lem t now (ip_len packet) key (ip_src packet == key.src) s.history v.table in
    (
      record { table = w; client = v.client },
      record { reads = reads; sent = refl; recv = refl; rest = (refl, refl, refl) },
    )
account_lem t now key false packet s v =
    let (w, reads) =
      record_packet_lem t now (ip_len packet) key (ip_src packet == key.src) s.history v.table in
    (
      record { table = w; client = v.client },
      record { reads = reads; sent = refl; recv = refl; rest = (refl, refl, refl) },
    )

-- What `handle_ip_packet` does behind the `tick`, in a sound capture: a blocked packet, or one
-- with no key, changes nothing; any other is accounted once, under its key, and the capture stays
-- sound.
pub account_packet_lem :
    (iface : Interface) (i t now : ℕ) (packet : List ℕ) (hw_dir : HwDir) (s : Capture)
    → IsReady s
    → ((account_packet iface i t now packet hw_dir s ≡ s)
        × ((is_blocked i s.options.block_protocols (ip_p packet) ≡ true)
            ⊎ (key_of s.options iface packet hw_dir ≡ none)))
      ⊎ ((key : AddrPair) × (outgoing : Bool) × (is_blocked i s.options.block_protocols
              (ip_p packet)
            ≡ false)
          × (key_of s.options iface packet hw_dir ≡ some (key, outgoing))
          × IsReady (account_packet iface i t now packet hw_dir s)
          × IsAccounted t now key outgoing packet s (account_packet iface i t now packet hw_dir s))
unfolding account_packet
account_packet_lem iface i t now packet hw_dir s v =
    elim (Bool-cases (is_blocked i s.options.block_protocols (ip_p packet))) [
      | inl blocked ↦ inl (rw blocked, inl blocked)
      | inr open' ↦ elim (Option-cases (key_of s.options iface packet hw_dir)) [
        | inl dropped ↦ inl (rw (open', dropped), inr dropped)
        | inr ((key, outgoing), accepted) ↦
            let (w, a) = account_lem t now key outgoing packet s v in
            inr (key, outgoing, open', accepted, rw (open', accepted) w, rw (open', accepted) a)
      ]
    ]
