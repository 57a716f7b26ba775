-- ===== src/Packet/Race.antt =====
-- `handle_ip_packet` of iftop.c keeps the pointer that `hash_find` gave while it adds the packet up,
-- outside of the mutex of `tick`. The key loop and the broker's call-back run `tick` on threads of
-- their own, so that a sweep may come in between. Only the capture thread inserts: a record that is
-- no longer found under its key has been freed.
use iftop_dotqoo.Prelude.{
  Bool, Option-cases, ap, arith, inl, inr, none, some, true, ℕ, ◌<◌, ◌∙◌, ◌≡◌,
}
use iftop_dotqoo.Prelude.Int.{ltb_ℤ, pos}
use iftop_dotqoo.Run.{Run, fault, ok, use_after_free}
use iftop_dotqoo.Options.{Options}
use iftop_dotqoo.Hash.{hash_find, hash_insert, write_rec}
use iftop_dotqoo.Hash.Table.{IsValid}
use iftop_dotqoo.Hash.Chain.{compare_self}
use iftop_dotqoo.Hash.Lookup.{hash_insert_lem}
use iftop_dotqoo.AddrHash.{AddrPair, addr_ops, addr_ops-IsLawful}
use iftop_dotqoo.History.{
  History, HistoryType, history_create, history_rotate, is_low_traffic_connection, to_u64,
  total_bytes,
}
use iftop_dotqoo.History.Verdict.{verdict}
use iftop_dotqoo.History.Report.{history_rotate_report}
use iftop_dotqoo.Packet.{record_packet, update_record}
use iftop_dotqoo.Packet.Account.{record_for}
use mathlib.Core.Option

-- The first half: the record is looked up, and made if it is not there.
unfoldable pub hold : ℕ → AddrPair → History → History
hold now ap history = elim (hash_find addr_ops history ap) [
  | none ↦ (hash_insert addr_ops history ap (history_create now)).0
  | some ht ↦ history
]

-- The second half: the record under `ap`, which is still held, is written.
unfoldable pub write_held : ℕ → ℕ → AddrPair → Bool → History → Run History
unfolding update_record
write_held t len ap from_src history = elim (hash_find addr_ops history ap) [
  | none ↦ fault use_after_free
  | some ht ↦ ok (write_rec addr_ops history ap (update_record t len from_src ht))
]

module _ (now : ℕ) (ap : AddrPair) (history : History) (v : IsValid addr_ops history) where
  made :
      hash_find addr_ops history ap ≡ none
      → IsValid addr_ops (hash_insert addr_ops history ap (history_create now)).0
        × (hash_find addr_ops (hash_insert addr_ops history ap (history_create now)).0 ap
            ≡ some (history_create now))
  made absent =
      let (w, found) =
        hash_insert_lem addr_ops addr_ops-IsLawful history ap (history_create now) v absent in
      (w, found ap ∙ rw (compare_self addr_ops addr_ops-IsLawful ap))

  hold_lem :
      IsValid addr_ops (hold now ap history)
      × (hash_find addr_ops (hold now ap history) ap ≡ some (record_for now history ap))
  unfolding hold record_for
  hold_lem = elim (Option-cases (hash_find addr_ops history ap)) [
    | inl absent ↦ rw (hold, record_for, absent) (made absent)
    | inr (ht, found) ↦ rw (hold, record_for, found) (v, found)
  ]

  -- With nothing in between, the halves are the account of the packet.
  hold-write_held :
      (t len : ℕ) (from_src : Bool)
      → write_held t len ap from_src (hold now ap history)
        ≡ ok (record_packet t now ap len from_src history)
  unfolding write_held hold record_packet
  hold-write_held t len from_src = elim (Option-cases (hash_find addr_ops history ap)) [
    | inl absent ↦ ground (arith, (made absent).1)
    | inr (ht, found) ↦ ground arith
  ]

-- The two halves of the account of a packet, in a valid table: with nothing in between they are
-- `record_packet`. With a sweep at time `u` in between, the write goes to freed memory exactly where
-- the sweep's verdict on the packet's record is to delete it; otherwise the packet is added to the
-- record that the sweep leaves.
pub write_held-history_rotate :
    (options : Options) (stale : HistoryType → Bool) (now u t len : ℕ) (ap : AddrPair)
    (from_src : Bool) (history : History)
    → IsValid addr_ops history
    → (write_held t len ap from_src (hold now ap history)
        ≡ ok (record_packet t now ap len from_src history))
      × (swept : History) × (size : ℕ) × (history_rotate options stale u (hold now ap history)
          ≡ some (swept, size))
      × (write_held t len ap from_src swept ≡ elim (verdict options u (record_for now history ap)) [
        | none ↦ fault use_after_free
        | some ht ↦ ok (write_rec addr_ops swept ap (update_record t len from_src ht))
      ])
unfolding write_held Option.bind
write_held-history_rotate options stale now u t len ap from_src history v =
    let (w, held) = hold_lem now ap history v in
    let (swept, size, rotates, w', finds, count) =
      history_rotate_report options stale u (hold now ap history) w in
    let found : hash_find addr_ops swept ap ≡ verdict options u (record_for now history ap) =
      finds ap ∙ rw held in
    (hold-write_held now ap history v t len from_src, swept, size, rotates, rw (write_held, found))

-- The record of a new connection is deleted by any sweep that comes before the write, at a time
-- behind the deletion interval, unless the threshold is 0.
pub verdict-history_create :
    (options : Options) (now u : ℕ)
    → 0 < to_u64 options.threshold
    → ltb_ℤ options.history_delete_interval (pos u) ≡ true
    → verdict options u (history_create now) ≡ none
unfolding verdict is_low_traffic_connection history_create total_bytes
verdict-history_create options now u some_traffic late = ground arith
