-- ===== src/History.antt =====
-- The history of connections in iftop.c: the record of a connection, the tests that decide whether
-- it stays, and `history_rotate`, which sweeps the table. Each record belongs to one node of the
-- table, so the table holds the records themselves.
pub mod Verdict
pub mod Rotate
pub mod Report
pub mod Bytes
use iftop_dotqoo.Prelude.{
  Bool, Option, [], false, flatten, if◌then◌else◌, length, ltb, none, not, some, suc, true, zero, ℕ,
  ◌%◌, ◌&&◌, ◌+◌, ◌-◌, ◌^◌, ◌||◌, ◌∷◌,
}
use iftop_dotqoo.Prelude.Int.{ltb_ℤ, negsuc, pos, sub_ℕ, ℤ}
use iftop_dotqoo.Hash.{Chain, Table, hash_delete, next_item, write_rec}
use iftop_dotqoo.AddrHash.{AddrPair, addr_ops}
use iftop_dotqoo.Options.{Options}

-- `approval` is 0 or 1; the byte counts are `unsigned long long`.
pub record HistoryType : Type 0 where
  pub total_sent : ℕ
  pub total_recv : ℕ
  pub create_time : ℕ
  pub last_update_time : ℕ
  pub approval : Bool

abbrev pub History : Type 0
History = Table AddrPair HistoryType

abbrev pub check_after_n_secs : ℕ
check_after_n_secs = 120

-- A `long` that C converts to `unsigned long long` for a comparison.
unfoldable pub to_u64 : ℤ → ℕ
to_u64 (pos n) = n % 2 ^ 64
to_u64 (negsuc n) = 2 ^ 64 - 1 - n % 2 ^ 64

-- `xcalloc` clears the record; `now` is what `time(NULL)` returns.
unfoldable pub history_create : ℕ → HistoryType
history_create now = record {
  total_sent = 0;
  total_recv = 0;
  create_time = now;
  last_update_time = 0;
  approval = false;
}

-- `d->total_recv + d->total_sent`
unfoldable pub total_bytes : HistoryType → ℕ
total_bytes d = (d.total_recv + d.total_sent) % 2 ^ 64

-- `d->last_update_time - d->create_time`, which can be negative
unfoldable pub lifetime : HistoryType → ℤ
lifetime d = sub_ℕ d.last_update_time d.create_time

module _ (options : Options) where
  unfoldable pub is_short_connection : HistoryType → ℕ → Bool
  is_short_connection d t =
      ltb_ℤ (lifetime d) options.duration && ltb (d.create_time + check_after_n_secs) t

  unfoldable pub is_low_traffic_connection : HistoryType → ℕ → Bool
  is_low_traffic_connection d t =
      ltb (total_bytes d) (to_u64 options.threshold)
      && ltb_ℤ options.history_delete_interval (sub_ℕ t d.last_update_time)

  -- The condition under which a connection stays for good.
  unfoldable pub earns_approval : HistoryType → Bool
  earns_approval d =
      not (ltb_ℤ (lifetime d) options.duration) && ltb (to_u64 options.threshold) (total_bytes d)

  -- `stale d` is what the read of `d->approval` after `free(d)` returns.
  module _ (stale : HistoryType → Bool) where
    -- One round of the loop: the table after it, and the value of `d->approval` at the end.
    unfoldable pub rotate_one : ℕ → History → AddrPair → HistoryType → History × Bool
    rotate_one t history key d =
        if d.approval
        then (history, true)
        else if is_short_connection d t || is_low_traffic_connection d t
        then ((hash_delete addr_ops history key).0, stale d)
        else if earns_approval d
        then (write_rec addr_ops history key (record d { approval = true }), true)
        else (history, false)

    -- The loop; `none` is the end of the fuel.
    unfoldable pub rotate_loop :
        ℕ → ℕ → History → Chain AddrPair HistoryType → ℕ → Option (History × ℕ)
    rotate_loop zero t history n size = none
    rotate_loop (suc fuel) t history [] size = some (history, size)
    rotate_loop (suc fuel) t history ((key, d) ∷ c) size =
        let next = next_item addr_ops history ((key, d) ∷ c) in
        let (history', approval) = rotate_one t history key d in
        rotate_loop fuel t history' next (if approval then size + 1 else size)

    -- The fuel is one round for each record and one for the end of the loop.
    unfoldable pub history_rotate : ℕ → History → Option (History × ℕ)
    history_rotate t history =
        rotate_loop (suc (length (flatten history))) t history (next_item addr_ops history []) 0
