-- ===== src/Tests/Reports.antt =====
-- The sweep of two connections, and the message about them.
use iftop_dotqoo.Prelude.{
  All, Bool, List, [], arith, false, flatten, length, none, refl, replicate, some, take, true, ℕ,
  ◌*◌, ◌++◌, ◌+◌, ◌∙◌, ◌∷◌, ◌≡◌, ◌≢◌,
}
use iftop_dotqoo.Prelude.Int.{pos}
use mathlib.Core.Option
use iftop_dotqoo.Run.{Returns, ok}
use iftop_dotqoo.Hash.{
  hash_delete, hash_find, hash_initialise, hash_insert, next_item, next_used, unlink,
}
use iftop_dotqoo.Hash.Table.{IsValid}
use iftop_dotqoo.AddrHash.{AddrPair, addr_ops, addr_ops-IsLawful, compare, hash, hash_uint32}
use iftop_dotqoo.History.{
  History, HistoryType, history_rotate, is_low_traffic_connection, is_short_connection, lifetime,
  rotate_loop, rotate_one, to_u64, total_bytes,
}
use iftop_dotqoo.History.Verdict.{verdict}
use iftop_dotqoo.History.Report.{approved, history_rotate_report, misread}
use iftop_dotqoo.Message.{fill_message, struct_size}
use iftop_dotqoo.Message.Layout.{fill_message_lem, records}
use iftop_dotqoo.Hash.Lookup.{hash_insert_lem}
use iftop_dotqoo.Message.Client.{InRange, host_order, inner_reports, is_inner, report, save_data}
use iftop_dotqoo.Message.Reader.{fill_message-save_data}
use iftop_dotqoo.Mqtt.{delivered, freed, is_off, mqtt_status_complete, mqtt_status_pending}
use iftop_dotqoo.Capture.{Capture, tick}
use iftop_dotqoo.Capture.Tick.{tick_reports}
use iftop_dotqoo.Mqtt.Safety.{IsSound}
use iftop_dotqoo.Capture.Progress.{tick-delivered}
use iftop_dotqoo.Tests.Client.{waiting, waiting-IsBusy}
use iftop_dotqoo.Tests.{
  broker, capture, capture-IsReady, no_history_lem, one_item, one_item-IsValid, options, platform,
  reads_one, steady, two_items, two_items-IsValid, web, world, world-IsUsual,
}

abbrev stale : HistoryType → Bool
stale d = d.approval

history_rotate_report_example :
    (swept : History) × (size : ℕ) × (history_rotate options stale 300 two_items
      ≡ some (swept, size))
    × IsValid addr_ops swept
    × ((k : AddrPair)
        → hash_find addr_ops swept k
          ≡ Option.bind (hash_find addr_ops two_items k) (verdict options 300))
    × (size ≡ approved (flatten swept) + misread options 300 stale (flatten two_items))
history_rotate_report_example = history_rotate_report options stale 300 two_items two_items-IsValid

-- The sweep leaves the steady connection.
swept_once : history_rotate options stale 300 two_items ≡ some (one_item, 1)
unfolding history_rotate rotate_loop rotate_one next_item next_used hash_insert hash_initialise hash
    hash_uint32 hash_delete unlink is_short_connection is_low_traffic_connection lifetime
    total_bytes to_u64 flatten compare
swept_once = refl

one-not-zero : ◌≢◌ {A = ℕ} 1 0
one-not-zero e = absurd (omega arith)

fill_message_lem_example :
    fill_message platform (approved (flatten two_items) + 1) two_items
    ≡ ok (records platform (flatten two_items) ++ replicate (struct_size platform * 1) 0)
fill_message_lem_example =
    fill_message_lem platform (approved (flatten two_items) + 1) 1 two_items (omega arith)
      two_items-IsValid refl

steady-InRange : InRange web steady
steady-InRange = record {
  src = omega arith;
  src_port = omega arith;
  dst = omega arith;
  dst_port = omega arith;
  protocol = omega arith;
  total_sent = omega arith;
  total_recv = omega arith;
  create_time = omega arith;
  last_update_time = omega arith;
}

-- A connection to 172.16.5.9, which the reader keeps; it skips that of `web`.
abbrev inner : AddrPair
inner = record { protocol = 17; src = 16885952; src_port = 5000; dst = 151326892; dst_port = 53 }

abbrev two_nets : History
two_nets = (hash_insert addr_ops one_item inner steady).0

inner-absent : hash_find addr_ops one_item inner ≡ none
unfolding compare
inner-absent = reads_one inner ∙ no_history_lem.1 inner

two_nets-IsValid : IsValid addr_ops two_nets
two_nets-IsValid =
    (hash_insert_lem addr_ops addr_ops-IsLawful one_item inner steady one_item-IsValid
      inner-absent).0

inner-InRange : InRange inner steady
inner-InRange = record {
  src = omega arith;
  src_port = omega arith;
  dst = omega arith;
  dst_port = omega arith;
  protocol = omega arith;
  total_sent = omega arith;
  total_recv = omega arith;
  create_time = omega arith;
  last_update_time = omega arith;
}

two_nets_entries : flatten two_nets ≡ (inner, steady) ∷ (web, steady) ∷ []
unfolding flatten hash_insert hash_initialise hash hash_uint32
two_nets_entries = refl

two_nets-InRange : All (λ (p : AddrPair × HistoryType). InRange p.0 p.1) (flatten two_nets)
two_nets-InRange = rw two_nets_entries (inner-InRange, (steady-InRange, tt))

fill_message-save_data_example :
    (message : List ℕ) × (fill_message platform (approved (flatten two_nets)) two_nets ≡ ok message)
    × (length message ≡ struct_size platform * approved (flatten two_nets))
    × (save_data (approved (flatten two_nets)) message ≡ inner_reports (flatten two_nets))
fill_message-save_data_example =
    fill_message-save_data platform refl refl two_nets two_nets-IsValid two_nets-InRange

-- What the reader keeps of them.
two_nets_kept :
    inner_reports (flatten two_nets)
    ≡ record {
      outer_ip = 0xC0A80101;
      outer_port = 5000;
      inner_ip = 0xAC100509;
      inner_port = 53;
      protocol = 17;
      recv = 5000;
      send = 90000;
      create = 100;
      end_time = 160;
    }
      ∷ []
unfolding inner_reports is_inner report host_order
two_nets_kept = rw two_nets_entries refl

tick_reports_example :
    (bytes : List ℕ) × (fill_message platform (approved (flatten one_item)) one_item ≡ ok bytes)
    × Returns
        (λ (s' : Capture).
          (s'.history ≡ one_item)
          × (s'.mqtt.published ≡ take (struct_size platform * 1) bytes ∷ [])
          × (s'.mqtt.status ≡ mqtt_status_pending)
          × (s'.mqtt.token ≡ pos 7)
          × (s'.options.send_last ≡ 300)
          × (s'.last_timestamp ≡ 300))
        (tick world broker true 300 capture)
tick_reports_example =
    tick_reports world broker 300 1 capture one_item world-IsUsual refl capture-IsReady refl refl
      swept_once one-not-zero

-- The pending message of this capture has arrived; the next tick comes before a second has passed.
tick-delivered_example :
    Returns
      (λ (s' : Capture).
        IsValid addr_ops s'.history
        × IsSound s'.mqtt
        × (s'.mqtt.message ≡ freed)
        × (s'.mqtt.out ≡ freed)
        × (s'.mqtt.status ≡ mqtt_status_complete)
        × (is_off s'.mqtt.connection ≡ false)
        × (s'.mqtt.published ≡ []))
      (tick world broker true 300 (record capture { mqtt = delivered (pos 7) waiting }))
tick-delivered_example =
    tick-delivered world broker true 300 (record capture { mqtt = waiting }) world-IsUsual
      two_items-IsValid waiting-IsBusy
