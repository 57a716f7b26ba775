-- ===== src/Capture/Tick.antt =====
-- One `tick` of iftop.c: it ends without a fault, keeps the table and the client sound, and hands
-- the broker the message that describes the approved connections.
use iftop_dotqoo.Prelude.{
  Bool, Bool-cases, List, arith, false, flatten, inl, inr, leb, refl, replicate, some, subst, sym,
  true, ℕ, ◌*◌, ◌++◌, ◌+◌, ◌||◌, ◌∙◌, ◌∷◌, ◌≡◌, ◌≢◌, ◌≤◌,
}
use iftop_dotqoo.Prelude.Int.{eq_ℤ, pos}
use iftop_dotqoo.Run.{Returns, ok}
use iftop_dotqoo.Hash.Table.{IsValid}
use iftop_dotqoo.AddrHash.{addr_ops}
use iftop_dotqoo.Options.{Options}
use iftop_dotqoo.History.{History, HistoryType, history_rotate}
use iftop_dotqoo.History.Report.{approved, history_rotate_size}
use iftop_dotqoo.Message.{fill_message, struct_size}
use iftop_dotqoo.Message.Layout.{fill_message_lem, records}
use iftop_dotqoo.Mqtt.{
  Mqtt, check_mqtt_connection, check_status, construct_mqtt_msg, is_off, is_pending,
  mqtt_status_pending,
}
use iftop_dotqoo.Mqtt.Safety.{
  IsSound, busy, check_mqtt_connection-IsSound, check_status-IsSound, eq_ℤ_comm,
}
use iftop_dotqoo.Mqtt.Send.{
  construct_mqtt_msg-cases, construct_mqtt_msg-ready, loaded, room, send_mqtt_msg-loaded,
}
use iftop_dotqoo.Capture.{
  Broker, Capture, World, finish_tick, prepare, report_swept, resolution, send_due,
  sweep_and_report, tick,
}

-- The table and the client of a capture are as their operations need them.
pub record IsReady (s : Capture) : Type 0 where
  pub table : IsValid addr_ops s.history
  pub client : IsSound s.mqtt

-- Freed memory keeps its contents, as it mostly does until it is allocated again, and an address
-- of 4 bytes fits a `long`.
pub record IsUsual (world : World) : Type 0 where
  pub kind : (d : HistoryType) → world.stale d ≡ d.approval
  pub wide : 4 ≤ world.platform.long_size

module _ (world : World) (broker : Broker) (send : Bool) (t : ℕ) where
  skipped-IsReady :
      (size : ℕ) (s s' : Capture)
      → prepare world send t size s ≡ ok (s', false)
      → IsReady s'
      → Returns IsReady (report_swept world broker send t size s)
  unfolding report_swept
  skipped-IsReady size s s' e v =
      let (m, c, sound) = check_mqtt_connection-IsSound broker.connects t s'.mqtt v.client in
      (
        record s' { mqtt = m; last_timestamp = t },
        rw (e, c),
        record { table = v.table; client = sound },
      )

  -- What the client is after the message `bytes` for `size` connections has been sent.
  abbrev sent_from : ℕ → List ℕ → Mqtt → Mqtt
  sent_from size bytes m = record (loaded world.deflate world.platform size bytes m) {
    deliveredtoken = pos 0;
    token = broker.publish_token;
    published = world.deflate bytes (room world.deflate world.platform size) ∷ m.published;
  }

  abbrev after_sent : ℕ → List ℕ → Capture → Capture
  after_sent size bytes s = record s {
    options = record (s.options) { send_last = t };
    mqtt = sent_from size bytes s.mqtt;
    last_timestamp = t;
  }

  sent_lem :
      (size : ℕ) (bytes : List ℕ) (s : Capture)
      → send_due world send t s.options ≡ true
      → construct_mqtt_msg world.deflate world.platform size s.history s.mqtt
        ≡ ok (loaded world.deflate world.platform size bytes s.mqtt, 0)
      → is_off s.mqtt.connection ≡ false
      → report_swept world broker send t size s ≡ ok (after_sent size bytes s)
  unfolding report_swept check_mqtt_connection
  sent_lem size bytes s due built on =
      rw (due, built, on)
        (rw (
          send_mqtt_msg-loaded world.deflate world.platform size broker.publish_token bytes s.mqtt
            on))

  report_swept-IsReady :
      (size : ℕ) (bytes : List ℕ) (s : Capture)
      → IsReady s
      → fill_message world.platform size s.history ≡ ok bytes
      → eq_ℤ broker.publish_token (pos 0) ≡ false
      → Returns IsReady (report_swept world broker send t size s)
  report_swept-IsReady size bytes s v filled fresh =
      elim (Bool-cases (send_due world send t s.options)) [
        | inr early ↦ skipped-IsReady size s s (unfold prepare in rw early) v
        | inl due ↦
            elim (construct_mqtt_msg-cases world.deflate world.platform size s.history bytes s.mqtt
              filled) [
                | inl refused ↦
                    skipped-IsReady size s
                      (record s { options = record (s.options) { send_last = t } })
                      (unfold prepare in rw (due, refused))
                      (record { table = v.table; client = v.client })
                | inr (built, on) ↦ (
                  after_sent size bytes s,
                  sent_lem size bytes s due built on,
                  record { table = v.table; client = busy bytes _ refl refl refl on fresh },
                )
              ]
      ]

  finish_tick-IsReady : (s : Capture) → IsReady s → Returns IsReady (finish_tick world s)
  unfolding finish_tick
  finish_tick-IsReady s v =
      let (m, c, sound) = check_status-IsSound s.mqtt v.client in
      (record s { mqtt = m }, rw c, record { table = v.table; client = sound })

  module _ (usual : IsUsual world) (fresh : eq_ℤ broker.publish_token (pos 0) ≡ false) where
    sweep_and_report-IsReady :
        (s : Capture) → IsReady s → Returns IsReady (sweep_and_report world broker send t s)
    unfolding sweep_and_report
    sweep_and_report-IsReady s v =
        let (swept, rotated, valid) =
          history_rotate_size s.options world.stale t s.history v.table usual.kind in
        let filled =
          fill_message_lem world.platform (approved (flatten swept)) 0 swept usual.wide valid
            (omega arith) in
        rw rotated (
          report_swept-IsReady (approved (flatten swept)) _ (record s { history = swept })
            (record { table = valid; client = v.client }) filled fresh)

    -- Freed memory keeps its contents, a `long` has 4 bytes or more, and the broker's token is not 0.
    -- Then a tick of a sound capture ends without a fault, and the capture is sound after it.
    pub tick-IsReady : (s : Capture) → IsReady s → Returns IsReady (tick world broker send t s)
    unfolding tick
    tick-IsReady s v = elim (Bool-cases (send || leb (s.last_timestamp + resolution) t)) [
      | inr early ↦ rw early (finish_tick-IsReady s v)
      | inl due ↦
          let (s', e, w) = sweep_and_report-IsReady s v in rw (due, e) (finish_tick-IsReady s' w)
    ]

-- The table that a sweep of a valid one returns is valid, and its size counts the approved records.
swept-IsValid :
    (options : Options) (stale : HistoryType → Bool) (t n : ℕ) (history swept : History)
    → IsValid addr_ops history
    → ((d : HistoryType) → stale d ≡ d.approval)
    → history_rotate options stale t history ≡ some (swept, n)
    → IsValid addr_ops swept × (n ≡ approved (flatten swept))
swept-IsValid options stale t n history swept v kind e =
    let (swept', rotated, valid) = history_rotate_size options stale t history v kind in
    let same : some (swept', approved (flatten swept')) ≡ some (swept, n) = sym rotated ∙ e in
    let table : swept' ≡ swept = ground (arith, same) in
    let count : approved (flatten swept') ≡ n = ground (arith, same) in
    (subst (λ h. IsValid addr_ops h) table valid, rw (← count, table))

-- A data request (`send`) to a sound capture, whose client is connected and has no pending
-- message, where `n` approved connections, at least one, are left after the sweep; memory and
-- tokens are as for `tick-IsReady`. The tick ends. It hands the broker one new payload, the
-- compression of the message for exactly those connections; the message is pending under the
-- broker's token, and the times of the report and of the tick are set.
pub tick_reports :
    (world : World) (broker : Broker) (t n : ℕ) (s : Capture) (swept : History)
    → IsUsual world
    → eq_ℤ broker.publish_token (pos 0) ≡ false
    → IsReady s
    → is_pending s.mqtt.status ≡ false
    → is_off s.mqtt.connection ≡ false
    → history_rotate s.options world.stale t s.history ≡ some (swept, n)
    → n ≢ 0
    → (bytes : List ℕ) × (fill_message world.platform (approved (flatten swept)) swept ≡ ok bytes)
      × Returns
          (λ (s' : Capture).
            (s'.history ≡ swept)
            × (s'.mqtt.published
                ≡ world.deflate bytes (struct_size world.platform * n) ∷ s.mqtt.published)
            × (s'.mqtt.status ≡ mqtt_status_pending)
            × (s'.mqtt.token ≡ broker.publish_token)
            × (s'.options.send_last ≡ t)
            × (s'.last_timestamp ≡ t))
          (tick world broker true t s)
unfolding tick sweep_and_report send_due finish_tick check_status
tick_reports world broker t n s swept usual fresh v calm on rotated some' =
    let (valid, count) =
      swept-IsValid s.options world.stale t n s.history swept v.table usual.kind rotated in
    let filled =
      fill_message_lem world.platform n 0 swept usual.wide valid (omega (arith, count)) in
    let bytes =
      records world.platform (flatten swept) ++ replicate (struct_size world.platform * 0) 0 in
    let s' = record s { history = swept } in
    let built =
      construct_mqtt_msg-ready world.deflate world.platform n swept bytes s.mqtt filled calm on
        some' in
    (
      bytes,
      rw (← count) filled,
      (
        after_sent world broker true t n bytes s',
        rw (rotated, sent_lem world broker true t n bytes s' (ground arith) built on)
            (rw (eq_ℤ_comm (pos 0) broker.publish_token, fresh)),
        (refl, refl, refl, refl, refl, refl),
      ),
    )
