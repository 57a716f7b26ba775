-- ===== src/Capture/Progress.antt =====
-- A delivery that the broker reports is seen by the next `tick` of iftop.c, and the client can report
-- again.
use iftop_dotqoo.Prelude.{
  Bool, Bool-cases, false, flatten, inl, inr, leb, refl, true, ℕ, ◌+◌, ◌||◌, ◌∙◌, ◌≡◌,
}
use iftop_dotqoo.Prelude.Int.{eq_ℤ, pos}
use iftop_dotqoo.Run.{Returns, ok}
use iftop_dotqoo.Hash.Table.{IsValid}
use iftop_dotqoo.Options.{Options}
use iftop_dotqoo.AddrHash.{addr_ops}
use iftop_dotqoo.History.Report.{approved, history_rotate_size}
use iftop_dotqoo.Mqtt.{
  check_mqtt_connection, construct_mqtt_msg, delivered, freed, is_off, mqtt_status_complete,
}
use iftop_dotqoo.Mqtt.Safety.{IsSound, eq_ℤ_comm, idle}
use iftop_dotqoo.Mqtt.Shutdown.{IsBusy, check_status-arrived, eq_ℤ_refl}
use iftop_dotqoo.Capture.{
  Broker, Capture, World, finish_tick, prepare, report_swept, resolution, send_due, send_ready,
  sweep_and_report, tick,
}
use iftop_dotqoo.Capture.Tick.{IsUsual}

module _ (world : World) (broker : Broker) (send : Bool) (t : ℕ) where
  -- While a message is pending, nothing is built or sent, and the connection is left alone.
  report_swept-pending :
      (size : ℕ) (s : Capture)
      → IsBusy s.mqtt
      → (o : Options) × (report_swept world broker send t size s
          ≡ ok (record s { options = o; last_timestamp = t }))
  unfolding report_swept prepare construct_mqtt_msg check_mqtt_connection send_ready
  report_swept-pending size s v = elim (Bool-cases (send_due world send t s.options)) [
    | inl due ↦ (record (s.options) { send_last = t }, rw (due, v.pending, v.connected))
    | inr early ↦ (s.options, rw (early, v.connected))
  ]

  abbrev arrived_end : Capture → Capture
  arrived_end s = record s {
    mqtt = record (s.mqtt) {
      deliveredtoken = pos 0;
      message = freed;
      out = freed;
      status = mqtt_status_complete;
    };
  }

  -- What a finished tick leaves of a client whose report has arrived.
  finish_tick-arrived :
      (s : Capture)
      → IsBusy s.mqtt
      → eq_ℤ s.mqtt.deliveredtoken s.mqtt.token ≡ true
      → finish_tick world s ≡ ok (arrived_end s)
  unfolding finish_tick
  finish_tick-arrived s v e = rw (check_status-arrived s.mqtt v e)

  -- The client is busy with a message, whose delivery the broker has reported. The next tick, whether
  -- it sweeps, reports or does neither, frees both buffers and leaves the client connected and ready
  -- for a new message; the payloads that were published stay as they are. Freed memory keeps its
  -- contents, and the table is valid.
  pub tick-delivered :
      (s : Capture)
      → IsUsual world
      → IsValid addr_ops s.history
      → IsBusy s.mqtt
      → Returns
          (λ (s' : Capture).
            IsValid addr_ops s'.history
            × IsSound s'.mqtt
            × (s'.mqtt.message ≡ freed)
            × (s'.mqtt.out ≡ freed)
            × (s'.mqtt.status ≡ mqtt_status_complete)
            × (is_off s'.mqtt.connection ≡ false)
            × (s'.mqtt.published ≡ s.mqtt.published))
          (tick world broker send t (record s { mqtt = delivered s.mqtt.token s.mqtt }))
  unfolding tick sweep_and_report delivered
  tick-delivered s usual table v =
      let m = delivered s.mqtt.token s.mqtt in
      let arrived = record s { mqtt = m } in
      let w : IsBusy m = record {
        pending = v.pending;
        buffers = v.buffers;
        connected = v.connected;
        token_set = v.token_set;
      } in
      let sound = idle refl (eq_ℤ_comm (pos 0) m.token ∙ v.token_set) v.token_set in
      elim (Bool-cases (send || leb (s.last_timestamp + resolution) t)) [
        | inr early ↦ (
          arrived_end arrived,
          rw (early, finish_tick-arrived arrived w (eq_ℤ_refl m.token)),
          (table, sound, refl, refl, refl, v.connected, refl),
        )
        | inl due ↦
            let (swept, rotated, valid) =
              history_rotate_size s.options world.stale t s.history table usual.kind in
            let size = approved (flatten swept) in
            let (o, reported) = report_swept-pending size (record arrived { history = swept }) w in
            let after = record arrived { history = swept; options = o; last_timestamp = t } in
            (
              arrived_end after,
              rw (due, rotated, reported, finish_tick-arrived after w (eq_ℤ_refl m.token)),
              (valid, sound, refl, refl, refl, v.connected, refl),
            )
      ]
