-- ===== src/Capture/Settings.antt =====
-- `tick` of iftop.c changes one option, the time of the last report.
use iftop_dotqoo.Prelude.{Bool, Bool-cases, arith, inl, inr, leb, ℕ, ◌+◌, ◌==◌, ◌||◌, ◌∙◌, ◌≡◌}
use iftop_dotqoo.Run.{came_through, ok, or_fault, out_of_fuel}
use iftop_dotqoo.Options.{Options}
use iftop_dotqoo.Mqtt.{check_mqtt_connection, check_status, construct_mqtt_msg}
use iftop_dotqoo.History.{history_rotate}
use iftop_dotqoo.Capture.{
  Broker, Capture, World, finish_tick, prepare, report_swept, resolution, send_due, send_ready,
  sweep_and_report, tick,
}

-- The options but for the time of the last report.
abbrev pub settings : Options → Options
settings options = record options { send_last = 0 }

module _ (world : World) (broker : Broker) (send : Bool) (t : ℕ) where
  prepare-settings :
      (size : ℕ) (s : Capture) (r : Capture × Bool)
      → prepare world send t size s ≡ ok r
      → settings r.0.options ≡ settings s.options
  unfolding prepare
  prepare-settings size s r runs = elim (Bool-cases (send_due world send t s.options)) [
    | inr early ↦ ground arith
    | inl due ↦
        let (b, built, is) =
          came_through (construct_mqtt_msg world.deflate world.platform size s.history s.mqtt)
            (λ x.
              ok
                (record s { options = record (s.options) { send_last = t }; mqtt = x.0 }, x.1 == 0))
            (rw due at runs) in
        ground arith
  ]

  report_swept-settings :
      (size : ℕ) (s e : Capture)
      → report_swept world broker send t size s ≡ ok e
      → settings e.options ≡ settings s.options
  unfolding report_swept
  report_swept-settings size s e runs =
      let (r, prepared, later) = came_through (prepare world send t size s) _ runs in
      let (m, checked, sends) =
        came_through (check_mqtt_connection broker.connects t r.0.mqtt) _ later in
      let (m', sent, is) = came_through (send_ready world broker r.1 m) _ sends in
      let same : settings e.options ≡ settings r.0.options = ground arith in
      same ∙ prepare-settings size s r prepared

  sweep_and_report-settings :
      (s e : Capture)
      → sweep_and_report world broker send t s ≡ ok e
      → settings e.options ≡ settings s.options
  unfolding sweep_and_report
  sweep_and_report-settings s e runs =
      let ((swept, size), rotated, reports) =
        came_through (or_fault (history_rotate s.options world.stale t s.history) out_of_fuel) _
          runs in
      report_swept-settings size (record s { history = swept }) e reports

  finish_tick-settings :
      (s e : Capture) → finish_tick world s ≡ ok e → settings e.options ≡ settings s.options
  unfolding finish_tick
  finish_tick-settings s e runs =
      let (m, checked, is) = came_through (check_status s.mqtt) _ runs in ground arith

  -- A `tick` that ends without a fault leaves every other option as it is.
  pub tick-settings :
      (s e : Capture) → tick world broker send t s ≡ ok e → settings e.options ≡ settings s.options
  unfolding tick
  tick-settings s e runs = elim (Bool-cases (send || leb (s.last_timestamp + resolution) t)) [
    | inl due ↦
        let (m, swept, ends) =
          came_through (sweep_and_report world broker send t s) (finish_tick world)
            (rw due at runs) in
        finish_tick-settings m e ends ∙ sweep_and_report-settings s m swept
    | inr early ↦ finish_tick-settings s e (rw early at runs)
  ]
