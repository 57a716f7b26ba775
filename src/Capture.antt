-- ===== src/Capture.antt =====
-- The state of the capture thread and `tick` of iftop.c, which sweeps the history and reports it.
-- The mutex of `tick` is not modelled: a call is one step. `init_history` starts from an empty
-- table at the time that `time(NULL)` returns.
pub mod Tick
pub mod Progress
pub mod Settings
use iftop_dotqoo.Prelude.{
  Bool, List, false, if◌then◌else◌, leb, not, true, ℕ, ◌&&◌, ◌+◌, ◌==◌, ◌||◌,
}
use iftop_dotqoo.Prelude.Int.{eq_ℤ, ltb_ℤ, pos, sub_ℕ, ℤ}
use iftop_dotqoo.AddrHash.{addr_hash_create}
use iftop_dotqoo.Options.{Options}
use iftop_dotqoo.Run.{Run, ok, or_fault, ◌>>=◌, out_of_fuel}
use iftop_dotqoo.History.{History, HistoryType, history_rotate}
use iftop_dotqoo.Message.{Platform}
use iftop_dotqoo.Mqtt.{Mqtt, check_mqtt_connection, check_status, construct_mqtt_msg, send_mqtt_msg}

-- `history_totals` is of type `history_type`; only its byte counts are used.
pub record Capture : Type 0 where
  pub options : Options
  pub history : History
  pub sent_in_total : ℕ
  pub recv_in_total : ℕ
  pub last_timestamp : ℕ
  pub mqtt : Mqtt

abbrev pub resolution : ℕ
resolution = 4

unfoldable pub init_history : ℕ → Options → Mqtt → Capture
init_history now options mqtt = record {
  options = options;
  history = addr_hash_create;
  sent_in_total = 0;
  recv_in_total = 0;
  last_timestamp = now;
  mqtt = mqtt;
}

-- What the code outside this program does: reads of freed memory, zlib, the platform.
pub record World : Type 0 where
  pub stale : HistoryType → Bool
  pub deflate : List ℕ → ℕ → List ℕ
  pub platform : Platform

-- What the broker answers during one `tick`.
pub record Broker : Type 0 where
  pub connects : Bool
  pub publish_token : ℤ

module _ (world : World) where
  -- `options.send_interval != 0 && (t - options.send_last) > options.send_interval || send`
  unfoldable pub send_due : Bool → ℕ → Options → Bool
  send_due send t options =
      not (eq_ℤ options.send_interval (pos 0))
        && ltb_ℤ options.send_interval (sub_ℕ t options.send_last)
      || send

  -- The message is built if one is due. The Bool is `msg_ready`.
  unfoldable pub prepare : Bool → ℕ → ℕ → Capture → Run (Capture × Bool)
  unfolding send_due
  prepare send t size s =
      let built = (do
        (m, rc) ← construct_mqtt_msg world.deflate world.platform size s.history s.mqtt
        ok (record s { options = record (s.options) { send_last = t }; mqtt = m }, rc == 0)) in
      if send_due send t s.options then built else ok (s, false)

  unfoldable pub send_ready : Broker → Bool → Mqtt → Run Mqtt
  send_ready broker false m = ok m
  send_ready broker true m = send_mqtt_msg broker.publish_token m

  -- After the sweep: the message is built if it is due, the connection checked, the message sent.
  unfoldable pub report_swept : Broker → Bool → ℕ → ℕ → Capture → Run Capture
  unfolding prepare send_ready
  report_swept broker send t size s = do
    (s, msg_ready) ← prepare send t size s
    m ← check_mqtt_connection broker.connects t s.mqtt
    m ← send_ready broker msg_ready m
    ok (record s { mqtt = m; last_timestamp = t })

  -- The part of `tick` that is skipped until `RESOLUTION` seconds have passed.
  unfoldable pub sweep_and_report : Broker → Bool → ℕ → Capture → Run Capture
  unfolding report_swept
  sweep_and_report broker send t s = do
    (swept, size) ← or_fault (history_rotate s.options world.stale t s.history) out_of_fuel
    report_swept broker send t size (record s { history = swept })

  unfoldable pub finish_tick : Capture → Run Capture
  finish_tick s = check_status s.mqtt >>= λ m. ok (record s { mqtt = m })

  unfoldable pub tick : Broker → Bool → ℕ → Capture → Run Capture
  unfolding sweep_and_report finish_tick
  tick broker send t s =
      let due = sweep_and_report broker send t s in
      (if send || leb (s.last_timestamp + resolution) t then due else ok s) >>= finish_tick
