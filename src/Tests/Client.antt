-- ===== src/Tests/Client.antt =====
-- The MQTT client: its start, and the order of events that it does not stand.
use iftop_dotqoo.Prelude.{
  List, [], arith, false, if◌then◌else◌, leb, length, none, refl, replicate, some, true, ℕ, ◌++◌,
  ◌∷◌, ◌≡◌, ◌≤◌,
}
use iftop_dotqoo.Prelude.Int.{pos}
use iftop_dotqoo.Run.{Returns, fault, ok, ◌>>=◌, buffer_overflow, double_free}
use iftop_dotqoo.Mqtt.{Mqtt, check_status, connlost, delivered, live, mqtt_status_pending}
use iftop_dotqoo.Mqtt.Race.{done, run_schedule, run_schedule-check_status, test}
use iftop_dotqoo.Mqtt.Safety.{IsSound, busy, connlost-check_status}
use iftop_dotqoo.Mqtt.Topic.{
  before_newline, construct_topic, construct_topic_lem, retrieve, send_topic,
}
use iftop_dotqoo.Mqtt.Shutdown.{IsBusy, IsDone, destory_mqtt, destory_mqtt-delivered}
use iftop_dotqoo.Tests.{connected}

-- "box7" and a newline.
abbrev pub box : List ℕ
box = 98 ∷ 111 ∷ 120 ∷ 55 ∷ 10 ∷ []

-- A message is under way.
abbrev pub waiting : Mqtt
waiting = record connected {
  message = live (1 ∷ []);
  out = live (2 ∷ []);
  status = mqtt_status_pending;
  token = pos 7;
}

waiting-IsSound : IsSound waiting
waiting-IsSound = busy (1 ∷ []) (2 ∷ []) refl refl refl refl refl

abbrev pub waiting-IsBusy : IsBusy waiting
waiting-IsBusy = record {
  pending = refl;
  buffers = (1 ∷ [], 2 ∷ [], refl, refl);
  connected = refl;
  token_set = refl;
}

construct_topic_lem_example : construct_topic (98 ∷ 111 ∷ 120 ∷ []) ≡ (
    if leb 3 19
    then ok (send_topic ++ 98 ∷ 111 ∷ 120 ∷ [], retrieve ++ 98 ∷ 111 ∷ 120 ∷ [])
    else fault buffer_overflow)
construct_topic_lem_example = construct_topic_lem (98 ∷ 111 ∷ 120 ∷ [])

pub box-fits : length (before_newline box) ≤ 19
unfolding before_newline
box-fits = omega arith

-- The report comes with the second look.
destory_mqtt-delivered_example :
    Returns IsDone (destory_mqtt ((none ∷ []) ++ some (pos 7) ∷ none ∷ []) waiting)
destory_mqtt-delivered_example =
    destory_mqtt-delivered (none ∷ []) (none ∷ []) waiting waiting-IsBusy

connlost-check_status_example :
    connlost true 90 (delivered (pos 7) waiting) >>= check_status ≡ fault double_free
connlost-check_status_example = connlost-check_status true 90 waiting (1 ∷ []) refl refl

-- Two threads take turns behind their tests.
run_schedule-check_status_example :
    (run_schedule (replicate 5 true) test done (delivered (pos 7) waiting)
      ≡ (check_status (delivered (pos 7) waiting) >>= λ m'. ok (done, done, m')))
    × (run_schedule
          (true ∷ false ∷ true ∷ false ∷ true ∷ false ∷ [])
          test
          test
          (delivered (pos 7) waiting)
        ≡ fault double_free)
unfolding delivered
run_schedule-check_status_example =
    run_schedule-check_status (delivered (pos 7) waiting) done (1 ∷ []) (2 ∷ [])
      (true ∷ false ∷ true ∷ false ∷ []) refl refl refl (omega arith) (omega arith)
