-- ===== src/Mqtt/Topic.antt =====
-- The start of the client in mqtt.c: the device's name, the topics made of it, `init_MQTT`. A string
-- is the list of its characters, without the zero at its end. What `fgets` reads of the output of
-- `boxid` is an argument; it is `none` where the program ends.
use iftop_dotqoo.Prelude.{
  Bool, Bool-cases, List, Option, [], arith, false, if◌then◌else◌, inl, inr, leb, length, ltb, none,
  not, refl, some, take, true, ℕ, ◌++◌, ◌+◌, ◌==◌, ◌∷◌, ◌≡◌, ◌≤◌,
}
use iftop_dotqoo.Prelude.Int.{negsuc, pos}
use iftop_dotqoo.Run.{Run, fault, ok, ◌>>=◌, buffer_overflow}
use iftop_dotqoo.Mqtt.{
  Mqtt, connect_and_subscribe, is_off, mqtt_connect_off, mqtt_connect_on, mqtt_status_init, null,
}
use iftop_dotqoo.Mqtt.Safety.{IsSound, idle}

abbrev pub topic_size : ℕ
topic_size = 32

-- "NWSTAT/AUTO/" and "NWSTAT/RETV/".
abbrev pub send_topic : List ℕ
send_topic = 78 ∷ 87 ∷ 83 ∷ 84 ∷ 65 ∷ 84 ∷ 47 ∷ 65 ∷ 85 ∷ 84 ∷ 79 ∷ 47 ∷ []

abbrev pub retrieve : List ℕ
retrieve = 78 ∷ 87 ∷ 83 ∷ 84 ∷ 65 ∷ 84 ∷ 47 ∷ 82 ∷ 69 ∷ 84 ∷ 86 ∷ 47 ∷ []

-- The line up to its end, which the code cuts off.
unfoldable pub before_newline : List ℕ → List ℕ
before_newline [] = []
before_newline (c ∷ cs) = let rest = before_newline cs in if c == 10 then [] else c ∷ rest

unfoldable pub get_device_id : Option (List ℕ) → Option (List ℕ)
unfolding before_newline
get_device_id none = none
get_device_id (some line) = some (before_newline line)

-- `strcpy` to the offset of a buffer of `size` bytes that holds the string `buffer`.
unfoldable pub strcpy : ℕ → List ℕ → ℕ → List ℕ → Run (List ℕ)
strcpy size buffer offset text =
    if ltb (offset + length text) size
    then ok (take offset buffer ++ text)
    else fault buffer_overflow

unfoldable pub construct_topic : List ℕ → Run (List ℕ × List ℕ)
unfolding strcpy
construct_topic id = do
  s ← strcpy topic_size [] 0 send_topic
  s ← strcpy topic_size s (length send_topic) id
  r ← strcpy topic_size [] 0 retrieve
  r ← strcpy topic_size r (length retrieve) id
  ok (s, r)

-- The variables of mqtt.c as the program starts with them.
abbrev pub unset : Mqtt
unset = record {
  message = null;
  out = null;
  msg_len = 0;
  compressed_size = 0;
  status = mqtt_status_init;
  connection = mqtt_connect_on;
  token = negsuc 0;
  deliveredtoken = pos 0;
  last_try = 0;
  published = [];
}

-- `ok none` is the call of `exit`. The result has the topics.
unfoldable pub init_mqtt : Option (List ℕ) → Bool → ℕ → Mqtt → Run (Option (Mqtt × List ℕ × List ℕ))
init_mqtt line connects now s =
    let s' = record s { status = mqtt_status_init; connection = mqtt_connect_off } in
    elim (get_device_id line) [
      | none ↦ ok none
      | some id ↦ construct_topic id >>= λ (send, retr).
          connect_and_subscribe connects s' >>= λ (s'', rc).
          ok (some (record s'' { last_try = now }, send, retr))
    ]

-- The topics fit their buffers of 32 bytes exactly where the device's name has at most 19
-- characters, though a name may have 31: a longer one is written behind the end of the first buffer.
pub construct_topic_lem :
    (id : List ℕ)
    → construct_topic id ≡ (
        if leb (length id) 19 then ok (send_topic ++ id, retrieve ++ id) else fault buffer_overflow)
unfolding construct_topic
construct_topic_lem id = elim (Bool-cases (leb (length id) 19)) [
  | inl fits ↦ let room : ltb (12 + length id) 32 ≡ true = ground arith in rw (fits, room)
  | inr long ↦ let room : ltb (12 + length id) 32 ≡ false = ground arith in rw (long, room)
]

construct_topic-fits :
    (id : List ℕ) → length id ≤ 19 → construct_topic id ≡ ok (send_topic ++ id, retrieve ++ id)
construct_topic-fits id short =
    let fits : leb (length id) 19 ≡ true = ground arith in rw (construct_topic_lem id, fits)

-- The client starts sound, on the first line of `boxid`'s output, where the name in it has at most
-- 19 characters: it ends without a fault, with the topics of that name, and `last_try` set.
pub init_mqtt_lem :
    (line : List ℕ) (connects : Bool) (now : ℕ)
    → length (before_newline line) ≤ 19
    → (m : Mqtt) × (init_mqtt (some line) connects now unset
        ≡ ok (some (m, send_topic ++ before_newline line, retrieve ++ before_newline line)))
      × IsSound m
      × (is_off m.connection ≡ not connects)
      × (m.last_try ≡ now)
unfolding init_mqtt get_device_id connect_and_subscribe
init_mqtt_lem line true now short = (
  record unset { connection = mqtt_connect_on; last_try = now },
  rw (construct_topic-fits (before_newline line) short),
  idle refl refl refl,
  refl,
  refl,
)
init_mqtt_lem line false now short = (
  record unset { connection = mqtt_connect_off; last_try = now },
  rw (construct_topic-fits (before_newline line) short),
  idle refl refl refl,
  refl,
  refl,
)
