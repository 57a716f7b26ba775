-- ===== src/Mqtt.antt =====
-- The MQTT client of mqtt.c: its connection, the one message that may be under way, and the two
-- buffers that belong to it. The broker, zlib and the device's `boxid` command are outside: what
-- a call of theirs returns is an argument. Printing is left out.
pub mod Safety
pub mod Send
pub mod Shutdown
pub mod Topic
pub mod Race
use iftop_dotqoo.Prelude.{
  Bool, List, false, if◌then◌else◌, length, ltb, replicate, take, true, ℕ, ◌&&◌, ◌*◌, ◌++◌, ◌+◌,
  ◌-◌, ◌==◌, ◌||◌, ◌∷◌,
}
use iftop_dotqoo.Prelude.Int.{eq_ℤ, pos, ℤ}
use iftop_dotqoo.Run.{Run, fault, ok, ◌>>=◌, double_free, null_dereference, use_after_free}
use iftop_dotqoo.History.{History}
use iftop_dotqoo.Message.{Platform, fill_message, struct_size}

pub data MqttStatus : Type 0 where
  mqtt_status_init mqtt_status_lost mqtt_status_pending mqtt_status_complete : MqttStatus

pub data MqttConnect : Type 0 where
  mqtt_connect_on mqtt_connect_off : MqttConnect

-- What `data` and `out` point to: nothing, a block of the heap, or a block that has been freed.
pub data Buffer : Type 0 where
  null : Buffer
  live : List ℕ → Buffer
  freed : Buffer

-- The variables of mqtt.c. `published` collects the payloads handed to `MQTTClient_publishMessage`,
-- the newest first.
pub record Mqtt : Type 0 where
  pub message : Buffer
  pub out : Buffer
  pub msg_len : ℕ
  pub compressed_size : ℕ
  pub status : MqttStatus
  pub connection : MqttConnect
  pub token : ℤ
  pub deliveredtoken : ℤ
  pub last_try : ℕ
  pub published : List (List ℕ)

abbrev pub reconnect_interval : ℕ
reconnect_interval = 120

abbrev pub is_pending : MqttStatus → Bool
is_pending mqtt_status_pending = true
is_pending mqtt_status_init = false
is_pending mqtt_status_lost = false
is_pending mqtt_status_complete = false

abbrev pub is_off : MqttConnect → Bool
is_off mqtt_connect_off = true
is_off mqtt_connect_on = false

unfoldable pub free : Buffer → Run Buffer
free null = ok null
free (live bytes) = ok freed
free freed = fault double_free

unfoldable pub contents : Buffer → Run (List ℕ)
contents null = fault null_dereference
contents (live bytes) = ok bytes
contents freed = fault use_after_free

unfoldable pub drop_pending : Mqtt → Run Mqtt
unfolding free
drop_pending s =
    let dropped =
      free s.message >>= λ b. ok (record s { message = b; status = mqtt_status_init }) in
    if is_pending s.status then dropped else ok s

-- `connects` says whether `MQTTClient_connect` succeeds. The result is the C function's.
unfoldable pub connect_and_subscribe : Bool → Mqtt → Run (Mqtt × ℕ)
unfolding drop_pending
connect_and_subscribe connects s = do
  s ← drop_pending s
  if connects then ok (record s { connection = mqtt_connect_on }, 0) else ok (s, 1)

unfoldable pub check_mqtt_connection : Bool → ℕ → Mqtt → Run Mqtt
check_mqtt_connection connects t s =
    let again = (do (s', rc) ← connect_and_subscribe connects (record s { last_try = t }); ok s') in
    if is_off s.connection && ltb (s.last_try + reconnect_interval) t then again else ok s

-- The call-back `connlost`, at time `now`.
unfoldable pub connlost : Bool → ℕ → Mqtt → Run Mqtt
connlost connects now s = do
  (s', rc) ←
      connect_and_subscribe connects (record s { connection = mqtt_connect_off; last_try = now })
  ok s'

-- The call-back `delivered`.
unfoldable pub delivered : ℤ → Mqtt → Mqtt
delivered dt s = record s { deliveredtoken = dt }

unfoldable pub check_status : Mqtt → Run Mqtt
unfolding free
check_status s =
    let finished = (do
      b ← free s.message
      o ← free s.out
      ok (record s {
        deliveredtoken = pos 0;
        message = b;
        out = o;
        status = mqtt_status_complete;
      })) in
    if eq_ℤ s.deliveredtoken s.token then finished else ok s

-- `deflate input room` is what zlib writes into an output buffer of `room` bytes.
module _ (deflate : List ℕ → ℕ → List ℕ) (platform : Platform) where
  unfoldable pub compress_msg : List ℕ → Mqtt → Mqtt
  compress_msg input s =
      let z = deflate input s.msg_len in
      record s { out = live (z ++ replicate (s.msg_len - length z) 0); compressed_size = length z }

  -- The result is 0 when there is a message to send.
  unfoldable pub construct_mqtt_msg : ℕ → History → Mqtt → Run (Mqtt × ℕ)
  construct_mqtt_msg n history s =
      let built = (do
        bytes ← fill_message platform n history
        ok (
          compress_msg bytes (record s {
            message = live bytes;
            status = mqtt_status_pending;
            msg_len = struct_size platform * n;
          }),
          0,
        )) in
      if is_pending s.status || is_off s.connection
      then ok (s, 1)
      else if n == 0
      then ok (s, 1)
      else built

-- `publish_token` is the token that `MQTTClient_publishMessage` gives the message.
unfoldable pub send_mqtt_msg : ℤ → Mqtt → Run Mqtt
unfolding free contents
send_mqtt_msg publish_token s =
    let discarded = (do
      b ← free s.message
      o ← free s.out
      ok (record s { status = mqtt_status_complete; message = b; out = o })) in
    let sent = (do
      bytes ← contents s.out
      ok (record s {
        deliveredtoken = pos 0;
        token = publish_token;
        published = take s.compressed_size bytes ∷ s.published;
      })) in
    if is_off s.connection then discarded else sent
