-- ===== src/Mqtt/Send.antt =====
-- A message of mqtt.c from `construct_MQTT_msg` to `send_MQTT_msg`.
use iftop_dotqoo.Prelude.{
  Bool-cases, List, arith, false, inl, inr, length, refl, replicate, take-length-append, ℕ, ◌*◌,
  ◌++◌, ◌-◌, ◌==◌, ◌||◌, ◌∷◌, ◌≡◌, ◌≢◌, ◌⊎◌,
}
use iftop_dotqoo.Prelude.Int.{pos, ℤ}
use iftop_dotqoo.Run.{ok}
use iftop_dotqoo.History.{History}
use iftop_dotqoo.Message.{Platform, fill_message, struct_size}
use iftop_dotqoo.Mqtt.{
  Mqtt, compress_msg, construct_mqtt_msg, is_off, is_pending, live, mqtt_status_pending,
  send_mqtt_msg,
}
use iftop_dotqoo.Mqtt.Safety.{IsSound, busy, token_set}

module _ (deflate : List ℕ → ℕ → List ℕ) (platform : Platform) (n : ℕ) where
  abbrev pub room : ℕ
  room = struct_size platform * n

  -- The client once the message `bytes` for `n` connections has been built.
  abbrev pub loaded : List ℕ → Mqtt → Mqtt
  loaded bytes s =
      let z = deflate bytes room in
      record s {
        message = live bytes;
        out = live (z ++ replicate (room - length z) 0);
        msg_len = room;
        compressed_size = length z;
        status = mqtt_status_pending;
      }

  pub construct_mqtt_msg-cases :
      (history : History) (bytes : List ℕ) (s : Mqtt)
      → fill_message platform n history ≡ ok bytes
      → (construct_mqtt_msg deflate platform n history s ≡ ok (s, 1))
        ⊎ ((construct_mqtt_msg deflate platform n history s ≡ ok (loaded bytes s, 0))
            × (is_off s.connection ≡ false))
  unfolding construct_mqtt_msg compress_msg
  construct_mqtt_msg-cases history bytes s e =
      elim (Bool-cases (is_pending s.status || is_off s.connection)) [
        | inl busy' ↦ inl (rw busy')
        | inr ready ↦ elim (Bool-cases (n == 0)) [
          | inl nothing ↦ inl (rw (ready, nothing))
          | inr some' ↦ inr (rw (ready, some', e), ground arith)
        ]
      ]

  pub construct_mqtt_msg-ready :
      (history : History) (bytes : List ℕ) (s : Mqtt)
      → fill_message platform n history ≡ ok bytes
      → is_pending s.status ≡ false
      → is_off s.connection ≡ false
      → n ≢ 0
      → construct_mqtt_msg deflate platform n history s ≡ ok (loaded bytes s, 0)
  unfolding construct_mqtt_msg compress_msg
  construct_mqtt_msg-ready history bytes s e idle' on some' =
      let b : (n == 0) ≡ false = ground arith in rw (idle', on, b, e)

  pub loaded-IsSound :
      (bytes : List ℕ) (s : Mqtt)
      → IsSound s
      → is_off s.connection ≡ false
      → IsSound (loaded bytes s)
  loaded-IsSound bytes s v on = busy bytes _ refl refl refl on (token_set s v)

  -- Sending hands the compressed message to the broker, and only that.
  pub send_mqtt_msg-loaded :
      (publish_token : ℤ) (bytes : List ℕ) (s : Mqtt)
      → is_off s.connection ≡ false
      → send_mqtt_msg publish_token (loaded bytes s)
        ≡ ok (record (loaded bytes s) {
          deliveredtoken = pos 0;
          token = publish_token;
          published = deflate bytes room ∷ s.published;
        })
  unfolding send_mqtt_msg
  send_mqtt_msg-loaded publish_token bytes s on = rw on (
      rw (
        take-length-append (deflate bytes room) (replicate (room - length (deflate bytes room)) 0)))
