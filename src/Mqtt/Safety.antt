-- ===== src/Mqtt/Safety.antt =====
-- The two buffers of mqtt.c are freed once for each message: an invariant of the client, the
-- operations that keep it, and the one order of events that breaks it.
use iftop_dotqoo.Prelude.{
  Bool, Bool-cases, List, arith, false, inl, inr, ltb, refl, true, ℕ, ◌&&◌, ◌+◌, ◌∙◌, ◌≡◌, ◌⊎◌,
}
use iftop_dotqoo.Prelude.Int.{eq_ℤ, pos, ℤ}
use iftop_dotqoo.Run.{Returns, fault, ok, ◌>>=◌, double_free}
use iftop_dotqoo.Mqtt.{
  Mqtt, check_mqtt_connection, check_status, connect_and_subscribe, connlost, delivered, freed,
  is_off, is_pending, live, mqtt_connect_off, mqtt_connect_on, mqtt_status_complete,
  mqtt_status_init, mqtt_status_pending, reconnect_interval,
}

-- Between messages no token counts as delivered. A pending message owns two live blocks, and the
-- client is connected.
pub data IsSound (s : Mqtt) : Type 0 where
  idle :
      is_pending s.status ≡ false
      → eq_ℤ s.deliveredtoken s.token ≡ false
      → eq_ℤ s.token (pos 0) ≡ false
      → IsSound s
  busy :
      (b o : List ℕ)
      → s.status ≡ mqtt_status_pending
      → s.message ≡ live b
      → s.out ≡ live o
      → is_off s.connection ≡ false
      → eq_ℤ s.token (pos 0) ≡ false
      → IsSound s

pub eq_ℤ_comm : (a b : ℤ) → eq_ℤ a b ≡ eq_ℤ b a
eq_ℤ_comm a b = ground arith

-- A look at the delivery report of a sound client ends without a fault, and the client is sound
-- after it: the buffers are freed once for each message.
pub check_status-IsSound : (s : Mqtt) → IsSound s → Returns IsSound (check_status s)
unfolding check_status
check_status-IsSound s (idle p d k) = (s, rw d, idle p d k)
check_status-IsSound s (busy b o p m out on k) = elim (Bool-cases (eq_ℤ s.deliveredtoken s.token)) [
  | inl arrived ↦ (
    record s {
      deliveredtoken = pos 0;
      message = freed;
      out = freed;
      status = mqtt_status_complete;
    },
    ground arith,
    idle refl (eq_ℤ_comm (pos 0) s.token ∙ k) k,
  )
  | inr waiting ↦ (s, rw waiting, busy b o p m out on k)
]

-- A delivery report is sound when its message is pending, or when it is not for the last token.
pub delivered-IsSound :
    (dt : ℤ) (s : Mqtt)
    → IsSound s
    → (is_pending s.status ≡ true) ⊎ (eq_ℤ dt s.token ≡ false)
    → IsSound (delivered dt s)
unfolding delivered
delivered-IsSound dt s (busy b o p m out on k) h = busy b o p m out on k
delivered-IsSound dt s (idle p d k) (inl h) = absurd (ground arith)
delivered-IsSound dt s (idle p d k) (inr h) = idle p h k

-- Connecting again gives up a pending message, and is sound when no delivery report waits.
connect_and_subscribe-IsSound :
    (connects : Bool) (s : Mqtt)
    → (is_pending s.status ≡ false)
      ⊎ ((b : List ℕ) × (s.status ≡ mqtt_status_pending) × (s.message ≡ live b))
    → eq_ℤ s.deliveredtoken s.token ≡ false
    → eq_ℤ s.token (pos 0) ≡ false
    → (s' : Mqtt) × (rc : ℕ) × (connect_and_subscribe connects s ≡ ok (s', rc)) × IsSound s'
unfolding connect_and_subscribe
connect_and_subscribe-IsSound true s (inl p) h k =
    (record s { connection = mqtt_connect_on }, 0, rw p, idle p h k)
connect_and_subscribe-IsSound false s (inl p) h k = (s, 1, rw p, idle p h k)
connect_and_subscribe-IsSound true s (inr (b, p, m)) h k = (
  record s { connection = mqtt_connect_on; message = freed; status = mqtt_status_init },
  0,
  ground arith,
  idle refl h k,
)
connect_and_subscribe-IsSound false s (inr (b, p, m)) h k =
    (record s { message = freed; status = mqtt_status_init }, 1, ground arith, idle refl h k)

pub check_mqtt_connection-IsSound :
    (connects : Bool) (t : ℕ) (s : Mqtt)
    → IsSound s
    → Returns IsSound (check_mqtt_connection connects t s)
unfolding check_mqtt_connection
check_mqtt_connection-IsSound connects t s (busy b o p m out on k) =
    (s, rw on, busy b o p m out on k)
check_mqtt_connection-IsSound connects t s (idle p d k) =
    elim (Bool-cases (is_off s.connection && ltb (s.last_try + reconnect_interval) t)) [
      | inr rest ↦ (s, rw rest, idle p d k)
      | inl due ↦
          let (s', rc, e, sound) =
            connect_and_subscribe-IsSound connects (record s { last_try = t }) (inl p) d k in
          (s', rw (due, e), sound)
    ]

pub token_set : (s : Mqtt) → IsSound s → eq_ℤ s.token (pos 0) ≡ false
token_set s (idle p d k) = k
token_set s (busy b o p m out on k) = k

dropped :
    (s : Mqtt)
    → IsSound s
    → (is_pending s.status ≡ false)
      ⊎ ((b : List ℕ) × (s.status ≡ mqtt_status_pending) × (s.message ≡ live b))
dropped s (idle p d k) = inl p
dropped s (busy b o p m out on k) = inr (b, p, m)

-- Losing the connection of a sound client for which no delivery report waits to be seen ends
-- without a fault, and the client is sound after it.
pub connlost-IsSound :
    (connects : Bool) (now : ℕ) (s : Mqtt)
    → IsSound s
    → eq_ℤ s.deliveredtoken s.token ≡ false
    → Returns IsSound (connlost connects now s)
unfolding connlost
connlost-IsSound connects now s v d =
    let (s', rc, e, sound) =
      connect_and_subscribe-IsSound connects
        (record s { connection = mqtt_connect_off; last_try = now }) (dropped s v) d
        (token_set s v) in
    (s', rw e, sound)

-- The order of events that frees a pending message twice: it is delivered, the connection is lost before
-- the next `check_status`, and then `check_status` runs.
pub connlost-check_status :
    (connects : Bool) (now : ℕ) (s : Mqtt) (b : List ℕ)
    → s.status ≡ mqtt_status_pending
    → s.message ≡ live b
    → connlost connects now (delivered s.token s) >>= check_status ≡ fault double_free
unfolding connlost connect_and_subscribe delivered check_status
connlost-check_status true now s b p m = ground arith
connlost-check_status false now s b p m = ground arith
