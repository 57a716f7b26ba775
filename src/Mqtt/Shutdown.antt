-- ===== src/Mqtt/Shutdown.antt =====
-- The end of the client in mqtt.c: `destory_MQTT` looks at the delivery report until no message is
-- pending. The call-back `delivered` runs in another thread, so each look is preceded by the report
-- that arrived before it, if one did.
use iftop_dotqoo.Prelude.{
  Bool-cases, List, Option, [], arith, false, if◌then◌else◌, inl, inr, none, refl, some, true, ℕ,
  ◌++◌, ◌∷◌, ◌≡◌,
}
use iftop_dotqoo.Prelude.Int.{eq_ℤ, pos, ℤ}
use iftop_dotqoo.Run.{Returns, Run, fault, ok, ◌>>=◌, out_of_fuel}
use iftop_dotqoo.Mqtt.{
  Mqtt, check_status, delivered, free, freed, is_off, is_pending, live, mqtt_status_complete,
}

abbrev pub arrives : Option ℤ → Mqtt → Mqtt
arrives none s = s
arrives (some dt) s = delivered dt s

-- The loop; the fault is that it goes on behind the looks of the list. What follows it only calls
-- the library.
unfoldable pub destory_mqtt : List (Option ℤ) → Mqtt → Run Mqtt
destory_mqtt [] s = if is_pending s.status then fault out_of_fuel else ok s
destory_mqtt (report ∷ looks) s =
    let again = check_status (arrives report s) >>= destory_mqtt looks in
    if is_pending s.status then again else ok s

-- A pending message, with its two buffers, on a connected client.
pub record IsBusy (s : Mqtt) : Type 0 where
  pub pending : is_pending s.status ≡ true
  pub buffers : (b : List ℕ) × (o : List ℕ) × (s.message ≡ live b) × (s.out ≡ live o)
  pub connected : is_off s.connection ≡ false
  pub token_set : eq_ℤ s.token (pos 0) ≡ false

-- Once the report of the pending message is there, a look frees both buffers.
pub check_status-arrived :
    (s : Mqtt)
    → IsBusy s
    → eq_ℤ s.deliveredtoken s.token ≡ true
    → check_status s
      ≡ ok (record s {
        deliveredtoken = pos 0;
        message = freed;
        out = freed;
        status = mqtt_status_complete;
      })
unfolding check_status free
check_status-arrived s v e = let (b, o, m, n) = v.buffers in rw (e, m, n)

done :
    (looks : List (Option ℤ)) (s : Mqtt) → is_pending s.status ≡ false → destory_mqtt looks s ≡ ok s
unfolding destory_mqtt
done [] s h = rw h
done (report ∷ looks) s h = rw h

pub eq_ℤ_refl : (a : ℤ) → eq_ℤ a a ≡ true
eq_ℤ_refl a = ground arith

abbrev pub IsDone : Mqtt → Type 0
IsDone s = (s.status ≡ mqtt_status_complete) × (s.message ≡ freed) × (s.out ≡ freed)

look_last :
    (looks : List (Option ℤ)) (s : Mqtt)
    → IsBusy s
    → eq_ℤ s.deliveredtoken s.token ≡ true
    → Returns IsDone (check_status s >>= destory_mqtt looks)
look_last looks s v e =
    let s' : Mqtt = record s {
      deliveredtoken = pos 0;
      message = freed;
      out = freed;
      status = mqtt_status_complete;
    } in
    (s', rw (check_status-arrived s v e) (done looks s' refl), (refl, refl, refl))

look_early : (s : Mqtt) → eq_ℤ s.deliveredtoken s.token ≡ false → check_status s ≡ ok s
unfolding check_status
look_early s e = rw e

-- The loop ends once the report of the pending message has arrived, whatever the reports before it
-- were and whatever follows. Both buffers have been freed by then, each once.
pub destory_mqtt-delivered :
    (before after : List (Option ℤ)) (s : Mqtt)
    → IsBusy s
    → Returns IsDone (destory_mqtt (before ++ some s.token ∷ after) s)
unfolding destory_mqtt delivered
destory_mqtt-delivered [] after s v = rw v.pending (
    look_last after (delivered s.token s)
      (record {
        pending = v.pending;
        buffers = v.buffers;
        connected = v.connected;
        token_set = v.token_set;
      })
      (eq_ℤ_refl s.token))
destory_mqtt-delivered (none ∷ before) after s v =
    elim (Bool-cases (eq_ℤ s.deliveredtoken s.token)) [
      | inl arrived ↦ rw v.pending (look_last _ s v arrived)
      | inr early ↦ rw (v.pending, look_early s early) (destory_mqtt-delivered before after s v)
    ]
destory_mqtt-delivered (some dt ∷ before) after s v =
    let w : IsBusy (delivered dt s) = record {
      pending = v.pending;
      buffers = v.buffers;
      connected = v.connected;
      token_set = v.token_set;
    } in
    elim (Bool-cases (eq_ℤ dt s.token)) [
      | inl arrived ↦ rw v.pending (look_last _ (delivered dt s) w arrived)
      | inr early ↦
          rw (v.pending, look_early (delivered dt s) early)
            (destory_mqtt-delivered before after (delivered dt s) w)
    ]
