-- ===== src/Mqtt/Race.antt =====
-- `check_status` of mqtt.c runs behind the mutex of `tick`, so that two threads, the one that captures
-- and the one of the key loop or of the broker's call-back, can be in it at once. Each statement of
-- it is a step here, and a schedule says which thread goes on.
use iftop_dotqoo.Prelude.{
  Bool, List, [], ap, arith, false, if◌then◌else◌, inl, inr, map, not, refl, replicate, suc, true,
  ℕ, ◌∷◌, ◌≡◌, ◌≤◌, ◌⊎◌,
}
use iftop_dotqoo.Prelude.Int.{eq_ℤ, pos}
use iftop_dotqoo.Run.{Fault, Run, fault, ok, ◌>>=◌, double_free}
use iftop_dotqoo.Mqtt.{Mqtt, check_status, free, freed, live, mqtt_status_complete}

-- The statement that a thread is about to run.
pub data Place : Type 0 where
  test reset free_message free_out set_status done : Place

unfoldable pub status_step : Place → Mqtt → Run (Place × Mqtt)
unfolding free
status_step test m = ok (if eq_ℤ m.deliveredtoken m.token then reset else done, m)
status_step reset m = ok (free_message, record m { deliveredtoken = pos 0 })
status_step free_message m = free m.message >>= λ b. ok (free_out, record m { message = b })
status_step free_out m = free m.out >>= λ b. ok (set_status, record m { out = b })
status_step set_status m = ok (done, record m { status = mqtt_status_complete })
status_step done m = ok (done, m)

-- `true` is a step of the first thread.
unfoldable pub run_schedule : List Bool → Place → Place → Mqtt → Run (Place × Place × Mqtt)
unfolding status_step
run_schedule [] p q m = ok (p, q, m)
run_schedule (true ∷ turns) p q m = status_step p m >>= λ (p', m'). run_schedule turns p' q m'
run_schedule (false ∷ turns) p q m = status_step q m >>= λ (q', m'). run_schedule turns p q' m'

-- The steps that the first thread and the second have in a schedule.
abbrev pub turns_of : Bool → List Bool → ℕ
turns_of who [] = 0
turns_of true (true ∷ turns) = suc (turns_of true turns)
turns_of true (false ∷ turns) = turns_of true turns
turns_of false (true ∷ turns) = turns_of false turns
turns_of false (false ∷ turns) = suc (turns_of false turns)

-- A thread that is going to free the message, and the steps it takes to have done so.
data IsBefore : Place → ℕ → Type 0 where
  at_reset : IsBefore reset 2
  at_free : IsBefore free_message 1

-- A thread that has freed the message.
data IsAfter (m : Mqtt) : Place → Type 0 where
  at_out : (bytes : List ℕ) → m.out ≡ live bytes → IsAfter m free_out
  at_status : IsAfter m set_status
  at_done : IsAfter m done

-- The other thread has freed the message: what is left of this one frees it again.
first_late :
    (turns : List Bool) (p q : Place) (n : ℕ) (m : Mqtt)
    → IsBefore p n
    → IsAfter m q
    → m.message ≡ freed
    → n ≤ turns_of true turns
    → run_schedule turns p q m ≡ fault double_free
unfolding run_schedule
first_late [] _ q _ m at_reset after gone enough = absurd (omega arith)
first_late [] _ q _ m at_free after gone enough = absurd (omega arith)
first_late (true ∷ turns) _ q _ m at_reset (at_out bytes alive) gone enough =
    first_late turns free_message q 1 (record m { deliveredtoken = pos 0 }) at_free
      (at_out bytes alive) gone (omega arith)
first_late (true ∷ turns) _ q _ m at_reset at_status gone enough =
    first_late turns free_message q 1 (record m { deliveredtoken = pos 0 }) at_free at_status gone
      (omega arith)
first_late (true ∷ turns) _ q _ m at_reset at_done gone enough =
    first_late turns free_message q 1 (record m { deliveredtoken = pos 0 }) at_free at_done gone
      (omega arith)
first_late (true ∷ turns) _ q _ m at_free after gone enough = ground arith
first_late (false ∷ turns) p _ n m before (at_out bytes alive) gone enough =
    let next =
      first_late turns p set_status n (record m { out = freed }) before at_status gone enough in
    ground (arith, next)
first_late (false ∷ turns) p _ n m before at_status gone enough =
    first_late turns p done n (record m { status = mqtt_status_complete }) before at_done gone
      enough
first_late (false ∷ turns) p _ n m before at_done gone enough =
    first_late turns p done n m before at_done gone enough

Run-cases {ℓ} : {A : Type ℓ} (r : Run A) → ((a : A) × (r ≡ ok a)) ⊎ ((e : Fault) × (r ≡ fault e))
Run-cases (ok a) = inl (a, refl)
Run-cases (fault e) = inr (e, refl)

-- The names of the threads do not matter.
exchange :
    (turns : List Bool) (p q : Place) (m : Mqtt)
    → run_schedule (map not turns) q p m
      ≡ (run_schedule turns p q m >>= λ (a, b, m'). ok (b, a, m'))
unfolding run_schedule
exchange [] p q m = refl
exchange (true ∷ turns) p q m = elim (Run-cases (status_step p m)) [
  | inl ((p', m'), steps) ↦ ground (arith, exchange turns p' q m')
  | inr (e, stops) ↦ ground arith
]
exchange (false ∷ turns) p q m = elim (Run-cases (status_step q m)) [
  | inl ((q', m'), steps) ↦ ground (arith, exchange turns p q' m')
  | inr (e, stops) ↦ ground arith
]

turns_of-map : (turns : List Bool) → turns_of true (map not turns) ≡ turns_of false turns
turns_of-map [] = refl
turns_of-map (true ∷ turns) = turns_of-map turns
turns_of-map (false ∷ turns) = ap suc (turns_of-map turns)

second_late :
    (turns : List Bool) (p q : Place) (n : ℕ) (m : Mqtt)
    → IsBefore q n
    → IsAfter m p
    → m.message ≡ freed
    → n ≤ turns_of false turns
    → run_schedule turns p q m ≡ fault double_free
second_late turns p q n m before after gone enough =
    let size = turns_of-map turns in
    let mirrored = first_late (map not turns) q p n m before after gone (omega arith) in
    let swapped = exchange turns p q m in
    elim (Run-cases (run_schedule turns p q m)) [
      | inl (r, ends) ↦ absurd (ground arith)
      | inr (e, stops) ↦ ground arith
    ]

both_before :
    (turns : List Bool) (p q : Place) (n k : ℕ) (m : Mqtt) (b o : List ℕ)
    → IsBefore p n
    → IsBefore q k
    → m.message ≡ live b
    → m.out ≡ live o
    → n ≤ turns_of true turns
    → k ≤ turns_of false turns
    → run_schedule turns p q m ≡ fault double_free
unfolding run_schedule
both_before [] _ q _ k m b o at_reset before msg out more enough = absurd (omega arith)
both_before [] _ q _ k m b o at_free before msg out more enough = absurd (omega arith)
both_before (true ∷ turns) _ q _ k m b o at_reset before msg out more enough =
    both_before turns free_message q 1 k (record m { deliveredtoken = pos 0 }) b o at_free before
      msg out (omega arith) enough
both_before (true ∷ turns) _ q _ k m b o at_free before msg out more enough =
    let late =
      second_late turns free_out q k (record m { message = freed }) before (at_out o out) refl
        enough in
    ground (arith, late)
both_before (false ∷ turns) p _ n _ m b o before at_reset msg out more enough =
    both_before turns p free_message n 1 (record m { deliveredtoken = pos 0 }) b o before at_free
      msg out more (omega arith)
both_before (false ∷ turns) p _ n _ m b o before at_free msg out more enough =
    let late =
      first_late turns p free_out n (record m { message = freed }) before (at_out o out) refl
        more in
    ground (arith, late)

-- The delivery of the pending message has been reported, and both buffers are live. A thread that runs
-- `check_status` alone, in five steps, does what `check_status` does. But where both threads look at
-- the report before either goes on, then in whatever order they go on, two steps of each at least, a
-- block is freed twice.
pub run_schedule-check_status :
    (m : Mqtt) (q : Place) (b o : List ℕ) (turns : List Bool)
    → eq_ℤ m.deliveredtoken m.token ≡ true
    → m.message ≡ live b
    → m.out ≡ live o
    → 2 ≤ turns_of true turns
    → 2 ≤ turns_of false turns
    → (run_schedule (replicate 5 true) test q m ≡ (check_status m >>= λ m'. ok (done, q, m')))
      × (run_schedule (true ∷ false ∷ turns) test test m ≡ fault double_free)
unfolding run_schedule check_status
run_schedule-check_status m q b o turns arrived msg out more enough = (
  ground arith,
  rw arrived (both_before turns reset reset 2 2 m b o at_reset at_reset msg out more enough),
)
