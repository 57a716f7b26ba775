-- ===== src/Session.antt =====
-- The whole monitor as a state machine: the frames of iftop.c, the broker's call-backs of mqtt.c and
-- the key of tui.c that asks for a `tick` as steps on the state of the program, in any order. Each
-- step is one call; the mutex of `tick` keeps two ticks apart. Finer interleavings of the threads are
-- in Packet/Race and Mqtt/Race only.
pub mod Safe
pub mod Settings
use iftop_dotqoo.Prelude.{Bool, List, Option, arith, false, subst, sym, true, ℕ, ◌∙◌, ◌≡◌, ◌⊎◌}
use iftop_dotqoo.Prelude.Int.{eq_ℤ, pos, ℤ}
use iftop_dotqoo.Run.{Returns, Run, ok}
use iftop_dotqoo.Mqtt.{Mqtt, connlost, delivered, is_pending}
use iftop_dotqoo.Mqtt.Safety.{IsSound, connlost-IsSound, delivered-IsSound}
use iftop_dotqoo.Capture.{Broker, Capture, World, tick}
use iftop_dotqoo.Capture.Tick.{IsReady, IsUsual, tick-IsReady}
use iftop_dotqoo.Packet.{Interface}
use iftop_dotqoo.Frame.{Arrival, Datagram, handle_frame}
use iftop_dotqoo.Frame.Loop.{IsFresh, handle_frame_ran}

-- A data request of the broker, at time `t`.
unfoldable pub msgarrvd : World → Broker → ℕ → Capture → Run Capture
msgarrvd world broker t s = tick world broker true t s

module _ (world : World) (iface : Interface) (handler : ℕ → List ℕ → Option Datagram) where
  -- The broker reports the delivery of a pending message only, and does not use token 0. One order
  -- is left out: a connection that is lost while a delivery report waits for `check_status`.
  pub data Step (s : Capture) : Capture → Type 0 where
    captures :
        (a : Arrival) (s' : Capture)
        → IsFresh a
        → handle_frame world iface handler a s ≡ ok s'
        → Step s s'
    requests :
        (broker : Broker) (t : ℕ) (s' : Capture)
        → eq_ℤ broker.publish_token (pos 0) ≡ false
        → msgarrvd world broker t s ≡ ok s'
        → Step s s'
    presses :
        (broker : Broker) (t : ℕ) (s' : Capture)
        → eq_ℤ broker.publish_token (pos 0) ≡ false
        → tick world broker false t s ≡ ok s'
        → Step s s'
    delivers :
        (dt : ℤ)
        → (is_pending s.mqtt.status ≡ true) ⊎ (eq_ℤ dt s.mqtt.token ≡ false)
        → Step s (record s { mqtt = delivered dt s.mqtt })
    loses :
        (connects : Bool) (now : ℕ) (m : Mqtt)
        → eq_ℤ s.mqtt.deliveredtoken s.mqtt.token ≡ false
        → connlost connects now s.mqtt ≡ ok m
        → Step s (record s { mqtt = m })

  pub data Reaches (s : Capture) : Capture → Type 0 where
    start : Reaches s s
    next : (m e : Capture) → Reaches s m → Step m e → Reaches s e

returned {ℓ κ} : {A : Type ℓ} (P : A → Type κ) (r : Run A) (a : A) → Returns P r → r ≡ ok a → P a
returned P r a (b, e, p) h =
    let same : ok b ≡ ok a = sym e ∙ h in let value : b ≡ a = ground arith in subst P value p

module _ (world : World) (iface : Interface) (handler : ℕ → List ℕ → Option Datagram)
    (usual : IsUsual world) where
  Step-IsReady : (s e : Capture) → IsReady s → Step world iface handler s e → IsReady e
  Step-IsReady s _ v (captures a e fresh runs) =
      handle_frame_ran world iface handler a s e usual fresh v runs
  Step-IsReady s _ v (requests broker t e fresh runs) =
      let ends : Returns IsReady (msgarrvd world broker t s) =
        unfold msgarrvd in tick-IsReady world broker true t usual fresh s v in
      returned IsReady _ e ends runs
  Step-IsReady s _ v (presses broker t e fresh runs) =
      returned IsReady _ e (tick-IsReady world broker false t usual fresh s v) runs
  Step-IsReady s _ v (delivers dt allowed) = record {
    table = v.table;
    client = delivered-IsSound dt s.mqtt v.client allowed;
  }
  Step-IsReady s _ v (loses connects now m seen runs) = record {
    table = v.table;
    client = returned IsSound _ m (connlost-IsSound connects now s.mqtt v.client seen) runs;
  }

  pub Reaches-IsReady : (s e : Capture) → IsReady s → Reaches world iface handler s e → IsReady e
  Reaches-IsReady s _ v start = v
  Reaches-IsReady s _ v (next m e before step) =
      Step-IsReady m e (Reaches-IsReady s m v before) step
