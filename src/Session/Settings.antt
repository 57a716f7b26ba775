-- ===== src/Session/Settings.antt =====
-- The options of the session are those of its start, but for the time of the last report.
use iftop_dotqoo.Prelude.{
  Bool-cases, List, Option, Option-cases, arith, false, if◌then◌else◌, inl, inr, refl, true, ℕ, ◌∙◌,
  ◌≡◌,
}
use iftop_dotqoo.Run.{came_through, fault, ok, out_of_bounds}
use iftop_dotqoo.Capture.{Capture, World, tick}
use iftop_dotqoo.Capture.Settings.{settings, tick-settings}
use iftop_dotqoo.Packet.{HwDir, Interface, account, account_packet, handle_ip_packet, ip_p, key_of}
use iftop_dotqoo.PortList.{is_blocked, stays_inside}
use iftop_dotqoo.Frame.{Arrival, Datagram, handle_frame}
use iftop_dotqoo.Session.{
  Reaches, Step, captures, delivers, loses, msgarrvd, next, presses, requests, start,
}

module _ (iface : Interface) (i t now : ℕ) (packet : List ℕ) (hw_dir : HwDir) (s : Capture) where
  account_packet-options : (account_packet iface i t now packet hw_dir s).options ≡ s.options
  unfolding account_packet account
  account_packet-options =
      elim (Bool-cases (is_blocked i s.options.block_protocols (ip_p packet))) [
        | inl blocked ↦ rw (account_packet, blocked)
        | inr open' ↦ elim (Option-cases (key_of s.options iface packet hw_dir)) [
          | inl dropped ↦ rw (account_packet, open', dropped)
          | inr ((key, true), accepted) ↦ rw (account_packet, open', accepted)
          | inr ((key, false), accepted) ↦ rw (account_packet, open', accepted)
        ]
      ]

  accounted-settings :
      (e : Capture)
      → (if stays_inside i s.options.block_protocols (ip_p packet)
          then ok (account_packet iface i t now packet hw_dir s)
          else fault out_of_bounds)
        ≡ ok e
      → settings e.options ≡ settings s.options
  accounted-settings e runs =
      elim (Bool-cases (stays_inside i s.options.block_protocols (ip_p packet))) [
        | inl inside ↦ ground (arith, account_packet-options)
        | inr outside ↦ absurd (ground arith)
      ]

module _ (world : World) (iface : Interface) (handler : ℕ → List ℕ → Option Datagram) where
  handle_frame-settings :
      (a : Arrival) (s e : Capture)
      → handle_frame world iface handler a s ≡ ok e
      → settings e.options ≡ settings s.options
  unfolding handle_frame handle_ip_packet
  handle_frame-settings a s e runs = elim (Option-cases (handler a.caplen a.packet)) [
    | inl dropped ↦ ground arith
    | inr ((datagram, dir), found) ↦
        let (m, ticks, accounts) =
          came_through (tick world a.broker false a.t s) _ (rw (handle_frame, found) at runs) in
        accounted-settings iface a.i a.t a.now datagram dir m e accounts
        ∙ tick-settings world a.broker false a.t s m ticks
  ]

  Step-settings :
      (s e : Capture) → Step world iface handler s e → settings e.options ≡ settings s.options
  Step-settings s _ (captures a e fresh runs) = handle_frame-settings a s e runs
  Step-settings s _ (requests broker t e fresh runs) =
      tick-settings world broker true t s e (unfold msgarrvd in runs)
  Step-settings s _ (presses broker t e fresh runs) = tick-settings world broker false t s e runs
  Step-settings s _ (delivers dt allowed) = refl
  Step-settings s _ (loses connects now m seen runs) = refl

  pub Reaches-settings :
      (s e : Capture) → Reaches world iface handler s e → settings e.options ≡ settings s.options
  Reaches-settings s _ start = refl
  Reaches-settings s _ (next m e before step) = Step-settings m e step ∙ Reaches-settings s m before
