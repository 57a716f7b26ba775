-- ===== src/Frame/Loop.antt =====
-- A frame of `packet_loop` of iftop.c, whatever it holds, in a sound capture.
use iftop_dotqoo.Prelude.{List, Option, Option-cases, arith, drop, false, inl, inr, subst, ℕ, ◌≡◌}
use iftop_dotqoo.Prelude.Int.{eq_ℤ, pos}
use iftop_dotqoo.Run.{Returns, ok}
use iftop_dotqoo.Hash.Lookup.{hash_initialise_lem}
use iftop_dotqoo.AddrHash.{addr_hash_create, addr_ops, addr_ops-IsLawful}
use iftop_dotqoo.Options.{Options}
use iftop_dotqoo.PortList.{OneOf, end_mark}
use iftop_dotqoo.Mqtt.{Mqtt}
use iftop_dotqoo.Mqtt.Safety.{IsSound}
use iftop_dotqoo.Capture.{Capture, World, init_history}
use iftop_dotqoo.Capture.Tick.{IsReady, IsUsual}
use iftop_dotqoo.Packet.{Interface}
use iftop_dotqoo.Packet.Handled.{handle_ip_packet-IsReady, handle_ip_packet_ran}
use iftop_dotqoo.Frame.{Arrival, Datagram, handle_frame}

-- The broker does not hand out token 0, which the client uses for no delivery.
abbrev pub IsFresh : Arrival → Type 0
IsFresh a = eq_ℤ a.broker.publish_token (pos 0) ≡ false

-- The array of blocked protocols has an end mark at the place that the uninitialised variable of
-- `handle_ip_packet` gives, or behind it.
abbrev pub IsInside : Options → Arrival → Type 0
IsInside options a = OneOf end_mark (drop a.i options.block_protocols)

pub init_history-IsReady :
    (now : ℕ) (options : Options) (mqtt : Mqtt)
    → IsSound mqtt
    → IsReady (init_history now options mqtt)
unfolding init_history addr_hash_create
init_history-IsReady now options mqtt client = record {
  table = (hash_initialise_lem addr_ops addr_ops-IsLawful).0;
  client = client;
}

module _ (world : World) (iface : Interface) (handler : ℕ → List ℕ → Option Datagram) where
  pub handle_frame-IsReady :
      (a : Arrival) (s : Capture)
      → IsUsual world
      → IsFresh a
      → IsReady s
      → IsInside s.options a
      → Returns IsReady (handle_frame world iface handler a s)
  unfolding handle_frame
  handle_frame-IsReady a s usual fresh v marked = elim (Option-cases (handler a.caplen a.packet)) [
    | inl dropped ↦ (s, rw (handle_frame, dropped), v)
    | inr ((datagram, dir), e) ↦
        rw (handle_frame, e)
          (handle_ip_packet-IsReady world a.broker iface a.i a.t a.now datagram dir s usual fresh v
            marked)
  ]

  -- The same for a frame that has been handled.
  pub handle_frame_ran :
      (a : Arrival) (s e : Capture)
      → IsUsual world
      → IsFresh a
      → IsReady s
      → handle_frame world iface handler a s ≡ ok e
      → IsReady e
  unfolding handle_frame
  handle_frame_ran a s e usual fresh v runs = elim (Option-cases (handler a.caplen a.packet)) [
    | inl dropped ↦ let same : s ≡ e = ground arith in subst IsReady same v
    | inr ((datagram, dir), found) ↦
        handle_ip_packet_ran world a.broker iface a.i a.t a.now datagram dir s e usual fresh v
          (rw (handle_frame, found) at runs)
  ]
