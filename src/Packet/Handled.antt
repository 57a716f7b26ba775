-- ===== src/Packet/Handled.antt =====
-- `handle_ip_packet` of iftop.c as a whole: the `tick`, the search of the blocked protocols, which
-- starts at a place that nothing has set, and the account.
use iftop_dotqoo.Prelude.{Bool-cases, List, ap, arith, drop, false, inl, inr, refl, subst, ℕ, ◌≡◌}
use iftop_dotqoo.Prelude.Int.{eq_ℤ, pos}
use iftop_dotqoo.Run.{Returns, fault, ok, out_of_bounds}
use iftop_dotqoo.Options.{Options}
use iftop_dotqoo.PortList.{
  OneOf, end_mark, stays_inside, stays_inside_marked, stays_inside_unmarked,
}
use iftop_dotqoo.Capture.{Broker, Capture, World}
use iftop_dotqoo.Capture.Settings.{tick-settings}
use iftop_dotqoo.Capture.Tick.{IsReady, IsUsual, tick-IsReady}
use iftop_dotqoo.Packet.Account.{account_packet_lem}
use iftop_dotqoo.Packet.{HwDir, Interface, account_packet, handle_ip_packet, ip_p}

account_packet-IsReady :
    (iface : Interface) (i t now : ℕ) (packet : List ℕ) (hw_dir : HwDir) (s : Capture)
    → IsReady s
    → IsReady (account_packet iface i t now packet hw_dir s)
account_packet-IsReady iface i t now packet hw_dir s v =
    elim (account_packet_lem iface i t now packet hw_dir s v) [
      | inl (same, why) ↦ rw same v
      | inr (key, outgoing, open', accepted, ready, a) ↦ ready
    ]

-- Under the conditions of `tick-IsReady`, and with an end mark at the place where the search of the
-- blocked protocols starts, or behind it, a packet is handled without a fault, and the capture is
-- sound after it.
pub handle_ip_packet-IsReady :
    (world : World) (broker : Broker) (iface : Interface) (i t now : ℕ) (packet : List ℕ)
    (hw_dir : HwDir) (s : Capture)
    → IsUsual world
    → eq_ℤ broker.publish_token (pos 0) ≡ false
    → IsReady s
    → OneOf end_mark (drop i s.options.block_protocols)
    → Returns IsReady (handle_ip_packet world broker iface i t now packet hw_dir s)
unfolding handle_ip_packet
handle_ip_packet-IsReady world broker iface i t now packet hw_dir s usual fresh v marked =
    let (s', e, w) = tick-IsReady world broker false t usual fresh s v in
    let kept : s'.options.block_protocols ≡ s.options.block_protocols =
      ap (λ (x : Options). x.block_protocols) (tick-settings world broker false t s s' e) in
    let inside = stays_inside_marked i s'.options.block_protocols (ip_p packet) (rw kept marked) in
    rw (e, inside)
      (
        account_packet iface i t now packet hw_dir s',
        refl,
        account_packet-IsReady iface i t now packet hw_dir s' w,
      )

-- A packet that has been handled, with memory and tokens as for `tick-IsReady`, leaves a sound
-- capture sound.
pub handle_ip_packet_ran :
    (world : World) (broker : Broker) (iface : Interface) (i t now : ℕ) (packet : List ℕ)
    (hw_dir : HwDir) (s e : Capture)
    → IsUsual world
    → eq_ℤ broker.publish_token (pos 0) ≡ false
    → IsReady s
    → handle_ip_packet world broker iface i t now packet hw_dir s ≡ ok e
    → IsReady e
unfolding handle_ip_packet
handle_ip_packet_ran world broker iface i t now packet hw_dir s e usual fresh v runs =
    let (s', ticks, w) = tick-IsReady world broker false t usual fresh s v in
    let ready = account_packet-IsReady iface i t now packet hw_dir s' w in
    elim (Bool-cases (stays_inside i s'.options.block_protocols (ip_p packet))) [
      | inl inside ↦
          let ends : ok (account_packet iface i t now packet hw_dir s') ≡ ok e =
            rw (handle_ip_packet, ticks, inside) at runs in
          let same : account_packet iface i t now packet hw_dir s' ≡ e = ground arith in
          subst IsReady same ready
      | inr outside ↦
          let ends : fault out_of_bounds ≡ ok e = rw (handle_ip_packet, ticks, outside) at runs in
          absurd (ground arith)
    ]

-- Freed memory keeps its contents, a `long` has 4 bytes or more, and the broker's token is not 0. Where
-- the array of blocked protocols of a sound capture has, from the place on that the uninitialised
-- variable gives, neither an end mark nor the protocol of the packet, the packet makes the program
-- read outside of the array, whatever the `tick` in front of the search does.
pub handle_ip_packet-outside :
    (world : World) (broker : Broker) (iface : Interface) (i t now : ℕ) (packet : List ℕ)
    (hw_dir : HwDir) (s : Capture)
    → IsUsual world
    → eq_ℤ broker.publish_token (pos 0) ≡ false
    → IsReady s
    → ¬ OneOf end_mark (drop i s.options.block_protocols)
    → ¬ OneOf (pos (ip_p packet)) (drop i s.options.block_protocols)
    → handle_ip_packet world broker iface i t now packet hw_dir s ≡ fault out_of_bounds
unfolding handle_ip_packet
handle_ip_packet-outside world broker iface i t now packet hw_dir s usual fresh v no_end no_match =
    let (s', e, w) = tick-IsReady world broker false t usual fresh s v in
    let kept : s'.options.block_protocols ≡ s.options.block_protocols =
      ap (λ (x : Options). x.block_protocols) (tick-settings world broker false t s s' e) in
    let leaves : stays_inside i s'.options.block_protocols (ip_p packet) ≡ false =
      rw kept (stays_inside_unmarked i s.options.block_protocols (ip_p packet) no_end no_match) in
    rw (handle_ip_packet, e, leaves) refl
