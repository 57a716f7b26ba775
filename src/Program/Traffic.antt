-- ===== src/Program/Traffic.antt =====
-- The net filter from `main` of iftop.c to the packets that it monitors.
use iftop_dotqoo.Prelude.{
  All, Bool, Bool-cases, List, Option, Option-cases, [], ap, arith, false, inl, inr, none, refl,
  some, subst, suc, sym, true, zero, ℕ, ◌++◌, ◌+◌, ◌<◌, ◌==◌, ◌^◌, ◌∙◌, ◌∷◌, ◌≡◌, ◌≤◌,
}
use iftop_dotqoo.Prelude.Int.{pos}
use iftop_dotqoo.Run.{came_through, fault, ok, uninitialised_read}
use iftop_dotqoo.Text.{Text, atoi, codes, drop_while, is_digit}
use iftop_dotqoo.Options.{Options}
use iftop_dotqoo.Options.NetFilter.Prefix.{octets, same_prefix}
use iftop_dotqoo.Options.Args.{Args, Opt}
use iftop_dotqoo.Options.Args.Reads.{fits, last_of, value_of}
use iftop_dotqoo.Options.Make.{Display}
use iftop_dotqoo.Options.Make.Start.{running, start_up}
use iftop_dotqoo.Options.Make.Settled.{unset_rate}
use iftop_dotqoo.Options.Make.Filtered.{start_up-net_filter, start_up-unset}
use iftop_dotqoo.Mqtt.Topic.{init_mqtt, unset}
use iftop_dotqoo.Capture.{Capture, World, init_history}
use iftop_dotqoo.Capture.Settings.{settings}
use iftop_dotqoo.Packet.{
  HwDir, Interface, byte_at, classify, classify_by_net, host32, in_filter_net, ip_dst, ip_src,
  key_of, settle,
}
use iftop_dotqoo.Session.{Reaches}
use iftop_dotqoo.Session.Settings.{Reaches-settings}
use iftop_dotqoo.Program.{
  Handler, Initialised, Monitor, Outside, connect_client, gives_up, main, monitors, open_capture,
  opened, packet_init,
}

byte_at-lt : (packet : List ℕ) (i : ℕ) → All (λ b. b < 256) packet → byte_at packet i < 256
byte_at-lt [] i h = omega arith
byte_at-lt (b ∷ bs) zero h = h.0
byte_at-lt (b ∷ bs) (suc i) h = byte_at-lt bs i h.1

host32-lt : (packet : List ℕ) (i : ℕ) → All (λ b. b < 256) packet → host32 packet i < 2 ^ 32
unfolding host32
host32-lt packet i h = omega (
  arith,
  byte_at-lt packet i h,
  byte_at-lt packet (i + 1) h,
  byte_at-lt packet (i + 2) h,
  byte_at-lt packet (i + 3) h,
)

connect_client-options :
    (o : Outside) (s : Args) (d : Display) (i : Initialised) (display : Display) (iface : Interface)
    (handler : Handler) (c : Capture)
    → connect_client o s d i ≡ ok (monitors display iface handler c)
    → c.options ≡ s.options
unfolding connect_client init_history
connect_client-options o s d (gives_up n) display iface handler c runs = absurd (ground arith)
connect_client-options o s d (opened iface' handler') display iface handler c runs =
    let (client, inits, is) = came_through (init_mqtt o.boxid o.connects o.begun unset) _ runs in
    elim (Option-cases client) [
      | inl missing ↦ absurd (ground arith)
      | inr ((m, send, retr), there) ↦ ground arith
    ]

main-options :
    (o : Outside) (s : Args) (d display : Display) (iface : Interface) (handler : Handler)
    (c : Capture)
    → start_up o.library o.host o.getopt o.args_file o.argv o.config_file ≡ ok (running s d)
    → main o ≡ ok (monitors display iface handler c)
    → c.options ≡ s.options
unfolding main open_capture
main-options o s d display iface handler c starts runs =
    let (i, inits, connects) =
      came_through (packet_init o.system o.pcap d s.port_list) (connect_client o s d)
        (rw (main, starts, open_capture) at runs) in
    connect_client-options o s d i display iface handler c connects

in_filter_net-settings :
    (options : Options) (a : ℕ) → in_filter_net (settings options) a ≡ in_filter_net options a
unfolding in_filter_net
in_filter_net-settings options a = refl

-- How a packet crosses the border of a net, from whether its source and its destination are inside:
-- whether the pair is flipped, and whether the packet goes out.
abbrev pub crossing : Bool → Bool → Option (Bool × Bool)
crossing true true = none
crossing true false = some (false, true)
crossing false true = some (true, false)
crossing false false = none

key_of-crossing :
    (options : Options) (iface : Interface) (packet : List ℕ) (d : HwDir) (inside : ℕ → Bool)
    → options.netfilter ≡ true
    → in_filter_net options (ip_src packet) ≡ inside (ip_src packet)
    → in_filter_net options (ip_dst packet) ≡ inside (ip_dst packet)
    → key_of options iface packet d
      ≡ elim (crossing (inside (ip_src packet)) (inside (ip_dst packet))) [
        | none ↦ none
        | some c ↦ settle iface packet c
      ]
unfolding key_of classify classify_by_net
key_of-crossing options iface packet d inside on src dst =
    elim (Bool-cases (inside (ip_src packet))) [
      | inl s_in ↦ elim (Bool-cases (inside (ip_dst packet))) [
        | inl d_in ↦ ground arith
        | inr d_out ↦ ground arith
      ]
      | inr s_out ↦ elim (Bool-cases (inside (ip_dst packet))) [
        | inl d_in ↦ ground arith
        | inr d_out ↦ ground arith
      ]
    ]

-- The rate of a `main` that gets on was read from the file.
main-unset_rate :
    (o : Outside) (opts : List Opt) (end' : Monitor)
    → o.args_file ≡ none
    → o.getopt o.argv ≡ (opts, false)
    → All (λ x. fits x ≡ true) opts
    → main o ≡ ok end'
    → unset_rate o.config_file ≡ false
unfolding main
main-unset_rate o opts end' no_file read h runs = elim (Bool-cases (unset_rate o.config_file)) [
  | inr rated ↦ rated
  | inl unset ↦
      let stops = start_up-unset o.library o.host o.getopt o.argv o.config_file opts read h unset in
      let faulty : fault uninitialised_read ≡ ok end' = rw (main, no_file, stops) at runs in
      absurd (ground arith)
]

-- The program is started without options_args.txt, on a command line that `getopt` reads as options
-- that fit, the last -F of which is `addr/mask`, as in `start_up-net_filter`; `main` gets to the
-- capture. Then in every state that the session reaches, after any frames, requests, key presses and
-- events of the broker, whatever the configuration file says: a packet of bytes has a key exactly
-- where one of its addresses is in the net, by its first bits, and the other is not, and the ports
-- and the router's address do not drop it; it counts as outgoing where its source is in the net.
pub main-key_of :
    (o : Outside) (opts : List Opt) (addr mask : Text) (net n : ℕ) (display : Display)
    (iface : Interface) (handler : Handler) (world : World) (b e : Capture) (packet : List ℕ)
    (d : HwDir)
    → o.args_file ≡ none
    → o.getopt o.argv ≡ (opts, false)
    → All (λ x. fits x ≡ true) opts
    → last_of (value_of (codes "net-filter")) opts none ≡ some (addr ++ b'/' ∷ mask)
    → All (λ c. (c == b'/') ≡ false) addr
    → o.library.inet_aton addr ≡ some net
    → drop_while is_digit mask ≡ []
    → atoi mask ≡ pos n
    → n ≤ 32
    → net < 2 ^ 32
    → main o ≡ ok (monitors display iface handler b)
    → Reaches world iface handler b e
    → All (λ x. x < 256) packet
    → key_of e.options iface packet d
      ≡ elim (crossing
          (same_prefix n (octets (ip_src packet)) (octets net))
          (same_prefix n (octets (ip_dst packet)) (octets net))) [
            | none ↦ none
            | some c ↦ settle iface packet c
          ]
main-key_of o opts addr mask net n display iface handler world b e packet d no_file read h last
      whole known digits value few net_fits runs reached bytes =
    let rated = main-unset_rate o opts (monitors display iface handler b) no_file read h runs in
    let src_fits : ip_src packet < 2 ^ 32 = unfold ip_src in host32-lt packet 12 bytes in
    let dst_fits : ip_dst packet < 2 ^ 32 = unfold ip_dst in host32-lt packet 16 bytes in
    let (s, d1, starts, on, src) =
      start_up-net_filter o.library o.host o.getopt o.argv o.config_file opts addr mask net n
        (ip_src packet) read h last whole known digits value few net_fits src_fits rated in
    let (s', d2, starts', on', dst) =
      start_up-net_filter o.library o.host o.getopt o.argv o.config_file opts addr mask net n
        (ip_dst packet) read h last whole known digits value few net_fits dst_fits rated in
    let both : ok (running s d1) ≡ ok (running s' d2) = sym starts ∙ starts' in
    let one : s' ≡ s = ground arith in
    let began = main-options o s d1 display iface handler b (rw no_file starts) runs in
    let kept : settings e.options ≡ settings s.options =
      Reaches-settings world iface handler b e reached ∙ ap settings began in
    let inside = λ (a : ℕ). same_prefix n (octets a) (octets net) in
    let through = λ (a : ℕ) (there : in_filter_net s.options a ≡ inside a).
      sym (in_filter_net-settings e.options a)
      ∙ ap (λ x. in_filter_net x a) kept
      ∙ in_filter_net-settings s.options a
      ∙ there in
    key_of-crossing e.options iface packet d inside (ap (λ (x : Options). x.netfilter) kept ∙ on)
      (through (ip_src packet) src)
      (through (ip_dst packet) (
        subst (λ (x : Args). in_filter_net x.options (ip_dst packet) ≡ inside (ip_dst packet)) one
          dst))
