-- ===== src/Program/Start.antt =====
-- `main` of iftop.c ends with status 1, or it monitors from a sound state, where the key loop of
-- tui.c takes steps of the session.
use iftop_dotqoo.Prelude.{
  All, Bool, Bool-cases, List, [], false, inl, inr, refl, true, ◌||◌, ◌∷◌, ◌≡◌,
}
use iftop_dotqoo.Prelude.Int.{eq_ℤ, pos, ℤ}
use iftop_dotqoo.Run.{Returns}
use iftop_dotqoo.Text.{Text}
use iftop_dotqoo.Options.Args.{Args}
use iftop_dotqoo.Capture.{Capture, World}
use iftop_dotqoo.Capture.Tick.{IsReady, IsUsual, tick-IsReady}
use iftop_dotqoo.Packet.{Interface}
use iftop_dotqoo.Session.{Reaches, next, presses}
use iftop_dotqoo.Program.{
  Handler, Initialised, Key, Monitor, ended, gives_up, is_key, loop, monitors, opened,
}

-- The ports that are ignored come from the command line.
abbrev IsOpened : List ℤ → Initialised → Type 0
IsOpened port_list (gives_up n) = n ≡ 1
IsOpened port_list (opened iface handler) = iface.port_list ≡ port_list

-- What the program is when `main` starts the capture thread.
abbrev pub IsStarted : Monitor → Type 0
IsStarted (ended n) = n ≡ 1
IsStarted (monitors display iface handler s) = IsReady s

module _ (world : World) (iface : Interface) (handler : Handler) (usual : IsUsual world) where
  -- Any rounds of the key loop, from a sound state, end without a fault in a sound state, and their
  -- ticks are steps of the session. Freed memory keeps its contents, a `long` has 4 bytes or more,
  -- and no token is 0.
  pub loop-Reaches :
      (ks : List Key) (b s : Capture)
      → All (λ (k : Key). eq_ℤ k.broker.publish_token (pos 0) ≡ false) ks
      → IsReady s
      → Reaches world iface handler b s
      → Returns
          (λ (r : Capture × Bool). IsReady r.0 × Reaches world iface handler b r.0)
          (loop world ks s)
  unfolding loop
  loop-Reaches [] b s fresh v reached = ((s, false), refl, (v, reached))
  loop-Reaches (k ∷ ks) b s fresh v reached =
      let (s', ticks, w) = tick-IsReady world k.broker false k.t usual fresh.0 s v in
      let pressed = presses k.broker k.t s' fresh.0 ticks in
      let after = loop-Reaches ks b s' fresh.1 w (next s s' reached pressed) in
      let again = loop-Reaches ks b s fresh.1 v reached in
      elim (Bool-cases (is_key b'q' k.i || k.foad)) [
        | inl stops ↦ ((s, true), rw (loop, stops), (v, reached))
        | inr stays ↦ elim (Bool-cases (is_key b'u' k.i)) [
          | inl u ↦ rw (loop, stays, u, ticks) after
          | inr other ↦ rw (loop, stays, other) again
        ]
      ]
