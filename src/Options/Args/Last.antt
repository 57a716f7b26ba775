-- ===== src/Options/Args/Last.antt =====
-- What a command line leaves in the variables of options.c: for each of them the last option counts.
use iftop_dotqoo.Prelude.{All, List, [], ap, false, refl, true, ◌∙◌, ◌∷◌, ◌≡◌}
use iftop_dotqoo.Run.{ok}
use iftop_dotqoo.Options.Args.{Args, Opt, goes_on, read_opts}
use iftop_dotqoo.Options.Args.Reads.{
  IsRead, IsSetUp, addr_of, delete_interval_of, duration_of, fits, last_of, send_interval_of,
  threshold_of, value_of,
}
use iftop_dotqoo.Options.Args.Step.{step_lem}

-- Options whose arguments fit (the lists and the address of the broker have room, and the seconds of
-- -M are an `int`) are read without a fault or an exit. For the address of the broker, the three
-- intervals, the threshold and every directive of the configuration the last option counts.
pub read_opts_lem :
    (opts : List Opt) (s : Args)
    → IsSetUp s
    → All (λ o. fits o ≡ true) opts
    → (s' : Args) × (read_opts opts false s ≡ ok (goes_on s')) × IsSetUp s' × IsRead opts s s'
unfolding read_opts
read_opts_lem [] s ready h = (
  s,
  refl,
  ready,
  record {
    addr = refl;
    interval = refl;
    sweep = refl;
    least = refl;
    shortest = refl;
    settings = λ q. refl;
  },
)
read_opts_lem (o ∷ opts) s ready h =
    let (s1, read, ready1, v) = step_lem o s ready h.0 in
    let (s', rest, ready', w) = read_opts_lem opts s1 ready1 h.1 in
    (
      s',
      rw (read, rest),
      ready',
      record {
        addr = w.addr ∙ ap (last_of addr_of opts) v.addr;
        interval = w.interval ∙ ap (last_of send_interval_of opts) v.interval;
        sweep = w.sweep ∙ ap (last_of delete_interval_of opts) v.sweep;
        least = w.least ∙ ap (last_of threshold_of opts) v.least;
        shortest = w.shortest ∙ ap (last_of duration_of opts) v.shortest;
        settings = λ q. w.settings q ∙ ap (last_of (value_of q) opts) (v.settings q);
      },
    )
