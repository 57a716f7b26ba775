-- ===== src/Options/Args/Step.antt =====
-- What one option does to the variables of options.c.
use iftop_dotqoo.Prelude.{
  List, [], ap, arith, drop, length, ltb, map, refl, replicate, suc, true, ◌++◌, ◌∙◌, ◌∷◌, ◌≡◌, ◌≤◌,
}
use iftop_dotqoo.Prelude.Int.{negsuc, ℤ}
use iftop_dotqoo.Run.{ok}
use iftop_dotqoo.Text.{Text, atoi, atol, codes}
use iftop_dotqoo.Options.Args.{
  Args, Opt, broker, configure, delete_interval, duration, filter_code, goes_on, help, interface,
  is_int, minutes, net_filter, no_argument, ports, promiscuous, protocols, read_opt, send_interval,
  set_mqtt_addr, threshold, unknown_option,
}
use iftop_dotqoo.Options.Args.Lists.{set_list-fits, words_of}
use iftop_dotqoo.Options.Args.Reads.{IsRead, IsSetUp, configure-IsSetUp, configure_lem, fits}

-- An array whose first entries are replaced has as many entries as before.
rest_fits :
    (words : List Text) (list : List ℤ)
    → length words ≤ length list
    → length (map atoi words ++ drop (length words) list) ≡ length list
rest_fits [] list h = refl
rest_fits (word ∷ words) [] h = absurd (omega arith)
rest_fits (word ∷ words) (x ∷ list) h = ap suc (rest_fits words list (omega arith))

-- One option whose argument fits.
pub step_lem :
    (o : Opt) (s : Args)
    → IsSetUp s
    → fits o ≡ true
    → (s' : Args) × (read_opt o s ≡ ok (goes_on s')) × IsSetUp s' × IsRead (o ∷ []) s s'
unfolding fits read_opt set_mqtt_addr
step_lem help s ready h = absurd (ground (arith, h))
step_lem unknown_option s ready h = absurd (ground (arith, h))
step_lem no_argument s ready h = absurd (ground (arith, h))
step_lem (interface arg) s ready h =
    let k = codes "interface" in
    (
      configure k arg s,
      refl,
      configure-IsSetUp k arg s ready,
      configure_lem (interface arg) k arg s ready (λ q. refl) (refl, refl, refl, refl, refl),
    )
step_lem (filter_code arg) s ready h =
    let k = codes "filter-code" in
    (
      configure k arg s,
      refl,
      configure-IsSetUp k arg s ready,
      configure_lem (filter_code arg) k arg s ready (λ q. refl) (refl, refl, refl, refl, refl),
    )
step_lem promiscuous s ready h =
    let k = codes "promiscuous" in
    (
      configure k (codes "true") s,
      refl,
      configure-IsSetUp k (codes "true") s ready,
      configure_lem promiscuous k (codes "true") s ready (λ q. refl) (refl, refl, refl, refl, refl),
    )
step_lem (net_filter arg) s ready h =
    let k = codes "net-filter" in
    (
      configure k arg s,
      refl,
      configure-IsSetUp k arg s ready,
      configure_lem (net_filter arg) k arg s ready (λ q. refl) (refl, refl, refl, refl, refl),
    )
step_lem (ports arg) s ready h =
    let l = map atoi (words_of arg) ++ drop (length (words_of arg)) (replicate 10 (negsuc 0)) in
    (
      record s { port_list = l },
      rw (set_list-fits arg (replicate 10 (negsuc 0)) (ground (arith, h)) (ground (arith, h))),
      record { tree = ready.tree; room = ready.room },
      record {
        addr = refl;
        interval = refl;
        sweep = refl;
        least = refl;
        shortest = refl;
        settings = λ q. refl;
      },
    )
step_lem (delete_interval arg) s ready h = (
  record s { options = record (s.options) { history_delete_interval = atol arg } },
  refl,
  record { tree = ready.tree; room = ready.room },
  record {
    addr = refl;
    interval = refl;
    sweep = refl;
    least = refl;
    shortest = refl;
    settings = λ q. refl;
  },
)
step_lem (threshold arg) s ready h = (
  record s { options = record (s.options) { threshold = atol arg } },
  refl,
  record { tree = ready.tree; room = ready.room },
  record {
    addr = refl;
    interval = refl;
    sweep = refl;
    least = refl;
    shortest = refl;
    settings = λ q. refl;
  },
)
step_lem (duration arg) s ready h = (
  record s { options = record (s.options) { duration = atoi arg } },
  refl,
  record { tree = ready.tree; room = ready.room },
  record {
    addr = refl;
    interval = refl;
    sweep = refl;
    least = refl;
    shortest = refl;
    settings = λ q. refl;
  },
)
step_lem (protocols arg) s ready h =
    let room = ready.room in
    let list = s.options.block_protocols in
    let l = map atoi (words_of arg) ++ drop (length (words_of arg)) list in
    (
      record s { options = record (s.options) { block_protocols = l } },
      rw (set_list-fits arg list (ground (arith, h)) (ground (arith, h, room))),
      record {
        tree = ready.tree;
        room = rest_fits (words_of arg) list (ground (arith, h, room)) ∙ room;
      },
      record {
        addr = refl;
        interval = refl;
        sweep = refl;
        least = refl;
        shortest = refl;
        settings = λ q. refl;
      },
    )
step_lem (send_interval arg) s ready h = (
  record s { options = record (s.options) { send_interval = minutes (atoi arg) }; mqtt_addr = arg },
  (let whole : is_int (minutes (atoi arg)) ≡ true = ground (arith, h) in
      let room : ltb (length arg) 64 ≡ true = ground (arith, h) in rw (whole, room)),
  record { tree = ready.tree; room = ready.room },
  record {
    addr = refl;
    interval = refl;
    sweep = refl;
    least = refl;
    shortest = refl;
    settings = λ q. refl;
  },
)
step_lem (broker arg) s ready h = (
  record s { mqtt_addr = arg },
  rw h,
  record { tree = ready.tree; room = ready.room },
  record {
    addr = refl;
    interval = refl;
    sweep = refl;
    least = refl;
    shortest = refl;
    settings = λ q. refl;
  },
)
