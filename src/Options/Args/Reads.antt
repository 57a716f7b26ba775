-- ===== src/Options/Args/Reads.antt =====
-- The values that the options of options.c give, and what is left after some of them.
use iftop_dotqoo.Prelude.{
  Bool, Bool-cases, List, Option, Option-cases, [], ap, false, if◌then◌else◌, inl, inr, leb, length,
  ltb, none, some, sym, true, ℕ, ◌&&◌, ◌∙◌, ◌∷◌, ◌≡◌,
}
use iftop_dotqoo.Prelude.Int.{ℤ}
use iftop_dotqoo.StringMap.{Tree}
use iftop_dotqoo.Text.{Text, atoi, atol, codes, equal}
use iftop_dotqoo.Config.{config_get_string, config_set_string, set_item}
use iftop_dotqoo.Config.Precedence.{config_set_string_lem}
use iftop_dotqoo.Config.RoundTrip.{insert-some}
use iftop_dotqoo.Options.Args.{
  Args, Opt, broker, configure, delete_interval, duration, filter_code, help, interface, is_int,
  minutes, net_filter, no_argument, ports, promiscuous, protocols, send_interval, threshold,
  unknown_option,
}
use iftop_dotqoo.Options.Args.Lists.{words_of}

-- The program goes on after the option, and its argument has room; the seconds of -M fit an `int`.
abbrev fits_list : ℕ → Text → Bool
fits_list room arg = ltb 0 (length (words_of arg)) && leb (length (words_of arg)) room

unfoldable pub fits : Opt → Bool
unfolding is_int
fits help = false
fits unknown_option = false
fits no_argument = false
fits (ports arg) = fits_list 10 arg
fits (protocols arg) = fits_list 32 arg
fits (send_interval arg) = ltb (length arg) 64 && is_int (minutes (atoi arg))
fits (broker arg) = ltb (length arg) 64
fits o = true

module _ {ℓ} {A : Type ℓ} where
  abbrev pub pick : Option A → A → A
  pick none d = d
  pick (some a) d = a

  -- The last value that an option gives.
  abbrev pub last_of : (Opt → Option A) → List Opt → A → A
  last_of f [] d = d
  last_of f (o ∷ opts) d = last_of f opts (pick (f o) d)

-- The values that each option gives. -M gives the broker's address too.
abbrev pub addr_of : Opt → Option Text
addr_of (send_interval arg) = some arg
addr_of (broker arg) = some arg
addr_of o = none

abbrev pub send_interval_of : Opt → Option ℤ
send_interval_of (send_interval arg) = some (minutes (atoi arg))
send_interval_of o = none

abbrev pub delete_interval_of : Opt → Option ℤ
delete_interval_of (delete_interval arg) = some (atol arg)
delete_interval_of o = none

abbrev pub threshold_of : Opt → Option ℤ
threshold_of (threshold arg) = some (atol arg)
threshold_of o = none

abbrev pub duration_of : Opt → Option ℤ
duration_of (duration arg) = some (atoi arg)
duration_of o = none

-- The directive that an option sets, and its value.
abbrev pub directive_of : Opt → Option (Text × Text)
directive_of (interface arg) = some (codes "interface", arg)
directive_of (filter_code arg) = some (codes "filter-code", arg)
directive_of promiscuous = some (codes "promiscuous", codes "true")
directive_of (net_filter arg) = some (codes "net-filter", arg)
directive_of o = none

abbrev pub value_of : Text → Opt → Option (Option Text)
value_of q o = elim (directive_of o) [
  | none ↦ none
  | some (k, v) ↦ if equal q k then some (some v) else none
]

-- The map of the configuration exists, and the list of protocols has its 32 entries.
pub record IsSetUp (s : Args) : Type 0 where
  pub tree : (t : Tree Text Text) × (s.config ≡ some t)
  pub room : length s.options.block_protocols ≡ 32

-- What some options leave.
pub record IsRead (opts : List Opt) (s s' : Args) : Type 0 where
  pub addr : s'.mqtt_addr ≡ last_of addr_of opts s.mqtt_addr
  pub interval : s'.options.send_interval ≡ last_of send_interval_of opts s.options.send_interval
  pub sweep :
      s'.options.history_delete_interval
      ≡ last_of delete_interval_of opts s.options.history_delete_interval
  pub least : s'.options.threshold ≡ last_of threshold_of opts s.options.threshold
  pub shortest : s'.options.duration ≡ last_of duration_of opts s.options.duration
  pub settings :
      (q : Text)
      → config_get_string s'.config q ≡ last_of (value_of q) opts (config_get_string s.config q)

config_set_string-tree :
    (t : Tree Text Text) (k v : Text)
    → (t' : Tree Text Text) × (config_set_string (some t) k v ≡ some t')
unfolding config_set_string
config_set_string-tree t k v = elim (Option-cases (config_get_string (some t) k)) [
  | inl absent ↦ let (t', e) = insert-some t k v in (t', rw (config_set_string, absent) e)
  | inr (old, found) ↦ (set_item t k v, rw (config_set_string, found))
]

pub configure-IsSetUp : (k v : Text) (s : Args) → IsSetUp s → IsSetUp (configure k v s)
configure-IsSetUp k v s ready =
    let (t, here) = ready.tree in
    let (t', there) = config_set_string-tree t k v in
    record { tree = (t', rw here there); room = ready.room }

-- The values of the directives after an option that sets one.
pub configure-value :
    (k v : Text) (s : Args) (q : Text)
    → IsSetUp s
    → config_get_string (configure k v s).config q
      ≡ pick (if equal q k then some (some v) else none) (config_get_string s.config q)
configure-value k v s q ready =
    let (t, here) = ready.tree in
    rw here (
      config_set_string_lem t k q v
      ∙ elim (Bool-cases (equal q k)) [ inl same ↦ rw same | inr apart ↦ rw apart ])

-- An option that sets a directive leaves the other variables.
pub configure_lem :
    (o : Opt) (k v : Text) (s : Args)
    → IsSetUp s
    → ((q : Text) → value_of q o ≡ (if equal q k then some (some v) else none))
    → (addr_of o ≡ none)
      × (send_interval_of o ≡ none)
      × (delete_interval_of o ≡ none)
      × (threshold_of o ≡ none)
      × (duration_of o ≡ none)
    → IsRead (o ∷ []) s (configure k v s)
configure_lem o k v s ready e (a, i, d, t, u) = record {
  addr = rw a;
  interval = rw i;
  sweep = rw d;
  least = rw t;
  shortest = rw u;
  settings = λ q.
      configure-value k v s q ready ∙ ap (λ x. pick x (config_get_string s.config q)) (sym (e q));
}
