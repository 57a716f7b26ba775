-- ===== src/Options/Args/Lists.antt =====
-- The lists that -P and -Z of options.c fill.
use iftop_dotqoo.Prelude.{
  List, [], arith, dec_le, drop, false, if◌then◌else◌, leb, length, map, refl, replicate, subst,
  suc, true, zero, ℕ, ◌++◌, ◌<◌, ◌==◌, ◌↔◌, ◌∙◌, ◌∷◌, ◌≡◌, ◌≢◌, ◌≤◌,
}
use iftop_dotqoo.Prelude.Int.{pos, ℤ}
use iftop_dotqoo.Run.{fault, ok, buffer_overflow, null_dereference}
use iftop_dotqoo.PortList.{OneOf, before_end, end_mark, in_port_list, in_port_list_iff}
use iftop_dotqoo.Text.{Text, atoi, strtok}
use iftop_dotqoo.Options.Args.{
  Args, goes_on, overwrite, ports, read_opt, set_list, set_words, strtok,
}

-- An array that is long enough keeps what stands behind the new entries; another one is overrun.
overwrite-fits :
    (words : List Text) (list : List ℤ)
    → length words ≤ length list
    → overwrite words list ≡ ok (map atoi words ++ drop (length words) list)
unfolding overwrite
overwrite-fits [] list h = refl
overwrite-fits (word ∷ words) [] h = absurd (omega arith)
overwrite-fits (word ∷ words) (x ∷ list) h = rw (overwrite-fits words list (omega arith))

overwrite-overrun :
    (words : List Text) (list : List ℤ)
    → length list < length words
    → overwrite words list ≡ fault buffer_overflow
unfolding overwrite
overwrite-overrun [] list h = absurd (omega arith)
overwrite-overrun (word ∷ words) [] h = refl
overwrite-overrun (word ∷ words) (x ∷ list) h = rw (overwrite-overrun words list (omega arith))

-- All that an option with a list does to its array.
set_words_lem :
    (words : List Text) (list : List ℤ)
    → set_words words list ≡ (
        if length words == 0
        then fault null_dereference
        else if leb (length words) (length list)
        then ok (map atoi words ++ drop (length words) list)
        else fault buffer_overflow)
unfolding set_words
set_words_lem [] list = refl
set_words_lem (word ∷ words) list =
    let there : (length (word ∷ words) == 0) ≡ false = ground arith in
    elim (dec_le (length (word ∷ words)) (length list)) [
      | yes fits ↦
          let e : leb (length (word ∷ words)) (length list) ≡ true = ground arith in
          rw (set_words, overwrite-fits (word ∷ words) list fits, there, e)
      | no more ↦
          let e : leb (length (word ∷ words)) (length list) ≡ false = ground arith in
          rw (set_words, overwrite-overrun (word ∷ words) list (omega arith), there, e)
    ]

abbrev pub words_of : Text → List Text
words_of arg = strtok b',' arg

-- What an option with a list, -P or -Z, does to its array: the program faults on a list without a
-- word, and on one with more words than entries; otherwise the numbers of the words come first, and
-- the entries behind them stay.
pub set_list_lem :
    (arg : Text) (list : List ℤ)
    → set_list arg list ≡ (
        if length (words_of arg) == 0
        then fault null_dereference
        else if leb (length (words_of arg)) (length list)
        then ok (map atoi (words_of arg) ++ drop (length (words_of arg)) list)
        else fault buffer_overflow)
unfolding set_list
set_list_lem arg list = set_words_lem (words_of arg) list

pub set_list-fits :
    (arg : Text) (list : List ℤ)
    → 0 < length (words_of arg)
    → length (words_of arg) ≤ length list
    → set_list arg list ≡ ok (map atoi (words_of arg) ++ drop (length (words_of arg)) list)
set_list-fits arg list some_word fits =
    let there : (length (words_of arg) == 0) ≡ false = ground arith in
    let enough : leb (length (words_of arg)) (length list) ≡ true = ground arith in
    set_list_lem arg list ∙ rw (there, enough)

before_end-marks :
    (xs : List ℤ) (n m : ℕ) → before_end (xs ++ drop n (replicate m end_mark)) ≡ before_end xs
unfolding before_end
before_end-marks [] zero zero = refl
before_end-marks [] zero (suc m) = refl
before_end-marks [] (suc n) zero = refl
before_end-marks [] (suc n) (suc m) = before_end-marks [] n m
before_end-marks (x ∷ xs) n m = rw (before_end-marks xs n m)

-- After -P with one to ten words, a packet's port is found in the list exactly when it is not 0 and
-- is the number, as `atoi` casts it to an `int`, of a word in front of the first word whose number is
-- -1.
pub read_opt-ports :
    (arg : Text) (s : Args) (port : ℕ)
    → 0 < length (words_of arg)
    → length (words_of arg) ≤ 10
    → (l : List ℤ) × (read_opt (ports arg) s ≡ ok (goes_on (record s { port_list = l })))
      × ((in_port_list l port ≡ true)
          ↔ ((port ≢ 0) × OneOf (pos port) (before_end (map atoi (words_of arg)))))
unfolding read_opt
read_opt-ports arg s port some_word fits =
    let l = map atoi (words_of arg) ++ drop (length (words_of arg)) (replicate 10 end_mark) in
    (
      l,
      rw (set_list-fits arg (replicate 10 end_mark) some_word fits),
      subst (λ b. (in_port_list l port ≡ true) ↔ ((port ≢ 0) × OneOf (pos port) b))
          (before_end-marks (map atoi (words_of arg)) (length (words_of arg)) 10)
          (in_port_list_iff l port),
    )
