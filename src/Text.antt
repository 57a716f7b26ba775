-- ===== src/Text.antt =====
-- C strings as the lists of their characters, without the zero at the end, and the functions of
-- <string.h> and <stdlib.h> that the options and the configuration file use.
pub mod Decimal
use iftop_dotqoo.Prelude.{
  All, Bool, List, Option, [], ap, arith, if◌then◌else◌, leb, ltb, none, refl, some, suc, true,
  zero, ℕ, ◌%◌, ◌&&◌, ◌*◌, ◌+◌, ◌-◌, ◌<◌, ◌==◌, ◌^◌, ◌||◌, ◌↔◌, ◌∷◌, ◌≡◌,
}
use iftop_dotqoo.Prelude.Int.{eq_ℤ, negsuc, pos, sub_ℕ, ℤ}
use iftop_dotqoo.StringMap.Lookup.{IsStrcmp}
use mathlib.Core.Option
use Prim.Native.Char.{code}
use Prim.Native.String.{String}

abbrev pub Text : Type 0
Text = List ℕ

abbrev pub codes : String → Text
codes String.[] = []
codes (String.◌∷◌ c s) = code c ∷ codes s

-- The difference of the first characters that differ; a string is less than a longer one.
abbrev pub strcmp : Text → Text → ℤ
strcmp [] [] = pos 0
strcmp [] (b ∷ bs) = negsuc 0
strcmp (a ∷ as') [] = pos 1
strcmp (a ∷ as') (b ∷ bs) = let rest = strcmp as' bs in if a == b then rest else sub_ℕ a b

strcmp_iff : (a b : Text) → (eq_ℤ (strcmp a b) (pos 0) ≡ true) ↔ (a ≡ b)
strcmp_iff [] [] = ground arith
strcmp_iff [] (b ∷ bs) = ground arith
strcmp_iff (a ∷ as') [] = ground arith
strcmp_iff (a ∷ as') (b ∷ bs) = ground (arith, strcmp_iff as' bs)

pub strcmp-IsStrcmp : IsStrcmp strcmp
strcmp-IsStrcmp = record { zero_iff = strcmp_iff }

-- `strcmp(a, b) == 0`
abbrev pub equal : Text → Text → Bool
equal a b = eq_ℤ (strcmp a b) (pos 0)

-- The characters up to the first that is not accepted, and those from there on.
unfoldable pub take_while : (ℕ → Bool) → Text → Text
take_while accept [] = []
take_while accept (c ∷ s) = let rest = take_while accept s in if accept c then c ∷ rest else []

unfoldable pub drop_while : (ℕ → Bool) → Text → Text
drop_while accept [] = []
drop_while accept (c ∷ s) = let rest = drop_while accept s in if accept c then rest else c ∷ s

-- What stands before and behind the first `c`, if there is one.
unfoldable pub strchr : Text → ℕ → Option (Text × Text)
strchr [] c = none
strchr (a ∷ s) c =
    let later = Option.map (λ (p : Text × Text). (a ∷ p.0, p.1)) (strchr s c) in
    if a == c then some ([], s) else later

abbrev pub is_blank : ℕ → Bool
is_blank c = c == b' ' || c == b'\t'

abbrev pub is_digit : ℕ → Bool
is_digit c = leb b'0' c && leb c b'9'

unfoldable pub decimal : ℕ → Text → ℕ
decimal n [] = n
decimal n (c ∷ s) = decimal (n * 10 + (c - b'0')) s

abbrev negate : ℕ → ℤ
negate zero = pos 0
negate (suc n) = negsuc n

-- `atoi` behind the sign.
unfoldable pub signed : Text → ℤ
signed [] = pos 0
signed (c ∷ s) =
    if c == b'-'
    then negate (decimal 0 (take_while is_digit s))
    else if c == b'+'
    then pos (decimal 0 (take_while is_digit s))
    else pos (decimal 0 (take_while is_digit (c ∷ s)))

-- The nearest number of a `long` of 8 bytes, which `strtol` gives for one that does not fit.
unfoldable pub saturate : ℤ → ℤ
saturate (pos n) = if ltb n (2 ^ 63) then pos n else pos (2 ^ 63 - 1)
saturate (negsuc n) = if ltb n (2 ^ 63) then negsuc n else negsuc (2 ^ 63 - 1)

-- The cast of a `long` to an `int` of 32 bits, which drops the bits above.
unfoldable pub to_int : ℤ → ℤ
to_int (pos n) = let m = n % 2 ^ 32 in if ltb m (2 ^ 31) then pos m else negsuc (2 ^ 32 - 1 - m)
to_int (negsuc n) = let m = n % 2 ^ 32 in if ltb m (2 ^ 31) then negsuc m else pos (2 ^ 32 - 1 - m)

unfoldable pub atol : Text → ℤ
unfolding signed decimal take_while saturate
atol s = saturate (signed (drop_while (λ c. is_blank c || leb 10 c && leb c 13) s))

-- glibc's `atoi` is the cast of `strtol`.
unfoldable pub atoi : Text → ℤ
unfolding atol to_int
atoi s = to_int (atol s)

-- Numbers that an `int` does not hold.
atoi_wraps : (atoi (codes "4294967376") ≡ pos 80) × (atoi (codes "4294967295") ≡ negsuc 0)
unfolding atoi drop_while take_while decimal
atoi_wraps = (refl, refl)

-- A number that an `int` holds keeps its value.
pub to_int-saturate : (n : ℕ) → n < 2 ^ 31 → to_int (saturate (pos n)) ≡ pos n
unfolding to_int saturate
to_int-saturate n h =
    let long_enough : ltb n (2 ^ 63) ≡ true = ground arith in
    let int_enough : ltb (n % 2 ^ 32) (2 ^ 31) ≡ true = ground arith in
    rw (long_enough, int_enough) (ap pos (omega arith))

atoi_example : atoi (codes " -12,3") ≡ negsuc 11
unfolding atoi drop_while take_while decimal
atoi_example = refl

pub take_while-All :
    (accept : ℕ → Bool) (s : Text) → All (λ c. accept c ≡ true) s → take_while accept s ≡ s
unfolding take_while
take_while-All accept [] h = refl
take_while-All accept (c ∷ s) h = rw (h.0) (ap (λ l. c ∷ l) (take_while-All accept s h.1))

-- The words that the calls of `strtok` give, between the characters that are `delim`.
abbrev pub add_word : Text → List Text → List Text
add_word [] words = words
add_word (c ∷ w) words = (c ∷ w) ∷ words

unfoldable pub cut_word : ℕ → Text → Text × List Text
cut_word delim [] = ([], [])
cut_word delim (c ∷ s) =
    let (w, words) = cut_word delim s in
    if c == delim then ([], add_word w words) else (c ∷ w, words)

unfoldable pub strtok : ℕ → Text → List Text
unfolding cut_word
strtok delim s = let (w, words) = cut_word delim s in add_word w words

pub All-map :
    (p q : ℕ → Bool) (b d : Bool) (s : Text)
    → ((c : ℕ) → p c ≡ b → q c ≡ d)
    → All (λ c. p c ≡ b) s
    → All (λ c. q c ≡ d) s
All-map p q b d [] f h = tt
All-map p q b d (c ∷ s) f h = (f c h.0, All-map p q b d s f h.1)
