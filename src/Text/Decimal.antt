-- ===== src/Text/Decimal.antt =====
-- Numbers as `printf` writes them with %d, and as `atoi` reads them.
use iftop_dotqoo.Prelude.{
  All, Bool-cases, [], ap, arith, false, if◌then◌else◌, inl, inr, leb, ltb, refl, suc, true, zero,
  ℕ, ◌%◌, ◌&&◌, ◌*◌, ◌+◌, ◌-◌, ◌/◌, ◌<◌, ◌==◌, ◌^◌, ◌||◌, ◌∙◌, ◌∷◌, ◌≡◌, ◌≤◌,
}
use iftop_dotqoo.Prelude.Int.{pos}
use iftop_dotqoo.Text.{
  Text, atoi, atol, decimal, drop_while, is_blank, is_digit, saturate, signed, take_while-All,
  to_int, to_int-saturate,
}

-- The digits in front of `rest`; there are at most as many as the fuel.
unfoldable pub print_digits : ℕ → ℕ → Text → Text
print_digits zero n rest = rest
print_digits (suc fuel) n rest =
    let more = print_digits fuel (n / 10) ((b'0' + n % 10) ∷ rest) in
    if ltb n 10 then (b'0' + n) ∷ rest else more

unfoldable pub print_decimal : ℕ → Text
unfolding print_digits
print_decimal n = print_digits (suc n) n []

decimal-print_digits :
    (fuel n : ℕ) (rest : Text) → n < fuel → decimal 0 (print_digits fuel n rest) ≡ decimal n rest
unfolding decimal print_digits
decimal-print_digits zero n rest h = absurd (omega arith)
decimal-print_digits (suc fuel) n rest h = elim (Bool-cases (ltb n 10)) [
  | inl last ↦
      let small : 0 * 10 + (48 + n - 48) ≡ n = omega arith in
      rw last (ap (λ m. decimal m rest) small)
  | inr more ↦
      let big : 10 ≤ n = ground (arith, more) in
      let whole : n / 10 * 10 + (48 + n % 10 - 48) ≡ n = omega arith in
      rw more (
        decimal-print_digits fuel (n / 10) ((48 + n % 10) ∷ rest) (omega arith)
        ∙ ap (λ m. decimal m rest) whole)
]

print_digits-All :
    (fuel n : ℕ) (rest : Text)
    → All (λ c. is_digit c ≡ true) rest
    → All (λ c. is_digit c ≡ true) (print_digits fuel n rest)
unfolding print_digits
print_digits-All zero n rest h = h
print_digits-All (suc fuel) n rest h = elim (Bool-cases (ltb n 10)) [
  | inl last ↦ rw last (ground (arith, last), h)
  | inr more ↦ rw more (print_digits-All fuel (n / 10) ((48 + n % 10) ∷ rest) (ground arith, h))
]

-- `atoi` of digits.
atoi-All :
    (s : Text) → All (λ c. is_digit c ≡ true) s → atoi s ≡ to_int (saturate (pos (decimal 0 s)))
unfolding atoi atol signed drop_while
atoi-All [] h = refl
atoi-All (c ∷ s) h =
    let first = h.0 in
    let solid : (is_blank c || leb 10 c && leb c 13) ≡ false = ground (arith, first) in
    let minus : (c == b'-') ≡ false = ground (arith, first) in
    let plus : (c == b'+') ≡ false = ground (arith, first) in
    rw (solid, minus, plus, take_while-All is_digit (c ∷ s) h)

pub print_decimal-All : (n : ℕ) → All (λ c. is_digit c ≡ true) (print_decimal n)
unfolding print_decimal
print_decimal-All n = print_digits-All (suc n) n [] tt

-- `atoi` reads a number of an `int` that was printed.
pub atoi-print_decimal : (n : ℕ) → n < 2 ^ 31 → atoi (print_decimal n) ≡ pos n
unfolding print_decimal
atoi-print_decimal n h =
    let ends : decimal n [] ≡ n = (unfold decimal in refl) in
    let value : decimal 0 (print_digits (suc n) n []) ≡ n =
      decimal-print_digits (suc n) n [] (omega arith) ∙ ends in
    atoi-All (print_digits (suc n) n []) (print_digits-All (suc n) n [] tt)
    ∙ ap (λ m. to_int (saturate (pos m))) value
    ∙ to_int-saturate n h
