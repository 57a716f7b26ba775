-- ===== src/Options/NetFilter/Prefix.antt =====
-- Network prefixes octet by octet, against the masks of options.c.
use iftop_dotqoo.Prelude.{
  ==_iff, Bool, List, [], arith, bit_and, refl, suc, true, zero, ℕ, ℕ_discrete, ◌%◌, ◌&&◌, ◌*◌, ◌+◌,
  ◌-◌, ◌/◌, ◌<◌, ◌==◌, ◌^◌, ◌↔◌, ◌∙◌, ◌∷◌, ◌≡◌, ◌≤◌,
}
use iftop_dotqoo.Bits.{
  bit_and-byte_mask, byte_mask, byte_mask-below, byte_mask_iff, passes, passes_lem, splits_byte,
}
use iftop_dotqoo.Options.NetFilter.{htonl, mask_of_length}

-- The octets of an address in the order in which they are written and sent.
abbrev pub octets : ℕ → List ℕ
octets a = a % 256 ∷ a / 2 ^ 8 % 256 ∷ a / 2 ^ 16 % 256 ∷ a / 2 ^ 24 % 256 ∷ []

-- The first `n` bits agree, counted from the highest bit of the first octet.
unfoldable pub same_prefix : ℕ → List ℕ → List ℕ → Bool
same_prefix n [] ys = true
same_prefix n (x ∷ xs) [] = true
same_prefix n (x ∷ xs) (y ∷ ys) =
    let rest = same_prefix (n - 8) xs ys in x / 2 ^ (8 - n) == y / 2 ^ (8 - n) && rest

unfoldable mask_word : ℕ → ℕ → ℕ
mask_word zero n = 0
mask_word (suc bytes) n = byte_mask n + 256 * mask_word bytes (n - 8)

mask_of_length_table : passes (λ n. mask_of_length n == mask_word 4 n) 33 ≡ true
unfolding passes mask_of_length htonl mask_word
mask_of_length_table = refl

mask_of_length-mask_word : (n : ℕ) → n ≤ 32 → mask_of_length n ≡ mask_word 4 n
mask_of_length-mask_word n h =
    (==_iff (mask_of_length n) (mask_word 4 n)).0
      (passes_lem (λ k. mask_of_length k == mask_word 4 k) 33 n mask_of_length_table (omega arith))

bytes_agree : (a b c d : ℕ) → a < 256 → b < 256 → (a + 256 * c == b + 256 * d) ≡ (a == b && c == d)
bytes_agree a b c d ha hb = ground arith

same_test : {a b c d : ℕ} → (a ≡ b) ↔ (c ≡ d) → (a == b) ≡ (c == d)
same_test {a} {b} {c} {d} (to, from) = elim (ℕ_discrete a b) [
  | yes e ↦ let same = to e in ground arith
  | no differ ↦ let others : ¬ (c ≡ d) = λ e. differ (from e) in ground arith
]

-- One octet in front of the others.
step :
    (n x y v w m : ℕ)
    → x < 256
    → y < 256
    → (bit_and (x + 256 * v) (byte_mask n + 256 * m)
        == bit_and (y + 256 * w) (byte_mask n + 256 * m))
      ≡ (x / 2 ^ (8 - n) == y / 2 ^ (8 - n) && bit_and v m == bit_and w m)
step n x y v w m hx hy =
    let (x_cut, x_top, x_low) = bit_and-byte_mask n x hx in
    let (y_cut, y_top, y_low) = bit_and-byte_mask n y hy in
    rw
      (
        splits_byte x v (byte_mask n) m hx (byte_mask-below n),
        splits_byte y w (byte_mask n) m hy (byte_mask-below n),
        bytes_agree (bit_and x (byte_mask n)) (bit_and y (byte_mask n)) (bit_and v m) (bit_and w m)
            x_low y_low,
        same_test (byte_mask_iff n x y hx hy),
      )
      refl

word : ℕ → ℕ → ℕ → ℕ → ℕ
word x0 x1 x2 x3 = x0 + 256 * (x1 + 256 * (x2 + 256 * (x3 + 256 * 0)))

four_steps :
    (n x0 x1 x2 x3 y0 y1 y2 y3 : ℕ)
    → (x0 < 256) × (x1 < 256) × (x2 < 256) × (x3 < 256)
    → (y0 < 256) × (y1 < 256) × (y2 < 256) × (y3 < 256)
    → (bit_and (word x0 x1 x2 x3) (mask_word 4 n) == bit_and (word y0 y1 y2 y3) (mask_word 4 n))
      ≡ same_prefix n (x0 ∷ x1 ∷ x2 ∷ x3 ∷ []) (y0 ∷ y1 ∷ y2 ∷ y3 ∷ [])
unfolding word mask_word same_prefix
four_steps n x0 x1 x2 x3 y0 y1 y2 y3 (a0, a1, a2, a3) (b0, b1, b2, b3) =
    let rest = mask_word 3 (n - 8) in
    step n x0 y0 (x1 + 256 * (x2 + 256 * (x3 + 256 * 0))) (y1 + 256 * (y2 + 256 * (y3 + 256 * 0)))
      (mask_word 3 (n - 8)) a0 b0
    ∙ rw
        (
          step (n - 8) x1 y1 (x2 + 256 * (x3 + 256 * 0)) (y2 + 256 * (y3 + 256 * 0))
              (mask_word 2 (n - 8 - 8)) a1 b1,
          step (n - 8 - 8) x2 y2 (x3 + 256 * 0) (y3 + 256 * 0) (mask_word 1 (n - 8 - 8 - 8)) a2 b2,
          step (n - 8 - 8 - 8) x3 y3 0 0 0 a3 b3,
        )
        refl

word-octets :
    (a : ℕ)
    → a < 2 ^ 32
    → a ≡ word (a % 256) (a / 2 ^ 8 % 256) (a / 2 ^ 16 % 256) (a / 2 ^ 24 % 256)
unfolding word
word-octets a h = omega arith

pub mask_of_length-same_prefix :
    (n a b : ℕ)
    → n ≤ 32
    → a < 2 ^ 32
    → b < 2 ^ 32
    → (bit_and a (mask_of_length n) == bit_and b (mask_of_length n))
      ≡ same_prefix n (octets a) (octets b)
mask_of_length-same_prefix n a b few ha hb =
    let m = mask_of_length n in
    (λ i. bit_and (word-octets a ha i) m == bit_and (word-octets b hb i) m)
    ∙ rw (mask_of_length-mask_word n few) (
        four_steps n (a % 256) (a / 2 ^ 8 % 256) (a / 2 ^ 16 % 256) (a / 2 ^ 24 % 256) (b % 256)
          (b / 2 ^ 8 % 256) (b / 2 ^ 16 % 256) (b / 2 ^ 24 % 256)
          (omega arith, omega arith, omega arith, omega arith)
          (omega arith, omega arith, omega arith, omega arith))
