-- ===== src/Bits.antt =====
-- `bit_and` by halves and by bytes, and the masks of a network prefix.
use iftop_dotqoo.Prelude.{
  ==_iff, Bool, Bool-cases, ap, arith, bit_and, dec_lt, false, if◌then◌else◌, inl, inr, ltb, refl,
  suc, sym, true, zero, ℕ, ℕ_discrete, ◌%◌, ◌&&◌, ◌*◌, ◌+◌, ◌-◌, ◌/◌, ◌<◌, ◌==◌, ◌^◌, ◌↔◌, ◌∙◌, ◌≡◌,
  ◌≤◌,
}
use Prim.Native.Nat.{min, digits, bit_and-bitwise}

-- The bits that two numbers share, counted over `n` of them.
shared : ℕ → ℕ → ℕ → ℕ
shared zero a b = 0
shared (suc n) a b = shared n (a / 2) (b / 2) * 2 + min (a % 2) (b % 2)

shared-zero : (n b : ℕ) → shared n 0 b ≡ 0
unfolding shared
shared-zero zero b = refl
shared-zero (suc n) b = omega (arith, shared-zero n (b / 2))

-- It is the recursion that the native operation stands for, without its test for 0.
digits-shared : (n a b : ℕ) → digits (λ y. zero) min n a b ≡ shared n a b
unfolding shared
digits-shared zero a b = refl
digits-shared (suc n) zero b = sym (shared-zero (suc n) b)
digits-shared (suc n) (suc a) b = omega (arith, digits-shared n (suc a / 2) (b / 2))

-- A number has no more bits than its value.
shared_more : (n a b : ℕ) → a ≤ n → shared (suc n) a b ≡ shared n a b
unfolding shared
shared_more zero a b few = let zeroed : a ≡ 0 = omega arith in rw zeroed (shared-zero 1 b)
shared_more (suc n) a b few =
    ap (λ high. high * 2 + min (a % 2) (b % 2)) (shared_more n (a / 2) (b / 2) (omega arith))

shared_enough : (m n a b : ℕ) → a ≤ n → n ≤ m → shared m a b ≡ shared n a b
shared_enough zero n a b few more = let same : n ≡ 0 = omega arith in rw same
shared_enough (suc m) n a b few more = elim (ℕ_discrete n (suc m)) [
  | yes same ↦ rw same
  | no apart ↦ shared_more m a b (omega arith) ∙ shared_enough m n a b few (omega arith)
]

bit_and-shared : (n a b : ℕ) → a ≤ n → bit_and a b ≡ shared n a b
bit_and-shared n a b few =
    bit_and-bitwise a b ∙ digits-shared a a b ∙ sym (shared_enough n a a b (omega arith) few)

-- The lowest bit, and the others.
bit_and_step : (a b : ℕ) → bit_and a b ≡ bit_and (a / 2) (b / 2) * 2 + min (a % 2) (b % 2)
unfolding shared
bit_and_step a b =
    bit_and-shared (suc a) a b (omega arith)
    ∙ ap (λ high. high * 2 + min (a % 2) (b % 2))
        (sym (bit_and-shared a (a / 2) (b / 2) (omega arith)))

-- Numbers that are cut at `p`, a power of 2, are treated part by part.
abbrev SplitsAt : ℕ → Type 0
SplitsAt p =
    (x y m w : ℕ) → x < p → m < p → bit_and (x + p * y) (m + p * w) ≡ bit_and x m + p * bit_and y w

splits_one : SplitsAt 1
splits_one x y m w h k =
    let x0 : x ≡ 0 = omega arith in
    let m0 : m ≡ 0 = omega arith in
    let low : bit_and x m ≡ 0 = rw (x0, m0) refl in
    let left : x + 1 * y ≡ y = omega arith in
    let right : m + 1 * w ≡ w = omega arith in rw (left, right) (omega (arith, low))

splits_twice : (p : ℕ) → SplitsAt p → SplitsAt (2 * p)
splits_twice p s x y m w h k =
    let twice : (n : ℕ) → 2 * p * n ≡ 2 * (p * n) = λ n. grind arith in
    let x_half : (x + 2 * p * y) / 2 ≡ x / 2 + p * y = omega (arith, twice y) in
    let m_half : (m + 2 * p * w) / 2 ≡ m / 2 + p * w = omega (arith, twice w) in
    let x_low : (x + 2 * p * y) % 2 ≡ x % 2 = omega (arith, twice y) in
    let m_low : (m + 2 * p * w) % 2 ≡ m % 2 = omega (arith, twice w) in
    bit_and_step (x + 2 * p * y) (m + 2 * p * w)
    ∙ rw (x_half, m_half, x_low, m_low, s (x / 2) y (m / 2) w (omega arith) (omega arith))
        (omega (arith, bit_and_step x m, twice (bit_and y w)))

pub splits_byte : SplitsAt 256
splits_byte = splits_twice 128 (
    splits_twice 64 (
      splits_twice 32 (
        splits_twice 16
          (splits_twice 8 (splits_twice 4 (splits_twice 2 (splits_twice 1 splits_one)))))))

-- The byte whose highest `k` bits are set.
abbrev pub byte_mask : ℕ → ℕ
byte_mask k = 256 - 2 ^ (8 - k)

-- A test of every number under a bound.
unfoldable pub passes : (ℕ → Bool) → ℕ → Bool
passes test zero = true
passes test (suc bound) = let others = passes test bound in if test bound then others else false

pub passes_lem :
    (test : ℕ → Bool) (bound n : ℕ) → passes test bound ≡ true → n < bound → test n ≡ true
unfolding passes
passes_lem test zero n all h = absurd (omega arith)
passes_lem test (suc bound) n all h = elim (Bool-cases (test bound)) [
  | inl good ↦ elim (ℕ_discrete n bound) [
    | yes last ↦ rw last good
    | no before ↦ passes_lem test bound n (let e = all in ground (arith, e, good)) (omega arith)
  ]
  | inr bad ↦ absurd (let e = all in ground (arith, e, bad))
]

abbrev mask_row : ℕ → ℕ → Bool
mask_row k x =
    bit_and x (byte_mask k) == x / 2 ^ (8 - k) * 2 ^ (8 - k)
    && bit_and x (byte_mask k) / 2 ^ (8 - k) == x / 2 ^ (8 - k)
    && ltb (bit_and x (byte_mask k)) 256

mask_table : passes (λ k. passes (mask_row k) 256) 9 ≡ true
unfolding passes
mask_table = refl

pow_positive : (k : ℕ) → 0 < 2 ^ k
pow_positive zero = omega arith
pow_positive (suc k) = omega (arith, pow_positive k)

mask_row_small : (k x : ℕ) → k < 9 → x < 256 → mask_row k x ≡ true
mask_row_small k x few h =
    passes_lem (mask_row k) 256 x (passes_lem (λ j. passes (mask_row j) 256) 9 k mask_table few) h

mask_row_lem : (k x : ℕ) → x < 256 → mask_row k x ≡ true
mask_row_lem k x h = elim (dec_lt k 9) [
  | yes few ↦ mask_row_small k x few h
  | no many ↦ let full : 8 - k ≡ 8 - 8 = omega arith in rw full (mask_row_small 8 x (omega arith) h)
]

pub byte_mask-below : (k : ℕ) → byte_mask k < 256
byte_mask-below k = omega (arith, pow_positive (8 - k))

pub bit_and-byte_mask :
    (k x : ℕ)
    → x < 256
    → (bit_and x (byte_mask k) ≡ x / 2 ^ (8 - k) * 2 ^ (8 - k))
      × (bit_and x (byte_mask k) / 2 ^ (8 - k) ≡ x / 2 ^ (8 - k))
      × (bit_and x (byte_mask k) < 256)
bit_and-byte_mask k x h =
    let row = mask_row_lem k x h in
    let a = bit_and x (byte_mask k) in
    let first : (a == x / 2 ^ (8 - k) * 2 ^ (8 - k)) ≡ true = ground (arith, row) in
    let second : (a / 2 ^ (8 - k) == x / 2 ^ (8 - k)) ≡ true = ground (arith, row) in
    (
      (==_iff a (x / 2 ^ (8 - k) * 2 ^ (8 - k))).0 first,
      (==_iff (a / 2 ^ (8 - k)) (x / 2 ^ (8 - k))).0 second,
      ground (arith, row),
    )

-- Two bytes agree under the mask exactly when they agree on their highest `k` bits.
pub byte_mask_iff :
    (k x y : ℕ)
    → x < 256
    → y < 256
    → (bit_and x (byte_mask k) ≡ bit_and y (byte_mask k)) ↔ (x / 2 ^ (8 - k) ≡ y / 2 ^ (8 - k))
byte_mask_iff k x y hx hy =
    let (x_cut, x_top, x_low) = bit_and-byte_mask k x hx in
    let (y_cut, y_top, y_low) = bit_and-byte_mask k y hy in
    (
      λ e. sym x_top ∙ ap (λ n. n / 2 ^ (8 - k)) e ∙ y_top,
      λ e. x_cut ∙ ap (λ n. n * 2 ^ (8 - k)) e ∙ sym y_cut,
    )
