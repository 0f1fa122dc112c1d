-- ===== src/Base/Bits.antt =====
-- Masks and disjoint fields of the C bit operations, as arithmetic, at every width.
use Prim.Native.Nat.{min, max, digits, bit_and-bitwise, bit_or-bitwise}
use native.Mathlib.Nat.{pow-suc, one-le-pow, mul-one, mul_comm, div-div-eq-div-mul, div-one}
use residual_engine_audio.Base.{
  ℕ, zero, suc, ◌+◌, ◌-◌, ◌*◌, ◌/◌, ◌%◌, ◌^◌, ◌≤◌, ◌<◌, bit_and, bit_or, ◌≡◌, ◌∙◌, refl, ap, arith,
}

-- The native operations are `digits`, a recursion on binary digits with fuel: one round more than
-- there are digits changes nothing, and so neither do several.
module _ (z : ℕ → ℕ) (f : ℕ → ℕ → ℕ) where
  one_more : (n a b : ℕ) → a ≤ n → digits z f (suc n) a b ≡ digits z f n a b
  one_more zero zero b le = refl
  one_more zero (suc a) b le = absurd (omega arith)
  one_more (suc n) zero b le = refl
  one_more (suc n) (suc a) b le = omega (arith, one_more n (suc a / 2) (b / 2) (omega arith))

  spare : (k n a b : ℕ) → a ≤ n → digits z f (k + n) a b ≡ digits z f n a b
  spare zero n a b le = let e : 0 + n ≡ n = omega arith in ap (λ t. digits z f t a b) e
  spare (suc k) n a b le =
      let e : suc k + n ≡ suc (k + n) = omega arith in
      ap (λ t. digits z f t a b) e ∙ one_more (k + n) a b (omega arith) ∙ spare k n a b le

  enough : (n m a b : ℕ) → a ≤ m → m ≤ n → digits z f n a b ≡ digits z f m a b
  enough n m a b le more = ap (λ t. digits z f t a b) (omega arith) ∙ spare (n - m) m a b le

  digit_step :
      ((b : ℕ) → z b ≡ z (b / 2) * 2 + f 0 (b % 2))
      → (a b : ℕ) → digits z f a a b ≡ digits z f (a / 2) (a / 2) (b / 2) * 2 + f (a % 2) (b % 2)
  digit_step base zero b = base b
  digit_step base (suc a) b =
      omega (arith, enough a (suc a / 2) (suc a / 2) (b / 2) (omega arith) (omega arith))

-- What the last binary digit contributes.
pub bit_and_step : (a b : ℕ) → bit_and a b ≡ bit_and (a / 2) (b / 2) * 2 + min (a % 2) (b % 2)
bit_and_step a b =
    let step = digit_step (λ t. 0) min (λ b. omega arith) a b in
    omega (arith, step, bit_and-bitwise a b, bit_and-bitwise (a / 2) (b / 2))

pub bit_or_step : (a b : ℕ) → bit_or a b ≡ bit_or (a / 2) (b / 2) * 2 + max (a % 2) (b % 2)
bit_or_step a b =
    let step = digit_step (λ t. t) max (λ b. omega arith) a b in
    omega (arith, step, bit_or-bitwise a b, bit_or-bitwise (a / 2) (b / 2))

zero_mask : (n a : ℕ) → a ≤ n → bit_and a 0 ≡ 0
zero_mask n zero h = refl
zero_mask zero (suc a) h = absurd (omega arith)
zero_mask (suc n) (suc a) h =
    omega (arith, bit_and_step (suc a) 0, zero_mask n (suc a / 2) (omega arith))

zero_field : (n a : ℕ) → a ≤ n → bit_or a 0 ≡ a
zero_field n zero h = refl
zero_field zero (suc a) h = absurd (omega arith)
zero_field (suc n) (suc a) h =
    omega (arith, bit_or_step (suc a) 0, zero_field n (suc a / 2) (omega arith))

double : (q k : ℕ) → q * 2 ^ suc k ≡ 2 * (q * 2 ^ k)
double q k = omega (arith, ap (λ (t : ℕ). q * t) (pow-suc 2 k))

low_field : (k q r : ℕ) → r < 2 ^ k → bit_and (q * 2 ^ k + r) (2 ^ k - 1) ≡ r
low_field zero q r fits = omega (arith, zero_mask (q * 1 + r) (q * 1 + r) (omega arith))
low_field (suc k) q r fits = ground (
  arith,
  bit_and_step (q * 2 ^ suc k + r) (2 ^ suc k - 1),
  double q k,
  pow-suc 2 k,
  low_field k q (r / 2) (omega (arith, pow-suc 2 k)),
)

-- `a & ((1 << k) - 1)` is the remainder by `2 ^ k`.
pub bit_and_low : (k a : ℕ) → bit_and a (2 ^ k - 1) ≡ a % 2 ^ k
bit_and_low k a = ground (arith, one-le-pow k 2, low_field k (a / 2 ^ k) (a % 2 ^ k))

-- `a & (m << k)` looks at the bits of `a` from `k` on.
pub bit_and_shifted : (k a m : ℕ) → bit_and a (m * 2 ^ k) ≡ bit_and (a / 2 ^ k) m * 2 ^ k
bit_and_shifted zero a m = rw (mul-one, div-one, mul-one)
bit_and_shifted (suc k) a m = ground (
  arith,
  bit_and_step a (m * 2 ^ suc k),
  double m k,
  double (bit_and (a / 2 / 2 ^ k) m) k,
  bit_and_shifted k (a / 2) m,
  ap (λ (t : ℕ). bit_and t m) (halve k a),
)
  where
    halve : (k a : ℕ) → a / 2 / 2 ^ k ≡ a / 2 ^ suc k
    halve k a = rw (div-div-eq-div-mul, pow-suc, mul_comm)

-- `(q << k) | r` is a sum where `r` fits `k` bits.
pub bit_or_fields : (k q r : ℕ) → r < 2 ^ k → bit_or (q * 2 ^ k) r ≡ q * 2 ^ k + r
bit_or_fields zero q r fits = ground (arith, zero_field q q)
bit_or_fields (suc k) q r fits = ground (
  arith,
  bit_or_step (q * 2 ^ suc k) r,
  double q k,
  bit_or_fields k q (r / 2) (omega (arith, pow-suc 2 k)),
)
