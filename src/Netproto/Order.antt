-- ===== src/Netproto/Order.antt =====
-- The byte swaps of src/rv_netproto.h as arithmetic on bytes.
use native.Mathlib.Nat.{div-add-mod, mul_comm}
use residual_engine_audio.Base.{
  ℕ, ◌+◌, ◌*◌, ◌/◌, ◌%◌, ◌^◌, ◌<◌, ◌≡◌, refl, bit_and, bit_or, arith, ap, ◌∙◌,
}
use residual_engine_audio.Base.Bits.{bit_and_low, bit_and_shifted, bit_or_fields}
use residual_engine_audio.Netproto.{bswap16, bswap32, bswap64}

pub bswap16_bytes : (x : ℕ) → x < 2 ^ 16 → bswap16 x ≡ x % 256 * 256 + x / 256
unfolding bswap16
bswap16_bytes x h = omega (arith, bit_or_fields 8 x (x / 256) (omega arith))

pub bswap16-lt : (x : ℕ) → bswap16 x < 2 ^ 16
unfolding bswap16
bswap16-lt x = omega arith

pub bswap16-bswap16 : (x : ℕ) → x < 2 ^ 16 → bswap16 (bswap16 x) ≡ x
bswap16-bswap16 x h = omega (arith, bswap16_bytes x h, bswap16_bytes (bswap16 x) (bswap16-lt x))

-- A byte taken out by its mask.
byte_mask : (k x : ℕ) → bit_and x (255 * 2 ^ k) ≡ x / 2 ^ k % 256 * 2 ^ k
byte_mask k x = bit_and_shifted k x 255 ∙ ap (λ (t : ℕ). t * 2 ^ k) (bit_and_low 8 (x / 2 ^ k))

-- `acc | r` where the low bits of `acc` that `r` needs are clear.
or_field : (k acc r : ℕ) → acc % 2 ^ k ≡ 0 → r < 2 ^ k → bit_or acc r ≡ acc + r
or_field k acc r clear fits = ground (
  arith,
  div-add-mod acc (2 ^ k),
  mul_comm (2 ^ k) (acc / 2 ^ k),
  bit_or_fields k (acc / 2 ^ k) r fits,
)

-- Bytes put one beside the other, from the highest on: the low `8 * n` bits are free.
or_four :
    (k a b c d : ℕ)
    → a % 2 ^ (k + 24) ≡ 0
    → b < 2 ^ (k + 24)
    → (a + b) % 2 ^ (k + 16) ≡ 0
    → c < 2 ^ (k + 16)
    → (a + b + c) % 2 ^ (k + 8) ≡ 0
    → d < 2 ^ (k + 8)
    → bit_or (bit_or (bit_or a b) c) d ≡ a + b + c + d
or_four k a b c d p b_lt q c_lt r d_lt =
    rw
      (
        or_field (k + 24) a b p b_lt,
        or_field (k + 16) (a + b) c q c_lt,
        or_field (k + 8) (a + b + c) d r d_lt,
      )
      refl

or_eight :
    (a b c d e f g h : ℕ)
    → (a % 2 ^ 56 ≡ 0)
      × (b % 2 ^ 48 ≡ 0)
      × (c % 2 ^ 40 ≡ 0)
      × (d % 2 ^ 32 ≡ 0)
      × (e % 2 ^ 24 ≡ 0)
      × (f % 2 ^ 16 ≡ 0)
      × (g % 2 ^ 8 ≡ 0)
    → (b < 2 ^ 56)
      × (c < 2 ^ 48)
      × (d < 2 ^ 40)
      × (e < 2 ^ 32)
      × (f < 2 ^ 24)
      × (g < 2 ^ 16)
      × (h < 2 ^ 8)
    → bit_or (bit_or (bit_or (bit_or (bit_or (bit_or (bit_or a b) c) d) e) f) g) h
      ≡ a + b + c + d + e + f + g + h
or_eight a b c d e f g h clear fits =
    rw
      (
        or_four 32 a b c d (omega arith) (omega arith) (omega arith) (omega arith) (omega arith)
            (omega arith),
        or_field 32 (a + b + c + d) e (omega arith) (omega arith),
        or_four 0 (a + b + c + d + e) f g h (omega arith) (omega arith) (omega arith) (omega arith)
            (omega arith) (omega arith),
      )
      refl

pub bswap32_bytes :
    (x : ℕ)
    → x < 2 ^ 32
    → bswap32 x
      ≡ x % 256 * 2 ^ 24 + x / 2 ^ 8 % 256 * 2 ^ 16 + x / 2 ^ 16 % 256 * 2 ^ 8 + x / 2 ^ 24 % 256
unfolding bswap32
bswap32_bytes x h = omega (
  arith,
  masks,
  or_four 0 (bit_and x 0xff * 2 ^ 24) (bit_and x 0xff00 * 2 ^ 8) (bit_and x 0xff0000 / 2 ^ 8)
      (bit_and x 0xff000000 / 2 ^ 24) (omega (arith, masks)) (omega (arith, masks))
      (omega (arith, masks)) (omega (arith, masks)) (omega (arith, masks)) (omega (arith, masks)),
)
  where
    masks :
        (bit_and x 0xff ≡ x % 256)
        × (bit_and x 0xff00 ≡ x / 2 ^ 8 % 256 * 2 ^ 8)
        × (bit_and x 0xff0000 ≡ x / 2 ^ 16 % 256 * 2 ^ 16)
        × (bit_and x 0xff000000 ≡ x / 2 ^ 24 % 256 * 2 ^ 24)
    masks = (bit_and_low 8 x, byte_mask 8 x, byte_mask 16 x, byte_mask 24 x)

pub bswap32-lt : (x : ℕ) → x < 2 ^ 32 → bswap32 x < 2 ^ 32
bswap32-lt x h = omega (arith, bswap32_bytes x h)

pub bswap32-bswap32 : (x : ℕ) → x < 2 ^ 32 → bswap32 (bswap32 x) ≡ x
bswap32-bswap32 x h = omega (arith, bswap32_bytes x h, bswap32_bytes (bswap32 x) (bswap32-lt x h))

pub bswap64_bytes :
    (x : ℕ)
    → x < 2 ^ 64
    → bswap64 x
      ≡ x % 256 * 2 ^ 56
        + x / 2 ^ 8 % 256 * 2 ^ 48
        + x / 2 ^ 16 % 256 * 2 ^ 40
        + x / 2 ^ 24 % 256 * 2 ^ 32
        + x / 2 ^ 32 % 256 * 2 ^ 24
        + x / 2 ^ 40 % 256 * 2 ^ 16
        + x / 2 ^ 48 % 256 * 2 ^ 8
        + x / 2 ^ 56 % 256
unfolding bswap64
bswap64_bytes x h =
    let a = bit_and x 0xff * 2 ^ 56 in
    let b = bit_and x 0xff00 * 2 ^ 40 in
    let c = bit_and x 0xff0000 * 2 ^ 24 in
    let d = bit_and x 0xff000000 * 2 ^ 8 in
    let e = bit_and x 0xff00000000 / 2 ^ 8 in
    let f = bit_and x 0xff0000000000 / 2 ^ 24 in
    let g = bit_and x 0xff000000000000 / 2 ^ 40 in
    let z = bit_and x 0xff00000000000000 / 2 ^ 56 in
    or_eight a b c d e f g z (omega (arith, masks)) (omega (arith, masks)) ∙ omega (arith, masks)
  where
    masks :
        (bit_and x 0xff ≡ x % 256)
        × (bit_and x 0xff00 ≡ x / 2 ^ 8 % 256 * 2 ^ 8)
        × (bit_and x 0xff0000 ≡ x / 2 ^ 16 % 256 * 2 ^ 16)
        × (bit_and x 0xff000000 ≡ x / 2 ^ 24 % 256 * 2 ^ 24)
        × (bit_and x 0xff00000000 ≡ x / 2 ^ 32 % 256 * 2 ^ 32)
        × (bit_and x 0xff0000000000 ≡ x / 2 ^ 40 % 256 * 2 ^ 40)
        × (bit_and x 0xff000000000000 ≡ x / 2 ^ 48 % 256 * 2 ^ 48)
        × (bit_and x 0xff00000000000000 ≡ x / 2 ^ 56 % 256 * 2 ^ 56)
    masks = (
      bit_and_low 8 x,
      byte_mask 8 x,
      byte_mask 16 x,
      byte_mask 24 x,
      byte_mask 32 x,
      byte_mask 40 x,
      byte_mask 48 x,
      byte_mask 56 x,
    )

pub bswap64-lt : (x : ℕ) → x < 2 ^ 64 → bswap64 x < 2 ^ 64
bswap64-lt x h = omega (arith, bswap64_bytes x h)

pub bswap64-bswap64 : (x : ℕ) → x < 2 ^ 64 → bswap64 (bswap64 x) ≡ x
bswap64-bswap64 x h = omega (arith, bswap64_bytes x h, bswap64_bytes (bswap64 x) (bswap64-lt x h))
