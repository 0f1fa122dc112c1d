-- ===== src/Netproto/Flags.antt =====
-- The routing flags of src/rv_netproto.h: packing and reading them back.
use Prim.Native.Nat.{bit_or-bitwise}
use residual_engine_audio.Base.{
  ℕ, zero, suc, ◌+◌, ◌-◌, ◌*◌, ◌/◌, ◌%◌, ◌<◌, ◌≡◌, refl, Bool, true, bit_or, arith, ==_iff, ◌==◌,
  if◌then◌else◌, Bool-cases, inl, inr, false,
}
use residual_engine_audio.Base.Bits.{bit_and_low, bit_and_shifted}
use residual_engine_audio.Netproto.{flags_make, flags_is_radio, flags_channel, flags_ptt, truthy}

-- Two functions agree on the numbers below a bound, checked by running both.
agree_below : (ℕ → ℕ) → (ℕ → ℕ) → ℕ → Bool
agree_below f g zero = true
agree_below f g (suc bound) =
    let rest = agree_below f g bound in if f bound == g bound then rest else false

agreed : (f g : ℕ → ℕ) (bound i : ℕ) → i < bound → agree_below f g bound ≡ true → f i ≡ g i
unfolding agree_below
agreed f g zero i lt same = absurd (omega arith)
agreed f g (suc bound) i lt same = elim (Bool-cases (i == bound)) [
  | inl here ↦ let is : i ≡ bound = (==_iff i bound).0 here in rw is (ground arith)
  | inr below ↦ agreed f g bound i (ground arith) (ground arith)
]

radio_table : agree_below (λ f. bit_or 1 f) (λ f. f + 1 - f % 2) 31 ≡ true
unfolding agree_below
radio_table = refl

ptt_table : agree_below (λ f. bit_or f 0x20) (λ f. f + 32) 32 ≡ true
unfolding agree_below
ptt_table = refl

bit_or-radio : (f : ℕ) → f < 31 → f % 2 ≡ 0 → bit_or 1 f ≡ f + 1
bit_or-radio f h even =
    omega (arith, agreed (λ f. bit_or 1 f) (λ f. f + 1 - f % 2) 31 f h radio_table)

bit_or-ptt : (f : ℕ) → f < 32 → bit_or f 0x20 ≡ f + 32
bit_or-ptt f h = agreed (λ f. bit_or f 0x20) (λ f. f + 32) 32 f h ptt_table

-- The number 1 for a nonzero C value, else 0.
abbrev pub truth : ℕ → ℕ
truth x = if truthy x then 1 else 0

pub flags_make_sum : (r c p : ℕ) → flags_make r c p ≡ truth r + c % 16 * 2 + truth p * 32
unfolding flags_make
flags_make_sum r c p = ground (
  arith,
  bit_and_low 4 c,
  bit_or-bitwise 0 (c % 16 * 2),
  bit_or-radio (c % 16 * 2),
  bit_or-ptt (c % 16 * 2),
  bit_or-ptt (c % 16 * 2 + 1),
)

pub getters :
    (f : ℕ)
    → (flags_is_radio f ≡ f % 2) × (flags_channel f ≡ f / 2 % 16) × (flags_ptt f ≡ f / 32 % 2)
unfolding flags_is_radio flags_channel flags_ptt
getters f = (
  ground (arith, bit_and_low 1 f),
  ground (arith, bit_and_shifted 1 f 15, bit_and_low 4 (f / 2)),
  ground (arith, bit_and_shifted 5 f 1, bit_and_low 1 (f / 32)),
)

-- Reading back packed flags gives whether the radio bit was set, the low four bits of the channel,
-- and whether the push-to-talk bit was set; the two reserved bits are clear.
pub flags_make-getters :
    (r c p : ℕ)
    → (flags_is_radio (flags_make r c p) ≡ truth r)
      × (flags_channel (flags_make r c p) ≡ c % 16)
      × (flags_ptt (flags_make r c p) ≡ truth p)
      × (flags_make r c p < 64)
flags_make-getters r c p = ground (arith, flags_make_sum r c p, getters (flags_make r c p))

-- A flags byte whose reserved bits are clear is packed again from what is read off it.
pub flags_make-of_getters :
    (f : ℕ) → f < 64 → flags_make (flags_is_radio f) (flags_channel f) (flags_ptt f) ≡ f
flags_make-of_getters f h =
    ground (arith, flags_make_sum (flags_is_radio f) (flags_channel f) (flags_ptt f), getters f)
