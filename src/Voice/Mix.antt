-- ===== src/Voice/Mix.antt =====
-- The mixed output: `clamp16` and `rv_voice_mix_output` of src/voice.c.
pub mod Sum
mod Examples
use residual_engine_audio.Base.{
  ℕ, ◌^◌, ◌-◌, Bool, true, false, ◌||◌, List, [], ◌∷◌, ltb, ◌==◌, if◌then◌else◌, not, length, take,
  replicate, Result, ok, err, min,
}
use residual_engine_audio.Base.Int.{ℤ, pos, negsuc, ◌+ℤ◌, ltb_ℤ}
use residual_engine_audio.Voice.State.{Voice, Speaker}

abbrev pub int16_max : ℤ
int16_max = pos 32767

abbrev pub int16_min : ℤ
int16_min = negsuc 32767

unfoldable pub clamp16 : ℤ → ℤ
clamp16 x = if ltb_ℤ int16_max x then int16_max else if ltb_ℤ x int16_min then int16_min else x

-- The cast `(int)` of an unsigned number of 32 bits.
unfoldable pub int_of_u32 : ℕ → ℤ
int_of_u32 n = if ltb n (2 ^ 31) then pos n else negsuc (2 ^ 32 - 1 - n)

-- The inner loop: the samples are added as far as there are any, and as far as the output goes.
unfoldable pub mix_into : List ℤ → List ℤ → List ℤ
mix_into [] samples = []
mix_into (o ∷ out) [] = o ∷ out
mix_into (o ∷ out) (s ∷ samples) = clamp16 (o +ℤ s) ∷ mix_into out samples

module _ {Decoder : Type 0} where
  -- The outer loop, with `any` and the output so far.
  unfoldable pub mix_speakers : List (Speaker Decoder) → Bool → List ℤ → Bool × List ℤ
  mix_speakers [] any out = (any, out)
  mix_speakers (sp ∷ rest) any out =
      let silent = sp.pcm_count == 0 in
      mix_speakers rest (any || not silent)
        (if silent then out else mix_into out (take sp.pcm_count sp.pcm_buf))

module _ {Encoder Decoder : Type 0} where
  -- The return value, a C int, and the output. The channel count is always 1, so -3 is not
  -- returned.
  unfoldable pub mix_output : Voice Encoder Decoder → ℕ → ℤ × List ℤ
  mix_output v n =
      if not v.initialized
      then (negsuc 1, [])
      else let (any, out) = mix_speakers v.speakers false (replicate n (pos 0)) in
        (if any then int_of_u32 n else pos 0, out)
