-- ===== src/Voice/Mix/Examples.antt =====
-- A mix of two loud speakers.
use residual_engine_audio.Base.{
  ℕ, ◌<◌, ◌≡◌, refl, true, [], ◌∷◌, All, length, get_or, if◌then◌else◌,
}
use residual_engine_audio.Base.Int.{pos, negsuc, ◌+ℤ◌}
use residual_engine_audio.Voice.Emit.{emit_log}
use residual_engine_audio.Voice.State.{Speaker}
use residual_engine_audio.Voice.Mix.{mix_output, mix_speakers, mix_into, clamp16, int_of_u32}
use residual_engine_audio.Voice.Mix.Sum.{IsInt16, mixed_at, is_heard, mix_output_lem}
use residual_engine_audio.Voice.Samples.{engine, engine-IsValid, speaker}

abbrev loud : Speaker ℕ
loud = record speaker { pcm_buf = pos 30000 ∷ pos 100 ∷ []; pcm_count = 2 }

abbrev faint : Speaker ℕ
faint = record speaker { pcm_buf = pos 3000 ∷ []; pcm_count = 1 }

abbrev deep : Speaker ℕ
deep = record speaker { pcm_buf = negsuc 29999 ∷ []; pcm_count = 1 }

clamped :
    mix_speakers (loud ∷ faint ∷ []) true (pos 0 ∷ pos 0 ∷ pos 0 ∷ [])
    ≡ (true, pos 32767 ∷ pos 100 ∷ pos 0 ∷ [])
unfolding mix_speakers mix_into clamp16 ◌+ℤ◌
clamped = refl

-- The sum is clamped after each speaker, not at the end.
running : mixed_at (loud ∷ loud ∷ deep ∷ []) 0 (pos 0) ≡ pos 2767
unfolding mixed_at clamp16 ◌+ℤ◌
running = refl

-- The largest count that a C int holds, and the next one.
casts : (int_of_u32 2147483647 ≡ pos 2147483647) × (int_of_u32 2147483648 ≡ negsuc 2147483647)
unfolding int_of_u32
casts = (refl, refl)

engine_on : engine.initialized ≡ true
unfolding emit_log
engine_on = refl

mix_output_lem_example :
    ((mix_output engine 4).0 ≡ (if is_heard engine.speakers then int_of_u32 4 else pos 0))
    × (length (mix_output engine 4).1 ≡ 4)
    × All IsInt16 (mix_output engine 4).1
    × ((k : ℕ)
        → k < 4
        → get_or (mix_output engine 4).1 k (pos 0) ≡ mixed_at engine.speakers k (pos 0))
mix_output_lem_example = mix_output_lem engine 4 engine-IsValid engine_on
