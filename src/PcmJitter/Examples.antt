-- ===== src/PcmJitter/Examples.antt =====
-- One frame in a new buffer.
use residual_engine_audio.Base.{◌≡◌, refl, arith, true, List, [], ◌∷◌, length-replicate, replicate}
use residual_engine_audio.Base.Int.{ℤ, pos}
use residual_engine_audio.PcmJitter.{
  PcmJitter, pcm_jitter_init, pcm_jitter_pop, play, silence, zero_frame,
}
use residual_engine_audio.PcmJitter.Play.{IsValid, upcoming, play-upcoming}

init-IsValid : IsValid pcm_jitter_init
unfolding pcm_jitter_init
init-IsValid = record { sized = length-replicate 64 zero_frame; next_fits = omega arith }

abbrev loud : List ℤ
loud = replicate 960 (pos 9)

abbrev started : PcmJitter
started = record {
  frames = record { seq = 64; valid = true; pcm = pos 3 ∷ [] } ∷ replicate 63 zero_frame;
  next_play_seq = 63;
  highest_seq_seen = 64;
  started = true;
}

started-IsValid : IsValid started
started-IsValid = record { sized = refl; next_fits = omega arith }

play-upcoming_example : play 2 started ≡ upcoming 2 started 63
play-upcoming_example = play-upcoming 2 started refl started-IsValid (omega arith)

-- The missing frame is silence, and the one behind it is heard.
heard : play 2 started ≡ silence ∷ (pos 3 ∷ []) ∷ []
unfolding play pcm_jitter_pop
heard = refl
