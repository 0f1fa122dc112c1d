-- ===== src/OpusJitter/Examples.antt =====
-- The jitter buffer of src/rv_opus_jitter.c on concrete packets.
use residual_engine_audio.Base.{
  ℕ, ◌+◌, ◌<◌, ◌≡◌, refl, ◌∙◌, arith, List, [], ◌∷◌, true, some, none, u16,
}
use residual_engine_audio.OpusJitter.{Jitter, jitter_cap, jitter_init, jitter_push, jitter_pop}
use residual_engine_audio.OpusJitter.View.{
  IsValid, held, held-push, held-init, init-IsValid, push-IsValid,
}
use residual_engine_audio.OpusJitter.Window.{Advanced, pop-due}
use residual_engine_audio.OpusJitter.Play.{play, frames, play-frames}
use residual_engine_audio.OpusJitter.Stream.{push_stream, play-push_stream}
use residual_engine_audio.OpusJitter.Stall.{Arrival, push_all, IsDry, pop-push_all_outside}

-- Playback starts at 65535; 65535 and 1 have arrived, 0 has not.
abbrev first : Jitter
first = jitter_push jitter_init 65535 (some (7 ∷ []))

abbrev two : Jitter
two = jitter_push first 1 (some (9 ∷ []))

first-IsValid : IsValid first
first-IsValid =
    push-IsValid jitter_init 65535 (7 ∷ []) init-IsValid (omega arith, omega arith) (omega arith)

two-IsValid : IsValid two
two-IsValid = push-IsValid first 1 (9 ∷ []) first-IsValid (omega arith, omega arith) (omega arith)

two_started : two.started ≡ true
unfolding jitter_init jitter_push
two_started = refl

two_next : two.next_play_seq ≡ 65535
unfolding jitter_init jitter_push
two_next = refl

two_due : held two two.next_play_seq ≡ some (7 ∷ [])
unfolding held jitter_init jitter_push
two_due = refl

-- After the first pop, the number 0 is due, and 1 is held.
abbrev waiting : Jitter
waiting = (jitter_pop two).1

waiting_next : waiting.next_play_seq ≡ 0
unfolding jitter_init jitter_push jitter_pop
waiting_next = refl

waiting_due : held waiting waiting.next_play_seq ≡ none
unfolding held jitter_init jitter_push jitter_pop
waiting_due = refl

waiting_ahead : held waiting (u16 (waiting.next_play_seq + 1)) ≡ some (9 ∷ [])
unfolding held jitter_init jitter_push jitter_pop
waiting_ahead = refl

play-frames_example : play 2 waiting ≡ frames (held waiting) waiting.next_play_seq 2
play-frames_example =
    play-frames 1 waiting (pop-due two (7 ∷ []) two-IsValid two_started two_due).1.valid
      (pop-due two (7 ∷ []) two-IsValid two_started two_due).1.running (omega arith)
      (λ e. cc waiting_ahead)

play-push_stream_example :
    play 3 (push_stream jitter_init 65535 (some (7 ∷ []) ∷ none ∷ some (9 ∷ []) ∷ []))
    ≡ some (some (7 ∷ [])) ∷ some none ∷ some (some (9 ∷ [])) ∷ []
play-push_stream_example =
    play-push_stream (7 ∷ []) (none ∷ some (9 ∷ []) ∷ []) 65535 (omega arith) (omega arith)
      ((omega arith, omega arith), (tt, ((omega arith, omega arith), tt))) (λ e. cc)

-- The first packet was played, and the stream comes back 500 numbers later.
abbrev dry : Jitter
dry = (jitter_pop first).1

first_due : held first first.next_play_seq ≡ some (7 ∷ [])
unfolding held jitter_init jitter_push
first_due = refl

first_started : first.started ≡ true
unfolding jitter_init jitter_push
first_started = refl

dry_after : ((jitter_pop first).0 ≡ some (some (7 ∷ []))) × Advanced first (jitter_pop first).1
dry_after = pop-due first (7 ∷ []) first-IsValid first_started first_due

dry_next : dry.next_play_seq ≡ 0
unfolding jitter_init jitter_push jitter_pop
dry_next = refl

first_next : first.next_play_seq ≡ 65535
unfolding jitter_init jitter_push
first_next = refl

dry_empty : (k : ℕ) → k < jitter_cap → held dry (u16 (dry.next_play_seq + k)) ≡ none
dry_empty k near =
    dry_after.1.rest (u16 (dry.next_play_seq + k))
    ∙ ground (
      arith,
      dry_next,
      first_next,
      held-push jitter_init 65535 (7 ∷ []) (u16 (dry.next_play_seq + k)) init-IsValid
          (omega arith, omega arith),
      held-init (u16 (dry.next_play_seq + k)),
    )

dry-IsDry : IsDry dry
dry-IsDry = record { valid = dry_after.1.valid; running = dry_after.1.running; empty = dry_empty }

abbrev late_stream : List Arrival
late_stream = record { seq = 500; bytes = 1 ∷ [] } ∷ record { seq = 501; bytes = 2 ∷ [] } ∷ []

pop-push_all_outside_example :
    jitter_pop (push_all dry late_stream) ≡ (none, push_all dry late_stream)
pop-push_all_outside_example = pop-push_all_outside late_stream dry dry-IsDry (
  ((omega arith, omega arith), omega arith, omega (arith, dry_next)),
  (((omega arith, omega arith), omega arith, omega (arith, dry_next)), tt),
)
