-- ===== src/OpusJitter/Stall.antt =====
-- What happens when a stream comes back further ahead than the buffer is long.
use residual_engine_audio.Base.{
  ℕ, ◌+◌, ◌^◌, ◌≤◌, ◌<◌, ◌≡◌, ◌≢◌, ap, ◌∙◌, true, some, none, List, [], ◌∷◌, arith, u16, sub16, All,
}
use residual_engine_audio.OpusJitter.{Jitter, jitter_cap, jitter_push, jitter_pop}
use residual_engine_audio.OpusJitter.View.{
  held, IsValid, IsPayload, held-push, push-IsValid, next-push,
}
use residual_engine_audio.OpusJitter.Window.{pop-idle}

-- A sequence number with a payload, as it arrives.
abbrev pub Arrival : Type 0
Arrival = record { seq : ℕ; bytes : List ℕ }

unfoldable pub push_all : Jitter → List Arrival → Jitter
push_all jb [] = jb
push_all jb (a ∷ arrivals) = push_all (jitter_push jb a.seq (some a.bytes)) arrivals

-- A packet that the buffer takes, whose number lies outside the 128 numbers from `next` on.
abbrev pub IsOutside : ℕ → Arrival → Type 0
IsOutside next a = IsPayload a.bytes × (a.seq < 2 ^ 16) × (jitter_cap ≤ sub16 a.seq next)

-- A started buffer that holds none of the 128 numbers that it looks at.
pub record IsDry (jb : Jitter) : Type 0 where
  pub valid : IsValid jb
  pub running : jb.started ≡ true
  pub empty : (k : ℕ) → k < jitter_cap → held jb (u16 (jb.next_play_seq + k)) ≡ none

IsDry-push :
    (jb : Jitter) (a : Arrival)
    → IsDry jb
    → IsOutside jb.next_play_seq a
    → IsDry (jitter_push jb a.seq (some a.bytes))
      × ((jitter_push jb a.seq (some a.bytes)).next_play_seq ≡ jb.next_play_seq)
IsDry-push jb a d out =
    let next : (jitter_push jb a.seq (some a.bytes)).next_play_seq ≡ jb.next_play_seq =
      (next-push jb a.seq a.bytes out.0).1 ∙ rw (d.running) in
    (
      record {
        valid = push-IsValid jb a.seq a.bytes d.valid out.0 out.1;
        running = (next-push jb a.seq a.bytes out.0).0;
        empty = λ k near.
            ap (λ t. held (jitter_push jb a.seq (some a.bytes)) (u16 (t + k))) next ∙ missed k near;
      },
      next,
    )
  where
    missed :
        (k : ℕ)
        → k < jitter_cap
        → held (jitter_push jb a.seq (some a.bytes)) (u16 (jb.next_play_seq + k)) ≡ none
    missed k near =
        let t = u16 (jb.next_play_seq + k) in
        let ne : t ≢ a.seq = omega (arith, d.valid.next_fits, out) in
        held-push jb a.seq a.bytes t d.valid out.0 ∙ ground (arith, d.empty k near)

-- Once a valid buffer that has started holds none of the 128 numbers from the one that is due,
-- packets of 1 to 600 bytes outside that window, however many arrive, are never played: the pop
-- that follows returns 0 and changes nothing.
pub pop-push_all_outside :
    (arrivals : List Arrival) (jb : Jitter)
    → IsDry jb
    → All (IsOutside jb.next_play_seq) arrivals
    → jitter_pop (push_all jb arrivals) ≡ (none, push_all jb arrivals)
unfolding push_all
pop-push_all_outside [] jb d out = pop-idle jb d.empty d.valid.next_fits
pop-push_all_outside (a ∷ arrivals) jb d out =
    let (d', next) = IsDry-push jb a d out.0 in
    pop-push_all_outside arrivals (jitter_push jb a.seq (some a.bytes)) d' (rw next out.1)
