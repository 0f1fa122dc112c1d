-- ===== src/Voice/Tick/Drain.antt =====
-- The first loop of `rv_voice_tick`: it ends, and the capture queue is empty then.
use residual_engine_audio.Base.{
  ℕ, zero, suc, ◌+◌, ◌≤◌, ◌<◌, ◌≡◌, refl, ap, sym, ◌∙◌, Option, some, none, List, [], ◌∷◌, arith,
  length, get_or, drop, Option-cases, Bool-cases, ◌==◌, if◌then◌else◌, inl, inr,
}
use mathlib.Core.Path.{subst}
use residual_engine_audio.Base.Int.{ℤ}
use residual_engine_audio.CaptureRing.{ring_pop}
use residual_engine_audio.CaptureRing.Refine.{contents, ring_push_refines, ring_pop_refines}
use residual_engine_audio.CaptureRing.Refine as CaptureRingRefine
use residual_engine_audio.Opus.{Codec}
use residual_engine_audio.Voice.State.{Voice}
use residual_engine_audio.Voice.Capture.{encode_and_queue_voice}
use residual_engine_audio.Voice.Tick.{transmit_frame, submit_all, drain}
use residual_engine_audio.Voice.Invariant.State.{IsValid}
use residual_engine_audio.Voice.Tick.Frames.{
  pop_none, pop_some, pop_front, pop_empty, at_most_16, submit_all-cap_q, transmit_frame-cap_q,
}

module _ {Encoder Decoder : Type 0} (codec : Codec Encoder Decoder) where
  -- The engine after the frame was popped and transmitted.
  abbrev sent : Voice Encoder Decoder → List ℤ → Voice Encoder Decoder
  sent v f = transmit_frame codec (record v { cap_q = (ring_pop v.cap_q).1 }) f

  -- The runs with `n` and with `m` rounds agree, and leave no frame.
  abbrev IsDone : ℕ → ℕ → List (List (List ℤ)) → Voice Encoder Decoder → Type 0
  IsDone n m arrivals v =
      (drain codec n arrivals v ≡ drain codec m arrivals v)
      × (contents (drain codec m arrivals v).cap_q ≡ [])

  -- One round of the loop, when a frame waits and when none does.
  drain-none :
      (fuel : ℕ) (arrivals : List (List (List ℤ))) (v : Voice Encoder Decoder)
      → let now = submit_all v (get_or arrivals 0 []) in
        (ring_pop now.cap_q).0 ≡ none → drain codec (suc fuel) arrivals v ≡ now
  unfolding drain
  drain-none fuel arrivals v e = ap after e
    where
      now : Voice Encoder Decoder
      now = submit_all v (get_or arrivals 0 [])

      after : Option (List ℤ) → Voice Encoder Decoder
      after o = elim o [ none ↦ now | some f ↦ drain codec fuel (drop 1 arrivals) (sent now f) ]

  drain-some :
      (fuel : ℕ) (arrivals : List (List (List ℤ))) (v : Voice Encoder Decoder) (f : List ℤ)
      → let now = submit_all v (get_or arrivals 0 []) in
        (ring_pop now.cap_q).0 ≡ some f
        → drain codec (suc fuel) arrivals v ≡ drain codec fuel (drop 1 arrivals) (sent now f)
  unfolding drain
  drain-some fuel arrivals v f e = ap after e
    where
      now : Voice Encoder Decoder
      now = submit_all v (get_or arrivals 0 [])

      after : Option (List ℤ) → Voice Encoder Decoder
      after o = elim o [ none ↦ now | some f ↦ drain codec fuel (drop 1 arrivals) (sent now f) ]

  -- The frames that wait after one round.
  left :
      (v : Voice Encoder Decoder) (f : List ℤ)
      → CaptureRingRefine.IsValid v.cap_q
      → (ring_pop v.cap_q).0 ≡ some f
      → CaptureRingRefine.IsValid (sent v f).cap_q
        × (length (contents v.cap_q) ≡ suc (length (contents (sent v f).cap_q)))
  left v f h e =
      let same = transmit_frame-cap_q codec (record v { cap_q = (ring_pop v.cap_q).1 }) f in
      (
        subst CaptureRingRefine.IsValid (sym same) (ring_pop_refines v.cap_q h).1,
        pop_some v.cap_q f h e ∙ ap (λ q. suc (length (contents q))) (sym same),
      )

  ended :
      (n m : ℕ) (arrivals : List (List (List ℤ))) (v : Voice Encoder Decoder)
      → let now = submit_all v (get_or arrivals 0 []) in
        CaptureRingRefine.IsValid now.cap_q
        → (ring_pop now.cap_q).0 ≡ none
        → IsDone (suc n) (suc m) arrivals v
  ended n m arrivals v h e =
      let now = submit_all v (get_or arrivals 0 []) in
      let stop = drain-none m arrivals v e in
      (
        drain-none n arrivals v e ∙ sym stop,
        ap (λ (w : Voice Encoder Decoder). contents w.cap_q) stop ∙ pop_none now.cap_q h e,
      )

  round :
      (n m : ℕ) (arrivals : List (List (List ℤ))) (v : Voice Encoder Decoder) (f : List ℤ)
      → let now = submit_all v (get_or arrivals 0 []) in
        (ring_pop now.cap_q).0 ≡ some f
        → IsDone n m (drop 1 arrivals) (sent now f)
        → IsDone (suc n) (suc m) arrivals v
  round n m arrivals v f e (same, empty) =
      let go = drain-some m arrivals v f e in
      (
        drain-some n arrivals v f e ∙ same ∙ sym go,
        ap (λ (w : Voice Encoder Decoder). contents w.cap_q) go ∙ empty,
      )

  -- Two runs of the loop with enough rounds agree, and after them none waits any more: when
  -- nothing arrives, more rounds than there are frames are enough.
  quiet-IsDone :
      (n m : ℕ) (v : Voice Encoder Decoder)
      → CaptureRingRefine.IsValid v.cap_q
      → length (contents v.cap_q) < n
      → length (contents v.cap_q) < m
      → IsDone n m [] v
  unfolding submit_all
  quiet-IsDone zero m v h p q = absurd (omega arith)
  quiet-IsDone (suc n) zero v h p q = absurd (omega arith)
  quiet-IsDone (suc n) (suc m) v h p q = elim (Option-cases (ring_pop v.cap_q).0) [
    | inl e ↦ ended n m [] v h e
    | inr (f, e) ↦
        let (valid, fewer) = left v f h e in
        round n m [] v f e (quiet-IsDone n m (sent v f) valid (omega arith) (omega arith))
  ]

  arrivals-IsDone :
      (n m : ℕ) (arrivals : List (List (List ℤ))) (v : Voice Encoder Decoder)
      → CaptureRingRefine.IsValid v.cap_q
      → 17 + length arrivals ≤ n
      → 17 + length arrivals ≤ m
      → IsDone n m arrivals v
  arrivals-IsDone zero m arrivals v h p q = absurd (omega arith)
  arrivals-IsDone (suc n) zero arrivals v h p q = absurd (omega arith)
  arrivals-IsDone (suc n) (suc m) [] v h p q =
      let few = at_most_16 v.cap_q h in quiet-IsDone (suc n) (suc m) v h (omega arith) (omega arith)
  arrivals-IsDone (suc n) (suc m) (frames ∷ arrivals) v h p q =
      let now = submit_all v frames in
      let valid = submit_all-cap_q v frames h in
      elim (Option-cases (ring_pop now.cap_q).0) [
        | inl e ↦ ended n m (frames ∷ arrivals) v valid e
        | inr (f, e) ↦ round n m (frames ∷ arrivals) v f e (
            arrivals-IsDone n m arrivals (sent now f) (left now f valid e).0 (omega arith)
              (omega arith))
      ]

  -- The frames of a list, the first one first: each is taken off the queue, and handed on if it
  -- has the size of the engine's frames.
  pub encode_all : Voice Encoder Decoder → List (List ℤ) → Voice Encoder Decoder
  encode_all v [] = v
  encode_all v (f ∷ frames) =
      let now = record v { cap_q = (ring_pop v.cap_q).1 } in
      encode_all
        (if length f == v.frame_samples then (encode_and_queue_voice codec now f).1 else now) frames

  sent-encodes :
      (v : Voice Encoder Decoder) (f : List ℤ)
      → let now = record v { cap_q = (ring_pop v.cap_q).1 } in
        sent v f
        ≡ (if length f == v.frame_samples then (encode_and_queue_voice codec now f).1 else now)
  unfolding transmit_frame
  sent-encodes v f = elim (Bool-cases (length f == v.frame_samples)) [
    | inl e ↦ rw e refl
    | inr e ↦ rw e refl
  ]

  quiet-encode_all :
      (n : ℕ) (frames : List (List ℤ)) (v : Voice Encoder Decoder)
      → CaptureRingRefine.IsValid v.cap_q
      → contents v.cap_q ≡ frames
      → length frames < n
      → drain codec n [] v ≡ encode_all v frames
  unfolding submit_all encode_all
  quiet-encode_all zero frames v h is lt = absurd (omega arith)
  quiet-encode_all (suc n) [] v h is lt = drain-none n [] v (pop_empty v.cap_q h is)
  quiet-encode_all (suc n) (f ∷ frames) v h is lt =
      let (first, rest) = pop_front v.cap_q f frames h is in
      let same = transmit_frame-cap_q codec (record v { cap_q = (ring_pop v.cap_q).1 }) f in
      drain-some n [] v f first
      ∙ quiet-encode_all n frames (sent v f) (left v f h first).0 (ap contents same ∙ rest)
          (omega arith)
      ∙ ap (λ w. encode_all w frames) (sent-encodes v f)

  -- Whatever the audio thread submits while the loop of a valid engine runs, in however many
  -- rounds, the loop ends after at most 17 rounds more than those: to let it go on changes
  -- nothing, and at the pop that ends it no captured frame waits. If nothing is submitted meanwhile,
  -- the frames that wait are taken in their order, and each that has the size of the engine's frames
  -- is handed to `encode_and_queue_voice` once.
  pub drain-done :
      (more : ℕ) (arrivals : List (List (List ℤ))) (v : Voice Encoder Decoder)
      → IsValid v
      → let rounds = 17 + length arrivals in
        (drain codec (rounds + more) arrivals v ≡ drain codec rounds arrivals v)
        × (contents (drain codec rounds arrivals v).cap_q ≡ [])
        × (drain codec 17 [] v ≡ encode_all v (contents v.cap_q))
  drain-done more arrivals v h =
      let rounds = 17 + length arrivals in
      let few = at_most_16 v.cap_q h.cap_ok in
      let (same, empty) =
        arrivals-IsDone (rounds + more) rounds arrivals v h.cap_ok (omega arith) (omega arith) in
      (same, empty, quiet-encode_all 17 (contents v.cap_q) v h.cap_ok refl (omega arith))
