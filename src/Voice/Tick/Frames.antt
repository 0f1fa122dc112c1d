-- ===== src/Voice/Tick/Frames.antt =====
-- The capture queue in a round of `rv_voice_tick`: what a pop says of the frames that wait, what a
-- submit does to the queue, and that the transmission of a frame leaves it alone.
use residual_engine_audio.Base.{
  ℕ, suc, ◌≤◌, ◌≡◌, ◌∙◌, refl, ap, some, none, List, [], ◌∷◌, arith, ◌==◌, length, not, if_both,
  Result, ok, err, Bool-cases, inl, inr,
}
use residual_engine_audio.Base.Int.{ℤ}
use residual_engine_audio.Queue
use residual_engine_audio.Ring.Laws.{length-contents}
use residual_engine_audio.CaptureRing.{CaptureRing, ring_pop, capture_ring_cap}
use residual_engine_audio.CaptureRing.Refine.{contents, ring_push_refines, ring_pop_refines}
use residual_engine_audio.CaptureRing.Refine as CaptureRingRefine
use residual_engine_audio.Event.{internal, VoiceResult}
use residual_engine_audio.OutQueue.{out_push, max_pkt_size}
use residual_engine_audio.Opus.{Codec, rv_opus_encode}
use residual_engine_audio.Netproto.{build_voice_packet_ex}
use residual_engine_audio.Voice.State.{Voice, codes}
use residual_engine_audio.Voice.Emit.Messages.{emit_error-kept, emit_log-queues}
use residual_engine_audio.Voice.Capture.{
  queue_packet, after_encode, encode_and_queue_voice, next_seq, get_tx_flags,
  capture_should_transmit, submit_capture_pcm_async,
}
use residual_engine_audio.Voice.Tick.{transmit_frame, submit_all}

-- What one pop says of the frames that wait.
pub pop_none :
    (q : CaptureRing) → CaptureRingRefine.IsValid q → (ring_pop q).0 ≡ none → contents q ≡ []
unfolding Queue.pop
pop_none q v e = from (contents q) (ap (λ r. r.0) (ring_pop_refines q v).0)
  where
    from : (l : List (List ℤ)) → (ring_pop q).0 ≡ (Queue.pop l).0 → l ≡ []
    from [] is = refl
    from (f ∷ l) is = cc

pub pop_some :
    (q : CaptureRing) (f : List ℤ)
    → CaptureRingRefine.IsValid q
    → (ring_pop q).0 ≡ some f
    → length (contents q) ≡ suc (length (contents (ring_pop q).1))
unfolding Queue.pop
pop_some q f v e =
    let is = (ring_pop_refines q v).0 in from (contents q) (ap (λ r. r.0) is) (ap (λ r. r.1) is)
  where
    from :
        (l : List (List ℤ))
        → (ring_pop q).0 ≡ (Queue.pop l).0
        → contents (ring_pop q).1 ≡ (Queue.pop l).1
        → length l ≡ suc (length (contents (ring_pop q).1))
    from [] is rest = cc
    from (g ∷ l) is rest = rw rest

-- Which frame a pop gives, and which it leaves.
pub pop_front :
    (q : CaptureRing) (f : List ℤ) (l : List (List ℤ))
    → CaptureRingRefine.IsValid q
    → contents q ≡ f ∷ l
    → ((ring_pop q).0 ≡ some f) × (contents (ring_pop q).1 ≡ l)
unfolding Queue.pop
pop_front q f l v is =
    let same = (ring_pop_refines q v).0 in
    (
      ap (λ r. r.0) same ∙ ap (λ l. (Queue.pop l).0) is,
      ap (λ r. r.1) same ∙ ap (λ l. (Queue.pop l).1) is,
    )

pub pop_empty :
    (q : CaptureRing) → CaptureRingRefine.IsValid q → contents q ≡ [] → (ring_pop q).0 ≡ none
unfolding Queue.pop
pop_empty q v is = ap (λ r. r.0) (ring_pop_refines q v).0 ∙ ap (λ l. (Queue.pop l).0) is

pub at_most_16 :
    (q : CaptureRing) → CaptureRingRefine.IsValid q → length (contents q) ≤ capture_ring_cap
at_most_16 q h = omega (arith, length-contents capture_ring_cap [] q, h.ring.bounded)

module _ {Encoder Decoder : Type 0} where
  submit-cap_q :
      (v : Voice Encoder Decoder) (f : List ℤ)
      → CaptureRingRefine.IsValid v.cap_q
      → CaptureRingRefine.IsValid (submit_capture_pcm_async v (some f)).1.cap_q
  unfolding submit_capture_pcm_async
  submit-cap_q v f h = if_both P (length f == 0) h (
      if_both P (not v.initialized) h (
        if_both P (not v.connected) h
          (if_both P (not (length f == v.frame_samples)) h (ring_push_refines v.cap_q f h).1)))
    where
      P : VoiceResult × Voice Encoder Decoder → Type 0
      P r = CaptureRingRefine.IsValid r.1.cap_q

  pub submit_all-cap_q :
      (v : Voice Encoder Decoder) (frames : List (List ℤ))
      → CaptureRingRefine.IsValid v.cap_q
      → CaptureRingRefine.IsValid (submit_all v frames).cap_q
  unfolding submit_all
  submit_all-cap_q v [] h = h
  submit_all-cap_q v (f ∷ frames) h =
      submit_all-cap_q (submit_capture_pcm_async v (some f)).1 frames (submit-cap_q v f h)

  queue_packet-cap_q :
      (v : Voice Encoder Decoder) (r : Result (List ℕ)) → (queue_packet v r).1.cap_q ≡ v.cap_q
  unfolding queue_packet
  queue_packet-cap_q v (err k) = (emit_error-kept v internal (codes "build voice packet failed")).2
  queue_packet-cap_q v (ok pkt) = elim (Bool-cases (out_push v.out_q pkt).1) [
    | inl e ↦ rw e refl
    | inr e ↦ rw e (emit_log-queues v 1 (codes "outgoing queue full (dropping voice)")).1
  ]

  after_encode-cap_q :
      (v : Voice Encoder Decoder) (r : Result (List ℕ)) → (after_encode v r).1.cap_q ≡ v.cap_q
  unfolding after_encode
  after_encode-cap_q v (err k) = (emit_error-kept v internal (codes "opus encode failed")).2
  after_encode-cap_q v (ok opus) = elim (Bool-cases (length opus == 0)) [
    | inl e ↦ rw e (emit_error-kept v internal (codes "opus encode failed")).2
    | inr e ↦ rw e (
        queue_packet-cap_q (next_seq v)
          (build_voice_packet_ex max_pkt_size v.player_id v.seq (get_tx_flags v).flags (some opus)))
  ]

module _ {Encoder Decoder : Type 0} (codec : Codec Encoder Decoder) where
  pub transmit_frame-cap_q :
      (v : Voice Encoder Decoder) (f : List ℤ) → (transmit_frame codec v f).cap_q ≡ v.cap_q
  unfolding transmit_frame encode_and_queue_voice
  transmit_frame-cap_q v f = elim (Bool-cases (length f == v.frame_samples)) [
    | inr e ↦ rw e refl
    | inl e ↦ elim (Bool-cases (capture_should_transmit v)) [
      | inr t ↦ rw (e, t) refl
      | inl t ↦
          let (olen, enc) = rv_opus_encode codec v.enc f 600 in
          rw (e, t) (after_encode-cap_q (record v { enc = enc }) olen)
    ]
  ]
