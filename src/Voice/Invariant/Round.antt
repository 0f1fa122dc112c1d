-- ===== src/Voice/Invariant/Round.antt =====
-- One round of the engine, `rv_voice_tick`, keeps the invariant.
use residual_engine_audio.Base.{
  ℕ, zero, suc, ◌+◌, ◌≤◌, ◌<◌, ◌≡◌, ◌∙◌, refl, ap, ◌&&◌, Option, some, none, List, [], ◌∷◌, arith,
  length, All, length-append, length-drop, ◌==◌, ltb, not, if_both, if_cases, Result, ok, err, u16,
  drop, get_or, map, sub32,
}
use residual_engine_audio.Base.Int.{ℤ}
use residual_engine_audio.Event.{VoiceResult, speaking}
use residual_engine_audio.EventQueue.{EventQueue}
use residual_engine_audio.OpusJitter.{jitter_pop}
use residual_engine_audio.OpusJitter.Window.{pop-IsValid}
use residual_engine_audio.CaptureRing.{ring_pop}
use residual_engine_audio.CaptureRing.Refine.{ring_pop_refines}
use residual_engine_audio.Opus.{Codec, Documented, rv_opus_decode}
use residual_engine_audio.Opus.Bounds.{rv_opus_decode-fits}
use residual_engine_audio.Voice.State.{Voice, Speaker}
use residual_engine_audio.Voice.Capture.{submit_capture_pcm_async}
use residual_engine_audio.Voice.Tick.{
  transmit_frame, submit_all, drain, time_out, emit_frame, after_decode, after_pop, play_speaker,
  tick_speaker, tick_speakers, receive_round, tick, no_pcm, speaking_timeout_ms,
}
use residual_engine_audio.Voice.Invariant.State.{
  IsValid, IsSpeaker, IsEventQueue, eventq_push-IsEventQueue,
}
use residual_engine_audio.Voice.Invariant.Calls.{
  encode_and_queue_voice-IsValid, submit_capture_pcm_async-IsValid, cap_q-IsValid,
}

module _ {Decoder : Type 0} (n frame_samples : ℕ) where
  -- A speaker and the queue of events, as a round hands them on.
  abbrev pub IsPair : Speaker Decoder × EventQueue → Type 0
  IsPair p = IsSpeaker frame_samples p.0 × IsEventQueue n frame_samples p.1

  time_out-IsPair :
      (now_ms i : ℕ) (sp : Speaker Decoder) (evq : EventQueue)
      → IsPair (sp, evq)
      → IsPair (time_out now_ms i sp evq)
  unfolding time_out
  time_out-IsPair now_ms i sp evq (s, q) =
      if_both IsPair (sp.speaking && ltb speaking_timeout_ms (sub32 now_ms sp.last_rx_ms))
        (
          record { jitter = s.jitter; buffer = s.buffer; decoded = s.decoded },
          eventq_push-IsEventQueue n frame_samples evq (speaking (u16 (i + 1)) 0) q (omega arith),
        )
        (s, q)

  emit_frame-IsPair :
      (rate i : ℕ) (sp : Speaker Decoder) (pcm : List ℤ) (evq : EventQueue)
      → i < n
      → length pcm ≤ frame_samples
      → IsPair (sp, evq)
      → IsPair (emit_frame rate i sp pcm evq)
  unfolding emit_frame
  emit_frame-IsPair rate i sp pcm evq here fits (s, q) =
      if_cases IsPair (length pcm == 0) (λ e. (s, q))
        (λ e. (
          record {
            jitter = s.jitter;
            buffer =
                length-append pcm (drop (length pcm) sp.pcm_buf)
                ∙ omega (arith, length-drop (length pcm) sp.pcm_buf, s.buffer);
            decoded = fits;
          },
          eventq_push-IsEventQueue n frame_samples evq _ q (here, ground arith, fits),
        ))

  after_decode-IsPair :
      (rate i : ℕ) (sp : Speaker Decoder) (r : Result (List ℤ)) (evq : EventQueue)
      → i < n
      → ((pcm : List ℤ) → r ≡ ok pcm → length pcm ≤ frame_samples)
      → IsPair (sp, evq)
      → IsPair (after_decode rate i sp r evq)
  unfolding after_decode
  after_decode-IsPair rate i sp (err k) evq here fits p = p
  after_decode-IsPair rate i sp (ok pcm) evq here fits p =
      emit_frame-IsPair rate i sp pcm evq here (fits pcm refl) p

module _ {Encoder Decoder : Type 0} (codec : Codec Encoder Decoder) (doc : Documented codec) where
  after_pop-IsPair :
      (n frame_samples rate i : ℕ) (sp : Speaker Decoder) (out : Option (Option (List ℕ)))
      (evq : EventQueue)
      → i < n
      → IsPair n frame_samples (sp, evq)
      → IsPair n frame_samples (after_pop codec rate frame_samples i sp out evq)
  unfolding after_pop
  after_pop-IsPair n frame_samples rate i sp none evq here p = p
  after_pop-IsPair n frame_samples rate i sp (some packet) evq here (s, q) =
      let (decoded, dec) = rv_opus_decode codec sp.dec packet frame_samples in
      after_decode-IsPair n frame_samples rate i (record sp { dec = dec }) decoded evq here
        (rv_opus_decode-fits codec doc sp.dec packet frame_samples)
        (record { jitter = s.jitter; buffer = s.buffer; decoded = s.decoded }, q)

  play_speaker-IsPair :
      (n frame_samples rate i : ℕ) (sp : Speaker Decoder) (evq : EventQueue)
      → i < n
      → IsPair n frame_samples (sp, evq)
      → IsPair n frame_samples (play_speaker codec rate frame_samples i sp evq)
  unfolding play_speaker
  play_speaker-IsPair n frame_samples rate i sp evq here (s, q) =
      let (out, jb) = jitter_pop sp.jb in
      after_pop-IsPair n frame_samples rate i (record sp { jb = jb }) out evq here
        (record { jitter = pop-IsValid sp.jb s.jitter; buffer = s.buffer; decoded = s.decoded }, q)

  tick_speaker-IsPair :
      (n : ℕ) (v : Voice Encoder Decoder) (now_ms i : ℕ) (sp : Speaker Decoder) (evq : EventQueue)
      → i < n
      → IsPair n v.frame_samples (sp, evq)
      → IsPair n v.frame_samples (tick_speaker codec v now_ms i sp evq)
  unfolding tick_speaker
  tick_speaker-IsPair n v now_ms i sp evq here p =
      let (sp', evq') = time_out now_ms i sp evq in
      play_speaker-IsPair n v.frame_samples v.cfg.sample_rate_hz i sp' evq' here
        (time_out-IsPair n v.frame_samples now_ms i sp evq p)

  tick_speakers-kept :
      (n : ℕ) (v : Voice Encoder Decoder) (now_ms i : ℕ) (speakers : List (Speaker Decoder))
      (evq : EventQueue)
      → i + length speakers ≤ n
      → All (IsSpeaker v.frame_samples) speakers
      → IsEventQueue n v.frame_samples evq
      → let (speakers', evq') = tick_speakers codec v now_ms i speakers evq in
        All (IsSpeaker v.frame_samples) speakers'
        × IsEventQueue n v.frame_samples evq'
        × (length speakers' ≡ length speakers)
  unfolding tick_speakers
  tick_speakers-kept n v now_ms i [] evq room all q = (tt, q, refl)
  tick_speakers-kept n v now_ms i (sp ∷ rest) evq room all q =
      let (sp', evq') = tick_speaker codec v now_ms i sp evq in
      let (s, q') = tick_speaker-IsPair n v now_ms i sp evq (omega arith) (all.0, q) in
      let (all', q'', len) =
        tick_speakers-kept n v now_ms (i + 1) rest evq' (omega arith) all.1 q' in
      ((s, all'), q'', ap suc len)

  no_pcm-All :
      (frame_samples : ℕ) (speakers : List (Speaker Decoder))
      → All (IsSpeaker frame_samples) speakers
      → All (IsSpeaker frame_samples) (map no_pcm speakers)
        × (length (map no_pcm speakers) ≡ length speakers)
  no_pcm-All frame_samples [] all = (tt, refl)
  no_pcm-All frame_samples (sp ∷ rest) all =
      let (rest', len) = no_pcm-All frame_samples rest all.1 in
      (
        (record { jitter = all.0.jitter; buffer = all.0.buffer; decoded = omega arith }, rest'),
        ap suc len,
      )

  receive_round-IsValid :
      (now_ms : ℕ) (v : Voice Encoder Decoder) → IsValid v → IsValid (receive_round codec now_ms v)
  unfolding receive_round
  receive_round-IsValid now_ms v h =
      let (quiet, len) = no_pcm-All v.frame_samples v.speakers h.speakers_ok in
      let (all, q, len') =
        tick_speakers-kept v.cfg.max_players v now_ms 0 (map no_pcm v.speakers) v.evq
          (omega (arith, h.count)) quiet h.evq_ok in
      record {
        out_ok = h.out_ok;
        cap_ok = h.cap_ok;
        evq_ok = q;
        speakers_ok = all;
        count = len' ∙ len ∙ h.count;
        seq_fits = h.seq_fits;
        msg_0_fits = h.msg_0_fits;
        msg_1_fits = h.msg_1_fits;
      }

  pub transmit_frame-IsValid :
      (v : Voice Encoder Decoder) (f : List ℤ) → IsValid v → IsValid (transmit_frame codec v f)
  unfolding transmit_frame
  transmit_frame-IsValid v f h =
      if_both (λ (w : Voice Encoder Decoder). IsValid w) (not (length f == v.frame_samples)) h
        (encode_and_queue_voice-IsValid codec v f h)

  submit_all-IsValid :
      (v : Voice Encoder Decoder) (frames : List (List ℤ))
      → IsValid v
      → IsValid (submit_all v frames)
  unfolding submit_all
  submit_all-IsValid v [] h = h
  submit_all-IsValid v (f ∷ frames) h =
      submit_all-IsValid (submit_capture_pcm_async v (some f)).1 frames
        (submit_capture_pcm_async-IsValid v (some f) h)

  pub drain-IsValid :
      (fuel : ℕ) (arrivals : List (List (List ℤ))) (v : Voice Encoder Decoder)
      → IsValid v
      → IsValid (drain codec fuel arrivals v)
  unfolding drain
  drain-IsValid zero arrivals v h = h
  drain-IsValid (suc fuel) arrivals v h =
      let now = submit_all v (get_or arrivals 0 []) in
      let h' = submit_all-IsValid v (get_or arrivals 0 []) h in
      let q = (ring_pop now.cap_q).1 in
      let left = cap_q-IsValid now q h' (ring_pop_refines now.cap_q h'.cap_ok).1 in
      (elim (ring_pop now.cap_q).0
        as (λ f. IsValid {Encoder = Encoder} {Decoder = Decoder} (elim f [
          | none ↦ now
          | some samples ↦
              drain codec fuel (drop 1 arrivals)
                (transmit_frame codec (record now { cap_q = q }) samples)
        ])) [
          | none ↦ h'
          | some samples ↦
              drain-IsValid fuel (drop 1 arrivals)
                (transmit_frame codec (record now { cap_q = q }) samples)
                (transmit_frame-IsValid (record now { cap_q = q }) samples left)
        ])

  -- `rv_voice_tick` keeps the invariant, whatever the audio thread submits meanwhile: no decoded
  -- frame overruns its buffer, with a codec that keeps to its documented sizes.
  pub tick-IsValid :
      (v : Voice Encoder Decoder) (now_ms : ℕ) (arrivals : List (List (List ℤ)))
      → IsValid v
      → IsValid (tick codec v now_ms arrivals).1
  unfolding tick
  tick-IsValid v now_ms arrivals h =
      let rounds = 17 + length arrivals in
      if_both (λ (r : VoiceResult × Voice Encoder Decoder). IsValid r.1) (not v.initialized) h
        (receive_round-IsValid now_ms (drain codec rounds arrivals v)
          (drain-IsValid rounds arrivals v h))
