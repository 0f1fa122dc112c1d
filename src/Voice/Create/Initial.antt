-- ===== src/Voice/Create/Initial.antt =====
-- What a created engine is like.
use mathlib.Core.Path.{subst}
use mathlib.Core.Option.{some-injective}
use residual_engine_audio.Base.{
  ℕ, zero, suc, ◌+◌, ◌≤◌, ◌<◌, ◌≡◌, refl, ap, ◌∙◌, Bool, true, false, ◌||◌, Option, some, none,
  List, [], ◌∷◌, arith, All, length, length-replicate, ltb, ◌==◌, not, if_cases,
}
use residual_engine_audio.Base.Int.{pos}
use residual_engine_audio.Opus.{Codec, OpusEnc, OpusDec, rv_opus_enc_create, rv_opus_dec_create}
use residual_engine_audio.EventQueue.{eventq_init, eventq_push, event_queue_cap}
use residual_engine_audio.Event.{no_event, log}
use residual_engine_audio.EventQueue.Refine as EventQueueRefine
use residual_engine_audio.OutQueue.Refine as OutQueueRefine
use residual_engine_audio.CaptureRing.Refine as CaptureRingRefine
use residual_engine_audio.Ring.{store}
use residual_engine_audio.Ring.Laws
use residual_engine_audio.OutQueue.{out_init}
use residual_engine_audio.OutQueue.Refine.{out_init-IsValid}
use residual_engine_audio.CaptureRing.Refine.{ring_init-IsValid}
use residual_engine_audio.CaptureRing.{capture_max_samples, ring_init}
use residual_engine_audio.OpusJitter.View.{init-IsValid}
use residual_engine_audio.Voice.State.{Voice, Speaker, VoiceConfig, codes}
use residual_engine_audio.Voice.Emit.{next_msg_buf}
use residual_engine_audio.Voice.Emit.Messages.{emit_log-kept, emit_log-queues, emit_log-event}
use residual_engine_audio.Voice.Invariant.State.{IsValid, IsSpeaker, IsEventQueue, emit_log-IsValid}
use residual_engine_audio.Voice.Create.{
  Memory, accepts, sanitize, opus_cfg, samples_per_frame, make_speaker, prepend, make_speakers,
  blank, finish, with_encoder, create,
}

eventq_init-IsEventQueue : (n frame_samples : ℕ) → IsEventQueue n frame_samples eventq_init
unfolding eventq_init Laws.contents
eventq_init-IsEventQueue n frame_samples = record {
  ring = Laws.init-IsValid event_queue_cap no_event;
  events = tt;
}

log_of_creation : EventQueueRefine.contents (eventq_push eventq_init (log 0 0)).0 ≡ log 0 0 ∷ []
unfolding Laws.contents eventq_init eventq_push store
log_of_creation = refl

-- What a created engine is known to satisfy.
pub record IsCreated {Encoder Decoder : Type 0} (cfg : VoiceConfig) (v : Voice Encoder Decoder)
    : Type 0 where
  pub valid : IsValid v
  pub no_packet : OutQueueRefine.contents v.out_q ≡ []
  pub no_frame : CaptureRingRefine.contents v.cap_q ≡ []
  pub one_event : EventQueueRefine.contents v.evq ≡ log 0 0 ∷ []
  pub initialized : v.initialized ≡ true
  pub disconnected : v.connected ≡ false
  pub config : v.cfg ≡ sanitize cfg
  pub frame : v.frame_samples ≡ samples_per_frame cfg
  pub frame_pos : 0 < samples_per_frame cfg
  pub frame_fits : samples_per_frame cfg ≤ capture_max_samples

module _ {Encoder Decoder : Type 0} (codec : Codec Encoder Decoder) (mem : Memory)
    (cfg : VoiceConfig) where
  make_speaker-IsSpeaker :
      (buffer : Bool) (dec : Option (OpusDec Decoder)) (sp : Speaker Decoder)
      → make_speaker codec mem cfg (samples_per_frame cfg) buffer dec ≡ some sp
      → IsSpeaker (samples_per_frame cfg) sp
  unfolding make_speaker
  make_speaker-IsSpeaker buffer none sp e = cc
  make_speaker-IsSpeaker false (some dec) sp e = cc
  make_speaker-IsSpeaker true (some dec) sp e =
      subst (IsSpeaker (samples_per_frame cfg)) (some-injective _ _ e) (record {
        jitter = init-IsValid;
        buffer = length-replicate (samples_per_frame cfg) (pos 0);
        decoded = omega arith;
      })

  prepend-All :
      (head : Option (Speaker Decoder)) (rest : Option (List (Speaker Decoder))) (n : ℕ)
      (l : List (Speaker Decoder))
      → ((sp : Speaker Decoder) → head ≡ some sp → IsSpeaker (samples_per_frame cfg) sp)
      → ((r : List (Speaker Decoder))
          → rest ≡ some r
          → All (IsSpeaker (samples_per_frame cfg)) r × (length r ≡ n))
      → prepend codec mem head rest ≡ some l
      → All (IsSpeaker (samples_per_frame cfg)) l × (length l ≡ suc n)
  unfolding prepend
  prepend-All none rest n l p q e = cc
  prepend-All (some sp) none n l p q e = cc
  prepend-All (some sp) (some r) n l p q e =
      subst (λ l. All (IsSpeaker (samples_per_frame cfg)) l × (length l ≡ suc n))
        (some-injective _ _ e) ((p sp refl, (q r refl).0), ap suc (q r refl).1)

  make_speakers-All :
      (i n : ℕ) (l : List (Speaker Decoder))
      → make_speakers codec mem cfg i n ≡ some l
      → All (IsSpeaker (samples_per_frame cfg)) l × (length l ≡ n)
  unfolding make_speakers
  make_speakers-All i zero l e =
      subst (λ l. All (IsSpeaker (samples_per_frame cfg)) l × (length l ≡ 0)) (some-injective _ _ e)
        (tt, refl)
  make_speakers-All i (suc n) l e =
      prepend-All _ (make_speakers codec mem cfg (i + 1) n) n l
        (make_speaker-IsSpeaker (mem.pcm i)
          (rv_opus_dec_create codec (mem.decoder i) (opus_cfg cfg)))
        (make_speakers-All (i + 1) n) e

  finish-IsCreated :
      (has_log : Bool) (enc : OpusEnc Encoder) (speakers : Option (List (Speaker Decoder)))
      (v : Voice Encoder Decoder)
      → ((r : List (Speaker Decoder))
          → speakers ≡ some r
          → All (IsSpeaker (samples_per_frame cfg)) r × (length r ≡ cfg.max_players))
      → (0 < samples_per_frame cfg) × (samples_per_frame cfg ≤ capture_max_samples)
      → finish codec mem cfg has_log enc speakers ≡ some v
      → IsCreated cfg v
  unfolding finish next_msg_buf Laws.contents out_init ring_init eventq_init
  finish-IsCreated has_log enc none v made frame e = cc
  finish-IsCreated has_log enc (some speakers) v made frame e =
      subst (IsCreated cfg) (some-injective _ _ e) (record {
        valid = emit_log-IsValid fresh 0 msg (record {
          out_ok = out_init-IsValid;
          cap_ok = ring_init-IsValid;
          evq_ok = eventq_init-IsEventQueue cfg.max_players (samples_per_frame cfg);
          speakers_ok = (made speakers refl).0;
          count = (made speakers refl).1;
          seq_fits = omega arith;
          msg_0_fits = omega arith;
          msg_1_fits = omega arith;
        });
        no_packet = ap OutQueueRefine.contents (emit_log-queues fresh 0 msg).0;
        no_frame = ap CaptureRingRefine.contents (emit_log-queues fresh 0 msg).1;
        one_event = ap EventQueueRefine.contents (emit_log-event fresh 0 msg) ∙ log_of_creation;
        initialized = (emit_log-kept fresh 0 msg).0;
        disconnected = (emit_log-kept fresh 0 msg).1;
        config = (emit_log-kept fresh 0 msg).2;
        frame = (emit_log-kept fresh 0 msg).3;
        frame_pos = frame.0;
        frame_fits = frame.1;
      })
    where
      fresh : Voice Encoder Decoder
      fresh = blank codec mem cfg has_log enc speakers

      msg : List ℕ
      msg = codes "rv_voice_create: initialized"

  with_encoder-IsCreated :
      (has_log : Bool) (enc : Option (OpusEnc Encoder)) (v : Voice Encoder Decoder)
      → (0 < samples_per_frame cfg) × (samples_per_frame cfg ≤ capture_max_samples)
      → with_encoder codec mem cfg has_log enc ≡ some v
      → IsCreated cfg v
  unfolding with_encoder
  with_encoder-IsCreated has_log none v frame = λ e. cc
  with_encoder-IsCreated has_log (some enc) v frame =
      if_cases (λ (o : Option (Voice Encoder Decoder)). o ≡ some v → IsCreated cfg v)
        (not mem.tables) (λ t e. cc)
        (λ t e.
          finish-IsCreated has_log enc (make_speakers codec mem cfg 0 cfg.max_players) v
            (make_speakers-All 0 cfg.max_players) frame e)

  -- A created engine is initialized, disconnected and valid: no packet and no captured frame
  -- waits, the one event that waits is the log of its creation, it has `max_players` speakers, and
  -- each has a buffer for one frame of 1 to 2880 samples.
  pub create-IsCreated :
      (has_log : Bool) (v : Voice Encoder Decoder)
      → create codec mem cfg has_log ≡ some v
      → IsCreated cfg v
  unfolding create
  create-IsCreated has_log v =
      if_cases P (not (accepts cfg)) (λ t e. cc)
        (λ t.
          if_cases P (not mem.engine) (λ t e. cc)
            (λ t.
              if_cases P
                (samples_per_frame cfg == 0 || ltb capture_max_samples (samples_per_frame cfg))
                (λ t e. cc)
                (λ t e.
                  with_encoder-IsCreated has_log
                    (rv_opus_enc_create codec mem.encoder (opus_cfg cfg)) v
                    (ground arith, ground arith) e)))
    where
      P : Option (Voice Encoder Decoder) → Type 0
      P o = o ≡ some v → IsCreated cfg v
