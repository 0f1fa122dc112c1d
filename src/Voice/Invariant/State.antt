-- ===== src/Voice/Invariant/State.antt =====
-- The invariant of the engine's state: the queues and the jitter buffers are well formed, every
-- decoded frame fits its buffer, every queued event points at something, and messages end.
use residual_engine_audio.Base.{
  ℕ, ◌^◌, ◌≤◌, ◌<◌, ◌≡◌, Bool, true, false, List, [], ◌∷◌, ◌++◌, arith, length, All, length-take,
  Bool-cases, inl, inr, ◌==◌, if◌then◌else◌,
}
use residual_engine_audio.Base.Bits.{bit_and_low}
use residual_engine_audio.Event.{
  Event, VoiceResult, no_event, log, connected, disconnected, speaking, pcm_frame, error,
}
use residual_engine_audio.EventQueue.{EventQueue, eventq_push}
use residual_engine_audio.EventQueue.Refine as EventQueueRefine
use residual_engine_audio.EventQueue.Refine.{eventq_push-IsValid, eventq_push-All}
use residual_engine_audio.OutQueue.{OutQueue}
use residual_engine_audio.CaptureRing.{CaptureRing}
use residual_engine_audio.OutQueue.Refine as OutQueueRefine
use residual_engine_audio.CaptureRing.Refine as CaptureRingRefine
use residual_engine_audio.OpusJitter.View
use residual_engine_audio.Voice.State.{Voice, Speaker}
use residual_engine_audio.Voice.Emit.{emit_log, emit_error, push_event, write_msg, next_msg_buf}

-- An event of an engine with `n` speakers and frames of at most `frame_samples`: its samples are
-- those of a speaker that there is, and its message is one of the two buffers.
abbrev pub IsEvent : ℕ → ℕ → Event → Type 0
IsEvent n frame_samples no_event = Unit
IsEvent n frame_samples (log level msg) = msg < 2
IsEvent n frame_samples connected = Unit
IsEvent n frame_samples disconnected = Unit
IsEvent n frame_samples (speaking speaker_id is_speaking) = is_speaking < 2
IsEvent n frame_samples (pcm_frame ev) =
    (ev.samples < n) × (0 < ev.sample_count) × (ev.sample_count ≤ frame_samples)
IsEvent n frame_samples (error code msg) = msg < 2

pub record IsEventQueue (n frame_samples : ℕ) (evq : EventQueue) : Type 0 where
  pub ring : EventQueueRefine.IsValid evq
  pub events : All (IsEvent n frame_samples) (EventQueueRefine.contents evq)

module _ {Decoder : Type 0} where
  -- A speaker's buffer has room for one frame, and what was decoded lies inside it.
  pub record IsSpeaker (frame_samples : ℕ) (sp : Speaker Decoder) : Type 0 where
    pub jitter : View.IsValid sp.jb
    pub buffer : length sp.pcm_buf ≡ frame_samples
    pub decoded : sp.pcm_count ≤ frame_samples

-- The parts of the state that the invariant speaks of; the others may be anything.
pub record AreValid {Decoder : Type 0} (out_q : OutQueue) (cap_q : CaptureRing) (evq : EventQueue)
    (speakers : List (Speaker Decoder)) (frame_samples max_players seq : ℕ) (msg_0 msg_1 : List ℕ)
    : Type 0 where
  pub out_ok : OutQueueRefine.IsValid out_q
  pub cap_ok : CaptureRingRefine.IsValid cap_q
  pub evq_ok : IsEventQueue max_players frame_samples evq
  pub speakers_ok : All (IsSpeaker frame_samples) speakers
  pub count : length speakers ≡ max_players
  pub seq_fits : seq < 2 ^ 16
  pub msg_0_fits : length msg_0 ≤ 255
  pub msg_1_fits : length msg_1 ≤ 255

module _ {Encoder Decoder : Type 0} where
  abbrev pub IsValid : Voice Encoder Decoder → Type 0
  IsValid v =
      AreValid v.out_q v.cap_q v.evq v.speakers v.frame_samples v.cfg.max_players v.seq v.msg_buf_0
        v.msg_buf_1

pub eventq_push-IsEventQueue :
    (n frame_samples : ℕ) (evq : EventQueue) (ev : Event)
    → IsEventQueue n frame_samples evq
    → IsEvent n frame_samples ev
    → IsEventQueue n frame_samples (eventq_push evq ev).0
eventq_push-IsEventQueue n frame_samples evq ev q e = record {
  ring = eventq_push-IsValid evq ev q.ring;
  events = eventq_push-All (IsEvent n frame_samples) evq ev q.ring q.events e;
}

module _ {Encoder Decoder : Type 0} where
  pub push_event-IsValid :
      (v : Voice Encoder Decoder) (ev : Event)
      → IsValid v
      → IsEvent v.cfg.max_players v.frame_samples ev
      → IsValid (push_event v ev)
  unfolding push_event
  push_event-IsValid v ev h e = record {
    out_ok = h.out_ok;
    cap_ok = h.cap_ok;
    evq_ok = eventq_push-IsEventQueue v.cfg.max_players v.frame_samples v.evq ev h.evq_ok e;
    speakers_ok = h.speakers_ok;
    count = h.count;
    seq_fits = h.seq_fits;
    msg_0_fits = h.msg_0_fits;
    msg_1_fits = h.msg_1_fits;
  }

  write_msg-IsValid :
      (v : Voice Encoder Decoder) (buf : ℕ) (msg : List ℕ)
      → IsValid v
      → IsValid (write_msg v buf msg)
  unfolding write_msg
  write_msg-IsValid v buf msg h = elim (Bool-cases (buf == 0)) [
    | inl e ↦ rw e (record {
      out_ok = h.out_ok;
      cap_ok = h.cap_ok;
      evq_ok = h.evq_ok;
      speakers_ok = h.speakers_ok;
      count = h.count;
      seq_fits = h.seq_fits;
      msg_0_fits = omega (arith, length-take 255 msg);
      msg_1_fits = h.msg_1_fits;
    })
    | inr e ↦ rw e (record {
      out_ok = h.out_ok;
      cap_ok = h.cap_ok;
      evq_ok = h.evq_ok;
      speakers_ok = h.speakers_ok;
      count = h.count;
      seq_fits = h.seq_fits;
      msg_0_fits = h.msg_0_fits;
      msg_1_fits = omega (arith, length-take 255 msg);
    })
  ]

  -- Only the number of the next message buffer differs.
  flip-IsValid : (v : Voice Encoder Decoder) → IsValid v → IsValid (next_msg_buf v).1
  unfolding next_msg_buf
  flip-IsValid v h = h

  pub next_msg_buf-lt : (v : Voice Encoder Decoder) → (next_msg_buf v).0 < 2
  unfolding next_msg_buf
  next_msg_buf-lt v = omega (arith, bit_and_low 1 v.msg_flip)

  logged-IsValid :
      (b : Bool) (v : Voice Encoder Decoder) (call : ℕ × List ℕ)
      → IsValid v
      → IsValid (if b then record v { logged = v.logged ++ (call ∷ []) } else v)
  logged-IsValid true v call h = h
  logged-IsValid false v call h = h

  pub emit_error-IsValid :
      (v : Voice Encoder Decoder) (code : VoiceResult) (msg : List ℕ)
      → IsValid v
      → IsValid (emit_error v code msg)
  unfolding emit_error
  emit_error-IsValid v code msg h =
      let (buf, flipped) = next_msg_buf v in
      push_event-IsValid (write_msg flipped buf msg) (error code buf)
        (write_msg-IsValid flipped buf msg (flip-IsValid v h)) (next_msg_buf-lt v)

  pub emit_log-IsValid :
      (v : Voice Encoder Decoder) (level : ℕ) (msg : List ℕ)
      → IsValid v
      → IsValid (emit_log v level msg)
  unfolding emit_log
  emit_log-IsValid v level msg h =
      let called = if v.has_log then record v { logged = v.logged ++ ((level, msg) ∷ []) } else v in
      let (buf, flipped) = next_msg_buf called in
      push_event-IsValid (write_msg flipped buf msg) (log level buf)
        (write_msg-IsValid flipped buf msg
          (flip-IsValid called (logged-IsValid v.has_log v (level, msg) h)))
        (next_msg_buf-lt called)
