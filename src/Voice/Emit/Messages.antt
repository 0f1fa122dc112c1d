-- ===== src/Voice/Emit/Messages.antt =====
-- What logging leaves alone, and what it does to the messages that wait to be read.
use residual_engine_audio.Base.{ℕ, ◌%◌, ◌≡◌, arith, List, take, ◌==◌, Bool-cases, inl, inr}
use residual_engine_audio.Base.Bits.{bit_and_low}
use residual_engine_audio.Event.{VoiceResult, log}
use residual_engine_audio.EventQueue.{eventq_push}
use residual_engine_audio.Voice.State.{Voice}
use residual_engine_audio.Voice.Emit.{emit_log, emit_error, next_msg_buf, read_msg}

module _ {Encoder Decoder : Type 0} where
  pub emit_log-kept :
      (v : Voice Encoder Decoder) (level : ℕ) (msg : List ℕ)
      → let v' = emit_log v level msg in
        (v'.initialized ≡ v.initialized)
        × (v'.connected ≡ v.connected)
        × (v'.cfg ≡ v.cfg)
        × (v'.frame_samples ≡ v.frame_samples)
  unfolding emit_log
  emit_log-kept v level msg = ground arith

  pub emit_error-kept :
      (v : Voice Encoder Decoder) (code : VoiceResult) (msg : List ℕ)
      → let v' = emit_error v code msg in
        (v'.connected ≡ v.connected) × (v'.out_q ≡ v.out_q) × (v'.cap_q ≡ v.cap_q)
  unfolding emit_error
  emit_error-kept v code msg = ground arith

  pub emit_log-queues :
      (v : Voice Encoder Decoder) (level : ℕ) (msg : List ℕ)
      → let v' = emit_log v level msg in (v'.out_q ≡ v.out_q) × (v'.cap_q ≡ v.cap_q)
  unfolding emit_log
  emit_log-queues v level msg = ground arith

  -- The event of a log, with the buffer in turn.
  pub emit_log-event :
      (v : Voice Encoder Decoder) (level : ℕ) (msg : List ℕ)
      → (emit_log v level msg).evq ≡ (eventq_push v.evq (log level (next_msg_buf v).0)).0
  unfolding emit_log
  emit_log-event v level msg = ground arith

  -- The buffers after a log, by the parity of the counter.
  emit_log-even :
      (v : Voice Encoder Decoder) (level : ℕ) (msg : List ℕ)
      → v.msg_flip % 2 ≡ 0
      → let v' = emit_log v level msg in
        (v'.msg_buf_0 ≡ take 255 msg) × (v'.msg_buf_1 ≡ v.msg_buf_1) × (v'.msg_flip % 2 ≡ 1)
  unfolding emit_log
  emit_log-even v level msg e = ground (arith, bit_and_low 1 v.msg_flip)

  emit_log-odd :
      (v : Voice Encoder Decoder) (level : ℕ) (msg : List ℕ)
      → v.msg_flip % 2 ≡ 1
      → let v' = emit_log v level msg in
        (v'.msg_buf_0 ≡ v.msg_buf_0) × (v'.msg_buf_1 ≡ take 255 msg) × (v'.msg_flip % 2 ≡ 0)
  unfolding emit_log
  emit_log-odd v level msg e = ground (arith, bit_and_low 1 v.msg_flip)

  -- The event that a log queues names the buffer in turn, `(next_msg_buf v).0`, and its level. Its
  -- message, cut to 255 bytes, is there right after the log and after one further log; after two
  -- further logs it is the message of the last one.
  pub read_msg-emit_log :
      (v : Voice Encoder Decoder) (l1 l2 l3 : ℕ) (m1 m2 m3 : List ℕ)
      → let buf = (next_msg_buf v).0 in
        let v1 = emit_log v l1 m1 in
        let v2 = emit_log v1 l2 m2 in
        (v1.evq ≡ (eventq_push v.evq (log l1 buf)).0)
        × (read_msg v1 buf ≡ take 255 m1)
        × (read_msg v2 buf ≡ take 255 m1)
        × (read_msg (emit_log v2 l3 m3) buf ≡ take 255 m3)
  unfolding next_msg_buf read_msg
  read_msg-emit_log v l1 l2 l3 m1 m2 m3 = elim (Bool-cases (v.msg_flip % 2 == 0)) [
    | inl e ↦
        let one = emit_log-even v l1 m1 (ground arith) in
        let two = emit_log-odd (emit_log v l1 m1) l2 m2 one.2 in
        let three = emit_log-even (emit_log (emit_log v l1 m1) l2 m2) l3 m3 two.2 in
        let low = bit_and_low 1 v.msg_flip in
        (
          emit_log-event v l1 m1,
          ground (arith, low, one),
          ground (arith, low, two, one),
          ground (arith, low, three),
        )
    | inr e ↦
        let one = emit_log-odd v l1 m1 (ground arith) in
        let two = emit_log-even (emit_log v l1 m1) l2 m2 one.2 in
        let three = emit_log-odd (emit_log (emit_log v l1 m1) l2 m2) l3 m3 two.2 in
        let low = bit_and_low 1 v.msg_flip in
        (
          emit_log-event v l1 m1,
          ground (arith, low, one),
          ground (arith, low, two, one),
          ground (arith, low, three),
        )
  ]
