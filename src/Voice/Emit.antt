-- ===== src/Voice/Emit.antt =====
-- Log and error events: `rv_next_msg_buf`, `rv_emit_log` and `rv_emit_error` of src/voice.c. An
-- event holds the number of its message buffer, as the C event holds its address.
mod Examples
pub mod Messages
use residual_engine_audio.Base.{
  ℕ, ◌+◌, ◌%◌, Bool, true, false, List, [], ◌∷◌, ◌++◌, ◌==◌, if◌then◌else◌, take, u32, bit_and,
}
use residual_engine_audio.Event.{Event, VoiceResult, log, error}
use residual_engine_audio.EventQueue.{eventq_push}
use residual_engine_audio.Voice.State.{Voice}

module _ {Encoder Decoder : Type 0} where
  -- The number of the buffer, and the state with the other one next.
  unfoldable pub next_msg_buf : Voice Encoder Decoder → ℕ × Voice Encoder Decoder
  next_msg_buf v = (bit_and v.msg_flip 1, record v { msg_flip = u32 (v.msg_flip + 1) })

  -- `strncpy(dst, msg, 255); dst[255] = 0;`
  unfoldable pub write_msg : Voice Encoder Decoder → ℕ → List ℕ → Voice Encoder Decoder
  write_msg v buf msg =
      if buf == 0
      then record v { msg_buf_0 = take 255 msg }
      else record v { msg_buf_1 = take 255 msg }

  -- What a message pointer points at.
  unfoldable pub read_msg : Voice Encoder Decoder → ℕ → List ℕ
  read_msg v buf = if buf == 0 then v.msg_buf_0 else v.msg_buf_1

  -- `(void)rv_eventq_push(&v->evq, &ev)`
  unfoldable pub push_event : Voice Encoder Decoder → Event → Voice Encoder Decoder
  push_event v ev = record v { evq = (eventq_push v.evq ev).0 }

  unfoldable pub emit_log : Voice Encoder Decoder → ℕ → List ℕ → Voice Encoder Decoder
  unfolding next_msg_buf write_msg push_event
  emit_log v level msg =
      let called = if v.has_log then record v { logged = v.logged ++ ((level, msg) ∷ []) } else v in
      let (buf, flipped) = next_msg_buf called in
      push_event (write_msg flipped buf msg) (log level buf)

  unfoldable pub emit_error : Voice Encoder Decoder → VoiceResult → List ℕ → Voice Encoder Decoder
  unfolding next_msg_buf write_msg push_event
  emit_error v code msg =
      let (buf, flipped) = next_msg_buf v in push_event (write_msg flipped buf msg) (error code buf)
