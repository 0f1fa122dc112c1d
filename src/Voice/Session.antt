-- ===== src/Voice/Session.antt =====
-- `rv_voice_connect`, `rv_voice_disconnect` and `rv_voice_set_local_state` of src/voice.c. The
-- address fields of the connect info are not read by the engine.
pub mod Connect
mod Examples
use residual_engine_audio.Base.{
  ℕ, Bool, true, false, Option, some, none, List, if◌then◌else◌, not, Result, ok, err,
}
use residual_engine_audio.Netproto.{build_join_packet}
use residual_engine_audio.Event.{
  VoiceResult, voice_ok, invalid_argument, not_initialized, internal, connected, disconnected,
}
use residual_engine_audio.OutQueue.{out_push}
use residual_engine_audio.Voice.State.{Voice, ConnectInfo, PlayerState, codes}
use residual_engine_audio.Voice.Emit.{emit_error, push_event}

module _ {Encoder Decoder : Type 0} where
  -- What follows the building of the JOIN packet.
  unfoldable pub queue_join :
      Voice Encoder Decoder → Result (List ℕ) → VoiceResult × Voice Encoder Decoder
  queue_join v (err k) =
      (internal, emit_error v internal (codes "rv_voice_connect: failed to build join packet"))
  queue_join v (ok pkt) =
      let (out_q, done) = out_push v.out_q pkt in
      if done
      then (voice_ok, push_event (record v { out_q = out_q; connected = true }) connected)
      else (internal, emit_error v internal (codes "rv_voice_connect: outgoing queue full"))

  -- A null `info` is `none`.
  unfoldable pub connect :
      Voice Encoder Decoder → Option ConnectInfo → VoiceResult × Voice Encoder Decoder
  unfolding queue_join
  connect v none = (invalid_argument, v)
  connect v (some info) =
      if not v.initialized
      then (not_initialized, v)
      else (queue_join (record v { session_id = info.session_id; player_id = info.player_id })
          (build_join_packet 64 info.session_id info.player_id))

  unfoldable pub disconnect : Voice Encoder Decoder → VoiceResult × Voice Encoder Decoder
  disconnect v = (voice_ok, push_event (record v { connected = false }) disconnected)

  unfoldable pub set_local_state :
      Voice Encoder Decoder → Option PlayerState → VoiceResult × Voice Encoder Decoder
  set_local_state v none = (invalid_argument, v)
  set_local_state v (some st) = (voice_ok, record v { local_state = st; has_local_state = true })
