-- ===== src/Voice/Capture.antt =====
-- From captured samples to queued packets: `rv_get_tx_flags`, `rv_capture_should_transmit`,
-- `rv_encode_and_queue_voice` and `rv_voice_submit_capture_pcm` of src/voice.c.
pub mod Packets
mod Examples
use residual_engine_audio.Base.{
  ℕ, ◌+◌, ◌%◌, ◌≡◌, Bool, true, false, ◌&&◌, Option, some, none, List, [], ◌==◌, if◌then◌else◌, not,
  length, Result, ok, err, u16, u8, bit_and,
}
use residual_engine_audio.Base.Int.{ℤ}
use residual_engine_audio.Netproto.{truthy, flags_make, build_voice_packet_ex}
use residual_engine_audio.Event.{
  VoiceResult, voice_ok, invalid_argument, not_initialized, not_connected, internal,
}
use residual_engine_audio.Opus.{Codec, OpusEnc, rv_opus_encode}
use residual_engine_audio.OpusJitter.{opus_max_packet}
use residual_engine_audio.OutQueue.{out_push, max_pkt_size}
use residual_engine_audio.CaptureRing.{ring_push}
use residual_engine_audio.Voice.State.{Voice, capture_ptt_only, codes}
use residual_engine_audio.Voice.Emit.{emit_log, emit_error}

-- The four results of `rv_get_tx_flags`.
pub record TxFlags : Type 0 where
  pub is_radio : ℕ
  pub ch : ℕ
  pub ptt : ℕ
  pub flags : ℕ

module _ {Encoder Decoder : Type 0} where
  unfoldable pub get_tx_flags : Voice Encoder Decoder → TxFlags
  get_tx_flags v =
      let st = v.local_state in
      let ptt : ℕ = if v.has_local_state && truthy st.ptt_down then 1 else 0 in
      let is_radio : ℕ = if v.has_local_state && truthy st.radio_enabled then 1 else 0 in
      let ch : ℕ = if v.has_local_state then u8 (bit_and st.radio_channel 0x0f) else 0 in
      record { is_radio = is_radio; ch = ch; ptt = ptt; flags = flags_make is_radio ch ptt }

  unfoldable pub capture_should_transmit : Voice Encoder Decoder → Bool
  capture_should_transmit v =
      if v.cfg.capture_mode == capture_ptt_only
      then v.has_local_state && truthy v.local_state.ptt_down
      else if v.has_local_state && truthy v.local_state.radio_enabled
      then truthy v.local_state.ptt_down
      else true

  -- The engine with the next sequence number taken.
  abbrev pub next_seq : Voice Encoder Decoder → Voice Encoder Decoder
  next_seq v = record v { seq = u16 (v.seq + 1) }

  -- The packet is built or not, and is then queued.
  unfoldable pub queue_packet :
      Voice Encoder Decoder → Result (List ℕ) → VoiceResult × Voice Encoder Decoder
  queue_packet v (err k) = (internal, emit_error v internal (codes "build voice packet failed"))
  queue_packet v (ok pkt) =
      let (out_q, done) = out_push v.out_q pkt in
      if done
      then (voice_ok, record v { out_q = out_q })
      else (voice_ok, emit_log v 1 (codes "outgoing queue full (dropping voice)"))

  -- What follows the call of the encoder; a length of 0 is a failure too.
  unfoldable pub after_encode :
      Voice Encoder Decoder → Result (List ℕ) → VoiceResult × Voice Encoder Decoder
  unfolding get_tx_flags queue_packet
  after_encode v (err k) = (internal, emit_error v internal (codes "opus encode failed"))
  after_encode v (ok opus) =
      if length opus == 0
      then (internal, emit_error v internal (codes "opus encode failed"))
      else (queue_packet (next_seq v)
          (build_voice_packet_ex max_pkt_size v.player_id v.seq (get_tx_flags v).flags (some opus)))

  unfoldable pub encode_and_queue_voice :
      Codec Encoder Decoder → Voice Encoder Decoder → List ℤ → VoiceResult × Voice Encoder Decoder
  unfolding capture_should_transmit after_encode
  encode_and_queue_voice codec v samples =
      if not (capture_should_transmit v)
      then (voice_ok, v)
      else let (olen, enc) = rv_opus_encode codec v.enc samples opus_max_packet in
        after_encode (record v { enc = enc }) olen

  -- A null `samples` is `none`; `sample_count` is the length.
  unfoldable pub submit_capture_pcm_async :
      Voice Encoder Decoder → Option (List ℤ) → VoiceResult × Voice Encoder Decoder
  submit_capture_pcm_async v none = (invalid_argument, v)
  submit_capture_pcm_async v (some samples) =
      if length samples == 0
      then (invalid_argument, v)
      else if not v.initialized
      then (not_initialized, v)
      else if not v.connected
      then (not_connected, v)
      else if not (length samples == v.frame_samples)
      then (invalid_argument, v)
      else (voice_ok, record v { cap_q = (ring_push v.cap_q samples).0 })

  unfoldable pub submit_capture_pcm :
      Voice Encoder Decoder → Option (List ℤ) → VoiceResult × Voice Encoder Decoder
  unfolding submit_capture_pcm_async
  submit_capture_pcm v samples = submit_capture_pcm_async v samples
