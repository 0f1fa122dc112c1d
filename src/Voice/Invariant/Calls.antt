-- ===== src/Voice/Invariant/Calls.antt =====
-- Every call of the engine keeps the invariant.
use residual_engine_audio.Base.{
  ℕ, true, false, Option, some, none, List, arith, length, Bool-cases, inl, inr, ◌==◌, not, if_both,
  Result, ok, err,
}
use residual_engine_audio.Base.Int.{ℤ}
use residual_engine_audio.Event.{VoiceResult, internal, connected, disconnected}
use residual_engine_audio.Netproto.{build_voice_packet_ex, build_join_packet}
use residual_engine_audio.OutQueue.{out_push, max_pkt_size}
use residual_engine_audio.OutQueue.Refine.{out_push_refines}
use residual_engine_audio.CaptureRing.{CaptureRing, ring_push}
use residual_engine_audio.CaptureRing.Refine as CaptureRingRefine
use residual_engine_audio.CaptureRing.Refine.{ring_push_refines, ring_pop_refines}
use residual_engine_audio.Opus.{Codec, rv_opus_encode}
use residual_engine_audio.Voice.State.{Voice, codes, ConnectInfo, PlayerState}
use residual_engine_audio.Voice.Capture.{
  queue_packet, after_encode, encode_and_queue_voice, submit_capture_pcm_async, next_seq,
  get_tx_flags, capture_should_transmit,
}
use residual_engine_audio.Voice.Session.{queue_join, connect, disconnect, set_local_state}
use residual_engine_audio.Voice.Invariant.State.{
  IsValid, emit_log-IsValid, emit_error-IsValid, push_event-IsValid,
}

module _ {Encoder Decoder : Type 0} where
  -- The parts that change most, one at a time.
  pub out_q-IsValid :
      (v : Voice Encoder Decoder) (pkt : List ℕ)
      → IsValid v
      → IsValid (record v { out_q = (out_push v.out_q pkt).0 })
  out_q-IsValid v pkt h = record {
    out_ok = (out_push_refines v.out_q pkt h.out_ok).1;
    cap_ok = h.cap_ok;
    evq_ok = h.evq_ok;
    speakers_ok = h.speakers_ok;
    count = h.count;
    seq_fits = h.seq_fits;
    msg_0_fits = h.msg_0_fits;
    msg_1_fits = h.msg_1_fits;
  }

  pub cap_q-IsValid :
      (v : Voice Encoder Decoder) (q : CaptureRing)
      → IsValid v
      → CaptureRingRefine.IsValid q
      → IsValid (record v { cap_q = q })
  cap_q-IsValid v q h c = record {
    out_ok = h.out_ok;
    cap_ok = c;
    evq_ok = h.evq_ok;
    speakers_ok = h.speakers_ok;
    count = h.count;
    seq_fits = h.seq_fits;
    msg_0_fits = h.msg_0_fits;
    msg_1_fits = h.msg_1_fits;
  }

  next_seq-IsValid : (v : Voice Encoder Decoder) → IsValid v → IsValid (next_seq v)
  next_seq-IsValid v h = record {
    out_ok = h.out_ok;
    cap_ok = h.cap_ok;
    evq_ok = h.evq_ok;
    speakers_ok = h.speakers_ok;
    count = h.count;
    seq_fits = omega arith;
    msg_0_fits = h.msg_0_fits;
    msg_1_fits = h.msg_1_fits;
  }

  queue_packet-IsValid :
      (v : Voice Encoder Decoder) (r : Result (List ℕ)) → IsValid v → IsValid (queue_packet v r).1
  unfolding queue_packet
  queue_packet-IsValid v (err k) h =
      emit_error-IsValid v internal (codes "build voice packet failed") h
  queue_packet-IsValid v (ok pkt) h = elim (Bool-cases (out_push v.out_q pkt).1) [
    | inl e ↦ rw e (out_q-IsValid v pkt h)
    | inr e ↦ rw e (emit_log-IsValid v 1 (codes "outgoing queue full (dropping voice)") h)
  ]

  after_encode-IsValid :
      (v : Voice Encoder Decoder) (r : Result (List ℕ)) → IsValid v → IsValid (after_encode v r).1
  unfolding after_encode
  after_encode-IsValid v (err k) h = emit_error-IsValid v internal (codes "opus encode failed") h
  after_encode-IsValid v (ok opus) h = elim (Bool-cases (length opus == 0)) [
    | inl e ↦ rw e (emit_error-IsValid v internal (codes "opus encode failed") h)
    | inr e ↦
        let pkt =
          build_voice_packet_ex max_pkt_size v.player_id v.seq (get_tx_flags v).flags (some opus) in
        rw e (queue_packet-IsValid (next_seq v) pkt (next_seq-IsValid v h))
  ]

  -- `rv_encode_and_queue_voice` keeps the invariant, whatever the codec returns.
  pub encode_and_queue_voice-IsValid :
      (codec : Codec Encoder Decoder) (v : Voice Encoder Decoder) (samples : List ℤ)
      → IsValid v
      → IsValid (encode_and_queue_voice codec v samples).1
  unfolding encode_and_queue_voice
  encode_and_queue_voice-IsValid codec v samples h = elim (Bool-cases (capture_should_transmit v)) [
    | inr e ↦ rw e h
    | inl e ↦
        let (olen, enc) = rv_opus_encode codec v.enc samples 600 in
        rw e (after_encode-IsValid (record v { enc = enc }) olen h)
  ]

  pub submit_capture_pcm_async-IsValid :
      (v : Voice Encoder Decoder) (samples : Option (List ℤ))
      → IsValid v
      → IsValid (submit_capture_pcm_async v samples).1
  unfolding submit_capture_pcm_async
  submit_capture_pcm_async-IsValid v none h = h
  submit_capture_pcm_async-IsValid v (some samples) h = if_both P (length samples == 0) h (
      if_both P (not v.initialized) h (
        if_both P (not v.connected) h (
          if_both P (not (length samples == v.frame_samples)) h (
            cap_q-IsValid v (ring_push v.cap_q samples).0 h
              (ring_push_refines v.cap_q samples h.cap_ok).1))))
    where
      P : VoiceResult × Voice Encoder Decoder → Type 0
      P r = IsValid r.1

  queue_join-IsValid :
      (v : Voice Encoder Decoder) (r : Result (List ℕ)) → IsValid v → IsValid (queue_join v r).1
  unfolding queue_join
  queue_join-IsValid v (err k) h =
      emit_error-IsValid v internal (codes "rv_voice_connect: failed to build join packet") h
  queue_join-IsValid v (ok pkt) h =
      let queued = record v { out_q = (out_push v.out_q pkt).0; connected = true } in
      elim (Bool-cases (out_push v.out_q pkt).1) [
        | inl e ↦ rw e (push_event-IsValid queued connected (out_q-IsValid v pkt h) tt)
        | inr e ↦
            rw e (emit_error-IsValid v internal (codes "rv_voice_connect: outgoing queue full") h)
      ]

  pub connect-IsValid :
      (v : Voice Encoder Decoder) (info : Option ConnectInfo)
      → IsValid v
      → IsValid (connect v info).1
  unfolding connect
  connect-IsValid v none h = h
  connect-IsValid v (some info) h =
      let told = record v { session_id = info.session_id; player_id = info.player_id } in
      let joined = queue_join told (build_join_packet 64 info.session_id info.player_id) in
      if_both (λ (r : VoiceResult × Voice Encoder Decoder). IsValid r.1) (not v.initialized) h
        (queue_join-IsValid told (build_join_packet 64 info.session_id info.player_id) h)

  pub disconnect-IsValid : (v : Voice Encoder Decoder) → IsValid v → IsValid (disconnect v).1
  unfolding disconnect
  disconnect-IsValid v h = push_event-IsValid (record v { connected = false }) disconnected h tt

  pub set_local_state-IsValid :
      (v : Voice Encoder Decoder) (st : Option PlayerState)
      → IsValid v
      → IsValid (set_local_state v st).1
  unfolding set_local_state
  set_local_state-IsValid v none h = h
  set_local_state-IsValid v (some st) h = h
