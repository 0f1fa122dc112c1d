-- ===== src/Voice/Tick.antt =====
-- `rv_voice_tick` of src/voice.c: capture out, received packets in, one round. The audio thread may
-- submit frames while the first loop runs: `arrivals` lists, round by round, the frames that it
-- submits before the pop of that round. The rest of a round does not look at the capture queue, so
-- it is the same whether a frame comes just before or just after it; the accesses inside one push
-- and one pop are in CaptureRing/Threads.antt. What comes after the last pop is left to a call of
-- `submit_capture_pcm_async` after the tick.
pub mod Frames
pub mod Drain
pub mod Speakers
mod Examples
use residual_engine_audio.Base.{
  ℕ, zero, suc, ◌+◌, ◌%◌, ◌^◌, Bool, true, false, ◌&&◌, Option, some, none, List, [], ◌∷◌, ◌++◌,
  ltb, ◌==◌, if◌then◌else◌, not, length, get_or, drop, map, Result, ok, err, u16, sub32,
}
use residual_engine_audio.Base.Int.{ℤ}
use residual_engine_audio.Netproto.{flags_channel}
use residual_engine_audio.Event.{Event, VoiceResult, voice_ok, not_initialized, speaking, pcm_frame}
use residual_engine_audio.EventQueue.{EventQueue, eventq_push}
use residual_engine_audio.Opus.{Codec, OpusDec, rv_opus_decode}
use residual_engine_audio.OpusJitter.{jitter_pop}
use residual_engine_audio.CaptureRing.{ring_pop}
use residual_engine_audio.Voice.State.{Voice, Speaker}
use residual_engine_audio.Voice.Capture.{encode_and_queue_voice, submit_capture_pcm_async}

abbrev pub speaking_timeout_ms : ℕ
speaking_timeout_ms = 250

module _ {Encoder Decoder : Type 0} where
  -- The audio thread's calls between two pops.
  unfoldable pub submit_all : Voice Encoder Decoder → List (List ℤ) → Voice Encoder Decoder
  submit_all v [] = v
  submit_all v (f ∷ frames) = submit_all (submit_capture_pcm_async v (some f)).1 frames

module _ {Encoder Decoder : Type 0} (codec : Codec Encoder Decoder) where
  -- One round of the first loop, for a frame that was taken off the capture queue.
  unfoldable pub transmit_frame : Voice Encoder Decoder → List ℤ → Voice Encoder Decoder
  transmit_frame v f =
      if not (length f == v.frame_samples) then v else (encode_and_queue_voice codec v f).1

  -- `while (rv_ring_pop(...))`, with fuel and with what arrives before each pop.
  unfoldable pub drain : ℕ → List (List (List ℤ)) → Voice Encoder Decoder → Voice Encoder Decoder
  unfolding transmit_frame submit_all
  drain zero arrivals v = v
  drain (suc fuel) arrivals v =
      let now = submit_all v (get_or arrivals 0 []) in
      let (f, q) = ring_pop now.cap_q in
      elim f [
        | none ↦ now
        | some samples ↦
            drain fuel (drop 1 arrivals) (transmit_frame (record now { cap_q = q }) samples)
      ]

module _ {Decoder : Type 0} where
  abbrev pub no_pcm : Speaker Decoder → Speaker Decoder
  no_pcm sp = record sp { pcm_count = 0 }

  -- A speaker from whom nothing came for more than 250 ms falls silent.
  unfoldable pub time_out : ℕ → ℕ → Speaker Decoder → EventQueue → Speaker Decoder × EventQueue
  time_out now_ms i sp evq =
      if sp.speaking && ltb speaking_timeout_ms (sub32 now_ms sp.last_rx_ms)
      then (record sp { speaking = false }, (eventq_push evq (speaking (u16 (i + 1)) 0)).0)
      else (sp, evq)

  -- A decoded frame overwrites the beginning of the speaker's buffer, and is announced.
  unfoldable pub emit_frame :
      ℕ → ℕ → Speaker Decoder → List ℤ → EventQueue → Speaker Decoder × EventQueue
  emit_frame sample_rate_hz i sp pcm evq = if length pcm == 0 then (sp, evq) else (
    record sp { pcm_buf = pcm ++ drop (length pcm) sp.pcm_buf; pcm_count = length pcm },
    (eventq_push evq (
        pcm_frame (record {
          speaker_id = u16 (i + 1);
          sample_rate = sample_rate_hz;
          channels = 1;
          flags = sp.last_rx_flags;
          radio_channel = flags_channel sp.last_rx_flags;
          samples = i;
          sample_count = length pcm;
        }))).0,
  )

  -- What the decoder made of a packet, or of a loss.
  unfoldable pub after_decode :
      ℕ → ℕ → Speaker Decoder → Result (List ℤ) → EventQueue → Speaker Decoder × EventQueue
  unfolding emit_frame
  after_decode sample_rate_hz i sp (err k) evq = (sp, evq)
  after_decode sample_rate_hz i sp (ok pcm) evq = emit_frame sample_rate_hz i sp pcm evq

module _ {Encoder Decoder : Type 0} (codec : Codec Encoder Decoder) where
  -- What the jitter buffer gave.
  unfoldable pub after_pop :
      ℕ
      → ℕ
      → ℕ
      → Speaker Decoder
      → Option (Option (List ℕ))
      → EventQueue
      → Speaker Decoder × EventQueue
  unfolding after_decode
  after_pop sample_rate_hz frame_samples i sp none evq = (sp, evq)
  after_pop sample_rate_hz frame_samples i sp (some packet) evq =
      let (decoded, dec) = rv_opus_decode codec sp.dec packet frame_samples in
      after_decode sample_rate_hz i (record sp { dec = dec }) decoded evq

  -- What a speaker has to play in this round.
  unfoldable pub play_speaker :
      ℕ → ℕ → ℕ → Speaker Decoder → EventQueue → Speaker Decoder × EventQueue
  unfolding after_pop
  play_speaker sample_rate_hz frame_samples i sp evq =
      let (out, jb) = jitter_pop sp.jb in
      after_pop sample_rate_hz frame_samples i (record sp { jb = jb }) out evq

  unfoldable pub tick_speaker :
      Voice Encoder Decoder → ℕ → ℕ → Speaker Decoder → EventQueue → Speaker Decoder × EventQueue
  unfolding time_out play_speaker
  tick_speaker v now_ms i sp evq =
      let (sp', evq') = time_out now_ms i sp evq in
      play_speaker v.cfg.sample_rate_hz v.frame_samples i sp' evq'

  -- The second loop, from speaker `i` on.
  unfoldable pub tick_speakers :
      Voice Encoder Decoder
      → ℕ
      → ℕ
      → List (Speaker Decoder)
      → EventQueue
      → List (Speaker Decoder) × EventQueue
  unfolding tick_speaker
  tick_speakers v now_ms i [] evq = ([], evq)
  tick_speakers v now_ms i (sp ∷ rest) evq =
      let (sp', evq') = tick_speaker v now_ms i sp evq in
      let (rest', evq'') = tick_speakers v now_ms (i + 1) rest evq' in (sp' ∷ rest', evq'')

  -- `for (...) v->pcm_count[i] = 0;` and the second loop.
  unfoldable pub receive_round : ℕ → Voice Encoder Decoder → Voice Encoder Decoder
  unfolding tick_speakers
  receive_round now_ms v =
      let quiet = map no_pcm v.speakers in
      let (speakers, evq) = tick_speakers v now_ms 0 quiet v.evq in
      record v { speakers = speakers; evq = evq }

  -- The capture queue never holds more than 16 frames: once nothing arrives any more, 17 rounds
  -- drain it.
  unfoldable pub tick :
      Voice Encoder Decoder → ℕ → List (List (List ℤ)) → VoiceResult × Voice Encoder Decoder
  unfolding drain receive_round
  tick v now_ms arrivals =
      if not v.initialized
      then (not_initialized, v)
      else (voice_ok, receive_round now_ms (drain codec (17 + length arrivals) arrivals v))
