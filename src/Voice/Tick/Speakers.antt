-- ===== src/Voice/Tick/Speakers.antt =====
-- Who counts as speaking after a round.
use residual_engine_audio.Base.{
  ℕ, ◌+◌, length, ◌≡◌, refl, ◌∙◌, Bool, true, false, ◌&&◌, Option, some, none, List, [], ◌∷◌, arith,
  All, ltb, if_cases, not, map, Result, ok, err, sub32,
}
use residual_engine_audio.Base.Int.{ℤ}
use residual_engine_audio.Event.{VoiceResult}
use residual_engine_audio.EventQueue.{EventQueue}
use residual_engine_audio.OpusJitter.{jitter_pop}
use residual_engine_audio.Opus.{Codec, rv_opus_decode}
use residual_engine_audio.Voice.State.{Voice, Speaker}
use residual_engine_audio.Voice.Tick.{
  speaking_timeout_ms, time_out, emit_frame, after_decode, after_pop, play_speaker, tick_speaker,
  tick_speakers, receive_round, tick, drain, no_pcm,
}

module _ {Decoder : Type 0} where
  -- Whether a speaker from whom nothing came for more than 250 ms still counts as speaking.
  abbrev pub is_overdue : ℕ → Speaker Decoder → Bool
  is_overdue now_ms sp = sp.speaking && ltb speaking_timeout_ms (sub32 now_ms sp.last_rx_ms)

  time_out-none :
      (now_ms i : ℕ) (sp : Speaker Decoder) (evq : EventQueue)
      → is_overdue now_ms (time_out now_ms i sp evq).0 ≡ false
  unfolding time_out
  time_out-none now_ms i sp evq = ground arith

  -- Playing changes neither what is known of the speaker's silence nor when a packet last came.
  after_decode-kept :
      (now_ms rate i : ℕ) (sp : Speaker Decoder) (r : Result (List ℤ)) (evq : EventQueue)
      → is_overdue now_ms (after_decode rate i sp r evq).0 ≡ is_overdue now_ms sp
  unfolding after_decode emit_frame
  after_decode-kept now_ms rate i sp (err k) evq = refl
  after_decode-kept now_ms rate i sp (ok pcm) evq = ground arith

module _ {Encoder Decoder : Type 0} (codec : Codec Encoder Decoder) where
  after_pop-kept :
      (now_ms rate n i : ℕ) (sp : Speaker Decoder) (out : Option (Option (List ℕ)))
      (evq : EventQueue)
      → is_overdue now_ms (after_pop codec rate n i sp out evq).0 ≡ is_overdue now_ms sp
  unfolding after_pop
  after_pop-kept now_ms rate n i sp none evq = refl
  after_pop-kept now_ms rate n i sp (some packet) evq =
      let (decoded, dec) = rv_opus_decode codec sp.dec packet n in
      after_decode-kept now_ms rate i (record sp { dec = dec }) decoded evq

  tick_speaker-none :
      (v : Voice Encoder Decoder) (now_ms i : ℕ) (sp : Speaker Decoder) (evq : EventQueue)
      → is_overdue now_ms (tick_speaker codec v now_ms i sp evq).0 ≡ false
  unfolding tick_speaker play_speaker
  tick_speaker-none v now_ms i sp evq =
      let (sp', evq') = time_out now_ms i sp evq in
      let (out, jb) = jitter_pop sp'.jb in
      after_pop-kept now_ms v.cfg.sample_rate_hz v.frame_samples i (record sp' { jb = jb }) out evq'
      ∙ time_out-none now_ms i sp evq

  tick_speakers-none :
      (v : Voice Encoder Decoder) (now_ms i : ℕ) (speakers : List (Speaker Decoder))
      (evq : EventQueue)
      → All (λ sp. is_overdue now_ms sp ≡ false) (tick_speakers codec v now_ms i speakers evq).0
  unfolding tick_speakers
  tick_speakers-none v now_ms i [] evq = tt
  tick_speakers-none v now_ms i (sp ∷ rest) evq = (
    tick_speaker-none v now_ms i sp evq,
    tick_speakers-none v now_ms (i + 1) rest (tick_speaker codec v now_ms i sp evq).1,
  )

  -- After a round of an initialized engine at `now_ms`, whatever the audio thread submits meanwhile,
  -- no speaker counts as speaking whose last packet came more than 250 ms before, in 32-bit time
  -- that may wrap.
  pub tick-none_overdue :
      (v : Voice Encoder Decoder) (now_ms : ℕ) (arrivals : List (List (List ℤ)))
      → v.initialized ≡ true
      → All (λ sp. is_overdue now_ms sp ≡ false) (tick codec v now_ms arrivals).1.speakers
  unfolding tick receive_round
  tick-none_overdue v now_ms arrivals on =
      if_cases
        (λ (r : VoiceResult × Voice Encoder Decoder).
          All (λ sp. is_overdue now_ms sp ≡ false) r.1.speakers)
        (not v.initialized) (λ off. ground arith)
        (λ t.
          let w = drain codec (17 + length arrivals) arrivals v in
          tick_speakers-none w now_ms 0 (map no_pcm w.speakers) w.evq)
