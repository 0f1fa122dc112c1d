-- ===== src/Voice/Tick/Examples.antt =====
-- Rounds of the sample engine.
use residual_engine_audio.Base.{
  ℕ, ◌+◌, ◌≡◌, refl, true, false, some, List, [], ◌∷◌, All, length, replicate,
}
use residual_engine_audio.Ring.{store, front, advance}
use residual_engine_audio.Ring.Laws.{contents}
use residual_engine_audio.CaptureRing.{ring_init, ring_push, ring_pop}
use residual_engine_audio.OutQueue.{out_init, out_push}
use residual_engine_audio.Opus.{rv_opus_encode}
use residual_engine_audio.Netproto.{build_voice_packet_ex, hdr_bytes}
use residual_engine_audio.CaptureRing.Refine as CaptureRingRefine
use residual_engine_audio.OutQueue.Refine as OutQueueRefine
use residual_engine_audio.Base.Int.{ℤ, pos}
use residual_engine_audio.Voice.State.{Voice}
use residual_engine_audio.Voice.Capture.{submit_capture_pcm_async, encode_and_queue_voice}
use residual_engine_audio.Voice.Invariant.State.{IsValid}
use residual_engine_audio.Voice.Invariant.Calls.{submit_capture_pcm_async-IsValid}
use residual_engine_audio.Voice.Emit.{emit_log}
use residual_engine_audio.Voice.Tick.{drain, tick}
use residual_engine_audio.Voice.Tick.Drain.{encode_all, drain-done}
use residual_engine_audio.Voice.Tick.Speakers.{is_overdue, tick-none_overdue}
use residual_engine_audio.Voice.Samples.{codec, engine, engine-IsValid}

engine_on : engine.initialized ≡ true
unfolding emit_log
engine_on = refl

-- The sample engine in a session, with one frame of eight samples that waits.
abbrev submitted : Voice ℕ ℕ
submitted =
    let on = record engine { connected = true } in
    (submit_capture_pcm_async on (some (replicate 8 (pos 3)))).1

submitted-IsValid : IsValid submitted
submitted-IsValid =
    submit_capture_pcm_async-IsValid (record engine { connected = true })
      (some (replicate 8 (pos 3)))
      (record {
        out_ok = engine-IsValid.out_ok;
        cap_ok = engine-IsValid.cap_ok;
        evq_ok = engine-IsValid.evq_ok;
        speakers_ok = engine-IsValid.speakers_ok;
        count = engine-IsValid.count;
        seq_fits = engine-IsValid.seq_fits;
        msg_0_fits = engine-IsValid.msg_0_fits;
        msg_1_fits = engine-IsValid.msg_1_fits;
      })

-- Two more frames that arrive before the second pop, and one before the third.
abbrev meanwhile : List (List (List ℤ))
meanwhile = let f = replicate 8 (pos 4) in [] ∷ (f ∷ f ∷ []) ∷ (f ∷ []) ∷ []

-- Before the loop one frame waits, and after it four packets do.
four_sent :
    (length (CaptureRingRefine.contents submitted.cap_q) ≡ 1)
    × (length (OutQueueRefine.contents (drain codec 20 meanwhile submitted).out_q) ≡ 4)
unfolding emit_log submit_capture_pcm_async contents ring_push ring_init store drain ring_pop front
    encode_and_queue_voice rv_opus_encode build_voice_packet_ex out_push hdr_bytes out_init advance
four_sent = (refl, refl)

drain-done_example :
    (drain codec (20 + 3) meanwhile submitted ≡ drain codec 20 meanwhile submitted)
    × (CaptureRingRefine.contents (drain codec 20 meanwhile submitted).cap_q ≡ [])
    × (drain codec 17 [] submitted
        ≡ encode_all codec submitted (CaptureRingRefine.contents submitted.cap_q))
drain-done_example = drain-done codec 3 meanwhile submitted submitted-IsValid

tick-none_overdue_example :
    All (λ sp. is_overdue 300 sp ≡ false) (tick codec engine 300 meanwhile).1.speakers
tick-none_overdue_example = tick-none_overdue codec engine 300 meanwhile engine_on
