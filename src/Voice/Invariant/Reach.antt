-- ===== src/Voice/Invariant/Reach.antt =====
-- A host's calls in any order: every state that it can reach is valid.
use residual_engine_audio.Base.{ℕ, ◌≡◌, Bool, Option, some, none, List, [], ◌∷◌}
use residual_engine_audio.Base.Int.{ℤ}
use residual_engine_audio.EventQueue.Refine.{eventq_pop-IsValid, eventq_pop-All}
use residual_engine_audio.OutQueue.Refine.{out_pop_refines}
use residual_engine_audio.Opus.{Codec, Documented}
use residual_engine_audio.Voice.State.{Voice, VoiceConfig, ConnectInfo, PlayerState}
use residual_engine_audio.Voice.Create.{Memory, create}
use residual_engine_audio.Voice.Create.Initial.{create-IsCreated}
use residual_engine_audio.Voice.Capture.{submit_capture_pcm}
use residual_engine_audio.Voice.Session.{connect, disconnect, set_local_state}
use residual_engine_audio.Voice.Ingest.{ingest_packet}
use residual_engine_audio.Voice.Tick.{tick}
use residual_engine_audio.Voice.Events.{
  FlatPoll, flatten, poll_event, poll_event_flat, poll_outgoing,
}
use residual_engine_audio.Voice.Invariant.State.{IsValid, IsEvent}
use residual_engine_audio.Voice.Invariant.Calls.{
  submit_capture_pcm_async-IsValid, connect-IsValid, disconnect-IsValid, set_local_state-IsValid,
}
use residual_engine_audio.Voice.Invariant.Receive.{ingest_packet-IsValid}
use residual_engine_audio.Voice.Invariant.Round.{tick-IsValid}

-- The calls that change an engine; a tick comes with the frames that the audio thread submits while
-- it runs.
pub data Call : Type 0 where
  call_submit : Option (List ℤ) → Call
  call_connect : Option ConnectInfo → Call
  call_disconnect : Call
  call_local_state : Option PlayerState → Call
  call_ingest : Option (List ℕ) → ℕ → Call
  call_tick : ℕ → List (List (List ℤ)) → Call
  call_poll : Call
  call_poll_flat : Option ℕ → Option ℕ → Call
  call_outgoing : ℕ → Call

module _ {Encoder Decoder : Type 0} (codec : Codec Encoder Decoder) where
  unfoldable pub run_call : Voice Encoder Decoder → Call → Voice Encoder Decoder
  run_call v (call_submit samples) = (submit_capture_pcm v samples).1
  run_call v (call_connect info) = (connect v info).1
  run_call v call_disconnect = (disconnect v).1
  run_call v (call_local_state st) = (set_local_state v st).1
  run_call v (call_ingest bytes now_ms) = (ingest_packet v bytes now_ms).1
  run_call v (call_tick now_ms arrivals) = (tick codec v now_ms arrivals).1
  run_call v call_poll = (poll_event v).1
  run_call v (call_poll_flat pcm_capacity msg_capacity) =
      (poll_event_flat v pcm_capacity msg_capacity).1
  run_call v (call_outgoing cap) = (poll_outgoing v cap).1

  unfoldable pub run_calls : Voice Encoder Decoder → List Call → Voice Encoder Decoder
  unfolding run_call
  run_calls v [] = v
  run_calls v (c ∷ calls) = run_calls (run_call v c) calls

module _ {Encoder Decoder : Type 0} where
  poll_event-IsValid : (v : Voice Encoder Decoder) → IsValid v → IsValid (poll_event v).1
  unfolding poll_event
  poll_event-IsValid v h = record {
    out_ok = h.out_ok;
    cap_ok = h.cap_ok;
    evq_ok = record {
      ring = eventq_pop-IsValid v.evq h.evq_ok.ring;
      events =
          eventq_pop-All (IsEvent v.cfg.max_players v.frame_samples) v.evq h.evq_ok.ring
            h.evq_ok.events;
    };
    speakers_ok = h.speakers_ok;
    count = h.count;
    seq_fits = h.seq_fits;
    msg_0_fits = h.msg_0_fits;
    msg_1_fits = h.msg_1_fits;
  }

  poll_event_flat-IsValid :
      (v : Voice Encoder Decoder) (pcm_capacity msg_capacity : Option ℕ)
      → IsValid v
      → IsValid (poll_event_flat v pcm_capacity msg_capacity).1
  unfolding poll_event_flat
  poll_event_flat-IsValid v pcm_capacity msg_capacity h =
      let (ev, v') = poll_event v in
      (elim ev
        as (λ e.
          IsValid {Encoder = Encoder} {Decoder = Decoder}
            (elim e as (λ e. Option FlatPoll × Voice Encoder Decoder) [
              | none ↦ (none, v')
              | some e ↦ (some (flatten v' pcm_capacity msg_capacity e), v')
            ]).1) [ none ↦ poll_event-IsValid v h | some e ↦ poll_event-IsValid v h ])

  poll_outgoing-IsValid :
      (v : Voice Encoder Decoder) (cap : ℕ) → IsValid v → IsValid (poll_outgoing v cap).1
  unfolding poll_outgoing
  poll_outgoing-IsValid v cap h = record {
    out_ok = (out_pop_refines v.out_q cap h.out_ok).1;
    cap_ok = h.cap_ok;
    evq_ok = h.evq_ok;
    speakers_ok = h.speakers_ok;
    count = h.count;
    seq_fits = h.seq_fits;
    msg_0_fits = h.msg_0_fits;
    msg_1_fits = h.msg_1_fits;
  }

module _ {Encoder Decoder : Type 0} (codec : Codec Encoder Decoder) (doc : Documented codec) where
  run_call-IsValid :
      (v : Voice Encoder Decoder) (c : Call) → IsValid v → IsValid (run_call codec v c)
  unfolding run_call submit_capture_pcm
  run_call-IsValid v (call_submit samples) h = submit_capture_pcm_async-IsValid v samples h
  run_call-IsValid v (call_connect info) h = connect-IsValid v info h
  run_call-IsValid v call_disconnect h = disconnect-IsValid v h
  run_call-IsValid v (call_local_state st) h = set_local_state-IsValid v st h
  run_call-IsValid v (call_ingest bytes now_ms) h = ingest_packet-IsValid v bytes now_ms h
  run_call-IsValid v (call_tick now_ms arrivals) h = tick-IsValid codec doc v now_ms arrivals h
  run_call-IsValid v call_poll h = poll_event-IsValid v h
  run_call-IsValid v (call_poll_flat pcm_capacity msg_capacity) h =
      poll_event_flat-IsValid v pcm_capacity msg_capacity h
  run_call-IsValid v (call_outgoing cap) h = poll_outgoing-IsValid v cap h

  run_calls-IsValid :
      (calls : List Call) (v : Voice Encoder Decoder)
      → IsValid v
      → IsValid (run_calls codec v calls)
  unfolding run_calls
  run_calls-IsValid [] v h = h
  run_calls-IsValid (c ∷ calls) v h =
      run_calls-IsValid calls (run_call codec v c) (run_call-IsValid v c h)

  -- Whatever a host calls after `rv_voice_create`, in whatever order, with whatever bytes and
  -- samples, the engine stays valid, with a codec that keeps to its documented sizes.
  pub create-run_calls-IsValid :
      (mem : Memory) (cfg : VoiceConfig) (has_log : Bool) (v : Voice Encoder Decoder)
      (calls : List Call)
      → create codec mem cfg has_log ≡ some v
      → IsValid (run_calls codec v calls)
  create-run_calls-IsValid mem cfg has_log v calls e =
      run_calls-IsValid calls v (create-IsCreated codec mem cfg has_log v e).valid
