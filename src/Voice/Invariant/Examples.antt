-- ===== src/Voice/Invariant/Examples.antt =====
-- A host's calls on the sample engine.
use residual_engine_audio.Base.{true, some, none, List, [], ◌∷◌, replicate}
use residual_engine_audio.Base.Int.{pos}
use residual_engine_audio.Voice.Create.Initial.{IsCreated, create-IsCreated}
use residual_engine_audio.Voice.Invariant.State.{IsValid}
use residual_engine_audio.Voice.Invariant.Reach.{
  Call, call_submit, call_connect, call_disconnect, call_ingest, call_tick, call_poll,
  call_poll_flat, call_outgoing, run_calls, create-run_calls-IsValid,
}
use residual_engine_audio.Voice.Samples.{codec, codec-Documented, memory, config, engine, created}

abbrev calls : List Call
calls =
    call_connect (some (record { session_id = 1; player_id = 2 }))
    ∷ call_submit (some (replicate 8 (pos 3)))
    ∷ call_ingest (some (1 ∷ 2 ∷ 3 ∷ [])) 10
    ∷ call_tick 20 ((replicate 8 (pos 4) ∷ []) ∷ [] ∷ (replicate 8 (pos 5) ∷ []) ∷ [])
    ∷ call_outgoing 1400
    ∷ call_poll
    ∷ call_poll_flat none (some 16)
    ∷ call_disconnect
    ∷ []

create-IsCreated_example : IsCreated config engine
create-IsCreated_example = create-IsCreated codec memory config true engine created

create-run_calls-IsValid_example : IsValid (run_calls codec engine calls)
create-run_calls-IsValid_example =
    create-run_calls-IsValid codec codec-Documented memory config true engine calls created
