-- ===== src/Voice/Emit/Examples.antt =====
-- Three logs in a row.
use residual_engine_audio.Base.{◌≡◌, [], ◌∷◌}
use residual_engine_audio.Event.{log}
use residual_engine_audio.EventQueue.{eventq_push}
use residual_engine_audio.Voice.Emit.{emit_log, next_msg_buf, read_msg}
use residual_engine_audio.Voice.Emit.Messages.{read_msg-emit_log}
use residual_engine_audio.Voice.Samples.{engine}

read_msg-emit_log_example :
    ((emit_log engine 0 (65 ∷ [])).evq ≡ (eventq_push engine.evq (log 0 (next_msg_buf engine).0)).0)
    × (read_msg (emit_log engine 0 (65 ∷ [])) (next_msg_buf engine).0 ≡ 65 ∷ [])
    × (read_msg (emit_log (emit_log engine 0 (65 ∷ [])) 1 (66 ∷ [])) (next_msg_buf engine).0
        ≡ 65 ∷ [])
    × (read_msg
          (emit_log (emit_log (emit_log engine 0 (65 ∷ [])) 1 (66 ∷ [])) 2 (67 ∷ []))
          (next_msg_buf engine).0
        ≡ 67 ∷ [])
read_msg-emit_log_example = read_msg-emit_log engine 0 1 2 (65 ∷ []) (66 ∷ []) (67 ∷ [])
