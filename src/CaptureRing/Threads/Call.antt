-- ===== src/CaptureRing/Threads/Call.antt =====
-- However a call that runs alone goes on after its first access, it ends as `ring_push` and
-- `ring_pop` say.
use residual_engine_audio.Base.{Bool, true, ◌&&◌}
use residual_engine_audio.CaptureRing.Threads.{Threads, Steps, stay, step}
use residual_engine_audio.CaptureRing.Threads.Ends.{goes_on_pushing, goes_on_popping}

-- Whether all accesses of a run are such accesses.
unfoldable pub only_pushes : {s t : Threads} → Steps s t → Bool
unfolding goes_on_pushing
only_pushes (stay s) = true
only_pushes (step a run) = goes_on_pushing a && only_pushes run

unfoldable pub only_pops : {s t : Threads} → Steps s t → Bool
unfolding goes_on_popping
only_pops (stay s) = true
only_pops (step a run) = goes_on_popping a && only_pops run
