-- ===== src/EventQueue/Examples.antt =====
-- The event queue of src/rv_event_queue.h on concrete calls.
use residual_engine_audio.Base.{◌≡◌, refl, List, [], ◌∷◌, true, some, none}
use residual_engine_audio.Event.{Event, connected, disconnected, no_event}
use residual_engine_audio.Queue
use residual_engine_audio.Queue.{Op, put, get, Reply, taken, given}
use residual_engine_audio.Ring.Laws
use residual_engine_audio.Ring.{store, front, advance}
use residual_engine_audio.EventQueue.{eventq_init, eventq_push, eventq_pop, run, event_queue_cap}
use residual_engine_audio.EventQueue.Refine.{contents, run_refines}

abbrev calls : List (Op Event)
calls = put connected ∷ get ∷ get ∷ put disconnected ∷ get ∷ []

replies :
    run eventq_init calls
    ≡ taken true ∷ given (some connected) ∷ given none ∷ taken true ∷ given (some disconnected) ∷ []
unfolding run eventq_init eventq_push eventq_pop store front advance
replies = refl

run_refines_example :
    run (eventq_init) calls ≡ Queue.run event_queue_cap (contents eventq_init) calls
unfolding eventq_init
run_refines_example = run_refines calls eventq_init (Laws.init-IsValid event_queue_cap no_event)
