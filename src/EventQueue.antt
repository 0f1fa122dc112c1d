-- ===== src/EventQueue.antt =====
-- The queue of events for the host: src/rv_event_queue.h.
pub mod Refine
mod Examples
use residual_engine_audio.Base.{
  ℕ, Bool, true, false, Option, some, none, leb, if◌then◌else◌, List, [], ◌∷◌,
}
use residual_engine_audio.Event.{Event, no_event}
use residual_engine_audio.Queue.{Op, put, get, Reply, taken, given}
use residual_engine_audio.Ring.{Ring, init, store, front, advance, count, is_empty}

abbrev pub event_queue_cap : ℕ
event_queue_cap = 256

abbrev pub EventQueue : Type 0
EventQueue = Ring Event

unfoldable pub eventq_init : EventQueue
unfolding init
eventq_init = init event_queue_cap no_event

unfoldable pub eventq_push : EventQueue → Event → EventQueue × Bool
eventq_push q ev =
    if leb event_queue_cap (count q)
    then (q, false)
    else (store event_queue_cap no_event q ev, true)

unfoldable pub eventq_pop : EventQueue → Option Event × EventQueue
eventq_pop q =
    if is_empty q then (none, q) else (some (front event_queue_cap no_event q), advance q)

-- A host's calls in order, and what each returns.
unfoldable pub run : EventQueue → List (Op Event) → List (Reply Event)
run q [] = []
run q (put x ∷ ops) = let (q', done) = eventq_push q x in taken done ∷ run q' ops
run q (get ∷ ops) = let (out, q') = eventq_pop q in given out ∷ run q' ops
