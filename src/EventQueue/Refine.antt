-- ===== src/EventQueue/Refine.antt =====
-- The event queue is a bounded queue of 256 events.
use mathlib.Core.Path.{subst}
use residual_engine_audio.Base.{
  ◌≡◌, refl, sym, ap, ltb, All, All-snoc, List, [], ◌∷◌, arith, length, Bool-cases, leb, inl, inr,
}
use residual_engine_audio.Event.{Event, no_event}
use residual_engine_audio.Queue
use residual_engine_audio.Queue.{Op, put, get}
use residual_engine_audio.Ring.{RingSize, count, is_empty}
use residual_engine_audio.Ring.Laws
use residual_engine_audio.Ring.Laws.{push-full, push-room, pop-empty, pop-held}
use residual_engine_audio.EventQueue.{EventQueue, event_queue_cap, eventq_push, eventq_pop, run}

pub size_256 : RingSize 256
size_256 = record { positive = omega arith; small = omega arith; distinct = λ r k p q. omega arith }

abbrev pub IsValid : EventQueue → Type 0
IsValid = Laws.IsValid event_queue_cap no_event

abbrev pub contents : EventQueue → List Event
contents = Laws.contents event_queue_cap no_event

pub eventq_push-IsValid : (q : EventQueue) (ev : Event) → IsValid q → IsValid (eventq_push q ev).0
unfolding eventq_push
eventq_push-IsValid q ev v = elim (Bool-cases (leb event_queue_cap (count q))) [
  | inl e ↦ rw e v
  | inr e ↦ rw e (push-room event_queue_cap no_event size_256 q ev v e).0
]

pub eventq_pop-IsValid : (q : EventQueue) → IsValid q → IsValid (eventq_pop q).1
unfolding eventq_pop
eventq_pop-IsValid q v = elim (Bool-cases (is_empty q)) [
  | inl e ↦ rw e v
  | inr e ↦ rw e (pop-held event_queue_cap no_event q v e).0
]

-- `rv_eventq_push` appends the event if fewer than 256 are held, and else refuses it and changes
-- nothing.
pub eventq_push_refines :
    (q : EventQueue) (ev : Event)
    → IsValid q
    → let (q', done) = eventq_push q ev in
      (contents q', done) ≡ Queue.push event_queue_cap (contents q) ev
unfolding eventq_push
eventq_push_refines q ev v = elim (Bool-cases (leb event_queue_cap (count q))) [
  | inl e ↦ rw e (sym (push-full event_queue_cap no_event q ev e))
  | inr e ↦ rw e (sym (push-room event_queue_cap no_event size_256 q ev v e).1)
]

-- `rv_eventq_pop` gives the oldest event and keeps the rest, or says that there is none.
pub eventq_pop_refines :
    (q : EventQueue)
    → IsValid q
    → let (out, q') = eventq_pop q in (out, contents q') ≡ Queue.pop (contents q)
unfolding eventq_pop Queue.pop
eventq_pop_refines q v = elim (Bool-cases (is_empty q)) [
  | inl e ↦ rw (e, pop-empty event_queue_cap no_event q v e)
  | inr e ↦ rw (e, (pop-held event_queue_cap no_event q v e).1)
]

-- What is true of every event in the queue stays true of each, if it is true of the new one.
pub eventq_push-All :
    (P : Event → Type 0) (q : EventQueue) (ev : Event)
    → IsValid q
    → All P (contents q)
    → P ev
    → All P (contents (eventq_push q ev).0)
unfolding Queue.push
eventq_push-All P q ev v all p =
    subst (All P) (sym (ap (λ r. r.0) (eventq_push_refines q ev v)))
      (elim (Bool-cases (ltb (length (contents q)) event_queue_cap)) [
        | inl e ↦ rw e (All-snoc P (contents q) ev all p)
        | inr e ↦ rw e all
      ])

pub eventq_pop-All :
    (P : Event → Type 0) (q : EventQueue)
    → IsValid q
    → All P (contents q)
    → All P (contents (eventq_pop q).1)
eventq_pop-All P q v all =
    subst (All P) (sym (ap (λ r. r.1) (eventq_pop_refines q v))) (rest (contents q) all)
  where
    rest : (l : List Event) → All P l → All P (Queue.pop l).1
    rest [] h = unfold Queue.pop in h
    rest (x ∷ l) h = unfold Queue.pop in h.1

-- No sequence of pushes and pops tells the event queue, from any valid state on, from the bounded
-- queue of the events that it holds.
pub run_refines :
    (ops : List (Op Event)) (q : EventQueue)
    → IsValid q
    → run q ops ≡ Queue.run event_queue_cap (contents q) ops
unfolding run Queue.run
run_refines [] q v = refl
run_refines (put x ∷ ops) q v =
    rw
      (run_refines ops (eventq_push q x).0 (eventq_push-IsValid q x v), ← eventq_push_refines q x v)
      refl
run_refines (get ∷ ops) q v =
    rw (run_refines ops (eventq_pop q).1 (eventq_pop-IsValid q v), ← eventq_pop_refines q v) refl
