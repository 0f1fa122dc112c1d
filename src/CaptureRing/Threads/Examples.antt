-- ===== src/CaptureRing/Threads/Examples.antt =====
-- A push and a pop whose accesses alternate.
use residual_engine_audio.Base.{◌%◌, ◌≡◌, ◌≢◌, refl, arith, List, [], ◌∷◌, ◌++◌, replicate}
use residual_engine_audio.Base.Int.{ℤ, pos}
use residual_engine_audio.Ring.{init}
use residual_engine_audio.CaptureRing.{ring_init, CaptureRing}
use residual_engine_audio.CaptureRing.Refine.{contents}
use residual_engine_audio.CaptureRing.Threads.{
  Threads, Steps, p_idle, p_loaded, c_idle, c_loaded, pop_copies, pop_stores_r, p_writing,
  c_reading, push_loads_w, push_loads_r, push_scribbles, push_writes, push_stores_w, pop_loads_r,
  pop_loads_w, stay, step,
}
use residual_engine_audio.CaptureRing.Threads.Fifo.{start, steps-in_order, steps-no_race}

abbrev frame : List ℤ
frame = pos 3 ∷ pos 4 ∷ []

abbrev at_once : CaptureRing
at_once = record { slots = frame ∷ replicate 15 []; r = 0; w = 1 }

-- One frame is in, the next is being written, and the voice thread is reading the first.
abbrev busy : Threads
busy = record {
  ring = at_once;
  producer = p_writing 1 frame;
  consumer = c_reading 0;
  sent = frame ∷ [];
  got = [];
}

run : Steps start busy
unfolding ring_init init
run = step (push_loads_w _ frame refl) (
    step (pop_loads_r _ refl) (
      step (push_loads_r _ 0 frame refl (omega arith) (omega arith) (omega arith)) (
        step (push_scribbles _ 0 frame [] refl) (
          step (push_writes _ 0 frame refl) (
            step (push_stores_w _ 0 frame refl) (
              step (pop_loads_w _ 0 refl (λ e. absurd (omega (arith, e)))) (
                step (push_loads_w _ frame refl) (
                  step (push_loads_r _ 1 frame refl (omega arith) (omega arith) (omega arith))
                    (stay busy)))))))))

steps-in_order_example : frame ∷ [] ≡ [] ++ contents at_once
steps-in_order_example = steps-in_order busy run

steps-no_race_example : 1 % 16 ≢ 0 % 16
steps-no_race_example = steps-no_race busy 1 0 frame run refl refl

-- One frame waits, and both threads are between two calls.
abbrev resting : Threads
resting = record busy { producer = p_idle; consumer = c_idle }

abbrev after_push : Threads
after_push = record resting {
  ring = record { slots = frame ∷ frame ∷ replicate 14 []; r = 0; w = 2 };
  sent = frame ∷ frame ∷ [];
}

abbrev after_pop : Threads
after_pop = record resting {
  ring = record { slots = frame ∷ replicate 15 []; r = 1; w = 1 };
  got = frame ∷ [];
}

one_push : Steps (record resting { producer = p_loaded 1 frame }) after_push
one_push = step (push_loads_r _ 1 frame refl (omega arith) (omega arith) (omega arith)) (
    step (push_scribbles _ 1 frame (pos 9 ∷ []) refl)
      (step (push_writes _ 1 frame refl) (step (push_stores_w _ 1 frame refl) (stay after_push))))

one_pop : Steps (record resting { consumer = c_loaded 0 }) after_pop
one_pop =
    step (pop_loads_w _ 0 refl (λ e. absurd (omega (arith, e))))
      (step (pop_copies _ 0 refl) (step (pop_stores_r _ 0 frame refl) (stay after_pop)))
