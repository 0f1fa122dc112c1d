-- ===== src/CaptureRing/Threads/Fifo.antt =====
-- The frames that pushes take and that pops return, in any order of the threads' accesses.
use mathlib.Core.Path.{subst}
use residual_engine_audio.Base.{
  ℕ, ◌+◌, ◌%◌, ◌<◌, ◌≡◌, ◌≢◌, refl, ap, sym, arith, List, [], ◌∷◌, ◌++◌, get_or, set, u32, sub32,
}
use residual_engine_audio.Base.Int.{ℤ}
use residual_engine_audio.Ring.{front, advance, count}
use residual_engine_audio.Ring.Laws
use residual_engine_audio.Ring.Laws.{advance-IsValid, contents-advance}
use residual_engine_audio.Ring.Writing.{written-scribble, scribble}
use residual_engine_audio.CaptureRing.{capture_ring_cap, ring_init}
use residual_engine_audio.CaptureRing.Refine.{contents, size_16, ring_init-IsValid}
use residual_engine_audio.CaptureRing.Threads.{
  p_idle, p_loaded, p_writing, p_written, c_idle, c_loaded, c_reading, c_copied, Threads, Step,
  Steps, push_loads_w, push_refuses, push_loads_r, push_scribbles, push_writes, push_stores_w,
  pop_loads_r, pop_finds_none, pop_loads_w, pop_copies, pop_stores_r, stay, step,
}
use residual_engine_audio.CaptureRing.Threads.Accesses.{
  Producing, IsConsistent, producing, consuming, producer_moves, consumer_moves, written, published,
  released,
}

-- Every access keeps it.
pub Step-IsConsistent : {s t : Threads} → Step s t → IsConsistent s → IsConsistent t
unfolding advance front
Step-IsConsistent (push_loads_w s f e) h = producer_moves s h (p_loaded s.ring.w f) refl
Step-IsConsistent (push_refuses s w f e why) h = producer_moves s h p_idle tt
Step-IsConsistent (push_loads_r s w f e room pos fits) h =
    let at : w ≡ s.ring.w = producing s h (p_loaded w f) e in
    producer_moves s h (p_writing w f)
      (at, subst (λ k. sub32 k s.ring.r < capture_ring_cap) at room)
Step-IsConsistent (push_scribbles s w f junk e) h =
    let now = producing s h (p_writing w f) e in
    subst
      (λ k. IsConsistent (record s {
        ring = record (s.ring) { slots = set s.ring.slots (k % capture_ring_cap) junk };
      }))
      (sym now.0)
      (written s h w f junk e s.producer
        (subst (λ p. Producing p (scribble capture_ring_cap [] size_16 s.ring junk)) (sym e) now))
Step-IsConsistent (push_writes s w f e) h =
    let (at, room) = producing s h (p_writing w f) e in
    subst
      (λ k. IsConsistent (record s {
        ring = record (s.ring) { slots = set s.ring.slots (k % capture_ring_cap) f };
        producer = p_written w f;
      }))
      (sym at)
      (written s h w f f e (p_written w f)
        (at, room, written-scribble capture_ring_cap [] size_16 s.ring f h.ring))
Step-IsConsistent (push_stores_w s w f e) h =
    subst
      (λ k. IsConsistent (record s {
        ring = record (s.ring) { w = u32 (k + 1) };
        producer = p_idle;
        sent = s.sent ++ (f ∷ []);
      }))
      (sym (producing s h (p_written w f) e).0) (published s h w f e)
Step-IsConsistent (pop_loads_r s e) h = consumer_moves s h (c_loaded s.ring.r) refl
Step-IsConsistent (pop_finds_none s r e same) h = consumer_moves s h c_idle tt
Step-IsConsistent (pop_loads_w s r e ne) h =
    let at : r ≡ s.ring.r = consuming s h (c_loaded r) e in
    consumer_moves s h (c_reading r) (at, omega (arith, at, ne, h.ring.r_fits, h.ring.w_fits))
Step-IsConsistent (pop_copies s r e) h =
    let (at, some_held) = consuming s h (c_reading r) e in
    consumer_moves s h (c_copied r (get_or s.ring.slots (r % capture_ring_cap) []))
      (at, some_held, ap (λ k. get_or s.ring.slots (k % capture_ring_cap) []) (sym at))
Step-IsConsistent (pop_stores_r s r f e) h =
    subst
      (λ k. IsConsistent (record s {
        ring = record (s.ring) { r = u32 (k + 1) };
        consumer = c_idle;
        got = s.got ++ (f ∷ []);
      }))
      (sym (consuming s h (c_copied r f) e).0) (released s h r f e)

pub Steps-IsConsistent : {s t : Threads} → Steps s t → IsConsistent s → IsConsistent t
Steps-IsConsistent (stay s) h = h
Steps-IsConsistent (step one more) h = Steps-IsConsistent more (Step-IsConsistent one h)

-- The queue as `rv_ring_init` leaves it, before the first call.
abbrev pub start : Threads
start = record { ring = ring_init; producer = p_idle; consumer = c_idle; sent = []; got = [] }

start-IsConsistent : IsConsistent start
unfolding ring_init Laws.contents
start-IsConsistent = record {
  ring = ring_init-IsValid.ring;
  producing = tt;
  consuming = tt;
  in_order = refl;
}

-- In any order of the two threads' accesses to a new queue, the frames that pops have returned,
-- followed by those that wait in the queue, are the frames that pushes have taken, in order: none
-- is lost, repeated, reordered or torn by a push that is under way.
pub steps-in_order : (t : Threads) → Steps start t → t.sent ≡ t.got ++ contents t.ring
steps-in_order t run = (Steps-IsConsistent run start-IsConsistent).in_order

-- In any order of the accesses, the slot that a push is writing is never the one that a pop is
-- reading.
pub steps-no_race :
    (t : Threads) (w r : ℕ) (f : List ℤ)
    → Steps start t
    → t.producer ≡ p_writing w f
    → t.consumer ≡ c_reading r
    → w % capture_ring_cap ≢ r % capture_ring_cap
steps-no_race t w r f run writes reads =
    let h = Steps-IsConsistent run start-IsConsistent in
    let (w_at, room) = producing t h (p_writing w f) writes in
    let (r_at, some_held) = consuming t h (c_reading r) reads in
    let ahead : w ≡ u32 (r + count t.ring) =
      omega (arith, w_at, r_at, h.ring.r_fits, h.ring.w_fits) in
    rw ahead (size_16.distinct r (count t.ring) some_held room)
