-- ===== src/CaptureRing/Threads/Alone.antt =====
-- A run of one call that the other thread does not interrupt.
use residual_engine_audio.Base.{
  ◌%◌, ◌≤◌, ◌<◌, ◌≡◌, ◌≢◌, ◌⊎◌, refl, arith, Bool, true, false, ◌||◌, Option, some, none, List, [],
  ◌∷◌, ◌++◌, length, leb, ltb, ◌==◌, leb→le, get_or, set, if◌then◌else◌, if_cases, ==_iff,
  Bool-cases, inl, inr,
}
use residual_engine_audio.Base.Int.{ℤ}
use residual_engine_audio.Ring.{store, front, advance, count, is_empty}
use residual_engine_audio.CaptureRing.{
  CaptureRing, capture_ring_cap, capture_max_samples, ring_push, ring_pop,
}
use residual_engine_audio.CaptureRing.Threads.{
  p_idle, p_loaded, p_writing, p_written, c_idle, c_loaded, c_reading, c_copied, Threads, Steps,
  push_loads_w, push_refuses, push_loads_r, push_writes, push_stores_w, pop_loads_r, pop_finds_none,
  pop_loads_w, pop_copies, pop_stores_r, stay, step,
}

-- The state after a whole call of push, and after one of pop.
abbrev pub pushed : Threads → List ℤ → CaptureRing × Bool → Threads
pushed s f (q, done) = record s {
  ring = q;
  producer = p_idle;
  sent = if done then s.sent ++ (f ∷ []) else s.sent;
}

abbrev pub popped : Threads → Option (List ℤ) × CaptureRing → Threads
popped s (none, q) = record s { ring = q; consumer = c_idle }
popped s (some f, q) = record s { ring = q; consumer = c_idle; got = s.got ++ (f ∷ []) }

push-refused :
    (s : Threads) (f : List ℤ)
    → s.producer ≡ p_idle
    → (capture_ring_cap ≤ count s.ring) ⊎ (length f ≡ 0) ⊎ (capture_max_samples < length f)
    → Steps s (pushed s f (s.ring, false))
push-refused s f idle why = step (push_loads_w s f idle) (
    step (push_refuses (record s { producer = p_loaded s.ring.w f }) s.ring.w f refl why)
      (stay (record s { producer = p_idle })))

push-taken :
    (s : Threads) (f : List ℤ)
    → s.producer ≡ p_idle
    → count s.ring < capture_ring_cap
    → 0 < length f
    → length f ≤ capture_max_samples
    → Steps s (pushed s f (store capture_ring_cap [] s.ring f, true))
unfolding store
push-taken s f idle room pos fits =
    let w = s.ring.w in
    let loaded = record s { producer = p_loaded w f } in
    let writing = record s { producer = p_writing w f } in
    let written = record s {
      ring = record (s.ring) { slots = set s.ring.slots (w % capture_ring_cap) f };
      producer = p_written w f;
    } in
    step (push_loads_w s f idle) (
      step (push_loads_r loaded w f refl room pos fits) (
        step (push_writes writing w f refl) (
          step (push_stores_w written w f refl)
            (stay (pushed s f (store capture_ring_cap [] s.ring f, true))))))

pop-none :
    (s : Threads) → s.consumer ≡ c_idle → s.ring.r ≡ s.ring.w → Steps s (popped s (none, s.ring))
pop-none s idle same = step (pop_loads_r s idle) (
    step (pop_finds_none (record s { consumer = c_loaded s.ring.r }) s.ring.r refl same)
      (stay (record s { consumer = c_idle })))

pop-some :
    (s : Threads)
    → s.consumer ≡ c_idle
    → s.ring.r ≢ s.ring.w
    → Steps s (popped s (some (front capture_ring_cap [] s.ring), advance s.ring))
unfolding front advance
pop-some s idle other =
    let r = s.ring.r in
    let f = get_or s.ring.slots (r % capture_ring_cap) [] in
    step (pop_loads_r s idle) (
      step (pop_loads_w (record s { consumer = c_loaded r }) r refl other) (
        step (pop_copies (record s { consumer = c_reading r }) r refl) (
          step (pop_stores_r (record s { consumer = c_copied r f }) r f refl)
            (stay (popped s (some f, advance s.ring))))))

-- A whole call of push between two calls, and one of pop.
pub push-runs :
    (s : Threads) (f : List ℤ) → s.producer ≡ p_idle → Steps s (pushed s f (ring_push s.ring f))
unfolding ring_push
push-runs s f idle =
    if_cases (λ r. Steps s (pushed s f r)) (leb capture_ring_cap (count s.ring))
      (λ full. push-refused s f idle (inl (leb→le capture_ring_cap (count s.ring) full)))
      (λ room.
        if_cases (λ r. Steps s (pushed s f r)) (length f == 0 || ltb capture_max_samples (length f))
          (λ wrong. push-refused s f idle (inr (size_wrong wrong)))
          (λ right. push-taken s f idle (ground arith) (ground arith) (ground arith)))
  where
    size_wrong :
        (length f == 0 || ltb capture_max_samples (length f)) ≡ true
        → (length f ≡ 0) ⊎ (capture_max_samples < length f)
    size_wrong wrong = elim (Bool-cases (length f == 0)) [
      | inl e ↦ inl ((==_iff (length f) 0).0 e)
      | inr e ↦ inr (ground arith)
    ]

pub pop-runs : (s : Threads) → s.consumer ≡ c_idle → Steps s (popped s (ring_pop s.ring))
unfolding ring_pop
pop-runs s waiting =
    if_cases (λ r. Steps s (popped s r)) (is_empty s.ring)
      (λ empty. pop-none s waiting ((==_iff s.ring.r s.ring.w).0 empty))
      (λ held. pop-some s waiting (λ same. absurd (cc ((==_iff s.ring.r s.ring.w).1 same, held))))
