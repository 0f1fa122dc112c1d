-- ===== src/CaptureRing/Threads/Ends.antt =====
-- How a call that stands between two of its accesses ends, if nothing interrupts it.
use mathlib.Core.Path.{subst}
use residual_engine_audio.Base.{
  ℕ, ◌+◌, ◌%◌, ◌≤◌, ◌<◌, ◌≡◌, ◌≢◌, ◌⊎◌, ap, sym, ◌∙◌, arith, Bool, true, false, some, none, List,
  [], length, get_or, set, set-set, u32, sub32,
}
use residual_engine_audio.Base.Int.{ℤ}
use residual_engine_audio.Ring.{store, front, advance, count}
use residual_engine_audio.CaptureRing.{
  CaptureRing, capture_ring_cap, capture_max_samples, ring_push, ring_pop,
}
use residual_engine_audio.CaptureRing.Threads.{
  Producer, Consumer, p_idle, p_loaded, p_writing, p_written, c_idle, c_loaded, c_reading, c_copied,
  Threads, Step, push_loads_w, push_refuses, push_loads_r, push_scribbles, push_writes,
  push_stores_w, pop_loads_r, pop_finds_none, pop_loads_w, pop_copies, pop_stores_r,
}
use residual_engine_audio.CaptureRing.Threads.Alone.{pushed, popped}

-- The accesses of a call of push after its first.
unfoldable pub goes_on_pushing : {s t : Threads} → Step s t → Bool
goes_on_pushing (push_loads_w s f idle) = false
goes_on_pushing (push_refuses s w f at why) = true
goes_on_pushing (push_loads_r s w f at room pos fits) = true
goes_on_pushing (push_scribbles s w f junk at) = true
goes_on_pushing (push_writes s w f at) = true
goes_on_pushing (push_stores_w s w f at) = true
goes_on_pushing (pop_loads_r s idle) = false
goes_on_pushing (pop_finds_none s r at same) = false
goes_on_pushing (pop_loads_w s r at other) = false
goes_on_pushing (pop_copies s r at) = false
goes_on_pushing (pop_stores_r s r f at) = false

-- The accesses of a call of pop after its first.
unfoldable pub goes_on_popping : {s t : Threads} → Step s t → Bool
goes_on_popping (push_loads_w s f idle) = false
goes_on_popping (push_refuses s w f at why) = false
goes_on_popping (push_loads_r s w f at room pos fits) = false
goes_on_popping (push_scribbles s w f junk at) = false
goes_on_popping (push_writes s w f at) = false
goes_on_popping (push_stores_w s w f at) = false
goes_on_popping (pop_loads_r s idle) = false
goes_on_popping (pop_finds_none s r at same) = true
goes_on_popping (pop_loads_w s r at other) = true
goes_on_popping (pop_copies s r at) = true
goes_on_popping (pop_stores_r s r f at) = true

-- How a push that stands at a place of `Producer` in `s` ends, if it has loaded the `w` of `s`.
unfoldable pub EndsPush : Producer → Threads → Threads → Type 0
EndsPush p_idle s t = t ≡ s
EndsPush (p_loaded w f) s t = w ≡ s.ring.w → t ≡ pushed s f (ring_push s.ring f)
EndsPush (p_writing w f) s t =
    w ≡ s.ring.w → t ≡ pushed s f (store capture_ring_cap [] s.ring f, true)
EndsPush (p_written w f) s t =
    w ≡ s.ring.w → t ≡ pushed s f (record (s.ring) { w = u32 (s.ring.w + 1) }, true)

-- How a pop ends, likewise.
unfoldable pub EndsPop : Consumer → Threads → Threads → Type 0
EndsPop c_idle s t = t ≡ s
EndsPop (c_loaded r) s t = r ≡ s.ring.r → t ≡ popped s (ring_pop s.ring)
EndsPop (c_reading r) s t =
    r ≡ s.ring.r → t ≡ popped s (some (front capture_ring_cap [] s.ring), advance s.ring)
EndsPop (c_copied r f) s t = r ≡ s.ring.r → t ≡ popped s (some f, advance s.ring)

-- Why a push is refused.
abbrev IsRefused : ℕ → ℕ → List ℤ → Type 0
IsRefused w r f = (capture_ring_cap ≤ sub32 w r) ⊎ (length f ≡ 0) ⊎ (capture_max_samples < length f)

ring_push-refused :
    (q : CaptureRing) (f : List ℤ) → IsRefused q.w q.r f → ring_push q f ≡ (q, false)
unfolding ring_push
ring_push-refused q f why = ground arith

ring_push-taken :
    (q : CaptureRing) (f : List ℤ)
    → count q < capture_ring_cap
    → 0 < length f
    → length f ≤ capture_max_samples
    → ring_push q f ≡ (store capture_ring_cap [] q f, true)
unfolding ring_push
ring_push-taken q f room pos fits = ground arith

ring_pop-none : (q : CaptureRing) → q.r ≡ q.w → ring_pop q ≡ (none, q)
unfolding ring_pop
ring_pop-none q same = ground arith

ring_pop-some :
    (q : CaptureRing) → q.r ≢ q.w → ring_pop q ≡ (some (front capture_ring_cap [] q), advance q)
unfolding ring_pop
ring_pop-some q other = ground arith

-- One access of a push brings its end no further than it was.
pub push-Step :
    (u : Threads) {s t : Threads} (a : Step s t)
    → goes_on_pushing a ≡ true
    → EndsPush t.producer t u
    → EndsPush s.producer s u
unfolding goes_on_pushing EndsPush store
push-Step u (push_refuses s w f at why) on ends =
    subst (λ p. EndsPush p s u) (sym at)
      (λ same.
        ends
        ∙ ap (pushed s f)
            (sym (ring_push-refused s.ring f (subst (λ k. IsRefused k s.ring.r f) same why))))
push-Step u (push_loads_r s w f at room pos fits) on ends =
    subst (λ p. EndsPush p s u) (sym at)
      (λ same.
        ends same
        ∙ ap (pushed s f) (
            sym
              (ring_push-taken s.ring f (omega (arith, ap (λ k. sub32 k s.ring.r) same)) pos fits)))
push-Step u (push_scribbles s w f junk at) on ends =
    subst (λ p. EndsPush p s u) (sym at)
      (λ same.
        subst
          (λ p.
            EndsPush p
              (record s {
                ring = record (s.ring) { slots = set s.ring.slots (w % capture_ring_cap) junk };
              })
              u)
          at ends same
        ∙ ap (λ l. pushed s f (record (s.ring) { slots = l; w = u32 (s.ring.w + 1) }, true))
            (ap
                (λ k.
                  set (set s.ring.slots (k % capture_ring_cap) junk) (s.ring.w % capture_ring_cap)
                    f)
                same
              ∙ set-set s.ring.slots (s.ring.w % capture_ring_cap) junk f))
push-Step u (push_writes s w f at) on ends =
    subst (λ p. EndsPush p s u) (sym at)
      (λ same.
        ends same
        ∙ ap
            (λ k. pushed s f (
              record (s.ring) {
                slots = set s.ring.slots (k % capture_ring_cap) f;
                w = u32 (s.ring.w + 1);
              },
              true,
            ))
            same)
push-Step u (push_stores_w s w f at) on ends =
    subst (λ p. EndsPush p s u) (sym at)
      (λ same. ends ∙ ap (λ k. pushed s f (record (s.ring) { w = u32 (k + 1) }, true)) same)
push-Step u (push_loads_w s f idle) on ends = cc
push-Step u (pop_loads_r s idle) on ends = cc
push-Step u (pop_finds_none s r at same) on ends = cc
push-Step u (pop_loads_w s r at other) on ends = cc
push-Step u (pop_copies s r at) on ends = cc
push-Step u (pop_stores_r s r f at) on ends = cc

pub pop-Step :
    (u : Threads) {s t : Threads} (a : Step s t)
    → goes_on_popping a ≡ true
    → EndsPop t.consumer t u
    → EndsPop s.consumer s u
unfolding goes_on_popping EndsPop front advance
pop-Step u (pop_finds_none s r at none_held) on ends =
    subst (λ p. EndsPop p s u) (sym at)
      (λ same. ends ∙ ap (popped s) (sym (ring_pop-none s.ring (sym same ∙ none_held))))
pop-Step u (pop_loads_w s r at other) on ends =
    subst (λ p. EndsPop p s u) (sym at)
      (λ same. ends same ∙ ap (popped s) (sym (ring_pop-some s.ring (λ e. other (same ∙ e)))))
pop-Step u (pop_copies s r at) on ends =
    subst (λ p. EndsPop p s u) (sym at)
      (λ same.
        ends same
        ∙ ap (λ k. popped s (some (get_or s.ring.slots (k % capture_ring_cap) []), advance s.ring))
            same)
pop-Step u (pop_stores_r s r f at) on ends =
    subst (λ p. EndsPop p s u) (sym at)
      (λ same. ends ∙ ap (λ k. popped s (some f, record (s.ring) { r = u32 (k + 1) })) same)
pop-Step u (push_loads_w s f idle) on ends = cc
pop-Step u (push_refuses s w f at why) on ends = cc
pop-Step u (push_loads_r s w f at room pos fits) on ends = cc
pop-Step u (push_scribbles s w f junk at) on ends = cc
pop-Step u (push_writes s w f at) on ends = cc
pop-Step u (push_stores_w s w f at) on ends = cc
pop-Step u (pop_loads_r s idle) on ends = cc
