-- ===== src/CaptureRing/Refine.antt =====
-- The capture queue is a bounded queue of 16 frames of 1 to 2880 samples.
use residual_engine_audio.Base.{
  ◌≤◌, ◌<◌, ◌≡◌, sym, List, [], ◌∷◌, arith, length, Bool, false, ◌&&◌, ◌||◌, leb, ltb, ◌==◌,
  Bool-cases, not, if◌then◌else◌, inl, inr, All, All-snoc,
}
use residual_engine_audio.Base.Int.{ℤ}
use residual_engine_audio.Queue
use residual_engine_audio.Ring.{RingSize, front, advance, count, is_empty}
use residual_engine_audio.Ring.Laws
use residual_engine_audio.Ring.Laws.{contents-store, push-full, push-room, pop-empty, pop-held}
use residual_engine_audio.CaptureRing.{
  CaptureRing, capture_ring_cap, capture_max_samples, ring_init, ring_push, ring_pop,
}

pub size_16 : RingSize 16
size_16 = record { positive = omega arith; small = omega arith; distinct = λ r k p q. omega arith }

abbrev pub contents : CaptureRing → List (List ℤ)
contents = Laws.contents capture_ring_cap []

-- A frame that the queue takes.
abbrev pub IsFrame : List ℤ → Type 0
IsFrame f = (0 < length f) × (length f ≤ capture_max_samples)

pub record IsValid (q : CaptureRing) : Type 0 where
  pub ring : Laws.IsValid capture_ring_cap [] q
  pub frames : All IsFrame (contents q)

abbrev pub is_frame : List ℤ → Bool
is_frame f = leb 1 (length f) && leb (length f) capture_max_samples

-- What `rv_ring_push` promises, on the list of the frames that wait.
unfoldable pub push_spec : List (List ℤ) → List ℤ → List (List ℤ) × Bool
push_spec q f = if is_frame f then Queue.push capture_ring_cap q f else (q, false)

pub ring_init-IsValid : IsValid ring_init
unfolding ring_init Laws.contents
ring_init-IsValid = record { ring = Laws.init-IsValid capture_ring_cap []; frames = tt }

-- A frame in the queue is empty or larger than a slot: both ends of the test of `rv_ring_push`.
is_frame_iff :
    (f : List ℤ) → (length f == 0 || ltb capture_max_samples (length f)) ≡ not (is_frame f)
is_frame_iff f = ground arith

-- On a valid queue `rv_ring_push` takes a frame of 1 to 2880 samples while fewer than 16 wait,
-- puts it behind the others, and keeps the invariant; it drops any other and leaves the frames
-- that wait.
pub ring_push_refines :
    (q : CaptureRing) (f : List ℤ)
    → IsValid q
    → let (q', done) = ring_push q f in
      ((contents q', done) ≡ push_spec (contents q) f) × IsValid q'
unfolding ring_push push_spec
ring_push_refines q f v = elim (Bool-cases (is_frame f)) [
  | inl a ↦ elim (Bool-cases (leb capture_ring_cap (count q))) [
    | inl c ↦ (rw (c, a) (sym (push-full capture_ring_cap [] q f c)), rw c v)
    | inr c ↦
        let (valid, pushed) = push-room capture_ring_cap [] size_16 q f v.ring c in
        (
          rw (c, is_frame_iff f, a) (sym pushed),
          rw (c, is_frame_iff f, a)
              (record {
                ring = valid;
                frames =
                    rw (contents-store capture_ring_cap [] size_16 q f v.ring (ground arith))
                      (All-snoc IsFrame (contents q) f v.frames (ground arith));
              }),
        )
  ]
  | inr a ↦ elim (Bool-cases (leb capture_ring_cap (count q))) [
    | inl c ↦ (rw (c, a), rw c v)
    | inr c ↦ (rw (c, is_frame_iff f, a), rw (c, is_frame_iff f, a) v)
  ]
]

-- `rv_ring_pop` gives the oldest frame and keeps the others, or says that none waits; it keeps the
-- invariant.
pub ring_pop_refines :
    (q : CaptureRing)
    → IsValid q
    → let (out, q') = ring_pop q in ((out, contents q') ≡ Queue.pop (contents q)) × IsValid q'
unfolding ring_pop Queue.pop
ring_pop_refines q v = elim (Bool-cases (is_empty q)) [
  | inl e ↦ (rw (e, pop-empty capture_ring_cap [] q v.ring e), rw e v)
  | inr e ↦
      let (ring, is) = pop-held capture_ring_cap [] q v.ring e in
      let sized : All IsFrame (front capture_ring_cap [] q ∷ contents (advance q)) =
        rw is at v.frames in
      (rw (e, is), rw e (record { ring = ring; frames = sized.1 }))
]
