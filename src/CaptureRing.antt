-- ===== src/CaptureRing.antt =====
-- The capture queue between the audio thread and the voice thread: `rv_spsc_pcm_ring_t` of
-- src/voice.c, each operation taken as one step. A frame is the list of its `count` samples.
pub mod Refine
pub mod Threads
mod Examples
use residual_engine_audio.Base.{
  ℕ, Bool, true, false, ◌||◌, Option, some, none, List, [], leb, ltb, ◌==◌, if◌then◌else◌, length,
}
use residual_engine_audio.Base.Int.{ℤ}
use residual_engine_audio.Ring.{Ring, init, store, front, advance, count, is_empty}

abbrev pub capture_max_samples : ℕ
capture_max_samples = 2880

abbrev pub capture_ring_cap : ℕ
capture_ring_cap = 16

abbrev pub CaptureRing : Type 0
CaptureRing = Ring (List ℤ)

unfoldable pub ring_init : CaptureRing
unfolding init
ring_init = init capture_ring_cap []

unfoldable pub ring_push : CaptureRing → List ℤ → CaptureRing × Bool
ring_push q samples =
    let n = length samples in
    if leb capture_ring_cap (count q)
    then (q, false)
    else if n == 0 || ltb capture_max_samples n
    then (q, false)
    else (store capture_ring_cap [] q samples, true)

unfoldable pub ring_pop : CaptureRing → Option (List ℤ) × CaptureRing
ring_pop q = if is_empty q then (none, q) else (some (front capture_ring_cap [] q), advance q)
