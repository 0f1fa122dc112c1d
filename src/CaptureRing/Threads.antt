-- ===== src/CaptureRing/Threads.antt =====
-- The capture queue under its two threads: the audio thread runs `rv_ring_push` and the voice
-- thread `rv_ring_pop` of src/voice.c, one access to shared memory at a time, in any order.
pub mod Accesses
pub mod Fifo
pub mod Alone
pub mod Ends
pub mod Call
mod Examples
use residual_engine_audio.Base.{
  ℕ, ◌+◌, ◌%◌, ◌≤◌, ◌<◌, ◌≡◌, ◌≢◌, ◌⊎◌, List, [], ◌∷◌, ◌++◌, length, get_or, set, u32, sub32,
}
use residual_engine_audio.Base.Int.{ℤ}
use residual_engine_audio.CaptureRing.{CaptureRing, capture_ring_cap, capture_max_samples}

-- Where the audio thread is: between two calls, with `w` loaded, with `r` loaded too and the tests
-- passed, and with the slot written.
pub data Producer : Type 0 where
  p_idle : Producer
  p_loaded : ℕ → List ℤ → Producer
  p_writing : ℕ → List ℤ → Producer
  p_written : ℕ → List ℤ → Producer

-- Where the voice thread is: between two calls, with `r` loaded, with `w` loaded too and the queue
-- not empty, and with the slot copied.
pub data Consumer : Type 0 where
  c_idle : Consumer
  c_loaded : ℕ → Consumer
  c_reading : ℕ → Consumer
  c_copied : ℕ → List ℤ → Consumer

-- The queue, the two threads, the frames that pushes have said to be taken, and those that pops
-- have returned, in order.
pub record Threads : Type 0 where
  pub ring : CaptureRing
  pub producer : Producer
  pub consumer : Consumer
  pub sent : List (List ℤ)
  pub got : List (List ℤ)

-- One access by one thread. While a slot is written, it may hold anything.
pub data Step : Threads → Threads → Type 0 where
  push_loads_w :
      (s : Threads) (f : List ℤ)
      → s.producer ≡ p_idle
      → Step s (record s { producer = p_loaded s.ring.w f })
  push_refuses :
      (s : Threads) (w : ℕ) (f : List ℤ)
      → s.producer ≡ p_loaded w f
      → (capture_ring_cap ≤ sub32 w s.ring.r) ⊎ (length f ≡ 0) ⊎ (capture_max_samples < length f)
      → Step s (record s { producer = p_idle })
  push_loads_r :
      (s : Threads) (w : ℕ) (f : List ℤ)
      → s.producer ≡ p_loaded w f
      → sub32 w s.ring.r < capture_ring_cap
      → 0 < length f
      → length f ≤ capture_max_samples
      → Step s (record s { producer = p_writing w f })
  push_scribbles :
      (s : Threads) (w : ℕ) (f junk : List ℤ)
      → s.producer ≡ p_writing w f
      → Step s (record s {
        ring = record (s.ring) { slots = set s.ring.slots (w % capture_ring_cap) junk };
      })
  push_writes :
      (s : Threads) (w : ℕ) (f : List ℤ)
      → s.producer ≡ p_writing w f
      → Step s (record s {
        ring = record (s.ring) { slots = set s.ring.slots (w % capture_ring_cap) f };
        producer = p_written w f;
      })
  push_stores_w :
      (s : Threads) (w : ℕ) (f : List ℤ)
      → s.producer ≡ p_written w f
      → Step s (record s {
        ring = record (s.ring) { w = u32 (w + 1) };
        producer = p_idle;
        sent = s.sent ++ (f ∷ []);
      })
  pop_loads_r :
      (s : Threads) → s.consumer ≡ c_idle → Step s (record s { consumer = c_loaded s.ring.r })
  pop_finds_none :
      (s : Threads) (r : ℕ)
      → s.consumer ≡ c_loaded r
      → r ≡ s.ring.w
      → Step s (record s { consumer = c_idle })
  pop_loads_w :
      (s : Threads) (r : ℕ)
      → s.consumer ≡ c_loaded r
      → r ≢ s.ring.w
      → Step s (record s { consumer = c_reading r })
  pop_copies :
      (s : Threads) (r : ℕ)
      → s.consumer ≡ c_reading r
      → Step s (record s { consumer = c_copied r (get_or s.ring.slots (r % capture_ring_cap) []) })
  pop_stores_r :
      (s : Threads) (r : ℕ) (f : List ℤ)
      → s.consumer ≡ c_copied r f
      → Step s (record s {
        ring = record (s.ring) { r = u32 (r + 1) };
        consumer = c_idle;
        got = s.got ++ (f ∷ []);
      })

-- Any number of accesses.
pub data Steps : Threads → Threads → Type 0 where
  stay : (s : Threads) → Steps s s
  step : {s t u : Threads} → Step s t → Steps t u → Steps s u
