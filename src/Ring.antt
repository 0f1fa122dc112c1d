-- ===== src/Ring.antt =====
-- What the queues of the engine share: a ring of slots with two free-running `uint32_t`
-- counters, `w` for the next write and `r` for the next read, each reduced only to index a slot.
-- (`rv_event_queue_t` in src/rv_event_queue.h; `out_q`, `rv_spsc_pcm_ring_t` in src/voice.c.)
pub mod Laws
pub mod Writing
use residual_engine_audio.Base.{
  ℕ, ◌+◌, ◌%◌, ◌^◌, ◌<◌, ◌≢◌, Bool, true, false, Option, some, none, List, leb, ◌==◌, if◌then◌else◌,
  get_or, set, replicate, u32, sub32,
}

pub record Ring {ℓ} (A : Type ℓ) : Type ℓ where
  pub slots : List A
  pub r : ℕ
  pub w : ℕ

-- What a capacity has to satisfy. Counters wrap at 2 ^ 32, so `cap` must divide that.
pub record RingSize (cap : ℕ) : Type 0 where
  pub positive : 0 < cap
  pub small : cap < 2 ^ 32
  pub distinct : (r k : ℕ) → 0 < k → k < cap → u32 (r + k) % cap ≢ r % cap

-- `d` is what a slot holds after `memset`.
module _ {ℓ} {A : Type ℓ} (cap : ℕ) (d : A) where
  unfoldable pub init : Ring A
  init = record { slots = replicate cap d; r = 0; w = 0 }

  unfoldable pub store : Ring A → A → Ring A
  store q x = record q { slots = set q.slots (q.w % cap) x; w = u32 (q.w + 1) }

  -- The slot that is read next.
  unfoldable pub front : Ring A → A
  front q = get_or q.slots (q.r % cap) d

module _ {ℓ} {A : Type ℓ} where
  abbrev pub count : Ring A → ℕ
  count q = sub32 q.w q.r

  abbrev pub is_empty : Ring A → Bool
  is_empty q = q.r == q.w

  unfoldable pub advance : Ring A → Ring A
  advance q = record q { r = u32 (q.r + 1) }
