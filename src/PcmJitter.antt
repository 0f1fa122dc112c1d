-- ===== src/PcmJitter.antt =====
-- The jitter buffer of decoded frames: src/rv_pcm_jitter.h and src/rv_pcm_jitter.c. Nothing else in
-- the library calls it.
pub mod Play
pub mod Push
mod Examples
use residual_engine_audio.Base.{
  ℕ, zero, suc, ◌+◌, ◌%◌, Bool, true, false, ◌&&◌, not, Option, some, none, List, [], ◌∷◌, ltb,
  ◌==◌, if◌then◌else◌, get_or, set, take, replicate, u16, sub16,
}
use residual_engine_audio.Base.Int.{ℤ, pos}

abbrev pub pcm_frame_samples : ℕ
pcm_frame_samples = 960

abbrev pub pcm_jitter_cap : ℕ
pcm_jitter_cap = 64

pub record PcmFrame : Type 0 where
  pub seq : ℕ
  pub valid : Bool
  pub pcm : List ℤ

pub record PcmJitter : Type 0 where
  pub frames : List PcmFrame
  pub next_play_seq : ℕ
  pub highest_seq_seen : ℕ
  pub started : Bool

abbrev pub silence : List ℤ
silence = replicate pcm_frame_samples (pos 0)

abbrev pub zero_frame : PcmFrame
zero_frame = record { seq = 0; valid = false; pcm = silence }

abbrev pub slot_for_seq : ℕ → ℕ
slot_for_seq seq = seq % pcm_jitter_cap

-- The frame in the slot of a sequence number.
abbrev pub slot_of : PcmJitter → ℕ → PcmFrame
slot_of jb seq = get_or jb.frames (slot_for_seq seq) zero_frame

unfoldable pub pcm_jitter_init : PcmJitter
pcm_jitter_init = record {
  frames = replicate pcm_jitter_cap zero_frame;
  next_play_seq = 0;
  highest_seq_seen = 0;
  started = false;
}

-- The caller's array holds at least a frame of samples.
abbrev pub store_frame : PcmJitter → ℕ → List ℤ → List PcmFrame
store_frame jb seq pcm =
    set jb.frames (slot_for_seq seq)
      (record { seq = seq; valid = true; pcm = take pcm_frame_samples pcm })

unfoldable pub pcm_jitter_push : PcmJitter → ℕ → List ℤ → PcmJitter
pcm_jitter_push jb seq pcm =
    if not jb.started
    then (record {
      frames = store_frame jb seq pcm;
      next_play_seq = seq;
      highest_seq_seen = seq;
      started = true;
    })
    else (record jb {
      frames = store_frame jb seq pcm;
      highest_seq_seen =
          if ltb (sub16 seq jb.highest_seq_seen) 0x8000 then seq else jb.highest_seq_seen;
    })

-- The slot of a number once its frame is played, and what is played for it.
abbrev pub clear_frame : PcmJitter → ℕ → List PcmFrame
clear_frame jb want = set jb.frames (slot_for_seq want) (record (slot_of jb want) { valid = false })

abbrev pub is_at : PcmJitter → ℕ → Bool
is_at jb want = (slot_of jb want).valid && (slot_of jb want).seq == want

-- 0 is `none`, and 1 is the frame that is played.
unfoldable pub pcm_jitter_pop : PcmJitter → Option (List ℤ) × PcmJitter
pcm_jitter_pop jb =
    let want = jb.next_play_seq in
    if not jb.started
    then (none, jb)
    else if is_at jb want
    then (
      some (slot_of jb want).pcm,
      record jb { frames = clear_frame jb want; next_play_seq = u16 (want + 1) },
    )
    else (some silence, record jb { next_play_seq = u16 (want + 1) })

-- So many pops: the frames played.
unfoldable pub play : ℕ → PcmJitter → List (List ℤ)
unfolding pcm_jitter_pop
play zero jb = []
play (suc n) jb =
    let (out, jb') = pcm_jitter_pop jb in
    let rest = play n jb' in elim out [ none ↦ [] | some frame ↦ frame ∷ rest ]
