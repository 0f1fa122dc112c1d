-- ===== src/OpusJitter.antt =====
-- The jitter buffer of one speaker: src/rv_opus_jitter.h and src/rv_opus_jitter.c.
pub mod View
pub mod Window
pub mod Play
pub mod Stream
pub mod Stall
mod Examples
use residual_engine_audio.Base.{
  ℕ, zero, suc, ◌+◌, ◌%◌, Bool, true, false, ◌&&◌, ◌||◌, Option, some, none, List, ◌++◌, ltb, ◌==◌,
  if◌then◌else◌, length, get_or, set, take, drop, replicate, u16,
}

abbrev pub jitter_cap : ℕ
jitter_cap = 128

abbrev pub opus_max_packet : ℕ
opus_max_packet = 600

pub record Packet : Type 0 where
  pub seq : ℕ
  pub len : ℕ
  pub valid : Bool
  pub bytes : List ℕ

pub record Jitter : Type 0 where
  pub packets : List Packet
  pub next_play_seq : ℕ
  pub started : Bool

abbrev pub zero_packet : Packet
zero_packet = record { seq = 0; len = 0; valid = false; bytes = replicate opus_max_packet 0 }

abbrev pub slot_for_seq : ℕ → ℕ
slot_for_seq seq = seq % jitter_cap

-- The packet in the slot of a sequence number, and whether it is the packet of that number.
abbrev pub slot_of : Jitter → ℕ → Packet
slot_of jb seq = get_or jb.packets (slot_for_seq seq) zero_packet

abbrev pub is_at : Jitter → ℕ → Bool
is_at jb seq = let p = slot_of jb seq in p.valid && p.seq == seq

-- The loop of `has_future_packet` at `ahead`, with so many rounds left.
unfoldable pub has_future_from : Jitter → ℕ → ℕ → ℕ → Bool
has_future_from jb want zero ahead = false
has_future_from jb want (suc rounds) ahead =
    let rest = has_future_from jb want rounds (ahead + 1) in
    if is_at jb (u16 (want + ahead)) then true else rest

unfoldable pub has_future_packet : Jitter → ℕ → Bool
unfolding has_future_from
has_future_packet jb want = has_future_from jb want 127 1

unfoldable pub jitter_init : Jitter
jitter_init = record {
  packets = replicate jitter_cap zero_packet;
  next_play_seq = 0;
  started = false;
}

-- The copy loop: the first bytes of the slot are overwritten, the others stay.
abbrev pub copy_over : List ℕ → List ℕ → List ℕ
copy_over bytes old = bytes ++ drop (length bytes) old

abbrev pub fill_slot : Jitter → ℕ → List ℕ → List Packet
fill_slot jb seq bytes = set jb.packets (slot_for_seq seq) (record {
  seq = seq;
  len = length bytes;
  valid = true;
  bytes = copy_over bytes (slot_of jb seq).bytes;
})

-- `none` is a null `data`.
unfoldable pub jitter_push : Jitter → ℕ → Option (List ℕ) → Jitter
jitter_push jb seq none = jb
jitter_push jb seq (some bytes) =
    if length bytes == 0 || ltb opus_max_packet (length bytes)
    then jb
    else if jb.started
    then record jb { packets = fill_slot jb seq bytes }
    else record { packets = fill_slot jb seq bytes; next_play_seq = seq; started = true }

abbrev pub clear_slot : Jitter → ℕ → List Packet
clear_slot jb seq = set jb.packets (slot_for_seq seq) (record (slot_of jb seq) { valid = false })

-- `none` is the return value 0. `some none` asks for concealment of a lost packet: a null pointer
-- and the length 0. `some (some bytes)` is the `out_len` bytes at `out_data`.
unfoldable pub jitter_pop : Jitter → Option (Option (List ℕ)) × Jitter
jitter_pop jb =
    let want = jb.next_play_seq in
    let p = slot_of jb want in
    if jb.started
    then if is_at jb want
      then (
        some (some (take p.len p.bytes)),
        record jb { packets = clear_slot jb want; next_play_seq = u16 (want + 1) },
      )
      else if has_future_packet jb want
      then (some none, record jb { next_play_seq = u16 (want + 1) })
      else (none, jb)
    else (none, jb)
