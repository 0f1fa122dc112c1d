-- ===== src/OpusJitter/View.antt =====
-- The buffer as a partial map from sequence numbers to payloads: what it holds, and how a push
-- and a pop change that.
use residual_engine_audio.Base.{
  ℕ, ◌+◌, ◌%◌, ◌^◌, ◌≤◌, ◌<◌, ◌≡◌, ◌≢◌, refl, true, false, ◌&&◌, Option, some, none, List, arith,
  ◌==◌, if◌then◌else◌, length, get_or, set, take, drop, u16, Bool-cases, inl, inr, length-set,
  get_or-set_self, get_or-set_ne, length-replicate, get_or-replicate, take-append, ==_iff,
}
use residual_engine_audio.OpusJitter.{
  Packet, Jitter, jitter_cap, opus_max_packet, zero_packet, slot_of, is_at, fill_slot, copy_over,
  jitter_init, jitter_push,
}

-- The payload of a packet, if it is the packet of that number.
abbrev pub payload_at : Packet → ℕ → Option (List ℕ)
payload_at p seq = if p.valid && p.seq == seq then some (take p.len p.bytes) else none

abbrev pub held_in : List Packet → ℕ → Option (List ℕ)
held_in packets seq = payload_at (get_or packets (seq % jitter_cap) zero_packet) seq

-- The payload that is buffered for a sequence number.
unfoldable pub held : Jitter → ℕ → Option (List ℕ)
held jb seq = held_in jb.packets seq

pub record IsValid (jb : Jitter) : Type 0 where
  pub sized : length jb.packets ≡ jitter_cap
  pub next_fits : jb.next_play_seq < 2 ^ 16

-- A payload that the buffer takes.
abbrev pub IsPayload : List ℕ → Type 0
IsPayload bytes = (0 < length bytes) × (length bytes ≤ opus_max_packet)

held_in-set :
    (packets : List Packet) (i : ℕ) (p : Packet) (s : ℕ)
    → length packets ≡ jitter_cap
    → i < jitter_cap
    → held_in (set packets i p) s
      ≡ (if s % jitter_cap == i then payload_at p s else held_in packets s)
held_in-set packets i p s sized h = elim (Bool-cases (s % jitter_cap == i)) [
  | inl e ↦
      let same : s % jitter_cap ≡ i = (==_iff (s % jitter_cap) i).0 e in
      rw (e, same, get_or-set_self packets i p zero_packet (omega arith))
  | inr e ↦ rw (e, get_or-set_ne packets i (s % jitter_cap) p zero_packet (ground arith))
]

-- What a push leaves for each sequence number.
abbrev pub held_after_push : Jitter → ℕ → List ℕ → ℕ → Option (List ℕ)
held_after_push jb seq bytes s =
    if s == seq then some bytes else if s % jitter_cap == seq % jitter_cap then none else held jb s

packets-push :
    (jb : Jitter) (seq : ℕ) (bytes : List ℕ)
    → IsPayload bytes
    → (jitter_push jb seq (some bytes)).packets ≡ fill_slot jb seq bytes
unfolding jitter_push
packets-push jb seq bytes h = ground arith

-- A push of a payload of 1 to 600 bytes into a valid buffer holds it under its sequence number
-- and drops whatever shared its slot; all other numbers keep what they held.
pub held-push :
    (jb : Jitter) (seq : ℕ) (bytes : List ℕ) (s : ℕ)
    → IsValid jb
    → IsPayload bytes
    → held (jitter_push jb seq (some bytes)) s ≡ held_after_push jb seq bytes s
unfolding held
held-push jb seq bytes s v h =
    let i = seq % jitter_cap in
    let p = get_or jb.packets i zero_packet in
    let filled : Packet = record {
      seq = seq;
      len = length bytes;
      valid = true;
      bytes = copy_over bytes p.bytes;
    } in
    rw (packets-push jb seq bytes h, held_in-set jb.packets i filled s v.sized (omega arith))
      (ground (arith, take-append (length bytes) bytes (drop (length bytes) p.bytes) refl))

pub push-IsValid :
    (jb : Jitter) (seq : ℕ) (bytes : List ℕ)
    → IsValid jb
    → IsPayload bytes
    → seq < 2 ^ 16
    → IsValid (jitter_push jb seq (some bytes))
unfolding jitter_push
push-IsValid jb seq bytes v h fits = ground (
  arith,
  length-set jb.packets (seq % jitter_cap) (record {
    seq = seq;
    len = length bytes;
    valid = true;
    bytes = copy_over bytes (slot_of jb seq).bytes;
  }),
)

-- The first push decides where playback starts; later ones do not move it.
pub next-push :
    (jb : Jitter) (seq : ℕ) (bytes : List ℕ)
    → IsPayload bytes
    → ((jitter_push jb seq (some bytes)).started ≡ true)
      × ((jitter_push jb seq (some bytes)).next_play_seq
          ≡ (if jb.started then jb.next_play_seq else seq))
unfolding jitter_push
next-push jb seq bytes h = ground arith

pub init-IsValid : IsValid jitter_init
unfolding jitter_init
init-IsValid = record { sized = length-replicate jitter_cap zero_packet; next_fits = omega arith }

pub held-init : (s : ℕ) → held jitter_init s ≡ none
unfolding held jitter_init
held-init s = rw (get_or-replicate jitter_cap (s % jitter_cap) zero_packet)

-- Whether a number is held is what the buffer tests.
pub is_at-held : (jb : Jitter) (s : ℕ) → is_at jb s ≡ true → held jb s ≢ none
unfolding held
is_at-held jb s e = ground arith

pub held-is_at : (jb : Jitter) (s : ℕ) → is_at jb s ≡ false → held jb s ≡ none
unfolding held
held-is_at jb s e = ground arith

-- The slot of a packet that was played.
pub held-clear :
    (jb : Jitter) (s : ℕ)
    → IsValid jb
    → held
        (record jb {
          packets =
              set jb.packets
                (jb.next_play_seq % jitter_cap)
                (record (slot_of jb jb.next_play_seq) { valid = false });
          next_play_seq = u16 (jb.next_play_seq + 1);
        })
        s
      ≡ (if s % jitter_cap == jb.next_play_seq % jitter_cap then none else held jb s)
unfolding held
held-clear jb s v =
    held_in-set jb.packets (jb.next_play_seq % jitter_cap)
      (record (slot_of jb jb.next_play_seq) { valid = false }) s v.sized (omega arith)

-- A push keeps the invariant, also when it refuses the payload.
pub push-IsValid_any :
    (jb : Jitter) (seq : ℕ) (bytes? : Option (List ℕ))
    → IsValid jb
    → seq < 2 ^ 16
    → IsValid (jitter_push jb seq bytes?)
unfolding jitter_push
push-IsValid_any jb seq none v fits = v
push-IsValid_any jb seq (some bytes) v fits = ground (
  arith,
  length-set jb.packets (seq % jitter_cap) (record {
    seq = seq;
    len = length bytes;
    valid = true;
    bytes = copy_over bytes (slot_of jb seq).bytes;
  }),
)
