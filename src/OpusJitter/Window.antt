-- ===== src/OpusJitter/Window.antt =====
-- What `rv_opus_jitter_pop` does, by what is held at the number to be played and in the window of
-- 127 numbers behind it.
use mathlib.Core.Path.{subst}
use residual_engine_audio.Base.{
  ℕ, zero, suc, ◌+◌, ◌%◌, ◌^◌, ◌≤◌, ◌<◌, ◌≡◌, ◌≢◌, refl, ◌∙◌, ap, sym, true, false, some, none,
  List, arith, ◌==◌, if◌then◌else◌, u16, Bool-cases, ==_iff, inl, inr, take, length-set,
}
use residual_engine_audio.OpusJitter.{
  Jitter, jitter_cap, slot_of, is_at, clear_slot, jitter_pop, has_future_from, has_future_packet,
}
use residual_engine_audio.OpusJitter.View.{held, IsValid, is_at-held, held-is_at, held-clear}

future_found :
    (jb : Jitter) (want rounds ahead k : ℕ)
    → ahead ≤ k
    → k < ahead + rounds
    → is_at jb (u16 (want + k)) ≡ true
    → has_future_from jb want rounds ahead ≡ true
unfolding has_future_from
future_found jb want zero ahead k lo hi e = absurd (omega arith)
future_found jb want (suc rounds) ahead k lo hi e = elim (Bool-cases (ahead == k)) [
  | inl same ↦ let is : ahead ≡ k = ground arith in rw (is, e)
  | inr other ↦
      let rest = future_found jb want rounds (ahead + 1) k (ground arith) (omega arith) e in
      elim (Bool-cases (is_at jb (u16 (want + ahead)))) [
        | inl hit ↦ rw hit
        | inr miss ↦ rw (miss, rest)
      ]
]

future_none :
    (jb : Jitter) (want rounds ahead : ℕ)
    → ((k : ℕ) → ahead ≤ k → k < ahead + rounds → is_at jb (u16 (want + k)) ≡ false)
    → has_future_from jb want rounds ahead ≡ false
unfolding has_future_from
future_none jb want zero ahead h = refl
future_none jb want (suc rounds) ahead h = rw (
  h ahead (omega arith) (omega arith),
  future_none jb want rounds (ahead + 1) (λ k lo hi. h k (omega arith) (omega arith)),
)

at_true : (jb : Jitter) (s : ℕ) → held jb s ≢ none → is_at jb s ≡ true
at_true jb s h = elim (Bool-cases (is_at jb s)) [
  | inl e ↦ e
  | inr e ↦ absurd (h (held-is_at jb s e))
]

at_false : (jb : Jitter) (s : ℕ) → held jb s ≡ none → is_at jb s ≡ false
at_false jb s h = elim (Bool-cases (is_at jb s)) [
  | inl e ↦ absurd (is_at-held jb s e h)
  | inr e ↦ e
]

-- What a pop that returns 1 leaves: playback is one number on, and the number that was due is not
-- held any more.
pub record Advanced (jb jb' : Jitter) : Type 0 where
  pub valid : IsValid jb'
  pub running : jb'.started ≡ true
  pub next : jb'.next_play_seq ≡ u16 (jb.next_play_seq + 1)
  pub rest : (s : ℕ) → held jb' s ≡ (if s == jb.next_play_seq then none else held jb s)

held_at :
    (jb : Jitter) (s : ℕ)
    → is_at jb s ≡ true
    → held jb s ≡ some (take (slot_of jb s).len (slot_of jb s).bytes)
unfolding held
held_at jb s e = rw e

shared_slot :
    (jb : Jitter) (s want : ℕ)
    → is_at jb want ≡ true
    → s ≢ want
    → s % jitter_cap ≡ want % jitter_cap
    → held jb s ≡ none
unfolding held
shared_slot jb s want e ne same = ground arith

pop_at :
    (jb : Jitter)
    → jb.started ≡ true
    → is_at jb jb.next_play_seq ≡ true
    → jitter_pop jb ≡ (
      some (some (take (slot_of jb jb.next_play_seq).len (slot_of jb jb.next_play_seq).bytes)),
      record jb {
        packets = clear_slot jb jb.next_play_seq;
        next_play_seq = u16 (jb.next_play_seq + 1);
      },
    )
unfolding jitter_pop
pop_at jb started e = ground arith

pop_miss :
    (jb : Jitter)
    → is_at jb jb.next_play_seq ≡ false
    → jitter_pop jb ≡ (
        if jb.started
        then if has_future_packet jb jb.next_play_seq
          then (some none, record jb { next_play_seq = u16 (jb.next_play_seq + 1) })
          else (none, jb)
        else (none, jb))
unfolding jitter_pop
pop_miss jb e = ground arith

Advanced-due :
    (jb : Jitter)
    → IsValid jb
    → jb.started ≡ true
    → is_at jb jb.next_play_seq ≡ true
    → Advanced jb (record jb {
      packets = clear_slot jb jb.next_play_seq;
      next_play_seq = u16 (jb.next_play_seq + 1);
    })
Advanced-due jb v started e = record {
  valid = record { sized = length-set _ _ _ ∙ v.sized; next_fits = omega arith };
  running = started;
  next = refl;
  rest = λ s. held-clear jb s v ∙ ground (arith, shared_slot jb s jb.next_play_seq);
}

Advanced-lost :
    (jb : Jitter)
    → IsValid jb
    → jb.started ≡ true
    → held jb jb.next_play_seq ≡ none
    → Advanced jb (record jb { next_play_seq = u16 (jb.next_play_seq + 1) })
Advanced-lost jb v started due = record {
  valid = record { sized = v.sized; next_fits = omega arith };
  running = started;
  next = refl;
  rest = unfold held in λ s. absent s;
}
  where
    absent : (s : ℕ) → held jb s ≡ (if s == jb.next_play_seq then none else held jb s)
    absent s = elim (Bool-cases (s == jb.next_play_seq)) [
      | inl same ↦
          let is : s ≡ jb.next_play_seq = (==_iff s jb.next_play_seq).0 same in rw (same, is, due)
      | inr other ↦ rw other
    ]

-- In a valid buffer that has started, the packet that is due is played: its payload is returned,
-- playback moves on by one number, and nothing else that is held changes.
pub pop-due :
    (jb : Jitter) (bytes : List ℕ)
    → IsValid jb
    → jb.started ≡ true
    → held jb jb.next_play_seq ≡ some bytes
    → ((jitter_pop jb).0 ≡ some (some bytes)) × Advanced jb (jitter_pop jb).1
pop-due jb bytes v started h =
    let e = at_true jb jb.next_play_seq (λ no. cc) in
    let is = pop_at jb started e in
    (
      ap (λ r. r.0) is ∙ cc (held_at jb jb.next_play_seq e),
      subst (λ r. Advanced jb r.1) (sym is) (Advanced-due jb v started e),
    )

-- In a valid buffer that has started, the packet that is due is missing and one of the next 127
-- is there: one frame is concealed, and playback moves on by one number.
pub pop-lost :
    (jb : Jitter) (k : ℕ)
    → IsValid jb
    → jb.started ≡ true
    → held jb jb.next_play_seq ≡ none
    → 0 < k
    → k < jitter_cap
    → held jb (u16 (jb.next_play_seq + k)) ≢ none
    → ((jitter_pop jb).0 ≡ some none) × Advanced jb (jitter_pop jb).1
unfolding has_future_packet
pop-lost jb k v started due pos near h =
    let hit = at_true jb (u16 (jb.next_play_seq + k)) h in
    let ahead = future_found jb jb.next_play_seq 127 1 k (omega arith) (omega arith) hit in
    let is : jitter_pop jb ≡ (some none, record jb { next_play_seq = u16 (jb.next_play_seq + 1) }) =
      pop_miss jb (at_false jb jb.next_play_seq due) ∙ ground arith in
    (ap (λ r. r.0) is, subst (λ r. Advanced jb r.1) (sym is) (Advanced-lost jb v started due))

-- Neither the packet that is due nor one of the next 127 is there: the pop returns 0 and changes
-- nothing.
pub pop-idle :
    (jb : Jitter)
    → ((k : ℕ) → k < jitter_cap → held jb (u16 (jb.next_play_seq + k)) ≡ none)
    → jb.next_play_seq < 2 ^ 16
    → jitter_pop jb ≡ (none, jb)
unfolding has_future_packet
pop-idle jb h fits =
    let due : held jb jb.next_play_seq ≡ none = rw (next_itself) at (h 0 (omega arith)) in
    let ahead =
      future_none jb jb.next_play_seq 127 1
        (λ k lo hi. at_false jb (u16 (jb.next_play_seq + k)) (h k (omega arith))) in
    pop_miss jb (at_false jb jb.next_play_seq due) ∙ ground arith
  where
    next_itself : u16 (jb.next_play_seq + 0) ≡ jb.next_play_seq
    next_itself = omega arith

pub pop-IsValid : (jb : Jitter) → IsValid jb → IsValid (jitter_pop jb).1
unfolding jitter_pop
pop-IsValid jb v = ground (
  arith,
  length-set jb.packets (jb.next_play_seq % jitter_cap)
      (record (slot_of jb jb.next_play_seq) { valid = false }),
)
