-- ===== src/PcmJitter/Play.antt =====
-- What the buffer plays for each sequence number.
use residual_engine_audio.Base.{
  ℕ, zero, suc, ◌+◌, ◌%◌, ◌^◌, ◌≤◌, ◌<◌, ◌≡◌, ◌≢◌, refl, ap, ap₂, sym, ◌∙◌, arith, Bool, true,
  false, ◌&&◌, not, Option, some, none, List, [], ◌∷◌, ◌==◌, if◌then◌else◌, length, length-set,
  get_or, u16, get_or-set_ne,
}
use residual_engine_audio.Base.Int.{ℤ}
use residual_engine_audio.PcmJitter.{
  PcmFrame, PcmJitter, pcm_jitter_cap, silence, zero_frame, slot_of, is_at, clear_frame,
  pcm_jitter_pop, play,
}

pub record IsValid (jb : PcmJitter) : Type 0 where
  pub sized : length jb.frames ≡ pcm_jitter_cap
  pub next_fits : jb.next_play_seq < 2 ^ 16

abbrev pub sound_in : List PcmFrame → ℕ → List ℤ
sound_in frames seq =
    let f = get_or frames (seq % pcm_jitter_cap) zero_frame in
    if f.valid && f.seq == seq then f.pcm else silence

-- What is to be heard for a number: its frame if the buffer holds it, else silence.
unfoldable pub sound : PcmJitter → ℕ → List ℤ
sound jb seq = sound_in jb.frames seq

-- The sounds of so many numbers in turn.
unfoldable pub upcoming : ℕ → PcmJitter → ℕ → List (List ℤ)
unfolding sound
upcoming zero jb seq = []
upcoming (suc n) jb seq = sound jb seq ∷ upcoming n jb (u16 (seq + 1))

-- The three branches of a pop and of a push.
three_ways :
    {A : Type 0} (x y z : A) (on at : Bool)
    → on ≡ true
    → (if not on then x else if at then y else z) ≡ (if at then y else z)
three_ways x y z true at e = refl
three_ways x y z false at e = absurd (cc e)

-- A pop, once the buffer is started.
after_pop : PcmJitter → Bool → PcmJitter
after_pop jb true = record jb {
  frames = clear_frame jb jb.next_play_seq;
  next_play_seq = u16 (jb.next_play_seq + 1);
}
after_pop jb false = record jb { next_play_seq = u16 (jb.next_play_seq + 1) }

popped : PcmJitter → PcmJitter
unfolding after_pop
popped jb = after_pop jb (is_at jb jb.next_play_seq)

pop-sounds :
    (jb : PcmJitter)
    → jb.started ≡ true
    → pcm_jitter_pop jb ≡ (some (sound jb jb.next_play_seq), popped jb)
unfolding pcm_jitter_pop sound popped
pop-sounds jb on =
    three_ways _ _ _ jb.started (is_at jb jb.next_play_seq) on ∙ by_slot (is_at jb jb.next_play_seq)
  where
    branch : Bool → Option (List ℤ) × PcmJitter
    branch at =
        if at
        then (
          some (slot_of jb jb.next_play_seq).pcm,
          record jb {
            frames = clear_frame jb jb.next_play_seq;
            next_play_seq = u16 (jb.next_play_seq + 1);
          },
        )
        else (some silence, record jb { next_play_seq = u16 (jb.next_play_seq + 1) })

    by_slot :
        (at : Bool)
        → branch at
          ≡ (some (if at then (slot_of jb jb.next_play_seq).pcm else silence), after_pop jb at)
    by_slot true = refl
    by_slot false = refl

-- What a pop leaves: a started, valid buffer, with the next number due.
pop-kept :
    (jb : PcmJitter) (at : Bool)
    → IsValid jb
    → IsValid (after_pop jb at)
      × ((after_pop jb at).started ≡ jb.started)
      × ((after_pop jb at).next_play_seq ≡ u16 (jb.next_play_seq + 1))
unfolding after_pop
pop-kept jb true v =
    (record { sized = length-set jb.frames _ _ ∙ v.sized; next_fits = omega arith }, refl, refl)
pop-kept jb false v = (record { sized = v.sized; next_fits = omega arith }, refl, refl)

-- And the sound of every number of another slot.
sound-after_pop :
    (jb : PcmJitter) (at : Bool) (s : ℕ)
    → s % pcm_jitter_cap ≢ jb.next_play_seq % pcm_jitter_cap
    → sound (after_pop jb at) s ≡ sound jb s
unfolding sound after_pop
sound-after_pop jb true s ne =
    let cleared = record (slot_of jb jb.next_play_seq) { valid = false } in
    ap (λ f. if f.valid && f.seq == s then f.pcm else silence)
      (get_or-set_ne jb.frames (jb.next_play_seq % pcm_jitter_cap) (s % pcm_jitter_cap) cleared
        zero_frame (λ same. ne (sym same)))
sound-after_pop jb false s ne = refl

-- The next 63 numbers are of other slots.
apart : (q k : ℕ) → 0 < k → k < 64 → u16 (q + k) % 64 ≢ q % 64
apart q k pos lt e = omega (arith, e)

upcoming-pop :
    (n k : ℕ) (jb : PcmJitter) (at : Bool)
    → 0 < k
    → n + k ≤ 64
    → upcoming n (after_pop jb at) (u16 (jb.next_play_seq + k))
      ≡ upcoming n jb (u16 (jb.next_play_seq + k))
unfolding upcoming
upcoming-pop zero k jb at pos fits = refl
upcoming-pop (suc n) k jb at pos fits =
    let q = jb.next_play_seq in
    let next : u16 (u16 (q + k) + 1) ≡ u16 (q + (k + 1)) = omega arith in
    ap₂ ◌∷◌ (sound-after_pop jb at (u16 (q + k)) (apart q k pos (omega arith))) (
      ap (upcoming n (after_pop jb at)) next
      ∙ upcoming-pop n (k + 1) jb at (omega arith) (omega arith)
      ∙ ap (upcoming n jb) (sym next))

play-suc :
    (n : ℕ) (jb : PcmJitter) (frame : List ℤ) (jb' : PcmJitter)
    → pcm_jitter_pop jb ≡ (some frame, jb')
    → play (suc n) jb ≡ frame ∷ play n jb'
unfolding play
play-suc n jb frame jb' e = ap after e
  where
    after : Option (List ℤ) × PcmJitter → List (List ℤ)
    after o = elim o.0 [ none ↦ [] | some frame ↦ frame ∷ play n o.1 ]

-- From a started, valid buffer as many frames are played as are asked for, up to 64: for each
-- number in turn, from the one that is due on, its frame if the buffer holds it, and silence if it
-- does not.
pub play-upcoming :
    (n : ℕ) (jb : PcmJitter)
    → jb.started ≡ true
    → IsValid jb
    → n ≤ 64
    → play n jb ≡ upcoming n jb jb.next_play_seq
unfolding play upcoming popped
play-upcoming zero jb on v fits = refl
play-upcoming (suc n) jb on v fits =
    let q = jb.next_play_seq in
    let at = is_at jb q in
    let (valid, still, due) = pop-kept jb at v in
    play-suc n jb (sound jb q) (popped jb) (pop-sounds jb on)
    ∙ ap (λ l. sound jb q ∷ l)
        (play-upcoming n (after_pop jb at) (still ∙ on) valid (omega arith)
          ∙ ap (upcoming n (after_pop jb at)) due
          ∙ upcoming-pop n 1 jb at (omega arith) (omega arith))
