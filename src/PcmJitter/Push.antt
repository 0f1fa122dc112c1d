-- ===== src/PcmJitter/Push.antt =====
-- What a push does to the sounds of all numbers.
use residual_engine_audio.Base.{
  ℕ, ◌%◌, ◌≡◌, ◌≢◌, refl, ap, sym, arith, Bool, true, false, not, List, ◌==◌, ==_iff, ==_ne,
  take_all, if◌then◌else◌, length, take, Bool-cases, inl, inr, get_or-set_self, get_or-set_ne, ltb,
  sub16,
}
use residual_engine_audio.Base.Int.{ℤ}
use residual_engine_audio.PcmJitter.{
  PcmFrame, PcmJitter, pcm_jitter_cap, pcm_frame_samples, silence, zero_frame, store_frame,
  pcm_jitter_push,
}
use residual_engine_audio.PcmJitter.Play.{IsValid, sound, sound_in}

-- What a push stores.
sound-store :
    (jb : PcmJitter) (seq : ℕ) (pcm : List ℤ) (s : ℕ)
    → length jb.frames ≡ pcm_jitter_cap
    → length pcm ≡ pcm_frame_samples
    → sound_in (store_frame jb seq pcm) s ≡ (
        if s == seq
        then pcm
        else if s % pcm_jitter_cap == seq % pcm_jitter_cap
        then silence
        else sound_in jb.frames s)
sound-store jb seq pcm s sized full =
    let f : PcmFrame = record { seq = seq; valid = true; pcm = take pcm_frame_samples pcm } in
    let i = seq % pcm_jitter_cap in
    elim (Bool-cases (s % pcm_jitter_cap == i)) [
      | inl e ↦
          let same : s % pcm_jitter_cap ≡ i = (==_iff (s % pcm_jitter_cap) i).0 e in
          let whole = take_all pcm_frame_samples pcm (omega (arith, full)) in
          rw (e, same, get_or-set_self jb.frames i f zero_frame (omega (arith, sized)), whole)
            (flip (seq == s) (s == seq) (==_sym seq s))
      | inr e ↦
          let ne : i ≢ s % pcm_jitter_cap = ground arith in
          let other : (s == seq) ≡ false =
            ==_ne s seq (λ is. ne (ap (λ k. k % pcm_jitter_cap) (sym is))) in
          rw (e, other, get_or-set_ne jb.frames i (s % pcm_jitter_cap) f zero_frame ne) refl
    ]
  where
    ==_sym : (a b : ℕ) → (a == b) ≡ (b == a)
    ==_sym a b = ground arith

    flip : (a b : Bool) → a ≡ b → (if a then pcm else silence) ≡ (if b then pcm else silence)
    flip a b e = ap (λ t. if t then pcm else silence) e

-- A push of a whole frame makes it the sound of its number, silences the others of its slot, and
-- leaves the sounds of all other slots; the first push also says which number is due.
pub sound-push :
    (jb : PcmJitter) (seq : ℕ) (pcm : List ℤ) (s : ℕ)
    → IsValid jb
    → length pcm ≡ pcm_frame_samples
    → (sound (pcm_jitter_push jb seq pcm) s ≡ (
        if s == seq
        then pcm
        else if s % pcm_jitter_cap == seq % pcm_jitter_cap
        then silence
        else sound jb s))
      × ((pcm_jitter_push jb seq pcm).started ≡ true)
      × ((pcm_jitter_push jb seq pcm).next_play_seq
          ≡ (if jb.started then jb.next_play_seq else seq))
unfolding sound pcm_jitter_push
sound-push jb seq pcm s v full = by_started jb.started refl
  where
    branch : Bool → PcmJitter
    branch on =
        if not on
        then (record {
          frames = store_frame jb seq pcm;
          next_play_seq = seq;
          highest_seq_seen = seq;
          started = true;
        })
        else (record jb {
          frames = store_frame jb seq pcm;
          highest_seq_seen =
              if ltb (sub16 seq jb.highest_seq_seen) 0x8000 then seq else jb.highest_seq_seen;
        })

    stored : sound_in (store_frame jb seq pcm) s ≡ (
        if s == seq
        then pcm
        else if s % pcm_jitter_cap == seq % pcm_jitter_cap
        then silence
        else sound jb s)
    stored = sound-store jb seq pcm s v.sized full

    by_started :
        (on : Bool)
        → jb.started ≡ on
        → (sound_in (branch on).frames s ≡ (
            if s == seq
            then pcm
            else if s % pcm_jitter_cap == seq % pcm_jitter_cap
            then silence
            else sound jb s))
          × ((branch on).started ≡ true)
          × ((branch on).next_play_seq ≡ (if on then jb.next_play_seq else seq))
    by_started true e = (stored, e, refl)
    by_started false e = (stored, refl, refl)
