-- ===== src/OpusJitter/Play.antt =====
-- Playback over many pops: a stream with losses comes out in order, one frame for each number.
use residual_engine_audio.Base.{
  ℕ, zero, suc, ◌+◌, ◌^◌, ◌<◌, ◌≡◌, ◌≢◌, refl, ◌∙◌, ap, ap₂, sym, true, Option, some, none, List,
  [], ◌∷◌, arith, u16, Option-cases, ==_ne, inl, inr,
}
use residual_engine_audio.OpusJitter.{Jitter, jitter_cap, jitter_pop}
use residual_engine_audio.OpusJitter.View.{held, IsValid}
use residual_engine_audio.OpusJitter.Window.{Advanced, pop-due, pop-lost}

-- So many pops in a row, and what each returns.
unfoldable pub play : ℕ → Jitter → List (Option (Option (List ℕ)))
play zero jb = []
play (suc n) jb = let (out, jb') = jitter_pop jb in out ∷ play n jb'

-- What a map of payloads holds from a number on, each as the answer of a pop.
unfoldable pub frames : (ℕ → Option (List ℕ)) → ℕ → ℕ → List (Option (Option (List ℕ)))
frames f w zero = []
frames f w (suc n) = some (f w) ∷ frames f (u16 (w + 1)) n

-- While something is held within the window, a pop answers for the number that is due.
pop_next :
    (jb : Jitter) (k : ℕ)
    → IsValid jb
    → jb.started ≡ true
    → k < jitter_cap
    → held jb (u16 (jb.next_play_seq + k)) ≢ none
    → ((jitter_pop jb).0 ≡ some (held jb jb.next_play_seq)) × Advanced jb (jitter_pop jb).1
pop_next jb k v started near h = elim (Option-cases (held jb jb.next_play_seq)) [
  | inr (bytes, due) ↦
      let (out, adv) = pop-due jb bytes v started due in (out ∙ ap some (sym due), adv)
  | inl lost ↦
      let away : k ≢ 0 = λ zero_k. h (ap (held jb) (omega (arith, zero_k, v.next_fits)) ∙ lost) in
      let (out, adv) = pop-lost jb k v started lost (omega arith) near h in
      (out ∙ ap some (sym lost), adv)
]

frames_agree :
    (f g : ℕ → Option (List ℕ)) (w n : ℕ)
    → ((i : ℕ) → i < n → f (u16 (w + i)) ≡ g (u16 (w + i)))
    → w < 2 ^ 16
    → frames f w n ≡ frames g w n
unfolding frames
frames_agree f g w zero h fits = refl
frames_agree f g w (suc n) h fits =
    let first : u16 (w + 0) ≡ w = omega arith in
    ap₂ ◌∷◌ (ap some (rw first at (h 0 (omega arith)))) (
      frames_agree f g (u16 (w + 1)) n
        (λ i lt.
          let there : u16 (u16 (w + 1) + i) ≡ u16 (w + suc i) = omega arith in
          rw there (h (suc i) (omega arith)))
        (omega arith))

-- What a pop that moved on holds further ahead.
ahead_kept :
    (jb jb' : Jitter) (i : ℕ)
    → IsValid jb
    → Advanced jb jb'
    → suc i < jitter_cap
    → held jb' (u16 (u16 (jb.next_play_seq + 1) + i)) ≡ held jb (u16 (jb.next_play_seq + suc i))
ahead_kept jb jb' i v adv near =
    let there : u16 (u16 (jb.next_play_seq + 1) + i) ≡ u16 (jb.next_play_seq + suc i) =
      omega arith in
    let ne : u16 (jb.next_play_seq + suc i) ≢ jb.next_play_seq = omega (arith, v.next_fits) in
    ap (held jb') there ∙ adv.rest (u16 (jb.next_play_seq + suc i)) ∙ rw (==_ne _ _ ne)

-- If a valid buffer that has started holds the number `n` places behind the one that is due, and
-- `n` is below 128, then `n + 1` pops answer for the next `n + 1` numbers in order: with the
-- payload where it is held, and with concealment where it is not.
pub play-frames :
    (n : ℕ) (jb : Jitter)
    → IsValid jb
    → jb.started ≡ true
    → n < jitter_cap
    → held jb (u16 (jb.next_play_seq + n)) ≢ none
    → play (suc n) jb ≡ frames (held jb) jb.next_play_seq (suc n)
unfolding play frames
play-frames zero jb v started near h =
    let (out, adv) = pop_next jb 0 v started near h in ap (λ o. o ∷ []) out
play-frames (suc n) jb v started near h =
    let (out, adv) = pop_next jb (suc n) v started near h in
    let jb' = (jitter_pop jb).1 in
    let w = u16 (jb.next_play_seq + 1) in
    let held_last : held jb' (u16 (jb'.next_play_seq + n)) ≢ none =
      rw (adv.next, ahead_kept jb jb' n v adv near) h in
    let rest = play-frames n jb' adv.valid adv.running (omega arith) held_last in
    let moved = ap (λ t. frames (held jb') t (suc n)) adv.next in
    let kept =
      frames_agree (held jb') (held jb) w (suc n)
        (λ i lt. ahead_kept jb jb' i v adv (omega arith) ∙ ap (held jb) (omega arith))
        (omega arith) in
    ap₂ ◌∷◌ out (rest ∙ moved ∙ kept)
