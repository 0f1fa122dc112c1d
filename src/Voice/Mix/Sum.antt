-- ===== src/Voice/Mix/Sum.antt =====
-- What `rv_voice_mix_output` writes.
use residual_engine_audio.Base.{
  ℕ, zero, suc, ◌≤◌, ◌<◌, ◌≡◌, refl, ap, ◌∙◌, Bool, true, false, ◌||◌, List, [], ◌∷◌, arith, ltb,
  ◌==◌, if◌then◌else◌, not, length, take, get_or, replicate, All, length-replicate,
  get_or-replicate, if_both,
}
use residual_engine_audio.Base.Int.{ℤ, pos, ◌+ℤ◌, ◌≤ℤ◌}
use residual_engine_audio.Voice.State.{Voice, Speaker}
use residual_engine_audio.Voice.Mix.{
  clamp16, int_of_u32, int16_max, int16_min, mix_into, mix_speakers, mix_output,
}
use residual_engine_audio.Voice.Invariant.State.{IsSpeaker, IsValid}

abbrev pub IsInt16 : ℤ → Type 0
IsInt16 x = (int16_min ≤ℤ x) × (x ≤ℤ int16_max)

clamp16-IsInt16 : (x : ℤ) → IsInt16 (clamp16 x)
unfolding clamp16
clamp16-IsInt16 x = ground arith

mix_into-IsInt16 : (out samples : List ℤ) → All IsInt16 out → All IsInt16 (mix_into out samples)
unfolding mix_into
mix_into-IsInt16 [] samples h = tt
mix_into-IsInt16 (o ∷ out) [] h = h
mix_into-IsInt16 (o ∷ out) (s ∷ samples) h =
    (clamp16-IsInt16 (o +ℤ s), mix_into-IsInt16 out samples h.1)

length-mix_into : (out samples : List ℤ) → length (mix_into out samples) ≡ length out
unfolding mix_into
length-mix_into [] samples = refl
length-mix_into (o ∷ out) [] = refl
length-mix_into (o ∷ out) (s ∷ samples) = ap suc (length-mix_into out samples)

get_or-mix_into :
    (out buf : List ℤ) (n k : ℕ) (d : ℤ)
    → k < length out
    → n ≤ length buf
    → get_or (mix_into out (take n buf)) k d
      ≡ (if ltb k n then clamp16 (get_or out k d +ℤ get_or buf k d) else get_or out k d)
unfolding mix_into
get_or-mix_into [] buf n k d lt le = absurd (omega arith)
get_or-mix_into (o ∷ out) buf zero k d lt le = ground arith
get_or-mix_into (o ∷ out) [] (suc n) k d lt le = absurd (omega arith)
get_or-mix_into (o ∷ out) (s ∷ buf) (suc n) zero d lt le = ground arith
get_or-mix_into (o ∷ out) (s ∷ buf) (suc n) (suc k) d lt le =
    get_or-mix_into out buf n k d (omega arith) (omega arith) ∙ ground arith

zeros-IsInt16 : (n : ℕ) → All IsInt16 (replicate n (pos 0))
zeros-IsInt16 zero = tt
zeros-IsInt16 (suc n) = ((omega arith, omega arith), zeros-IsInt16 n)

module _ {Decoder : Type 0} where
  -- The sample at `k`: the frames that are that long, added up in the order of the speakers, each
  -- sum clamped to 16 bits.
  unfoldable pub mixed_at : List (Speaker Decoder) → ℕ → ℤ → ℤ
  mixed_at [] k sum = sum
  mixed_at (sp ∷ rest) k sum =
      mixed_at rest k
        (if ltb k sp.pcm_count then clamp16 (sum +ℤ get_or sp.pcm_buf k (pos 0)) else sum)

  -- Whether a speaker has a frame to play.
  unfoldable pub is_heard : List (Speaker Decoder) → Bool
  is_heard [] = false
  is_heard (sp ∷ rest) = not (sp.pcm_count == 0) || is_heard rest

  -- What the loop over the speakers leaves, from `any` and `out` on.
  record IsMixed (speakers : List (Speaker Decoder)) (any : Bool) (out : List ℤ) (r : Bool × List ℤ)
      : Type 0 where
    heard : r.0 ≡ any || is_heard speakers
    sized : length r.1 ≡ length out
    fits : All IsInt16 r.1
    each :
        (k : ℕ) → k < length out → get_or r.1 k (pos 0) ≡ mixed_at speakers k (get_or out k (pos 0))

  -- One speaker, silent or not.
  mix_one :
      (sp : Speaker Decoder) (rest : List (Speaker Decoder)) (any silent : Bool) (out : List ℤ)
      → (sp.pcm_count == 0) ≡ silent
      → sp.pcm_count ≤ length sp.pcm_buf
      → (r : Bool × List ℤ)
      → IsMixed rest
          (any || not silent)
          (if silent then out else mix_into out (take sp.pcm_count sp.pcm_buf))
          r
      → IsMixed (sp ∷ rest) any out r
  unfolding mixed_at is_heard
  mix_one sp rest any true out e room r m = record {
    heard = m.heard ∙ ground arith;
    sized = m.sized;
    fits = m.fits;
    each =
        λ k lt. let silent : ltb k sp.pcm_count ≡ false = ground arith in rw silent (m.each k lt);
  }
  mix_one sp rest any false out e room r m =
      let len = length-mix_into out (take sp.pcm_count sp.pcm_buf) in
      record {
        heard = m.heard ∙ ground arith;
        sized = m.sized ∙ len;
        fits = m.fits;
        each = λ k lt.
            m.each k (omega (arith, len))
            ∙ ap (mixed_at rest k) (get_or-mix_into out sp.pcm_buf sp.pcm_count k (pos 0) lt room);
      }

  mix_speakers_lem :
      (frame_samples : ℕ) (speakers : List (Speaker Decoder)) (any : Bool) (out : List ℤ)
      → All (IsSpeaker frame_samples) speakers
      → All IsInt16 out
      → IsMixed speakers any out (mix_speakers speakers any out)
  unfolding mix_speakers mixed_at is_heard
  mix_speakers_lem fs [] any out all fits = record {
    heard = ground arith;
    sized = refl;
    fits = fits;
    each = λ k lt. refl;
  }
  mix_speakers_lem fs (sp ∷ rest) any out all fits =
      let silent = sp.pcm_count == 0 in
      let added = mix_into out (take sp.pcm_count sp.pcm_buf) in
      mix_one sp rest any silent out refl (omega (arith, all.0.buffer, all.0.decoded)) _ (
        mix_speakers_lem fs rest (any || not silent) (if silent then out else added) all.1 (
          if_both (All IsInt16) silent fits
            (mix_into-IsInt16 out (take sp.pcm_count sp.pcm_buf) fits)))

module _ {Encoder Decoder : Type 0} where
  -- The mix of a valid, initialized engine has as many samples as were asked for, each in the
  -- range of 16 bits. Each is the running sum of the speakers' frames at its place, in the order
  -- of the speakers and clamped to 16 bits after each of them. The return value is 0 if no
  -- speaker has a frame, and the number of samples, cast to a C int, if one has.
  pub mix_output_lem :
      (v : Voice Encoder Decoder) (n : ℕ)
      → IsValid v
      → v.initialized ≡ true
      → let (r, out) = mix_output v n in
        (r ≡ (if is_heard v.speakers then int_of_u32 n else pos 0))
        × (length out ≡ n)
        × All IsInt16 out
        × ((k : ℕ) → k < n → get_or out k (pos 0) ≡ mixed_at v.speakers k (pos 0))
  unfolding mix_output
  mix_output_lem v n h on =
      let zeros = replicate n (pos 0) in
      let m =
        mix_speakers_lem v.frame_samples v.speakers false zeros h.speakers_ok (zeros-IsInt16 n) in
      let len = length-replicate n (pos 0) in
      (
        rw (on, m.heard) refl,
        rw on (m.sized ∙ len),
        rw on m.fits,
        λ k lt. rw on (
            m.each k (omega (arith, len))
            ∙ ap (mixed_at v.speakers k) (get_or-replicate n k (pos 0))),
      )
