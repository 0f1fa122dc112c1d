-- ===== src/OpusJitter/Stream.antt =====
-- A speaker's stream, some of it lost on the way, pushed and then played.
use residual_engine_audio.Base.{
  ℕ, zero, suc, ◌+◌, ◌%◌, ◌^◌, ◌≤◌, ◌<◌, ◌≡◌, ◌≢◌, refl, ◌∙◌, ap, ap₂, sym, true, Option, some,
  none, List, [], ◌∷◌, arith, u16, ==_ne, ==_refl, length, get_or, map, All,
}
use residual_engine_audio.OpusJitter.{Jitter, jitter_cap, jitter_init, jitter_push}
use residual_engine_audio.OpusJitter.View.{
  held, IsValid, IsPayload, held-push, push-IsValid, next-push, init-IsValid, held-init,
}
use residual_engine_audio.OpusJitter.Play.{play, frames, play-frames}

-- The packets of a stream from a sequence number on; `none` never arrived.
unfoldable pub push_stream : Jitter → ℕ → List (Option (List ℕ)) → Jitter
push_stream jb s [] = jb
push_stream jb s (none ∷ xs) = push_stream jb (u16 (s + 1)) xs
push_stream jb s (some bytes ∷ xs) = push_stream (jitter_push jb s (some bytes)) (u16 (s + 1)) xs

-- A lost packet, or a payload that the buffer takes.
abbrev pub IsSlice : Option (List ℕ) → Type 0
IsSlice none = Unit
IsSlice (some bytes) = IsPayload bytes

-- A number whose slot the stream does not touch.
Apart : ℕ → ℕ → ℕ → Type 0
Apart t s n = (j : ℕ) → j < n → t % jitter_cap ≢ u16 (s + j) % jitter_cap

Apart-tail : (t s n : ℕ) → Apart t s (suc n) → Apart t (u16 (s + 1)) n
unfolding Apart
Apart-tail t s n h j lt =
    let there : u16 (u16 (s + 1) + j) ≡ u16 (s + suc j) = omega arith in
    rw there (h (suc j) (omega arith))

Apart-head : (t s n : ℕ) → s < 2 ^ 16 → Apart t s (suc n) → t % jitter_cap ≢ s % jitter_cap
unfolding Apart
Apart-head t s n fits h = let here : u16 (s + 0) ≡ s = omega arith in rw here at (h 0 (omega arith))

held-push_apart :
    (jb : Jitter) (s : ℕ) (bytes : List ℕ) (t : ℕ)
    → IsValid jb
    → IsPayload bytes
    → t % jitter_cap ≢ s % jitter_cap
    → held (jitter_push jb s (some bytes)) t ≡ held jb t
held-push_apart jb s bytes t v p ne =
    held-push jb s bytes t v p ∙ rw (==_ne t s (λ e. ne (ap (λ k. k % jitter_cap) e)), ==_ne _ _ ne)

held-stream-Apart :
    (xs : List (Option (List ℕ))) (jb : Jitter) (s t : ℕ)
    → IsValid jb
    → s < 2 ^ 16
    → All IsSlice xs
    → Apart t s (length xs)
    → held (push_stream jb s xs) t ≡ held jb t
unfolding push_stream
held-stream-Apart [] jb s t v fits p apart = refl
held-stream-Apart (none ∷ xs) jb s t v fits p apart =
    held-stream-Apart xs jb (u16 (s + 1)) t v (omega arith) p.1 (Apart-tail t s (length xs) apart)
held-stream-Apart (some bytes ∷ xs) jb s t v fits p apart =
    held-stream-Apart xs (jitter_push jb s (some bytes)) (u16 (s + 1)) t
      (push-IsValid jb s bytes v p.0 fits) (omega arith) p.1 (Apart-tail t s (length xs) apart)
    ∙ held-push_apart jb s bytes t v p.0 (Apart-head t s (length xs) fits apart)

-- Nothing is held yet where the stream goes.
abbrev Clear : Jitter → ℕ → ℕ → Type 0
Clear jb s n = (i : ℕ) → i < n → held jb (u16 (s + i)) ≡ none

here-Apart : (s n : ℕ) → s < 2 ^ 16 → n < jitter_cap → Apart s (u16 (s + 1)) n
unfolding Apart
here-Apart s n fits small j lt = omega arith

Clear-tail : (jb : Jitter) (s n : ℕ) → Clear jb s (suc n) → Clear jb (u16 (s + 1)) n
Clear-tail jb s n h i lt =
    let there : u16 (u16 (s + 1) + i) ≡ u16 (s + suc i) = omega arith in
    rw there (h (suc i) (omega arith))

Clear-push :
    (jb : Jitter) (s n : ℕ) (bytes : List ℕ)
    → IsValid jb
    → IsPayload bytes
    → s < 2 ^ 16
    → n < jitter_cap
    → Clear jb s (suc n)
    → Clear (jitter_push jb s (some bytes)) (u16 (s + 1)) n
Clear-push jb s n bytes v p fits small h i lt =
    held-push_apart jb s bytes (u16 (u16 (s + 1) + i)) v p (omega arith) ∙ Clear-tail jb s n h i lt

onward : (s i : ℕ) → u16 (s + suc i) ≡ u16 (u16 (s + 1) + i)
onward s i = omega arith

-- A pushed stream of at most 128 numbers is held as it is, its losses included.
held-stream :
    (xs : List (Option (List ℕ))) (jb : Jitter) (s i : ℕ)
    → IsValid jb
    → s < 2 ^ 16
    → length xs ≤ jitter_cap
    → All IsSlice xs
    → Clear jb s (length xs)
    → i < length xs
    → held (push_stream jb s xs) (u16 (s + i)) ≡ get_or xs i none
unfolding push_stream
held-stream [] jb s i v fits small p clear lt = absurd (omega arith)
held-stream (none ∷ xs) jb s zero v fits small p clear lt =
    let here : u16 (s + 0) ≡ s = omega arith in
    ap (held (push_stream jb (u16 (s + 1)) xs)) here
    ∙ held-stream-Apart xs jb (u16 (s + 1)) s v (omega arith) p.1
        (here-Apart s (length xs) fits (omega arith))
    ∙ ap (held jb) (sym here)
    ∙ clear 0 lt
held-stream (none ∷ xs) jb s (suc i) v fits small p clear lt =
    ap (held (push_stream jb (u16 (s + 1)) xs)) (onward s i)
    ∙ held-stream xs jb (u16 (s + 1)) i v (omega arith) (omega arith) p.1
        (Clear-tail jb s (length xs) clear) (omega arith)
held-stream (some bytes ∷ xs) jb s zero v fits small p clear lt =
    let jb' = jitter_push jb s (some bytes) in
    let here : u16 (s + 0) ≡ s = omega arith in
    ap (held (push_stream jb' (u16 (s + 1)) xs)) here
    ∙ held-stream-Apart xs jb' (u16 (s + 1)) s (push-IsValid jb s bytes v p.0 fits) (omega arith)
        p.1 (here-Apart s (length xs) fits (omega arith))
    ∙ held-push jb s bytes s v p.0
    ∙ rw (==_refl s)
held-stream (some bytes ∷ xs) jb s (suc i) v fits small p clear lt =
    let jb' = jitter_push jb s (some bytes) in
    ap (held (push_stream jb' (u16 (s + 1)) xs)) (onward s i)
    ∙ held-stream xs jb' (u16 (s + 1)) i (push-IsValid jb s bytes v p.0 fits) (omega arith)
        (omega arith) p.1 (Clear-push jb s (length xs) bytes v p.0 fits (omega arith) clear)
        (omega arith)

-- A started buffer stays valid, started, and due at the same number, whatever is pushed.
stream_kept :
    (xs : List (Option (List ℕ))) (jb : Jitter) (s : ℕ)
    → IsValid jb
    → s < 2 ^ 16
    → All IsSlice xs
    → jb.started ≡ true
    → let out = push_stream jb s xs in
      IsValid out × (out.started ≡ true) × (out.next_play_seq ≡ jb.next_play_seq)
unfolding push_stream
stream_kept [] jb s v fits p started = (v, started, refl)
stream_kept (none ∷ xs) jb s v fits p started =
    stream_kept xs jb (u16 (s + 1)) v (omega arith) p.1 started
stream_kept (some bytes ∷ xs) jb s v fits p started =
    let jb' = jitter_push jb s (some bytes) in
    let (on, next) = next-push jb s bytes p.0 in
    let (valid, on', next') =
      stream_kept xs jb' (u16 (s + 1)) (push-IsValid jb s bytes v p.0 fits) (omega arith) p.1 on in
    (valid, on', next' ∙ next ∙ rw started)

first_push :
    (s : ℕ) (bytes : List ℕ)
    → IsPayload bytes
    → (jitter_push jitter_init s (some bytes)).next_play_seq ≡ s
unfolding jitter_init
first_push s bytes p = (next-push jitter_init s bytes p).1

frames_of :
    (f : ℕ → Option (List ℕ)) (xs : List (Option (List ℕ))) (s : ℕ)
    → s < 2 ^ 16
    → ((i : ℕ) → i < length xs → f (u16 (s + i)) ≡ get_or xs i none)
    → frames f s (length xs) ≡ map some xs
unfolding frames
frames_of f [] s fits h = refl
frames_of f (x ∷ xs) s fits h =
    let here : u16 (s + 0) ≡ s = omega arith in
    ap₂ ◌∷◌ (ap some (ap f (sym here) ∙ h 0 (omega arith))) (
      frames_of f xs (u16 (s + 1)) (omega arith)
        (λ i lt. ap f (sym (onward s i)) ∙ h (suc i) (omega arith)))

-- A stream of at most 128 sequence numbers whose first and last packets arrive, whatever is lost
-- between them, is pushed into a fresh buffer, from any number on, also across the wrap of the
-- 16-bit counter. As many pops then return it in order: each payload that arrived, and one
-- concealment for each that did not.
pub play-push_stream :
    (bytes : List ℕ) (xs : List (Option (List ℕ))) (s : ℕ)
    → s < 2 ^ 16
    → length xs < jitter_cap
    → All IsSlice (some bytes ∷ xs)
    → get_or (some bytes ∷ xs) (length xs) none ≢ none
    → play (length (some bytes ∷ xs)) (push_stream jitter_init s (some bytes ∷ xs))
      ≡ map some (some bytes ∷ xs)
play-push_stream bytes xs s fits small p last =
    play-frames (length xs) out kept.0 kept.1 small still_held
    ∙ ap (λ t. frames (held out) t (suc (length xs))) kept.2
    ∙ frames_of (held out) (some bytes ∷ xs) s fits holds
  where
    out : Jitter
    out = push_stream jitter_init s (some bytes ∷ xs)

    holds :
        (i : ℕ)
        → i < length (some bytes ∷ xs)
        → held out (u16 (s + i)) ≡ get_or (some bytes ∷ xs) i none
    holds i lt =
        held-stream (some bytes ∷ xs) jitter_init s i init-IsValid fits small p
          (λ j near. held-init (u16 (s + j))) lt

    kept : IsValid out × (out.started ≡ true) × (out.next_play_seq ≡ s)
    kept =
        let (valid, on, next) =
          stream_kept xs (jitter_push jitter_init s (some bytes)) (u16 (s + 1))
            (push-IsValid jitter_init s bytes init-IsValid p.0 fits) (omega arith) p.1
            (next-push jitter_init s bytes p.0).0 in
        (
          unfold push_stream in valid,
          unfold push_stream in on,
          unfold push_stream in next ∙ first_push s bytes p.0,
        )

    still_held : held out (u16 (out.next_play_seq + length xs)) ≢ none
    still_held gone = last (
        sym (holds (length xs) (omega arith))
        ∙ ap (λ t. held out (u16 (t + length xs))) (sym kept.2)
        ∙ gone)
