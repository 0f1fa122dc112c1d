-- ===== src/Voice/Events/Flat.antt =====
-- What `rv_copy_message` and `rv_voice_poll_event_flat` write stays inside the host's buffers.
use residual_engine_audio.Base.{
  ℕ, zero, suc, ◌-◌, ◌≤◌, ◌<◌, ◌≡◌, refl, ap, ◌∙◌, true, false, Option, some, none, List, [], ◌∷◌,
  ◌++◌, arith, length, take, ◌==◌, not, if◌then◌else◌, if_cases, min, length-append, length-take,
  get_elem?, inl, inr, Option-cases, All-get_elem?, get_elem?-none,
}
use residual_engine_audio.Base.Int.{ℤ}
use residual_engine_audio.Event.{
  Event, no_event, log, connected, disconnected, speaking, pcm_frame, error,
}
use residual_engine_audio.Voice.State.{Voice, Speaker}
use residual_engine_audio.Voice.Emit.{read_msg}
use residual_engine_audio.Voice.Events.{copy_message, FlatPoll, has_room, read_pcm, flatten}
use residual_engine_audio.Voice.Invariant.State.{IsValid, IsSpeaker, IsEvent}

-- The room behind a pointer, 0 if it is null.
abbrev pub room : Option ℕ → ℕ
room none = 0
room (some n) = n

copy_len :
    (capacity : ℕ) (src : List ℕ)
    → 0 < capacity
    → (copy_message (some capacity) src).0 ≡ min (length src) (capacity - 1)
unfolding copy_message
copy_len capacity src pos = ground arith

copy_text :
    (capacity : ℕ) (src : List ℕ)
    → 0 < capacity
    → let (size, text) = copy_message (some capacity) src in text ≡ take size src ++ (0 ∷ [])
unfolding copy_message
copy_text capacity src pos =
    let some_room : (capacity == 0) ≡ false = ground arith in rw some_room refl

-- A copy into a buffer of `capacity` bytes is the beginning of the message, as much as leaves room for
-- the terminating zero that follows it; the number of bytes before that zero is returned.
pub copy_message-terminated :
    (capacity : ℕ) (src : List ℕ)
    → 0 < capacity
    → let (size, text) = copy_message (some capacity) src in
      (size ≡ min (length src) (capacity - 1))
      × (text ≡ take size src ++ (0 ∷ []))
      × (length text ≤ capacity)
copy_message-terminated capacity src pos =
    let size = copy_len capacity src pos in
    let text = copy_text capacity src pos in
    let n = (copy_message (some capacity) src).0 in
    (
      size,
      text,
      omega (arith, size, ap length text, length-take n src, length-append (take n src) (0 ∷ [])),
    )

copy_message-fits :
    (capacity : Option ℕ) (src : List ℕ) → length (copy_message capacity src).1 ≤ room capacity
unfolding copy_message
copy_message-fits none src = omega arith
copy_message-fits (some zero) src = omega arith
copy_message-fits (some (suc capacity)) src =
    (copy_message-terminated (suc capacity) src (omega arith)).2

-- What a poll wrote lies inside the buffers, and is the whole frame if it reports success.
pub record IsInside (pcm_capacity msg_capacity : Option ℕ) (r : FlatPoll) : Type 0 where
  pub pcm : length r.pcm ≤ room pcm_capacity
  pub message : length r.message ≤ room msg_capacity
  pub whole : length r.pcm ≡ (if r.fits then r.event.sample_count else 0)

module _ {Encoder Decoder : Type 0} where
  read_pcm_found :
      (v : Voice Encoder Decoder) (i : ℕ) (sp : Speaker Decoder)
      → get_elem? v.speakers i ≡ some sp
      → read_pcm v i ≡ sp.pcm_buf
  unfolding read_pcm
  read_pcm_found v i sp e = ap samples e
    where
      samples : Option (Speaker Decoder) → List ℤ
      samples o = elim o [ none ↦ [] | some sp ↦ sp.pcm_buf ]

  read_pcm-long :
      (v : Voice Encoder Decoder) (i : ℕ)
      → IsValid v
      → i < v.cfg.max_players
      → length (read_pcm v i) ≡ v.frame_samples
  read_pcm-long v i h here = elim (Option-cases (get_elem? v.speakers i)) [
    | inl e ↦ absurd (omega (arith, get_elem?-none v.speakers i e, h.count))
    | inr (sp, e) ↦
        ap length (read_pcm_found v i sp e)
        ∙ (All-get_elem? (IsSpeaker v.frame_samples) v.speakers i sp h.speakers_ok e).buffer
  ]

  -- An event of a valid engine, flattened: no sample is written behind `out_pcm_capacity`, no byte
  -- behind `out_message_capacity`, and a poll that reports success wrote every sample that the
  -- event counts.
  pub flatten-IsInside :
      (v : Voice Encoder Decoder) (pcm_capacity msg_capacity : Option ℕ) (ev : Event)
      → IsValid v
      → IsEvent v.cfg.max_players v.frame_samples ev
      → IsInside pcm_capacity msg_capacity (flatten v pcm_capacity msg_capacity ev)
  unfolding flatten
  flatten-IsInside v pcm_capacity msg_capacity no_event h e = record {
    pcm = omega arith;
    message = omega arith;
    whole = refl;
  }
  flatten-IsInside v pcm_capacity msg_capacity (log level msg) h e = record {
    pcm = omega arith;
    message = copy_message-fits msg_capacity (read_msg v msg);
    whole = refl;
  }
  flatten-IsInside v pcm_capacity msg_capacity connected h e = record {
    pcm = omega arith;
    message = omega arith;
    whole = refl;
  }
  flatten-IsInside v pcm_capacity msg_capacity disconnected h e = record {
    pcm = omega arith;
    message = omega arith;
    whole = refl;
  }
  flatten-IsInside v pcm_capacity msg_capacity (speaking speaker_id is_speaking) h e = record {
    pcm = omega arith;
    message = omega arith;
    whole = refl;
  }
  flatten-IsInside v pcm_capacity msg_capacity (error code msg) h e = record {
    pcm = omega arith;
    message = copy_message-fits msg_capacity (read_msg v msg);
    whole = refl;
  }
  flatten-IsInside v pcm_capacity msg_capacity (pcm_frame ev) h (here, pos, fits) =
      let len : length (take ev.sample_count (read_pcm v ev.samples)) ≡ ev.sample_count =
        length-take ev.sample_count (read_pcm v ev.samples)
        ∙ omega (arith, read_pcm-long v ev.samples h here) in
      if_cases P (ev.sample_count == 0)
        (λ t. record { pcm = omega arith; message = omega arith; whole = ground arith })
        (λ t.
          if_cases P (not (has_room pcm_capacity ev.sample_count))
            (λ no. record { pcm = omega arith; message = omega arith; whole = refl })
            (λ yes. record {
              pcm = omega (arith, len, enough pcm_capacity ev.sample_count (ground arith));
              message = omega arith;
              whole = len;
            }))
    where
      P : FlatPoll → Type 0
      P r = IsInside pcm_capacity msg_capacity r

      enough : (capacity : Option ℕ) (n : ℕ) → has_room capacity n ≡ true → n ≤ room capacity
      enough none n e = cc
      enough (some c) n e = ground arith
