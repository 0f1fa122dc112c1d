-- ===== src/Voice/Events/Examples.antt =====
-- A message and a frame for the host.
use residual_engine_audio.Base.{◌≡◌, refl, arith, some, none, [], ◌∷◌}
use residual_engine_audio.Event.{Event, pcm_frame}
use residual_engine_audio.Voice.Emit.{emit_log}
use residual_engine_audio.Voice.Events.{copy_message, flatten}
use residual_engine_audio.Voice.Events.Flat.{IsInside, flatten-IsInside}
use residual_engine_audio.Voice.Samples.{engine, engine-IsValid}

copied : copy_message (some 3) (65 ∷ 66 ∷ 67 ∷ []) ≡ (2, 65 ∷ 66 ∷ 0 ∷ [])
unfolding copy_message
copied = refl

-- Without a buffer the full length is returned, although nothing is copied.
not_copied : copy_message none (65 ∷ 66 ∷ 67 ∷ []) ≡ (3, [])
unfolding copy_message
not_copied = refl

abbrev frame : Event
frame = pcm_frame (record {
  speaker_id = 2;
  sample_rate = 8000;
  channels = 1;
  flags = 0;
  radio_channel = 0;
  samples = 1;
  sample_count = 8;
})

flatten-IsInside_example : IsInside (some 16) none (flatten engine (some 16) none frame)
unfolding emit_log
flatten-IsInside_example =
    flatten-IsInside engine (some 16) none frame engine-IsValid
      (omega arith, omega arith, omega arith)
