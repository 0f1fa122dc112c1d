-- ===== src/CaptureRing/Examples.antt =====
-- The capture queue of src/voice.c on concrete frames.
use residual_engine_audio.Base.{◌≡◌, refl, List, [], ◌∷◌, some}
use residual_engine_audio.Base.Int.{ℤ, pos, negsuc}
use residual_engine_audio.Queue
use residual_engine_audio.Ring.{store, front}
use residual_engine_audio.CaptureRing.{CaptureRing, ring_init, ring_push, ring_pop}
use residual_engine_audio.CaptureRing.Refine.{
  IsValid, contents, push_spec, ring_init-IsValid, ring_push_refines, ring_pop_refines,
}

abbrev frame : List ℤ
frame = pos 5 ∷ negsuc 3 ∷ []

abbrev one_frame : CaptureRing
one_frame = (ring_push ring_init frame).0

one_frame-IsValid : IsValid one_frame
one_frame-IsValid = (ring_push_refines ring_init frame ring_init-IsValid).1

popped : (ring_pop one_frame).0 ≡ some frame
unfolding ring_init ring_push ring_pop store front
popped = refl

ring_push_refines_example :
    ((contents (ring_push one_frame frame).0, (ring_push one_frame frame).1)
      ≡ push_spec (contents one_frame) frame)
    × IsValid (ring_push one_frame frame).0
ring_push_refines_example = ring_push_refines one_frame frame one_frame-IsValid

ring_pop_refines_example :
    (((ring_pop one_frame).0, contents (ring_pop one_frame).1) ≡ Queue.pop (contents one_frame))
    × IsValid (ring_pop one_frame).1
ring_pop_refines_example = ring_pop_refines one_frame one_frame-IsValid
