-- ===== src/OutQueue/Examples.antt =====
-- The outgoing queue of src/voice.c on concrete packets.
use residual_engine_audio.Base.{◌≡◌, refl, [], ◌∷◌, some, ok, err}
use residual_engine_audio.Ring.{store, front}
use residual_engine_audio.OutQueue.{OutQueue, out_init, out_push, out_pop}
use residual_engine_audio.OutQueue.Refine.{
  IsValid, contents, push_spec, pop_spec, out_init-IsValid, out_push_refines, out_pop_refines,
}

abbrev one_packet : OutQueue
one_packet = (out_push out_init (1 ∷ 2 ∷ [])).0

one_packet-IsValid : IsValid one_packet
one_packet-IsValid = (out_push_refines out_init (1 ∷ 2 ∷ []) out_init-IsValid).1

popped : (out_pop one_packet 1400).0 ≡ ok (some (1 ∷ 2 ∷ []))
unfolding out_init out_push out_pop store front
popped = refl

-- A caller with room for one byte.
no_room : (out_pop one_packet 1).0 ≡ err 1
unfolding out_init out_push out_pop store front
no_room = refl

out_push_refines_example :
    ((contents (out_push one_packet (3 ∷ [])).0, (out_push one_packet (3 ∷ [])).1)
      ≡ push_spec (contents one_packet) (3 ∷ []))
    × IsValid (out_push one_packet (3 ∷ [])).0
out_push_refines_example = out_push_refines one_packet (3 ∷ []) one_packet-IsValid

out_pop_refines_example :
    (((out_pop one_packet 1400).0, contents (out_pop one_packet 1400).1)
      ≡ pop_spec (contents one_packet) 1400)
    × IsValid (out_pop one_packet 1400).1
out_pop_refines_example = out_pop_refines one_packet 1400 one_packet-IsValid
