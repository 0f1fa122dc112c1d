-- ===== src/Voice/Lifetime/Examples.antt =====
-- The sample engine with all its tables, and without the last of them.
use residual_engine_audio.Base.{◌+◌, ◌≤◌, ◌≡◌, refl, true, false, none, inl}
use residual_engine_audio.Voice.Lifetime.{Heap, Alloc, stray, create_handles, fill, with_tables}
use residual_engine_audio.Voice.Lifetime.Balance.{IsReleased, create_handles-IsReleased}
use residual_engine_audio.Voice.Lifetime.Stray.{create_handles-strays}
use residual_engine_audio.Voice.Samples.{config}

abbrev enough : Alloc
enough = record {
  engine = true;
  enc = true;
  dec_table = true;
  jb = true;
  pcm_table = true;
  pcm_count = true;
  speaking = true;
  last_rx_ms = true;
  last_rx_flags = true;
  dec = λ i. true;
  pcm = λ i. true;
  unwritten = λ i. stray;
}

abbrev one_short : Alloc
one_short = record enough { last_rx_flags = false }

abbrev empty : Heap
empty = record { held = 0; stray_frees = 0 }

-- The engine, its encoder, seven tables, two decoders and two buffers.
thirteen : (create_handles enough config empty).1.held ≡ 13
unfolding create_handles with_tables fill
thirteen = refl

create_handles-IsReleased_example : IsReleased empty (create_handles enough config empty)
create_handles-IsReleased_example = create_handles-IsReleased enough config empty (inl refl)

create_handles-strays_example :
    ((create_handles one_short config empty).0 ≡ none)
    × (0 + 2 ≤ (create_handles one_short config empty).1.stray_frees)
create_handles-strays_example =
    create_handles-strays one_short config empty refl refl refl refl refl refl (λ i. refl)
