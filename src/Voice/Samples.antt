-- ===== src/Voice/Samples.antt =====
-- A codec and an engine to run the code of src/voice.c on: eight samples to a frame, two speakers.
-- The codec encodes any frame as two bytes and decodes any packet as one sample.
use residual_engine_audio.Base.{
  ℕ, ◌≤◌, ◌≡◌, refl, arith, true, false, some, List, [], ◌∷◌, take, length, length-take, replicate,
  ok,
}
use residual_engine_audio.Base.Int.{pos}
use residual_engine_audio.Opus.{
  Codec, Documented, OpusEnc, rv_opus_enc_create, rv_opus_dec_create, frame_samples,
}
use residual_engine_audio.OpusJitter.{jitter_init}
use residual_engine_audio.Voice.State.{Voice, VoiceConfig, Speaker, codes}
use residual_engine_audio.Voice.Emit.{emit_log}
use residual_engine_audio.Voice.Create.{
  Memory, opus_cfg, blank, create, make_speaker, prepend, make_speakers, with_encoder, finish,
}
use residual_engine_audio.Voice.Create.Initial.{create-IsCreated}
use residual_engine_audio.Voice.Invariant.State.{IsValid}

abbrev pub codec : Codec ℕ ℕ
codec = record {
  encoder_create = λ cfg. some 0;
  decoder_create = λ cfg. some 0;
  opus_encode = λ enc pcm max_bytes. (ok (take max_bytes (7 ∷ 8 ∷ [])), enc);
  opus_decode = λ dec packet frame_size. (ok (take frame_size (pos 100 ∷ [])), dec);
}

ok-length : {A : Type 0} (n : ℕ) (xs ys : List A) → length xs ≤ n → ok xs ≡ ok ys → length ys ≤ n
ok-length n xs ys h e = ground arith

pub codec-Documented : Documented codec
codec-Documented = record {
  encode_fits = λ enc pcm max_bytes bytes e.
      ok-length max_bytes (take max_bytes (7 ∷ 8 ∷ [])) bytes
        (omega (arith, length-take {A = ℕ} max_bytes (7 ∷ 8 ∷ []))) e;
  decode_fits = λ dec packet frame_size pcm e.
      ok-length frame_size (take frame_size (pos 100 ∷ [])) pcm
        (omega (arith, length-take frame_size (pos 100 ∷ []))) e;
}

abbrev pub memory : Memory
memory = record {
  engine = true;
  tables = true;
  encoder = true;
  decoder = λ i. true;
  pcm = λ i. true;
}

abbrev pub config : VoiceConfig
config = record {
  api_version = 131073;
  sample_rate_hz = 8000;
  frame_ms = 1;
  max_players = 2;
  jitter_target_ms = 60;
  jitter_max_ms = 200;
  capture_mode = 1;
}

abbrev pub speaker : Speaker ℕ
speaker = record {
  dec = record { dec = 0; cfg = opus_cfg config; frame_samples = 8 };
  jb = jitter_init;
  pcm_buf = replicate 8 (pos 0);
  pcm_count = 0;
  speaking = false;
  last_rx_ms = 0;
  last_rx_flags = 0;
}

abbrev pub encoder : OpusEnc ℕ
encoder = record { enc = 0; cfg = opus_cfg config; frame_samples = 8 }

abbrev pub engine : Voice ℕ ℕ
engine =
    emit_log (blank codec memory config true encoder (speaker ∷ speaker ∷ [])) 0
      (codes "rv_voice_create: initialized")

pub created : create codec memory config true ≡ some engine
unfolding create with_encoder finish make_speakers make_speaker prepend rv_opus_enc_create
    rv_opus_dec_create frame_samples
created = refl

pub engine-IsValid : IsValid engine
engine-IsValid = (create-IsCreated codec memory config true engine created).valid
