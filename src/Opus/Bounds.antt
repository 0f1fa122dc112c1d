-- ===== src/Opus/Bounds.antt =====
-- What the wrapper of src/rv_opus.c adds to the codec: sizes that fit the caller's buffers.
use residual_engine_audio.Base.{
  ℕ, ◌≤◌, ◌≡◌, Option, List, arith, ltb, ◌==◌, not, if_cases, length, Result, ok,
}
use residual_engine_audio.Base.Int.{ℤ}
use residual_engine_audio.Opus.{Codec, Documented, OpusEnc, OpusDec, rv_opus_encode, rv_opus_decode}

module _ {Encoder Decoder : Type 0} (codec : Codec Encoder Decoder) (doc : Documented codec) where
  -- A decoded frame fits the room that the caller announced, on every decoder state.
  pub rv_opus_decode-fits :
      (d : OpusDec Decoder) (packet : Option (List ℕ)) (out_samples : ℕ) (pcm : List ℤ)
      → (rv_opus_decode codec d packet out_samples).0 ≡ ok pcm
      → length pcm ≤ out_samples
  unfolding rv_opus_decode
  rv_opus_decode-fits d packet out_samples pcm =
      if_cases (λ (r : Result (List ℤ) × OpusDec Decoder). r.0 ≡ ok pcm → length pcm ≤ out_samples)
        (ltb out_samples d.frame_samples) (λ small e. cc)
        (λ room e.
          let fits = doc.decode_fits d.dec packet d.frame_samples pcm e in
          let room' : d.frame_samples ≤ out_samples = ground arith in omega arith)

  -- An encoded packet fits the room that the caller announced.
  pub rv_opus_encode-fits :
      (e : OpusEnc Encoder) (pcm : List ℤ) (out_cap : ℕ) (bytes : List ℕ)
      → (rv_opus_encode codec e pcm out_cap).0 ≡ ok bytes
      → length bytes ≤ out_cap
  unfolding rv_opus_encode
  rv_opus_encode-fits e pcm out_cap bytes =
      if_cases (λ (r : Result (List ℕ) × OpusEnc Encoder). r.0 ≡ ok bytes → length bytes ≤ out_cap)
        (not (length pcm == e.frame_samples)) (λ wrong h. cc)
        (λ right h. doc.encode_fits e.enc pcm out_cap bytes h)
