-- ===== src/Opus.antt =====
-- The wrapper of the Opus codec: src/rv_opus.h and src/rv_opus.c. libopus itself is a parameter:
-- its coder states, and what one call of `opus_encode` and `opus_decode` returns.
pub mod Bounds
pub mod Lifetime
use mathlib.Core.Option
use residual_engine_audio.Base.{
  ℕ, ◌*◌, ◌/◌, ◌≤◌, Option, none, some, Bool, true, false, List, ltb, ◌==◌, if◌then◌else◌, length,
  not, Result, ok, err, ◌≡◌,
}
use residual_engine_audio.Base.Int.{ℤ}

pub record OpusConfig : Type 0 where
  pub sample_rate : ℕ
  pub channels : ℕ
  pub frame_ms : ℕ
  pub bitrate_bps : ℕ
  pub use_fec : ℕ

-- `encoder_create` stands for `opus_encoder_create` and the settings made on the new encoder, of
-- the rate, the channels, the bitrate and the correction of a config; `none` is an error. So for
-- `decoder_create`.
-- `opus_encode enc pcm max_bytes` and `opus_decode dec packet frame_size`; a null packet is `none`.
-- An error code is `err`, and a success is what was written. What libopus documents of both: a
-- packet has at most `max_bytes` bytes, and a frame at most `frame_size` samples.
pub record Codec (Encoder Decoder : Type 0) : Type 0 where
  pub encoder_create : OpusConfig → Option Encoder
  pub decoder_create : OpusConfig → Option Decoder
  pub opus_encode : Encoder → List ℤ → ℕ → Result (List ℕ) × Encoder
  pub opus_decode : Decoder → Option (List ℕ) → ℕ → Result (List ℤ) × Decoder

pub record Documented {Encoder Decoder : Type 0} (codec : Codec Encoder Decoder) : Type 0 where
  pub encode_fits :
      (enc : Encoder) (pcm : List ℤ) (max_bytes : ℕ) (bytes : List ℕ)
      → (codec.opus_encode enc pcm max_bytes).0 ≡ ok bytes
      → length bytes ≤ max_bytes
  pub decode_fits :
      (dec : Decoder) (packet : Option (List ℕ)) (frame_size : ℕ) (pcm : List ℤ)
      → (codec.opus_decode dec packet frame_size).0 ≡ ok pcm
      → length pcm ≤ frame_size

pub record OpusEnc (Encoder : Type 0) : Type 0 where
  pub enc : Encoder
  pub cfg : OpusConfig
  pub frame_samples : ℕ

pub record OpusDec (Decoder : Type 0) : Type 0 where
  pub dec : Decoder
  pub cfg : OpusConfig
  pub frame_samples : ℕ

-- A product of two C ints, here without bound.
unfoldable pub frame_samples : ℕ → ℕ → ℕ
frame_samples sample_rate frame_ms = sample_rate / 1000 * frame_ms

module _ {Encoder Decoder : Type 0} (codec : Codec Encoder Decoder) where
  -- The first argument says whether `malloc` gives the struct.
  unfoldable pub rv_opus_enc_create : Bool → OpusConfig → Option (OpusEnc Encoder)
  unfolding frame_samples
  rv_opus_enc_create false cfg = none
  rv_opus_enc_create true cfg =
      Option.map
        (λ e. record {
          enc = e;
          cfg = cfg;
          frame_samples = frame_samples cfg.sample_rate cfg.frame_ms;
        })
        (codec.encoder_create cfg)

  unfoldable pub rv_opus_dec_create : Bool → OpusConfig → Option (OpusDec Decoder)
  unfolding frame_samples
  rv_opus_dec_create false cfg = none
  rv_opus_dec_create true cfg =
      Option.map
        (λ d. record {
          dec = d;
          cfg = cfg;
          frame_samples = frame_samples cfg.sample_rate cfg.frame_ms;
        })
        (codec.decoder_create cfg)

  unfoldable pub rv_opus_encode : OpusEnc Encoder → List ℤ → ℕ → Result (List ℕ) × OpusEnc Encoder
  rv_opus_encode e pcm out_cap =
      if not (length pcm == e.frame_samples)
      then (err 2, e)
      else let (r, enc') = codec.opus_encode e.enc pcm out_cap in (r, record e { enc = enc' })

  unfoldable pub rv_opus_decode :
      OpusDec Decoder → Option (List ℕ) → ℕ → Result (List ℤ) × OpusDec Decoder
  rv_opus_decode d packet out_samples =
      if ltb out_samples d.frame_samples
      then (err 2, d)
      else let (r, dec') = codec.opus_decode d.dec packet d.frame_samples in
        (r, record d { dec = dec' })
