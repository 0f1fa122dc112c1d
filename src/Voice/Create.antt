-- ===== src/Voice/Create.antt =====
-- `rv_voice_create` of src/voice.c. What it frees when it fails is in Voice.Lifetime.
pub mod Initial
use residual_engine_audio.Base.{
  ℕ, zero, suc, ◌+◌, ◌*◌, ◌/◌, ◌%◌, ◌^◌, Bool, true, false, ◌&&◌, ◌||◌, Option, some, none, List,
  [], ◌∷◌, ltb, ◌==◌, if◌then◌else◌, not, replicate, u32,
}
use residual_engine_audio.Base.Int.{ℤ, pos}
use residual_engine_audio.Opus.{
  Codec, OpusConfig, OpusEnc, OpusDec, rv_opus_enc_create, rv_opus_dec_create,
}
use residual_engine_audio.EventQueue.{eventq_init}
use residual_engine_audio.OutQueue.{out_init}
use residual_engine_audio.CaptureRing.{ring_init, capture_max_samples}
use residual_engine_audio.OpusJitter.{jitter_init}
use residual_engine_audio.Voice.State.{
  Voice, Speaker, VoiceConfig, api_version_major, api_version_minor, capture_ptt_only,
  capture_always_on, codes,
}
use residual_engine_audio.Voice.Emit.{emit_log}

abbrev pub ver_major : ℕ → ℕ
ver_major v = v / 2 ^ 16

abbrev pub ver_minor : ℕ → ℕ
ver_minor v = v % 2 ^ 16

-- Which allocations succeed: of the engine, of its seven tables, of the coder structs and of the
-- sample buffers, the last two by the speaker's index.
pub record Memory : Type 0 where
  pub engine : Bool
  pub tables : Bool
  pub encoder : Bool
  pub decoder : ℕ → Bool
  pub pcm : ℕ → Bool

abbrev pub accepts : VoiceConfig → Bool
accepts cfg =
    ver_major cfg.api_version == api_version_major
    && not (ltb api_version_minor (ver_minor cfg.api_version))
    && not (cfg.max_players == 0)

-- A capture mode that the engine does not know is taken for push-to-talk.
abbrev pub sanitize : VoiceConfig → VoiceConfig
sanitize cfg = record cfg {
  capture_mode =
      if not (cfg.capture_mode == capture_always_on) && not (cfg.capture_mode == capture_ptt_only)
      then capture_ptt_only
      else cfg.capture_mode;
}

abbrev pub opus_cfg : VoiceConfig → OpusConfig
opus_cfg cfg = record {
  sample_rate = cfg.sample_rate_hz;
  channels = 1;
  frame_ms = cfg.frame_ms;
  bitrate_bps = 20000;
  use_fec = 0;
}

-- The product is a `uint32_t`.
abbrev pub samples_per_frame : VoiceConfig → ℕ
samples_per_frame cfg = u32 (cfg.sample_rate_hz * cfg.frame_ms) / 1000

module _ {Encoder Decoder : Type 0} (codec : Codec Encoder Decoder) (mem : Memory) where
  -- The entry of one speaker, if its decoder and its buffer can be had. What a buffer holds before
  -- the first frame is never read.
  unfoldable pub make_speaker :
      VoiceConfig → ℕ → Bool → Option (OpusDec Decoder) → Option (Speaker Decoder)
  make_speaker cfg n buffer none = none
  make_speaker cfg n false (some dec) = none
  make_speaker cfg n true (some dec) = some (record {
    dec = dec;
    jb = jitter_init;
    pcm_buf = replicate n (pos 0);
    pcm_count = 0;
    speaking = false;
    last_rx_ms = 0;
    last_rx_flags = 0;
  })

  unfoldable pub prepend :
      Option (Speaker Decoder) → Option (List (Speaker Decoder)) → Option (List (Speaker Decoder))
  prepend none rest = none
  prepend (some sp) none = none
  prepend (some sp) (some rest) = some (sp ∷ rest)

  -- The loop over the speakers from `i` on, with so many left.
  unfoldable pub make_speakers : VoiceConfig → ℕ → ℕ → Option (List (Speaker Decoder))
  unfolding make_speaker prepend
  make_speakers cfg i zero = some []
  make_speakers cfg i (suc left) =
      prepend
        (make_speaker cfg (samples_per_frame cfg) (mem.pcm i)
          (rv_opus_dec_create codec (mem.decoder i) (opus_cfg cfg)))
        (make_speakers cfg (i + 1) left)

  -- The engine before its first log event.
  abbrev pub blank :
      VoiceConfig → Bool → OpusEnc Encoder → List (Speaker Decoder) → Voice Encoder Decoder
  blank cfg has_log enc speakers = record {
    cfg = sanitize cfg;
    has_log = has_log;
    logged = [];
    initialized = true;
    connected = false;
    session_id = 0;
    player_id = 0;
    enc = enc;
    speakers = speakers;
    frame_samples = samples_per_frame cfg;
    cap_q = ring_init;
    local_state = record { ptt_down = 0; radio_enabled = 0; radio_channel = 0 };
    has_local_state = false;
    out_q = out_init;
    seq = 0;
    evq = eventq_init;
    msg_buf_0 = [];
    msg_buf_1 = [];
    msg_flip = 0;
  }

  unfoldable pub finish :
      VoiceConfig
      → Bool
      → OpusEnc Encoder
      → Option (List (Speaker Decoder))
      → Option (Voice Encoder Decoder)
  finish cfg has_log enc none = none
  finish cfg has_log enc (some speakers) =
      some (emit_log (blank cfg has_log enc speakers) 0 (codes "rv_voice_create: initialized"))

  unfoldable pub with_encoder :
      VoiceConfig → Bool → Option (OpusEnc Encoder) → Option (Voice Encoder Decoder)
  unfolding finish make_speakers
  with_encoder cfg has_log none = none
  with_encoder cfg has_log (some enc) =
      if not mem.tables then none else finish cfg has_log enc (make_speakers cfg 0 cfg.max_players)

  unfoldable pub create : VoiceConfig → Bool → Option (Voice Encoder Decoder)
  unfolding with_encoder
  create cfg has_log =
      let n = samples_per_frame cfg in
      if not (accepts cfg)
      then none
      else if not mem.engine
      then none
      else if n == 0 || ltb capture_max_samples n
      then none
      else with_encoder cfg has_log (rv_opus_enc_create codec mem.encoder (opus_cfg cfg))
