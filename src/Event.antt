-- ===== src/Event.antt =====
-- The result codes and the events of include/residual_voice/voice.h. An event that points into
-- the engine names what it points at: a message by the number of its buffer, samples by the
-- index of the speaker whose `pcm_buf` holds them.
use residual_engine_audio.Base.{ℕ}

pub data VoiceResult : Type 0 where
  voice_ok : VoiceResult
  invalid_argument : VoiceResult
  out_of_memory : VoiceResult
  not_initialized : VoiceResult
  not_connected : VoiceResult
  internal : VoiceResult

pub record PcmEvent : Type 0 where
  pub speaker_id : ℕ
  pub sample_rate : ℕ
  pub channels : ℕ
  pub flags : ℕ
  pub radio_channel : ℕ
  pub samples : ℕ
  pub sample_count : ℕ

pub data Event : Type 0 where
  no_event : Event
  log : ℕ → ℕ → Event
  connected : Event
  disconnected : Event
  speaking : ℕ → ℕ → Event
  pcm_frame : PcmEvent → Event
  error : VoiceResult → ℕ → Event
