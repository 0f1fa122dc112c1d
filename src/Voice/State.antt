-- ===== src/Voice/State.antt =====
-- `struct rv_voice` of src/voice.c, and the structs of include/residual_voice/voice.h that it
-- holds. The arrays of `max_players` entries are one list of records.
use Prim.Native.Char.{code}
use Prim.Native.String.{String}
use residual_engine_audio.Base.{ℕ, Bool, List, [], ◌∷◌}
use residual_engine_audio.Base.Int.{ℤ}
use residual_engine_audio.OpusJitter.{Jitter}
use residual_engine_audio.Opus.{OpusEnc, OpusDec}
use residual_engine_audio.OutQueue.{OutQueue}
use residual_engine_audio.CaptureRing.{CaptureRing}
use residual_engine_audio.EventQueue.{EventQueue}

abbrev pub api_version_major : ℕ
api_version_major = 2

abbrev pub api_version_minor : ℕ
api_version_minor = 1

abbrev pub capture_ptt_only : ℕ
capture_ptt_only = 0

abbrev pub capture_always_on : ℕ
capture_always_on = 1

-- The characters of a message.
abbrev pub codes : String → List ℕ
codes String.[] = []
codes (String.◌∷◌ c s) = code c ∷ codes s

pub record VoiceConfig : Type 0 where
  pub api_version : ℕ
  pub sample_rate_hz : ℕ
  pub frame_ms : ℕ
  pub max_players : ℕ
  pub jitter_target_ms : ℕ
  pub jitter_max_ms : ℕ
  pub capture_mode : ℕ

pub record ConnectInfo : Type 0 where
  pub session_id : ℕ
  pub player_id : ℕ

-- The position and the direction are stored and never read, so they are left out.
pub record PlayerState : Type 0 where
  pub ptt_down : ℕ
  pub radio_enabled : ℕ
  pub radio_channel : ℕ

-- A speaker's entry in each of the arrays.
pub record Speaker (Decoder : Type 0) : Type 0 where
  pub dec : OpusDec Decoder
  pub jb : Jitter
  pub pcm_buf : List ℤ
  pub pcm_count : ℕ
  pub speaking : Bool
  pub last_rx_ms : ℕ
  pub last_rx_flags : ℕ

-- `logged` is the trace of the calls of the host's log callback, if it gave one.
pub record Voice (Encoder Decoder : Type 0) : Type 0 where
  pub cfg : VoiceConfig
  pub has_log : Bool
  pub logged : List (ℕ × List ℕ)
  pub initialized : Bool
  pub connected : Bool
  pub session_id : ℕ
  pub player_id : ℕ
  pub enc : OpusEnc Encoder
  pub speakers : List (Speaker Decoder)
  pub frame_samples : ℕ
  pub cap_q : CaptureRing
  pub local_state : PlayerState
  pub has_local_state : Bool
  pub out_q : OutQueue
  pub seq : ℕ
  pub evq : EventQueue
  pub msg_buf_0 : List ℕ
  pub msg_buf_1 : List ℕ
  pub msg_flip : ℕ
