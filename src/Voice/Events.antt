-- ===== src/Voice/Events.antt =====
-- What the host takes out of the engine: `rv_voice_poll_event`, `rv_copy_message`,
-- `rv_voice_poll_event_flat`, `rv_voice_poll_outgoing`, the getters and
-- `rv_voice_result_to_string` of src/voice.c.
pub mod Flat
mod Examples
use Prim.Native.String.{String}
use residual_engine_audio.Base.{
  ℕ, zero, suc, ◌+◌, ◌-◌, ◌*◌, ◌^◌, Bool, true, false, ◌||◌, Option, some, none, List, [], ◌∷◌,
  ◌++◌, leb, ltb, ◌==◌, if◌then◌else◌, not, length, take, drop, get_elem?, Result, ok, err,
}
use residual_engine_audio.Base.Int.{ℤ}
use residual_engine_audio.Event.{
  Event, PcmEvent, VoiceResult, voice_ok, invalid_argument, out_of_memory, not_initialized,
  not_connected, internal, no_event, log, connected, disconnected, speaking, pcm_frame, error,
}
use residual_engine_audio.EventQueue.{eventq_pop}
use residual_engine_audio.OutQueue.{out_pop}
use residual_engine_audio.Voice.State.{Voice, Speaker, codes, api_version_major, api_version_minor}
use residual_engine_audio.Voice.Emit.{read_msg}

-- `rv_voice_event_flat_t`. The code is that of the `rv_voice_result_t`.
pub record FlatEvent : Type 0 where
  pub type : ℕ
  pub level : ℕ
  pub code : VoiceResult
  pub speaker_id : ℕ
  pub is_speaking : ℕ
  pub channels : ℕ
  pub flags : ℕ
  pub radio_channel : ℕ
  pub sample_rate : ℕ
  pub sample_count : ℕ
  pub message_size : ℕ

abbrev pub event_type : Event → ℕ
event_type no_event = 0
event_type (log level msg) = 1
event_type connected = 2
event_type disconnected = 3
event_type (speaking speaker_id is_speaking) = 4
event_type (pcm_frame ev) = 5
event_type (error code msg) = 6

-- After `memset`, with the type set.
abbrev pub blank : Event → FlatEvent
blank ev = record {
  type = event_type ev;
  level = 0;
  code = voice_ok;
  speaker_id = 0;
  is_speaking = 0;
  channels = 0;
  flags = 0;
  radio_channel = 0;
  sample_rate = 0;
  sample_count = 0;
  message_size = 0;
}

-- A copy of a message: the number that is returned, and what is written at `dst`, with its
-- terminating zero. A null `dst` has no capacity, `none`.
unfoldable pub copy_message : Option ℕ → List ℕ → ℕ × List ℕ
copy_message none src = (length src, [])
copy_message (some cap) src =
    let len = length src in
    if cap == 0
    then (len, [])
    else let copy_len : ℕ = if leb cap len then cap - 1 else len in
      (copy_len, take copy_len src ++ (0 ∷ []))

-- What `rv_voice_poll_event_flat` gives back when it took an event: its return value, 1 as `true`
-- and -2 as `false`, and what it wrote to the event, to `out_pcm` and to `out_message`.
pub record FlatPoll : Type 0 where
  pub fits : Bool
  pub event : FlatEvent
  pub pcm : List ℤ
  pub message : List ℕ

-- The room for samples, `none` for a null `out_pcm`.
abbrev pub has_room : Option ℕ → ℕ → Bool
has_room none n = false
has_room (some capacity) n = leb n capacity

module _ {Encoder Decoder : Type 0} where
  unfoldable pub poll_event : Voice Encoder Decoder → Option Event × Voice Encoder Decoder
  poll_event v = let (ev, evq) = eventq_pop v.evq in (ev, record v { evq = evq })

  -- The samples that a `samples` pointer points at.
  unfoldable pub read_pcm : Voice Encoder Decoder → ℕ → List ℤ
  read_pcm v i = elim (get_elem? v.speakers i) [ none ↦ [] | some sp ↦ sp.pcm_buf ]

  -- The `switch` over the type of the event that was taken.
  unfoldable pub flatten : Voice Encoder Decoder → Option ℕ → Option ℕ → Event → FlatPoll
  flatten v pcm_capacity msg_capacity (log level msg) =
      let (size, text) = copy_message msg_capacity (read_msg v msg) in
      record {
        fits = true;
        event = record (blank (log level msg)) { level = level; message_size = size };
        pcm = [];
        message = text;
      }
  flatten v pcm_capacity msg_capacity (speaking speaker_id is_speaking) = record {
    fits = true;
    event = record (blank (speaking speaker_id is_speaking)) {
      speaker_id = speaker_id;
      is_speaking = is_speaking;
    };
    pcm = [];
    message = [];
  }
  flatten v pcm_capacity msg_capacity (pcm_frame ev) =
      let event = record (blank (pcm_frame ev)) {
        speaker_id = ev.speaker_id;
        sample_rate = ev.sample_rate;
        channels = ev.channels;
        flags = ev.flags;
        radio_channel = ev.radio_channel;
        sample_count = ev.sample_count;
      } in
      if ev.sample_count == 0
      then record { fits = true; event = event; pcm = []; message = [] }
      else if not (has_room pcm_capacity ev.sample_count)
      then record { fits = false; event = event; pcm = []; message = [] }
      else record {
        fits = true;
        event = event;
        pcm = take ev.sample_count (read_pcm v ev.samples);
        message = [];
      }
  flatten v pcm_capacity msg_capacity (error code msg) =
      let (size, text) = copy_message msg_capacity (read_msg v msg) in
      record {
        fits = true;
        event = record (blank (error code msg)) { code = code; message_size = size };
        pcm = [];
        message = text;
      }
  flatten v pcm_capacity msg_capacity ev = record {
    fits = true;
    event = blank ev;
    pcm = [];
    message = [];
  }

  -- `none` is the return value 0: no event waits.
  unfoldable pub poll_event_flat :
      Voice Encoder Decoder → Option ℕ → Option ℕ → Option FlatPoll × Voice Encoder Decoder
  unfolding poll_event flatten
  poll_event_flat v pcm_capacity msg_capacity =
      let (ev, v') = poll_event v in
      elim ev [ none ↦ (none, v') | some e ↦ (some (flatten v' pcm_capacity msg_capacity e), v') ]

  unfoldable pub poll_outgoing :
      Voice Encoder Decoder → ℕ → Result (Option (List ℕ)) × Voice Encoder Decoder
  poll_outgoing v cap = let (r, out_q) = out_pop v.out_q cap in (r, record v { out_q = out_q })

  unfoldable pub get_required_frame_samples : Voice Encoder Decoder → ℕ
  get_required_frame_samples v = if not v.initialized then 0 else v.frame_samples

  unfoldable pub get_sample_rate : Voice Encoder Decoder → ℕ
  get_sample_rate v = if not v.initialized then 0 else v.cfg.sample_rate_hz

  unfoldable pub get_frame_ms : Voice Encoder Decoder → ℕ
  get_frame_ms v = if not v.initialized then 0 else v.cfg.frame_ms

  unfoldable pub get_max_players : Voice Encoder Decoder → ℕ
  get_max_players v = if not v.initialized then 0 else v.cfg.max_players

abbrev pub get_api_version : ℕ
get_api_version = api_version_major * 2 ^ 16 + api_version_minor

unfoldable pub result_to_string : VoiceResult → String
result_to_string voice_ok = "RV_VOICE_OK"
result_to_string invalid_argument = "RV_VOICE_ERR_INVALID_ARGUMENT"
result_to_string out_of_memory = "RV_VOICE_ERR_OUT_OF_MEMORY"
result_to_string not_initialized = "RV_VOICE_ERR_NOT_INITIALIZED"
result_to_string not_connected = "RV_VOICE_ERR_NOT_CONNECTED"
result_to_string internal = "RV_VOICE_ERR_INTERNAL"
