-- ===== src/Voice/Ingest.antt =====
-- `rv_voice_ingest_packet` of src/voice.c: from a received packet to a speaker's jitter buffer.
pub mod Accept
mod Examples
use residual_engine_audio.Base.{
  ℕ, ◌-◌, ◌^◌, Bool, true, false, ◌||◌, Option, some, none, List, leb, ltb, ◌==◌, if◌then◌else◌,
  not, length, get_elem?, set, Result, ok, err, u16,
}
use residual_engine_audio.Netproto.{
  PktHdr, VoicePacket, parse_packet_header, parse_voice_packet, rv_pkt_voice,
}
use residual_engine_audio.Event.{VoiceResult, voice_ok, invalid_argument, not_initialized, speaking}
use residual_engine_audio.OpusJitter.{jitter_push}
use residual_engine_audio.Voice.State.{Voice, Speaker}
use residual_engine_audio.Voice.Emit.{push_event}

module _ {Decoder : Type 0} where
  -- `sp` with the packet taken in, at the time `now_ms`.
  abbrev pub receive : Speaker Decoder → VoicePacket → ℕ → Speaker Decoder
  receive sp p now_ms = record sp {
    last_rx_flags = p.flags;
    jb = jitter_push sp.jb p.seq (some p.payload);
    last_rx_ms = now_ms;
    speaking = true;
  }

module _ {Encoder Decoder : Type 0} where
  -- The speaker takes the packet in, and is announced if it was silent. An index that is out of
  -- range changes nothing; the test of the speaker's number rules it out.
  unfoldable pub deliver_to :
      Voice Encoder Decoder → VoicePacket → ℕ → Option (Speaker Decoder) → Voice Encoder Decoder
  deliver_to v p now_ms none = v
  deliver_to v p now_ms (some sp) =
      let v' = record v { speakers = set v.speakers (p.speaker_id - 1) (receive sp p now_ms) } in
      if sp.speaking then v' else push_event v' (speaking p.speaker_id 1)

  unfoldable pub deliver : Voice Encoder Decoder → VoicePacket → ℕ → Voice Encoder Decoder
  unfolding deliver_to
  deliver v p now_ms = deliver_to v p now_ms (get_elem? v.speakers (p.speaker_id - 1))

  unfoldable pub ingest_voice :
      Voice Encoder Decoder → Result VoicePacket → ℕ → Voice Encoder Decoder
  unfolding deliver
  ingest_voice v (err k) now_ms = v
  ingest_voice v (ok p) now_ms =
      if p.speaker_id == 0 || ltb (u16 v.cfg.max_players) p.speaker_id
      then v
      else deliver v p now_ms

  unfoldable pub ingest_checked :
      Voice Encoder Decoder → List ℕ → ℕ → Result PktHdr → Voice Encoder Decoder
  unfolding ingest_voice
  ingest_checked v bytes now_ms (err k) = v
  ingest_checked v bytes now_ms (ok hdr) =
      if not (hdr.type == rv_pkt_voice) then v else ingest_voice v (parse_voice_packet bytes) now_ms

  -- A null `data` is `none`. The parsers take the size as an `int`: one of 2 ^ 31 or more is
  -- negative there, and the packet is not read.
  unfoldable pub ingest_packet :
      Voice Encoder Decoder → Option (List ℕ) → ℕ → VoiceResult × Voice Encoder Decoder
  unfolding ingest_checked
  ingest_packet v none now_ms = (invalid_argument, v)
  ingest_packet v (some bytes) now_ms =
      if length bytes == 0
      then (invalid_argument, v)
      else if not v.initialized
      then (not_initialized, v)
      else if leb (2 ^ 31) (length bytes)
      then (voice_ok, v)
      else (voice_ok, ingest_checked v bytes now_ms (parse_packet_header bytes))
