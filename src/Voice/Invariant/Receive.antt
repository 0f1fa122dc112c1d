-- ===== src/Voice/Invariant/Receive.antt =====
-- The receiving side of the engine keeps the invariant.
use residual_engine_audio.Base.{
  ℕ, ◌-◌, ◌^◌, ◌<◌, ◌≡◌, ◌∙◌, refl, ◌||◌, Option, some, none, List, arith, length, All, All-set,
  All-get_elem?, length-set, ◌==◌, leb, ltb, not, if_both, Result, ok, err, u16, get_elem?, set,
}
use residual_engine_audio.Event.{VoiceResult, speaking}
use residual_engine_audio.Netproto.{
  VoicePacket, PktHdr, parse_packet_header, parse_voice_packet, rv_pkt_voice, hdr_of_bytes,
}
use residual_engine_audio.Netproto.Order.{bswap16-lt}
use residual_engine_audio.Netproto.Voice.{parse_voice-accepted}
use residual_engine_audio.OpusJitter.View.{push-IsValid_any}
use residual_engine_audio.Voice.State.{Voice, Speaker}
use residual_engine_audio.Voice.Ingest.{
  receive, deliver_to, deliver, ingest_voice, ingest_checked, ingest_packet,
}
use residual_engine_audio.Voice.Invariant.State.{IsValid, IsSpeaker, push_event-IsValid}

seq_of_packet : (buf : List ℕ) (p : VoicePacket) → parse_voice_packet buf ≡ ok p → p.seq < 2 ^ 16
seq_of_packet buf p e =
    let (m, v, t, pos, fits, s, seq, rest, is) = parse_voice-accepted buf p e in
    omega (arith, bswap16-lt (hdr_of_bytes buf).seq)

module _ {Encoder Decoder : Type 0} where
  pub speakers-IsValid :
      (v : Voice Encoder Decoder) (speakers : List (Speaker Decoder))
      → IsValid v
      → length speakers ≡ v.cfg.max_players
      → All (IsSpeaker v.frame_samples) speakers
      → IsValid (record v { speakers = speakers })
  speakers-IsValid v speakers h n all = record {
    out_ok = h.out_ok;
    cap_ok = h.cap_ok;
    evq_ok = h.evq_ok;
    speakers_ok = all;
    count = n;
    seq_fits = h.seq_fits;
    msg_0_fits = h.msg_0_fits;
    msg_1_fits = h.msg_1_fits;
  }

  deliver_to-IsValid :
      (v : Voice Encoder Decoder) (p : VoicePacket) (now_ms : ℕ)
      → p.seq < 2 ^ 16
      → IsValid v
      → (found : Option (Speaker Decoder)) → get_elem? v.speakers (p.speaker_id - 1) ≡ found
      → IsValid (deliver_to v p now_ms found)
  unfolding deliver_to
  deliver_to-IsValid v p now_ms fits h none e = h
  deliver_to-IsValid v p now_ms fits h (some sp) e =
      let idx = p.speaker_id - 1 in
      let sp' = receive sp p now_ms in
      let old = All-get_elem? (IsSpeaker v.frame_samples) v.speakers idx sp h.speakers_ok e in
      let new : IsSpeaker v.frame_samples sp' = record {
        jitter = push-IsValid_any sp.jb p.seq (some p.payload) old.jitter fits;
        buffer = old.buffer;
        decoded = old.decoded;
      } in
      let v' = record v { speakers = set v.speakers idx sp' } in
      let taken =
        speakers-IsValid v v'.speakers h (length-set v.speakers idx sp' ∙ h.count)
          (All-set (IsSpeaker v.frame_samples) v.speakers idx sp' new h.speakers_ok) in
      if_both (λ (w : Voice Encoder Decoder). IsValid w) sp.speaking taken
        (push_event-IsValid v' (speaking p.speaker_id 1) taken (omega arith))

  deliver-IsValid :
      (v : Voice Encoder Decoder) (p : VoicePacket) (now_ms : ℕ)
      → p.seq < 2 ^ 16
      → IsValid v
      → IsValid (deliver v p now_ms)
  unfolding deliver
  deliver-IsValid v p now_ms fits h =
      deliver_to-IsValid v p now_ms fits h (get_elem? v.speakers (p.speaker_id - 1)) refl

  ingest_voice-IsValid :
      (v : Voice Encoder Decoder) (r : Result VoicePacket) (now_ms : ℕ)
      → ((p : VoicePacket) → r ≡ ok p → p.seq < 2 ^ 16)
      → IsValid v
      → IsValid (ingest_voice v r now_ms)
  unfolding ingest_voice
  ingest_voice-IsValid v (err k) now_ms fits h = h
  ingest_voice-IsValid v (ok p) now_ms fits h =
      if_both (λ (w : Voice Encoder Decoder). IsValid w)
        (p.speaker_id == 0 || ltb (u16 v.cfg.max_players) p.speaker_id) h
        (deliver-IsValid v p now_ms (fits p refl) h)

  ingest_checked-IsValid :
      (v : Voice Encoder Decoder) (bytes : List ℕ) (now_ms : ℕ) (r : Result PktHdr)
      → IsValid v
      → IsValid (ingest_checked v bytes now_ms r)
  unfolding ingest_checked
  ingest_checked-IsValid v bytes now_ms (err k) h = h
  ingest_checked-IsValid v bytes now_ms (ok hdr) h =
      if_both (λ (w : Voice Encoder Decoder). IsValid w) (not (hdr.type == rv_pkt_voice)) h
        (ingest_voice-IsValid v (parse_voice_packet bytes) now_ms (seq_of_packet bytes) h)

  -- `rv_voice_ingest_packet` keeps the invariant, whatever bytes arrive.
  pub ingest_packet-IsValid :
      (v : Voice Encoder Decoder) (data? : Option (List ℕ)) (now_ms : ℕ)
      → IsValid v
      → IsValid (ingest_packet v data? now_ms).1
  unfolding ingest_packet
  ingest_packet-IsValid v none now_ms h = h
  ingest_packet-IsValid v (some bytes) now_ms h = if_both P (length bytes == 0) h (
      if_both P (not v.initialized) h (
        if_both P (leb (2 ^ 31) (length bytes)) h
          (ingest_checked-IsValid v bytes now_ms (parse_packet_header bytes) h)))
    where
      P : VoiceResult × Voice Encoder Decoder → Type 0
      P r = IsValid r.1
