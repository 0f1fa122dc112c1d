-- ===== src/Voice/Ingest/Accept.antt =====
-- What `rv_voice_ingest_packet` does with the packets that it reads, and with the others.
use residual_engine_audio.Base.{
  ℕ, ◌-◌, ◌^◌, ◌≤◌, ◌<◌, ◌≡◌, ◌≢◌, refl, ap, sym, ◌∙◌, true, false, ◌||◌, some, List, arith, leb,
  ltb, ◌==◌, ==_refl, if◌then◌else◌, length, get_elem?, set, Result, ok, err, u16, ◌⊎◌, inl, inr,
  get_elem?-set_self, get_elem?-set_ne, get_elem?-lt,
}
use residual_engine_audio.Netproto.{
  PktHdr, VoicePacket, parse_packet_header, parse_voice_packet, rv_pkt_voice,
}
use residual_engine_audio.Netproto.Voice.{parse_voice-payload}
use residual_engine_audio.Event.{voice_ok, speaking}
use residual_engine_audio.EventQueue.{eventq_push}
use residual_engine_audio.OpusJitter.{opus_max_packet}
use residual_engine_audio.OpusJitter.View.{held, held-push}
use residual_engine_audio.Base.{All-get_elem?}
use residual_engine_audio.Voice.State.{Voice, Speaker}
use residual_engine_audio.Voice.Emit.{push_event}
use residual_engine_audio.Voice.Ingest.{receive, deliver_to, deliver, ingest_packet}
use residual_engine_audio.Voice.Invariant.State.{IsValid, IsSpeaker}

header_of_voice :
    (buf : List ℕ) (p : VoicePacket)
    → parse_voice_packet buf ≡ ok p
    → (h : PktHdr) × (parse_packet_header buf ≡ ok h) × (h.type ≡ rv_pkt_voice)
unfolding parse_voice_packet
header_of_voice buf p e = from (parse_packet_header buf) refl e
  where
    from :
        (r : Result PktHdr)
        → parse_packet_header buf ≡ r
        → parse_voice_packet buf ≡ ok p
        → (h : PktHdr) × (parse_packet_header buf ≡ ok h) × (h.type ≡ rv_pkt_voice)
    from (err k) is e = ground arith
    from (ok h) is e = (h, is, ground arith)

module _ {Encoder Decoder : Type 0} where
  -- Once the checks are passed, a packet is delivered.
  ingest_packet-delivers :
      (v : Voice Encoder Decoder) (bytes : List ℕ) (now_ms : ℕ) (p : VoicePacket)
      → v.initialized ≡ true
      → length bytes < 2 ^ 31
      → parse_voice_packet bytes ≡ ok p
      → ingest_packet v (some bytes) now_ms ≡ (
        voice_ok,
        if p.speaker_id == 0 || ltb (u16 v.cfg.max_players) p.speaker_id
            then v
            else deliver v p now_ms,
      )
  unfolding ingest_packet
  ingest_packet-delivers v bytes now_ms p on small e =
      let (h, is, voice) = header_of_voice bytes p e in
      let (pos, fits, payload) = parse_voice-payload bytes p e in
      let full : (length bytes == 0) ≡ false = ground arith in
      let read : leb (2 ^ 31) (length bytes) ≡ false = ground arith in
      rw (full, on, read, is, voice, e)

  -- In a valid, initialized engine, a voice packet of fewer than 2 ^ 31 bytes from a known
  -- speaker reaches that speaker and no other: its payload, of at most 600 bytes, is held under
  -- its number, the time and the flags are noted, the speaker counts as speaking, and the host is
  -- told so if the speaker was silent.
  pub ingest_packet-accepted :
      (v : Voice Encoder Decoder) (bytes : List ℕ) (now_ms : ℕ) (p : VoicePacket)
      (sp : Speaker Decoder)
      → IsValid v
      → v.initialized ≡ true
      → length bytes < 2 ^ 31
      → parse_voice_packet bytes ≡ ok p
      → 0 < p.speaker_id
      → p.speaker_id ≤ u16 v.cfg.max_players
      → get_elem? v.speakers (p.speaker_id - 1) ≡ some sp
      → length p.payload ≤ opus_max_packet
      → let (r, v') = ingest_packet v (some bytes) now_ms in
        (r ≡ voice_ok)
        × ((sp' : Speaker Decoder) × (get_elem? v'.speakers (p.speaker_id - 1) ≡ some sp')
            × (held sp'.jb p.seq ≡ some p.payload)
            × (sp'.speaking ≡ true)
            × (sp'.last_rx_ms ≡ now_ms)
            × (sp'.last_rx_flags ≡ p.flags))
        × ((i : ℕ) → i ≢ p.speaker_id - 1 → get_elem? v'.speakers i ≡ get_elem? v.speakers i)
        × (v'.evq
            ≡ (if sp.speaking then v.evq else (eventq_push v.evq (speaking p.speaker_id 1)).0))
  unfolding deliver deliver_to push_event
  ingest_packet-accepted v bytes now_ms p sp h on small e pos known here fits =
      let is = ingest_packet-delivers v bytes now_ms p on small e in
      let (full, inside, payload) = parse_voice-payload bytes p e in
      let no : (p.speaker_id == 0 || ltb (u16 v.cfg.max_players) p.speaker_id) ≡ false =
        ground arith in
      let idx = p.speaker_id - 1 in
      let sp' = receive sp p now_ms in
      let old = All-get_elem? (IsSpeaker v.frame_samples) v.speakers idx sp h.speakers_ok here in
      let lt = get_elem?-lt v.speakers idx sp here in
      let speakers = speakers_after v p now_ms sp in
      (
        rw is refl,
        (
          sp',
          rw (is, no, here)
              (ap (λ l. get_elem? l idx) speakers ∙ get_elem?-set_self v.speakers idx sp' lt),
          held-push sp.jb p.seq p.payload p.seq old.jitter (full, fits) ∙ rw (==_refl p.seq),
          refl,
          refl,
          refl,
        ),
        λ i ne.
            rw (is, no, here)
              (ap (λ l. get_elem? l i) speakers
                ∙ get_elem?-set_ne v.speakers idx i sp' (λ q. ne (sym q))),
        rw (is, no, here) (events_after v p now_ms sp),
      )
    where
      speakers_after :
          (v : Voice Encoder Decoder) (p : VoicePacket) (now_ms : ℕ) (sp : Speaker Decoder)
          → (deliver_to v p now_ms (some sp)).speakers
            ≡ set v.speakers (p.speaker_id - 1) (receive sp p now_ms)
      speakers_after v p now_ms sp = ground arith

      events_after :
          (v : Voice Encoder Decoder) (p : VoicePacket) (now_ms : ℕ) (sp : Speaker Decoder)
          → (deliver_to v p now_ms (some sp)).evq
            ≡ (if sp.speaking then v.evq else (eventq_push v.evq (speaking p.speaker_id 1)).0)
      events_after v p now_ms sp = ground arith

  -- A packet that the parser refuses changes nothing, and neither does one whose speaker's number
  -- is 0 or above the number of speakers, taken in 16 bits.
  pub ingest_packet-ignored :
      (v : Voice Encoder Decoder) (bytes : List ℕ) (now_ms : ℕ)
      → ((k : ℕ) × (parse_voice_packet bytes ≡ err k))
        ⊎ ((p : VoicePacket) × (parse_voice_packet bytes ≡ ok p)
            × ((p.speaker_id ≡ 0) ⊎ (u16 v.cfg.max_players < p.speaker_id)))
      → (ingest_packet v (some bytes) now_ms).1 ≡ v
  unfolding ingest_packet
  ingest_packet-ignored v bytes now_ms (inl (k, e)) = ground arith
  ingest_packet-ignored v bytes now_ms (inr (p, e, out)) = ground arith
