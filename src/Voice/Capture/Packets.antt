-- ===== src/Voice/Capture/Packets.antt =====
-- What a captured frame becomes on the wire.
use mathlib.Core.List.{append-nil}
use residual_engine_audio.Base.{
  ℕ, ◌+◌, ◌^◌, ◌≤◌, ◌<◌, ◌≡◌, refl, ap, sym, ◌∙◌, true, false, some, List, [], ◌∷◌, ◌++◌, arith,
  length, ◌==◌, ok, u16, length-append,
}
use residual_engine_audio.Base.Int.{ℤ}
use residual_engine_audio.Netproto.{hdr_bytes, parse_voice_packet, build_voice_packet_ex}
use residual_engine_audio.Netproto.Flags.{flags_make-getters}
use residual_engine_audio.Netproto.Image.{length-hdr_bytes}
use residual_engine_audio.Netproto.Voice.{parse-build_voice, build_voice-succeeds, built}
use residual_engine_audio.Event.{voice_ok}
use residual_engine_audio.Opus.{Codec, Documented, rv_opus_encode}
use residual_engine_audio.Opus.Bounds.{rv_opus_encode-fits}
use residual_engine_audio.OutQueue.{out_push, max_pkt_size, max_out_pkts}
use residual_engine_audio.OutQueue.Refine.{contents}
use residual_engine_audio.Voice.State.{Voice}
use residual_engine_audio.Voice.Capture.{
  get_tx_flags, capture_should_transmit, next_seq, queue_packet, after_encode,
  encode_and_queue_voice,
}
use residual_engine_audio.Voice.Session.Connect.{queued}
use residual_engine_audio.Voice.Invariant.State.{IsValid}

module _ {Encoder Decoder : Type 0} where
  pub tx_flags-lt : (v : Voice Encoder Decoder) → (get_tx_flags v).flags < 64
  unfolding get_tx_flags
  tx_flags-lt v = let t = get_tx_flags v in (flags_make-getters t.is_radio t.ch t.ptt).3

  -- The packet of a payload: what is built, how long it is, and what it is read as.
  pub packet_of :
      (v : Voice Encoder Decoder) (opus : List ℕ)
      → 0 < length opus
      → length opus ≤ 600
      → v.player_id < 2 ^ 16
      → v.seq < 2 ^ 16
      → (pkt : List ℕ) × (build_voice_packet_ex max_pkt_size v.player_id v.seq
            (get_tx_flags v).flags
            (some opus)
          ≡ ok pkt)
        × (length pkt ≡ 14 + length opus)
        × (parse_voice_packet pkt
            ≡ ok (record {
              speaker_id = v.player_id;
              seq = v.seq;
              flags = (get_tx_flags v).flags;
              payload = opus;
            }))
  packet_of v opus pos fits p s =
      let f = (get_tx_flags v).flags in
      let h = built v.player_id v.seq f (length opus) in
      let done =
        build_voice-succeeds max_pkt_size v.player_id v.seq f opus (omega arith) (omega arith) in
      let pkt = hdr_bytes h ++ opus in
      (
        pkt,
        done,
        length-append (hdr_bytes h) opus ∙ omega (arith, length-hdr_bytes h),
        ap parse_voice_packet (sym (append-nil pkt))
            ∙ parse-build_voice max_pkt_size v.player_id v.seq f opus pkt [] p s
                (omega (arith, tx_flags-lt v)) (omega arith) done,
      )

  queue_packet-room :
      (v : Voice Encoder Decoder) (pkt : List ℕ)
      → (out_push v.out_q pkt).1 ≡ true
      → queue_packet v (ok pkt) ≡ (voice_ok, record v { out_q = (out_push v.out_q pkt).0 })
  unfolding queue_packet
  queue_packet-room v pkt e = rw e refl

  after_encode-queues :
      (v : Voice Encoder Decoder) (opus pkt : List ℕ)
      → 0 < length opus
      → build_voice_packet_ex max_pkt_size v.player_id v.seq (get_tx_flags v).flags (some opus)
        ≡ ok pkt
      → (out_push v.out_q pkt).1 ≡ true
      → after_encode v (ok opus)
        ≡ (voice_ok, record (next_seq v) { out_q = (out_push v.out_q pkt).0 })
  unfolding after_encode
  after_encode-queues v opus pkt pos is done =
      let some_bytes : (length opus == 0) ≡ false = ground arith in
      rw (some_bytes, is) (queue_packet-room (next_seq v) pkt done)

module _ {Encoder Decoder : Type 0} (codec : Codec Encoder Decoder) (doc : Documented codec) where
  -- In a valid engine with a codec that keeps to its documented sizes, a frame that is to be
  -- transmitted and that the codec encodes is queued behind the other packets, if the queue has
  -- room, as one packet that reads back as the player's number, which fits 16 bits, the engine's
  -- sequence number, its flags and the encoded frame; the sequence number moves on.
  pub encode_and_queue_voice-queues :
      (v : Voice Encoder Decoder) (samples : List ℤ) (opus : List ℕ)
      → IsValid v
      → capture_should_transmit v ≡ true
      → (rv_opus_encode codec v.enc samples 600).0 ≡ ok opus
      → 0 < length opus
      → v.player_id < 2 ^ 16
      → length (contents v.out_q) < max_out_pkts
      → let (r, v') = encode_and_queue_voice codec v samples in
        (r ≡ voice_ok)
        × (v'.seq ≡ u16 (v.seq + 1))
        × ((pkt : List ℕ) × (contents v'.out_q ≡ contents v.out_q ++ (pkt ∷ []))
            × (parse_voice_packet pkt
                ≡ ok (record {
                  speaker_id = v.player_id;
                  seq = v.seq;
                  flags = (get_tx_flags v).flags;
                  payload = opus;
                })))
  unfolding encode_and_queue_voice
  encode_and_queue_voice-queues v samples opus h send encoded pos p room =
      let fits = rv_opus_encode-fits codec doc v.enc samples 600 opus encoded in
      let (pkt, is, len, read) = packet_of v opus pos fits p h.seq_fits in
      let (done, behind) = queued v pkt h (ground arith) room in
      let v1 = record v { enc = (rv_opus_encode codec v.enc samples 600).1 } in
      let all = after_encode-queues v1 opus pkt pos (unfold get_tx_flags in is) done in
      (
        rw (send, encoded, all) refl,
        rw (send, encoded, all) refl,
        (pkt, rw (send, encoded, all) behind, read),
      )
