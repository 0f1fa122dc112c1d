-- ===== src/Network.antt =====
-- A voice frame on its way from one engine over the relay to another: src/voice.c on both sides,
-- and src/rv_relay_main.c between them.
mod Examples
use mathlib.Core.List.{Memᴰ}
use mathlib.Core.Path.{subst}
use residual_engine_audio.Base.{
  ℕ, ◌+◌, ◌-◌, ◌^◌, ◌≤◌, ◌<◌, ◌≡◌, refl, ap, sym, arith, true, false, some, List, [], ◌∷◌, ◌++◌,
  length, All, get_elem?, Result, ok, u16,
}
use residual_engine_audio.Base.Int.{ℤ}
use residual_engine_audio.Netproto.{VoicePacket, parse_voice_packet}
use residual_engine_audio.Event.{voice_ok}
use residual_engine_audio.Opus.{Codec, Documented, rv_opus_encode}
use residual_engine_audio.Opus.Bounds.{rv_opus_encode-fits}
use residual_engine_audio.OutQueue.{max_out_pkts}
use residual_engine_audio.OutQueue.Refine.{contents, IsSized}
use residual_engine_audio.OpusJitter.View.{held}
use residual_engine_audio.Relay.{SockAddr, RelayClient, RelaySession, addr_equal}
use residual_engine_audio.Relay.Forward.{clients_of}
use residual_engine_audio.RelayMain.{serve, serve_all}
use residual_engine_audio.RelayMain.Serve.{serve_all-reaches, Leaves}
use residual_engine_audio.Voice.State.{Voice, Speaker}
use residual_engine_audio.Voice.Capture.{capture_should_transmit, encode_and_queue_voice}
use residual_engine_audio.Voice.Capture.Packets.{encode_and_queue_voice-queues}
use residual_engine_audio.Voice.Ingest.{ingest_packet}
use residual_engine_audio.Voice.Ingest.Accept.{ingest_packet-accepted}
use residual_engine_audio.Voice.Invariant.State.{IsValid}
use residual_engine_audio.Voice.Invariant.Calls.{encode_and_queue_voice-IsValid}

All-last : (P : List ℕ → Type 0) (xs : List (List ℕ)) (x : List ℕ) → All P (xs ++ (x ∷ [])) → P x
All-last P [] x (p, u) = p
All-last P (y ∷ xs) x (p, rest) = All-last P xs x rest

module _ {Encoder Decoder : Type 0} (codec : Codec Encoder Decoder) (doc : Documented codec) where
  -- A frame that one engine is to transmit, and that a codec that keeps to its documented sizes
  -- encodes, is heard by another engine: it is queued as one packet behind the others; when the
  -- relay receives that packet it sends it, unchanged, to every client in use of session 1234 at
  -- another address, whatever came before that did not move the client; and when that packet is
  -- handed to an engine, the encoded frame lies in the jitter buffer of the sender under the sender's
  -- sequence number. Both engines are valid, the sender has room in its queue, the receiver is
  -- initialized, and the sender's number is that of a speaker of the receiver.
  pub frame-reaches :
      (a b : Voice Encoder Decoder) (samples : List ℤ) (opus : List ℕ) (st : List RelaySession)
      (came : List (SockAddr × Result (List ℕ))) (from : SockAddr) (x : RelayClient) (now_ms : ℕ)
      (sp : Speaker Decoder)
      → IsValid a
      → capture_should_transmit a ≡ true
      → (rv_opus_encode codec a.enc samples 600).0 ≡ ok opus
      → 0 < length opus
      → length (contents a.out_q) < max_out_pkts
      → Memᴰ x (clients_of st 1234)
      → x.in_use ≡ true
      → All (Leaves 1234 x) came
      → addr_equal x.addr from ≡ false
      → IsValid b
      → b.initialized ≡ true
      → 0 < a.player_id
      → a.player_id < 2 ^ 16
      → a.player_id ≤ u16 b.cfg.max_players
      → get_elem? b.speakers (a.player_id - 1) ≡ some sp
      → let (r, a') = encode_and_queue_voice codec a samples in
        (pkt : List ℕ) × (contents a'.out_q ≡ contents a.out_q ++ (pkt ∷ []))
        × Memᴰ (x.addr, pkt) (serve (serve_all st came).0 from (ok pkt)).1
        × ((sp' : Speaker Decoder) × (get_elem?
                (ingest_packet b (some pkt) now_ms).1.speakers
                (a.player_id - 1)
              ≡ some sp')
            × (held sp'.jb a.seq ≡ some opus)
            × (sp'.speaking ≡ true))
  frame-reaches a b samples opus st came from x now_ms sp ha send encoded pos room client used
        leaves apart hb on known small fits here =
      let a' = (encode_and_queue_voice codec a samples).1 in
      let (done, moved, (pkt, queued, read)) =
        encode_and_queue_voice-queues codec doc a samples opus ha send encoded pos small room in
      let sizes =
        subst (All IsSized) queued
          (encode_and_queue_voice-IsValid codec a samples ha).out_ok.packets in
      let sized = All-last IsSized (contents a.out_q) pkt sizes in
      let short = rv_opus_encode-fits codec doc a.enc samples 600 opus encoded in
      let reaches = serve_all-reaches st came x from pkt _ client used leaves apart read in
      let (got, (sp', there, kept, speaking, at, flags), others, events) =
        ingest_packet-accepted b pkt now_ms _ sp hb on (omega (arith, sized)) read known fits here
          short in
      (pkt, queued, reaches, (sp', there, kept, speaking))
