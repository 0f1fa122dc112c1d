-- ===== src/Voice/Ingest/Examples.antt =====
-- A packet of speaker 2, and one of a speaker that there is not.
use residual_engine_audio.Base.{
  ℕ, ◌≡◌, ◌≢◌, refl, arith, true, some, List, [], ◌∷◌, get_elem?, ok, inr,
}
use residual_engine_audio.Netproto.{VoicePacket, parse_voice_packet, hdr_of_bytes, bswap16, bswap32}
use residual_engine_audio.Event.{voice_ok, speaking}
use residual_engine_audio.EventQueue.{eventq_push}
use residual_engine_audio.OpusJitter.View.{held}
use residual_engine_audio.Voice.State.{Speaker}
use residual_engine_audio.Voice.Emit.{emit_log}
use residual_engine_audio.Voice.Ingest.{ingest_packet}
use residual_engine_audio.Voice.Ingest.Accept.{ingest_packet-accepted, ingest_packet-ignored}
use residual_engine_audio.Voice.Samples.{engine, engine-IsValid, speaker}

abbrev bytes_of : ℕ → List ℕ
bytes_of id = 0x43 ∷ 0x56 ∷ 0x56 ∷ 0x52 ∷ 1 ∷ 2 ∷ 33 ∷ 0 ∷ 0 ∷ id ∷ 3 ∷ 4 ∷ 0 ∷ 3 ∷ 7 ∷ 8 ∷ 9 ∷ []

abbrev packet_of : ℕ → VoicePacket
packet_of id = record { speaker_id = id; seq = 772; flags = 33; payload = 7 ∷ 8 ∷ 9 ∷ [] }

read_2 : parse_voice_packet (bytes_of 2) ≡ ok (packet_of 2)
unfolding parse_voice_packet hdr_of_bytes bswap16 bswap32
read_2 = refl

read_3 : parse_voice_packet (bytes_of 3) ≡ ok (packet_of 3)
unfolding parse_voice_packet hdr_of_bytes bswap16 bswap32
read_3 = refl

engine_on : engine.initialized ≡ true
unfolding emit_log
engine_on = refl

players : engine.cfg.max_players ≡ 2
unfolding emit_log
players = refl

second : get_elem? engine.speakers 1 ≡ some speaker
unfolding emit_log
second = refl

ingest_packet-accepted_example :
    let (r, v') = ingest_packet engine (some (bytes_of 2)) 40 in
    (r ≡ voice_ok)
    × ((sp' : Speaker ℕ) × (get_elem? v'.speakers 1 ≡ some sp')
        × (held sp'.jb 772 ≡ some (7 ∷ 8 ∷ 9 ∷ []))
        × (sp'.speaking ≡ true)
        × (sp'.last_rx_ms ≡ 40)
        × (sp'.last_rx_flags ≡ 33))
    × ((i : ℕ) → i ≢ 1 → get_elem? v'.speakers i ≡ get_elem? engine.speakers i)
    × (v'.evq ≡ (eventq_push engine.evq (speaking 2 1)).0)
ingest_packet-accepted_example =
    ingest_packet-accepted engine (bytes_of 2) 40 (packet_of 2) speaker engine-IsValid engine_on
      (omega arith) read_2 (omega arith) (omega (arith, players)) second (omega arith)

ingest_packet-ignored_example : (ingest_packet engine (some (bytes_of 3)) 40).1 ≡ engine
ingest_packet-ignored_example =
    ingest_packet-ignored engine (bytes_of 3) 40
      (inr (packet_of 3, read_3, inr (omega (arith, players))))
