-- ===== src/Netproto/Examples.antt =====
-- The packets of src/rv_netproto.c on concrete bytes.
use residual_engine_audio.Base.{
  ℕ, ◌≤◌, ◌<◌, ◌≡◌, refl, List, [], ◌∷◌, ◌++◌, arith, length, take, drop, set, some, ok, err,
}
use residual_engine_audio.Netproto.{
  VoicePacket, hdr_bytes, hdr_of_bytes, bswap16, bswap32, build_voice_packet_ex,
  parse_packet_header, parse_voice_packet, build_join_packet, parse_join_payload,
}
use residual_engine_audio.Netproto.Voice.{
  parse-build_voice, build-parse_voice, parse_voice-in_bounds,
}
use residual_engine_audio.Netproto.Join.{parse-build_join}

-- Speaker 258, number 772, flags 33, and three bytes.
abbrev packet_bytes : List ℕ
packet_bytes = 0x43 ∷ 0x56 ∷ 0x56 ∷ 0x52 ∷ 1 ∷ 2 ∷ 33 ∷ 0 ∷ 1 ∷ 2 ∷ 3 ∷ 4 ∷ 0 ∷ 3 ∷ 7 ∷ 8 ∷ 9 ∷ []

abbrev packet : VoicePacket
packet = record { speaker_id = 258; seq = 772; flags = 33; payload = 7 ∷ 8 ∷ 9 ∷ [] }

built_bytes : build_voice_packet_ex 64 258 772 33 (some (7 ∷ 8 ∷ 9 ∷ [])) ≡ ok packet_bytes
unfolding build_voice_packet_ex hdr_bytes bswap16 bswap32
built_bytes = refl

read_packet : parse_voice_packet packet_bytes ≡ ok packet
unfolding parse_voice_packet hdr_of_bytes bswap16 bswap32
read_packet = refl

-- A byte is missing.
cut_short : parse_packet_header (take 16 packet_bytes) ≡ err 4
unfolding parse_packet_header hdr_of_bytes bswap16 bswap32
cut_short = refl

parse-build_voice_example : parse_voice_packet (packet_bytes ++ (5 ∷ [])) ≡ ok packet
parse-build_voice_example =
    parse-build_voice 64 258 772 33 (7 ∷ 8 ∷ 9 ∷ []) packet_bytes (5 ∷ []) (omega arith)
      (omega arith) (omega arith) (omega arith) built_bytes

build-parse_voice_example :
    build_voice_packet_ex 64 258 772 33 (some (7 ∷ 8 ∷ 9 ∷ []))
    ≡ ok (set (take 17 packet_bytes) 7 0)
build-parse_voice_example =
    build-parse_voice 64 packet_bytes packet (omega arith) read_packet (omega arith)

parse_voice-in_bounds_example :
    (0 < 3)
    × (17 ≤ length packet_bytes)
    × (length packet.payload ≡ 3)
    × (packet.payload ≡ take 3 (drop 14 packet_bytes))
unfolding bswap16 hdr_of_bytes
parse_voice-in_bounds_example = parse_voice-in_bounds packet_bytes packet read_packet

parse-build_join_example :
    (bytes : List ℕ) × (build_join_packet 64 1234 7 ≡ ok bytes)
    × (length bytes ≡ 26)
    × (parse_join_payload (bytes ++ []) ≡ ok (record { session_id = 1234; player_id = 7 }))
parse-build_join_example = parse-build_join 64 1234 7 [] (omega arith) (omega arith) (omega arith)
