-- ===== src/Netproto/Join.antt =====
-- JOIN packets: `rv_build_join_packet` and `rv_parse_join_payload`.
use mathlib.Core.List.{append_assoc}
use residual_engine_audio.Base.{
  ℕ, ◌^◌, ◌≤◌, ◌<◌, ◌≡◌, refl, List, ◌++◌, arith, length, ok, length-append, take-append,
}
use residual_engine_audio.Netproto.{
  PktHdr, JoinPayload, hdr_bytes, join_bytes, hdr_init, rv_pkt_join, bswap16, bswap32, bswap64,
  build_join_packet, parse_join_payload, sizeof_join_payload,
}
use residual_engine_audio.Netproto.Order.{bswap16-lt, bswap16-bswap16, bswap64-lt, bswap64-bswap64}
use residual_engine_audio.Netproto.Image.{
  FitsHdr, length-hdr_bytes, drop-hdr_bytes, length-join_bytes, join_of_bytes-join_bytes,
}
use residual_engine_audio.Netproto.Voice.{parse-hdr_bytes, bswap32_magic}

abbrev built : PktHdr
built = hdr_init rv_pkt_join 0 0 sizeof_join_payload 0

built-FitsHdr : FitsHdr built
unfolding bswap16 bswap32
built-FitsHdr = omega arith

payload_len_read : bswap16 (bswap16 12) ≡ 12
unfolding bswap16
payload_len_read = refl

abbrev payload : ℕ → ℕ → JoinPayload
payload session_id player_id = record {
  session_id = bswap64 session_id;
  player_id = bswap16 player_id;
  reserved = 0;
}

build_join-succeeds :
    (out_cap session_id player_id : ℕ)
    → 26 ≤ out_cap
    → build_join_packet out_cap session_id player_id
      ≡ ok (hdr_bytes built ++ join_bytes (payload session_id player_id))
unfolding build_join_packet
build_join-succeeds out_cap session_id player_id h = ground arith

-- With room for its 26 bytes a JOIN packet is built, and whatever bytes follow it the parser
-- reads back its session and its player.
pub parse-build_join :
    (out_cap session_id player_id : ℕ) (rest : List ℕ)
    → 26 ≤ out_cap
    → session_id < 2 ^ 64
    → player_id < 2 ^ 16
    → (bytes : List ℕ) × (build_join_packet out_cap session_id player_id ≡ ok bytes)
      × (length bytes ≡ 26)
      × (parse_join_payload (bytes ++ rest)
          ≡ ok (record { session_id = session_id; player_id = player_id }))
unfolding parse_join_payload
parse-build_join out_cap session_id player_id rest room s q = (
  hdr_bytes built ++ join_bytes body,
  build_join-succeeds out_cap session_id player_id room,
  size,
  read,
)
  where
    body : JoinPayload
    body = payload session_id player_id

    image : List ℕ
    image = join_bytes body

    size : length (hdr_bytes built ++ image) ≡ 26
    size = omega (
      arith,
      length-append (hdr_bytes built) image,
      length-hdr_bytes built,
      length-join_bytes body,
    )

    read :
        parse_join_payload ((hdr_bytes built ++ image) ++ rest)
        ≡ ok (record { session_id = session_id; player_id = player_id })
    read =
        rw
          (
            append_assoc (hdr_bytes built) image rest,
            parse-hdr_bytes built (image ++ rest) built-FitsHdr bswap32_magic refl
                (omega (arith, payload_len_read))
                (omega (arith, payload_len_read, length-append image rest, length-join_bytes body)),
            payload_len_read,
            drop-hdr_bytes built (image ++ rest),
            take-append 12 image rest (length-join_bytes body),
            join_of_bytes-join_bytes body
                (omega (arith, bswap64-lt session_id s, bswap16-lt player_id)),
            bswap64-bswap64 session_id s,
            bswap16-bswap16 player_id q,
          )
          refl
