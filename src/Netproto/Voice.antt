-- ===== src/Netproto/Voice.antt =====
-- VOICE packets: `rv_build_voice_packet_ex` and `rv_parse_voice_packet`.
use mathlib.Core.List.{append_assoc}
use mathlib.Core.Path.{◌≡⟨◌⟩◌, ◌∎}
use residual_engine_audio.Base.{
  ℕ, ◌+◌, ◌^◌, ◌≤◌, ◌<◌, ◌≡◌, refl, ◌∙◌, ap, sym, List, ◌++◌, arith, length, take, drop, set,
  AllBytes, some, ok, ◌≢◌, length-append, take-append, length-take, length-drop, take-add,
  set-append_left,
}
use residual_engine_audio.Netproto.{
  PktHdr, hdr_bytes, hdr_of_bytes, hdr_init, rv_pkt_voice, bswap16, bswap32, rv_magic, rv_proto_ver,
  host_order, build_voice_packet_ex, parse_packet_header, parse_voice_packet, VoicePacket,
}
use residual_engine_audio.Netproto.Order.{bswap32-bswap32, bswap16-lt, bswap16-bswap16}
use residual_engine_audio.Netproto.Image.{
  FitsHdr, hdr_of_bytes-FitsHdr, hdr_of_bytes-hdr_bytes, hdr_bytes-hdr_of_bytes, length-hdr_bytes,
  drop-hdr_bytes,
}

-- When `rv_parse_packet_header` accepts, and what it gives.
pub parse_packet_header-accepts :
    (buf : List ℕ)
    → 14 ≤ length buf
    → bswap32 (hdr_of_bytes buf).magic ≡ rv_magic
    → (hdr_of_bytes buf).version ≡ rv_proto_ver
    → bswap16 (hdr_of_bytes buf).payload_len ≢ 0
    → 14 + bswap16 (hdr_of_bytes buf).payload_len ≤ length buf
    → parse_packet_header buf ≡ ok (host_order (hdr_of_bytes buf))
unfolding parse_packet_header
parse_packet_header-accepts buf l m v n f = ground arith

-- Its converse.
pub parse_packet_header-accepted :
    (buf : List ℕ) (h : PktHdr)
    → parse_packet_header buf ≡ ok h
    → (14 ≤ length buf)
      × (bswap32 (hdr_of_bytes buf).magic ≡ rv_magic)
      × (h.version ≡ rv_proto_ver)
      × (h.payload_len ≢ 0)
      × (14 + h.payload_len ≤ length buf)
      × (h ≡ host_order (hdr_of_bytes buf))
unfolding parse_packet_header
parse_packet_header-accepted buf h e = ground arith

-- An image of a well-formed header in wire order, with its payload behind it.
pub parse-hdr_bytes :
    (h : PktHdr) (rest : List ℕ)
    → FitsHdr h
    → bswap32 h.magic ≡ rv_magic
    → h.version ≡ rv_proto_ver
    → bswap16 h.payload_len ≢ 0
    → bswap16 h.payload_len ≤ length rest
    → parse_packet_header (hdr_bytes h ++ rest) ≡ ok (host_order h)
parse-hdr_bytes h rest fits m v n f =
    let read = hdr_of_bytes-hdr_bytes h rest fits in
    rw (read) at (
      parse_packet_header-accepts (hdr_bytes h ++ rest) (omega (arith, len)) (rw read m) (rw read v)
        (rw read n) (rw read (omega (arith, len))))
  where
    len : length (hdr_bytes h ++ rest) ≡ 14 + length rest
    len = length-append (hdr_bytes h) rest ∙ omega (arith, length-hdr_bytes h)

-- The header struct that the builder fills in.
abbrev pub built : ℕ → ℕ → ℕ → ℕ → PktHdr
built speaker_id seq flags len = hdr_init rv_pkt_voice speaker_id seq len flags

pub bswap32_magic : bswap32 (bswap32 rv_magic) ≡ rv_magic
unfolding bswap32
bswap32_magic = refl

built-FitsHdr :
    (speaker_id seq flags len : ℕ) → flags < 256 → FitsHdr (built speaker_id seq flags len)
unfolding bswap32
built-FitsHdr speaker_id seq flags len h =
    omega (arith, bswap16-lt speaker_id, bswap16-lt seq, bswap16-lt len)

-- When the builder succeeds, and the bytes that it writes.
pub build_voice-bytes :
    (out_cap speaker_id seq flags : ℕ) (payload bytes : List ℕ)
    → build_voice_packet_ex out_cap speaker_id seq flags (some payload) ≡ ok bytes
    → (length payload ≢ 0)
      × (14 + length payload ≤ out_cap)
      × (bytes ≡ hdr_bytes (built speaker_id seq flags (length payload)) ++ payload)
unfolding build_voice_packet_ex
build_voice-bytes out_cap speaker_id seq flags payload bytes e = ground arith

pub build_voice-succeeds :
    (out_cap speaker_id seq flags : ℕ) (payload : List ℕ)
    → length payload ≢ 0
    → 14 + length payload ≤ out_cap
    → build_voice_packet_ex out_cap speaker_id seq flags (some payload)
      ≡ ok (hdr_bytes (built speaker_id seq flags (length payload)) ++ payload)
unfolding build_voice_packet_ex
build_voice-succeeds out_cap speaker_id seq flags payload pos room = ground arith

-- What `rv_build_voice_packet_ex` writes, `rv_parse_voice_packet` reads back, also with more
-- bytes behind it in the buffer, for numbers, flags and a payload length that fit their fields.
pub parse-build_voice :
    (out_cap speaker_id seq flags : ℕ) (payload bytes rest : List ℕ)
    → speaker_id < 2 ^ 16
    → seq < 2 ^ 16
    → flags < 256
    → length payload < 2 ^ 16
    → build_voice_packet_ex out_cap speaker_id seq flags (some payload) ≡ ok bytes
    → parse_voice_packet (bytes ++ rest)
      ≡ ok (record { speaker_id = speaker_id; seq = seq; flags = flags; payload = payload })
unfolding parse_voice_packet
parse-build_voice out_cap speaker_id seq flags payload bytes rest s q f l e =
    let n = length payload in
    let h = built speaker_id seq flags n in
    let (pos, fits, is) = build_voice-bytes out_cap speaker_id seq flags payload bytes e in
    let back = bswap16-bswap16 n l in
    let split : bytes ++ rest ≡ hdr_bytes h ++ (payload ++ rest) =
      rw is (append_assoc (hdr_bytes h) payload rest) in
    let head =
      parse-hdr_bytes h (payload ++ rest) (built-FitsHdr speaker_id seq flags n f) bswap32_magic
        refl (omega (arith, back)) (omega (arith, back, length-append payload rest)) in
    rw (
      split,
      head,
      drop-hdr_bytes h (payload ++ rest),
      back,
      bswap16-bswap16 speaker_id s,
      bswap16-bswap16 seq q,
      take-append n payload rest refl,
    )

-- When `rv_parse_voice_packet` accepts, and what it reads.
pub parse_voice-accepted :
    (buf : List ℕ) (p : VoicePacket)
    → parse_voice_packet buf ≡ ok p
    → let h = hdr_of_bytes buf in
      (bswap32 h.magic ≡ rv_magic)
      × (h.version ≡ rv_proto_ver)
      × (h.type ≡ rv_pkt_voice)
      × (bswap16 h.payload_len ≢ 0)
      × (14 + bswap16 h.payload_len ≤ length buf)
      × (p.speaker_id ≡ bswap16 h.speaker_id)
      × (p.seq ≡ bswap16 h.seq)
      × (p.flags ≡ h.flags)
      × (p.payload ≡ take (bswap16 h.payload_len) (drop 14 buf))
unfolding parse_voice_packet parse_packet_header
parse_voice-accepted buf p e = ground arith

-- The length that the header of an accepted packet gives is not 0, and that many bytes lie behind
-- the header and inside the buffer; the payload is these bytes, none of them missing.
pub parse_voice-in_bounds :
    (buf : List ℕ) (p : VoicePacket)
    → parse_voice_packet buf ≡ ok p
    → let n = bswap16 (hdr_of_bytes buf).payload_len in
      (0 < n) × (14 + n ≤ length buf) × (length p.payload ≡ n) × (p.payload ≡ take n (drop 14 buf))
parse_voice-in_bounds buf p e =
    let (m, v, t, pos, fits, s, q, f, is) = parse_voice-accepted buf p e in
    let n = bswap16 (hdr_of_bytes buf).payload_len in
    let len : length p.payload ≡ n =
      rw is (omega (arith, length-take n (drop 14 buf), length-drop 14 buf)) in
    (omega arith, fits, len, is)

-- The same in terms of the payload's own length.
pub parse_voice-payload :
    (buf : List ℕ) (p : VoicePacket)
    → parse_voice_packet buf ≡ ok p
    → (0 < length p.payload)
      × (14 + length p.payload ≤ length buf)
      × (p.payload ≡ take (length p.payload) (drop 14 buf))
parse_voice-payload buf p e =
    let (pos, fits, len, is) = parse_voice-in_bounds buf p e in
    (omega arith, omega arith, rw len is)

-- Clearing the reserved byte of a header in its image.
clear_reserved : (h : PktHdr) → hdr_bytes (record h { reserved0 = 0 }) ≡ set (hdr_bytes h) 7 0
unfolding hdr_bytes
clear_reserved h = refl

-- An accepted voice packet is built again, byte for byte, from what was read off it, but for the
-- reserved byte of the header, which the builder clears, if there is room for it.
pub build-parse_voice :
    (out_cap : ℕ) (buf : List ℕ) (p : VoicePacket)
    → AllBytes buf
    → parse_voice_packet buf ≡ ok p
    → 14 + length p.payload ≤ out_cap
    → build_voice_packet_ex out_cap p.speaker_id p.seq p.flags (some p.payload)
      ≡ ok (set (take (14 + length p.payload) buf) 7 0)
build-parse_voice out_cap buf p bytes e room =
    build_voice-succeeds out_cap p.speaker_id p.seq p.flags p.payload (omega (arith, bounds)) room
    ∙ ap ok same
  where
    raw : PktHdr
    raw = hdr_of_bytes buf

    bounds :
        (0 < length p.payload)
        × (14 + length p.payload ≤ length buf)
        × (p.payload ≡ take (length p.payload) (drop 14 buf))
    bounds = parse_voice-payload buf p e

    fits : FitsHdr raw
    fits = hdr_of_bytes-FitsHdr buf bytes (omega (arith, bounds))

    header : built p.speaker_id p.seq p.flags (length p.payload) ≡ record raw { reserved0 = 0 }
    header = ground (
      arith,
      parse_voice-accepted buf p e,
      bounds,
      length-take (bswap16 raw.payload_len) (drop 14 buf),
      length-drop 14 buf,
      bswap32-bswap32 raw.magic,
      bswap16-bswap16 raw.speaker_id,
      bswap16-bswap16 raw.seq,
      bswap16-bswap16 raw.payload_len,
      fits,
    )

    same :
        hdr_bytes (built p.speaker_id p.seq p.flags (length p.payload)) ++ p.payload
        ≡ set (take (14 + length p.payload) buf) 7 0
    same =
        let left = take 14 buf in
        let right = take (length p.payload) (drop 14 buf) in
        hdr_bytes (built p.speaker_id p.seq p.flags (length p.payload)) ++ p.payload
        ≡⟨ ap (λ h. hdr_bytes h ++ p.payload) header ⟩
          hdr_bytes (record raw { reserved0 = 0 }) ++ p.payload
        ≡⟨ ap (λ l. l ++ p.payload) (clear_reserved raw) ⟩ set (hdr_bytes raw) 7 0 ++ p.payload
        ≡⟨ ap (λ l. set l 7 0 ++ p.payload)
            (hdr_bytes-hdr_of_bytes buf bytes (omega (arith, bounds))) ⟩
          set left 7 0 ++ p.payload
        ≡⟨ ap (λ l. set left 7 0 ++ l) bounds.2 ⟩ set left 7 0 ++ right
        ≡⟨ sym (set-append_left left right 7 0 (omega (arith, length-take 14 buf, bounds))) ⟩
          set (left ++ right) 7 0
        ≡⟨ ap (λ l. set l 7 0) (sym (take-add 14 (length p.payload) buf)) ⟩
          set (take (14 + length p.payload) buf) 7 0 ∎
