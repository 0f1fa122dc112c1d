-- ===== src/Netproto.antt =====
-- The wire protocol: src/rv_netproto.h and src/rv_netproto.c. A packed struct is its memory
-- image on a little-endian host, the only kind of platform that the project ships for.
-- A buffer is the list of its bytes, so its length is the `len` of the C functions.
pub mod Order
pub mod Flags
pub mod Image
pub mod Voice
pub mod Join
mod Examples
use residual_engine_audio.Base.{
  ℕ, zero, suc, ◌+◌, ◌*◌, ◌/◌, ◌%◌, ◌^◌, bit_and, bit_or, Bool, Option, some, none, List, [], ◌∷◌,
  ◌++◌, ltb, leb, ◌==◌, if◌then◌else◌, not, ◌||◌, Result, ok, err, ◌>>=◌, length, get_or, take,
  drop, u8, u16, u32, u64, ◌<<<◌, ◌>>>◌,
}

abbrev pub rv_magic : ℕ
rv_magic = 0x43565652

abbrev pub rv_proto_ver : ℕ
rv_proto_ver = 1

abbrev pub rv_pkt_join : ℕ
rv_pkt_join = 1

abbrev pub rv_pkt_voice : ℕ
rv_pkt_voice = 2

abbrev pub sizeof_pkt_hdr : ℕ
sizeof_pkt_hdr = 14

abbrev pub sizeof_join_payload : ℕ
sizeof_join_payload = 12

-- A C truth value: nonzero is true.
abbrev pub truthy : ℕ → Bool
truthy x = not (x == 0)

abbrev rv_flag_radio : ℕ
rv_flag_radio = 0x01

abbrev rv_flag_ch_mask : ℕ
rv_flag_ch_mask = 0x0f <<< 1

abbrev rv_flag_ptt : ℕ
rv_flag_ptt = 0x20

unfoldable pub flags_make : ℕ → ℕ → ℕ → ℕ
flags_make is_radio channel ptt =
    let f0 : ℕ = if truthy is_radio then bit_or 0 rv_flag_radio else 0 in
    let f1 = bit_or f0 (u8 (bit_and channel 0x0f <<< 1)) in
    if truthy ptt then bit_or f1 rv_flag_ptt else f1

unfoldable pub flags_is_radio : ℕ → ℕ
flags_is_radio f = if truthy (bit_and f rv_flag_radio) then 1 else 0

unfoldable pub flags_channel : ℕ → ℕ
flags_channel f = u8 (bit_and f rv_flag_ch_mask >>> 1)

unfoldable pub flags_ptt : ℕ → ℕ
flags_ptt f = if truthy (bit_and f rv_flag_ptt) then 1 else 0

unfoldable pub bswap16 : ℕ → ℕ
bswap16 x = u16 (bit_or (x <<< 8) (x >>> 8))

unfoldable pub bswap32 : ℕ → ℕ
bswap32 x =
    bit_or
      (bit_or (bit_or (bit_and x 0xff <<< 24) (bit_and x 0xff00 <<< 8)) (bit_and x 0xff0000 >>> 8))
      (bit_and x 0xff000000 >>> 24)

unfoldable pub bswap64 : ℕ → ℕ
bswap64 x =
    bit_or
      (bit_or
        (bit_or
          (bit_or
            (bit_or
              (bit_or (bit_or (bit_and x 0xff <<< 56) (bit_and x 0xff00 <<< 40))
                (bit_and x 0xff0000 <<< 24))
              (bit_and x 0xff000000 <<< 8))
            (bit_and x 0xff00000000 >>> 8))
          (bit_and x 0xff0000000000 >>> 24))
        (bit_and x 0xff000000000000 >>> 40))
      (bit_and x 0xff00000000000000 >>> 56)

-- The fields of `rv_pkt_hdr_t`, in either byte order.
pub record PktHdr : Type 0 where
  pub magic : ℕ
  pub version : ℕ
  pub type : ℕ
  pub flags : ℕ
  pub reserved0 : ℕ
  pub speaker_id : ℕ
  pub seq : ℕ
  pub payload_len : ℕ

pub record JoinPayload : Type 0 where
  pub session_id : ℕ
  pub player_id : ℕ
  pub reserved : ℕ

-- An integer of `n` bytes in memory, and read back.
abbrev pub le_bytes : ℕ → ℕ → List ℕ
le_bytes zero x = []
le_bytes (suc n) x = (x % 256) ∷ le_bytes n (x / 256)

abbrev pub of_le : List ℕ → ℕ
of_le [] = 0
of_le (b ∷ bs) = b + 256 * of_le bs

abbrev pub load : ℕ → ℕ → List ℕ → ℕ
load n off buf = of_le (take n (drop off buf))

-- `memcpy` out of a header struct, and into one.
unfoldable pub hdr_bytes : PktHdr → List ℕ
hdr_bytes h =
    le_bytes 4 h.magic
    ++ (h.version ∷ h.type ∷ h.flags ∷ h.reserved0 ∷ [])
    ++ le_bytes 2 h.speaker_id
    ++ le_bytes 2 h.seq
    ++ le_bytes 2 h.payload_len

unfoldable pub hdr_of_bytes : List ℕ → PktHdr
hdr_of_bytes buf = record {
  magic = load 4 0 buf;
  version = load 1 4 buf;
  type = load 1 5 buf;
  flags = load 1 6 buf;
  reserved0 = load 1 7 buf;
  speaker_id = load 2 8 buf;
  seq = load 2 10 buf;
  payload_len = load 2 12 buf;
}

unfoldable pub join_bytes : JoinPayload → List ℕ
join_bytes p = le_bytes 8 p.session_id ++ le_bytes 2 p.player_id ++ le_bytes 2 p.reserved

unfoldable pub join_of_bytes : List ℕ → JoinPayload
join_of_bytes buf = record {
  session_id = load 8 0 buf;
  player_id = load 2 8 buf;
  reserved = load 2 10 buf;
}

abbrev pub hdr_init : ℕ → ℕ → ℕ → ℕ → ℕ → PktHdr
hdr_init type speaker_id seq payload_len flags = record {
  magic = bswap32 rv_magic;
  version = rv_proto_ver;
  type = type;
  flags = flags;
  reserved0 = 0;
  speaker_id = bswap16 speaker_id;
  seq = bswap16 seq;
  payload_len = bswap16 payload_len;
}

-- The bytes written at `out`; the C function returns their number.
unfoldable pub build_join_packet : ℕ → ℕ → ℕ → Result (List ℕ)
build_join_packet out_cap session_id player_id =
    if ltb out_cap (sizeof_pkt_hdr + sizeof_join_payload)
    then err 2
    else (ok (
        hdr_bytes (hdr_init rv_pkt_join 0 0 sizeof_join_payload 0)
        ++ join_bytes (record {
          session_id = bswap64 session_id;
          player_id = bswap16 player_id;
          reserved = 0;
        })))

-- `payload` is `none` for a null pointer; a `uint16_t` holds its length.
unfoldable pub build_voice_packet_ex : ℕ → ℕ → ℕ → ℕ → Option (List ℕ) → Result (List ℕ)
build_voice_packet_ex out_cap speaker_id seq flags none = err 1
build_voice_packet_ex out_cap speaker_id seq flags (some payload) =
    let payload_len = length payload in
    if payload_len == 0
    then err 2
    else if ltb out_cap (sizeof_pkt_hdr + payload_len)
    then err 3
    else ok (hdr_bytes (hdr_init rv_pkt_voice speaker_id seq payload_len flags) ++ payload)

unfoldable pub build_voice_packet : ℕ → ℕ → ℕ → Option (List ℕ) → Result (List ℕ)
unfolding build_voice_packet_ex
build_voice_packet out_cap speaker_id seq payload =
    build_voice_packet_ex out_cap speaker_id seq 0 payload

-- The header in host order, as it is written to `*out_hdr_host`.
abbrev pub host_order : PktHdr → PktHdr
host_order h = record {
  magic = rv_magic;
  version = h.version;
  type = h.type;
  flags = h.flags;
  reserved0 = 0;
  speaker_id = bswap16 h.speaker_id;
  seq = bswap16 h.seq;
  payload_len = bswap16 h.payload_len;
}

abbrev check_payload_len : ℕ → PktHdr → Result PktHdr
check_payload_len len h =
    if h.payload_len == 0 || ltb len (sizeof_pkt_hdr + h.payload_len) then err 4 else ok h

unfoldable pub parse_packet_header : List ℕ → Result PktHdr
parse_packet_header buf =
    if ltb (length buf) sizeof_pkt_hdr
    then err 1
    else let h = hdr_of_bytes buf in
      if not (bswap32 h.magic == rv_magic)
      then err 2
      else if not (h.version == rv_proto_ver)
      then err 3
      else check_payload_len (length buf) (host_order h)

-- The session and the player of a JOIN packet.
abbrev pub JoinInfo : Type 0
JoinInfo = record { session_id : ℕ; player_id : ℕ }

abbrev join_fields : List ℕ → PktHdr → Result JoinInfo
join_fields buf h =
    if not (h.type == rv_pkt_join)
    then err 10
    else if not (h.payload_len == sizeof_join_payload)
    then err 11
    else let p = join_of_bytes (take sizeof_join_payload (drop sizeof_pkt_hdr buf)) in
      ok (record { session_id = bswap64 p.session_id; player_id = bswap16 p.player_id })

unfoldable pub parse_join_payload : List ℕ → Result JoinInfo
unfolding parse_packet_header
parse_join_payload buf = do h ← parse_packet_header buf; join_fields buf h

-- What `rv_parse_voice_packet` gives its caller: the payload is `payload_len` bytes of the buffer.
pub record VoicePacket : Type 0 where
  pub speaker_id : ℕ
  pub seq : ℕ
  pub flags : ℕ
  pub payload : List ℕ

-- The payload in C is a pointer into the buffer. Here it is the bytes themselves; `take` would leave
-- out those that a wrong length puts behind the buffer, so that the payload were too short.
abbrev voice_fields : List ℕ → PktHdr → Result VoicePacket
voice_fields buf h =
    if not (h.type == rv_pkt_voice)
    then err 20
    else ok (record {
      speaker_id = h.speaker_id;
      seq = h.seq;
      flags = h.flags;
      payload = take h.payload_len (drop sizeof_pkt_hdr buf);
    })

unfoldable pub parse_voice_packet : List ℕ → Result VoicePacket
unfolding parse_packet_header
parse_voice_packet buf = do h ← parse_packet_header buf; voice_fields buf h
