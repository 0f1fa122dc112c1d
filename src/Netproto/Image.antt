-- ===== src/Netproto/Image.antt =====
-- The memory images of the packed structs, and what reading one back gives.
use residual_engine_audio.Base.{
  ℕ, ◌^◌, ◌≤◌, ◌<◌, ◌≡◌, refl, List, ◌∷◌, ◌++◌, arith, length, take, drop, AllBytes,
}
use residual_engine_audio.Netproto.{
  PktHdr, hdr_bytes, hdr_of_bytes, JoinPayload, join_bytes, join_of_bytes,
}

-- A header whose fields fit their widths.
abbrev pub FitsHdr : PktHdr → Type 0
FitsHdr h =
    (h.magic < 2 ^ 32)
    × (h.version < 256)
    × (h.type < 256)
    × (h.flags < 256)
    × (h.reserved0 < 256)
    × (h.speaker_id < 2 ^ 16)
    × (h.seq < 2 ^ 16)
    × (h.payload_len < 2 ^ 16)

-- A header struct is read back from its image, whatever bytes follow.
pub hdr_of_bytes-hdr_bytes :
    (h : PktHdr) (rest : List ℕ) → FitsHdr h → hdr_of_bytes (hdr_bytes h ++ rest) ≡ h
unfolding hdr_bytes hdr_of_bytes
hdr_of_bytes-hdr_bytes h rest fits = ground arith

-- The image of what was read from fourteen bytes is those bytes.
pub hdr_bytes-hdr_of_bytes :
    (buf : List ℕ) → AllBytes buf → 14 ≤ length buf → hdr_bytes (hdr_of_bytes buf) ≡ take 14 buf
unfolding hdr_bytes hdr_of_bytes
hdr_bytes-hdr_of_bytes
      (x0 ∷ x1 ∷ x2 ∷ x3 ∷ x4 ∷ x5 ∷ x6 ∷ x7 ∷ x8 ∷ x9 ∷ x10 ∷ x11 ∷ x12 ∷ x13 ∷ rest) b h =
    ground arith
hdr_bytes-hdr_of_bytes _ b h = absurd (omega arith)

-- The fields read from fourteen bytes fit their widths.
pub hdr_of_bytes-FitsHdr :
    (buf : List ℕ) → AllBytes buf → 14 ≤ length buf → FitsHdr (hdr_of_bytes buf)
unfolding hdr_of_bytes
hdr_of_bytes-FitsHdr
      (x0 ∷ x1 ∷ x2 ∷ x3 ∷ x4 ∷ x5 ∷ x6 ∷ x7 ∷ x8 ∷ x9 ∷ x10 ∷ x11 ∷ x12 ∷ x13 ∷ rest) b h =
    omega arith
hdr_of_bytes-FitsHdr _ b h = absurd (omega arith)

abbrev pub FitsJoin : JoinPayload → Type 0
FitsJoin p = (p.session_id < 2 ^ 64) × (p.player_id < 2 ^ 16) × (p.reserved < 2 ^ 16)

pub join_of_bytes-join_bytes : (p : JoinPayload) → FitsJoin p → join_of_bytes (join_bytes p) ≡ p
unfolding join_bytes join_of_bytes
join_of_bytes-join_bytes p fits = ground arith

pub length-hdr_bytes : (h : PktHdr) → length (hdr_bytes h) ≡ 14
unfolding hdr_bytes
length-hdr_bytes h = refl

-- Behind a header image stands what was appended to it.
pub drop-hdr_bytes : (h : PktHdr) (rest : List ℕ) → drop 14 (hdr_bytes h ++ rest) ≡ rest
unfolding hdr_bytes
drop-hdr_bytes h rest = refl

pub length-join_bytes : (p : JoinPayload) → length (join_bytes p) ≡ 12
unfolding join_bytes
length-join_bytes p = refl
