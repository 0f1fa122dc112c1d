-- ===== src/RelayMain/Examples.antt =====
-- A server with two players: the JOIN packets of both, and a VOICE packet of the first.
use mathlib.Core.List.{Memᴰ}
use mathlib.Core.List.Memᴰ
use residual_engine_audio.Base.{
  ℕ, ◌≡◌, ◌<◌, ◌≢◌, ◌⊎◌, ◌∙◌, ap, zero, suc, refl, arith, true, false, List, [], ◌∷◌, replicate, ok,
  inl, inr,
}
use residual_engine_audio.Base.Int.{pos}
use residual_engine_audio.Netproto.{
  JoinInfo, VoicePacket, parse_join_payload, parse_voice_packet, parse_packet_header, hdr_of_bytes,
  join_of_bytes, bswap16, bswap32, bswap64,
}
use residual_engine_audio.Relay.{
  SockAddr, RelayClient, RelaySession, addr_equal, relay_init, relay_join, join_clients,
  update_first,
}
use residual_engine_audio.Relay.Sessions.{IsEntry}
use residual_engine_audio.Relay.Forward.{clients_of, Gets}
use residual_engine_audio.Relay.Joining.{HasRoom}
use residual_engine_audio.RelayMain.{serve, serve_all, start_server, serves, parse_u16}
use residual_engine_audio.RelayMain.Table.{IsTable, start_server-IsTable}
use residual_engine_audio.RelayMain.Serve.{serve-joins, serve_all-reaches, serve-only}

abbrev join_of : ℕ → List ℕ
join_of id =
    0x43 ∷ 0x56 ∷ 0x56 ∷ 0x52 ∷ 1 ∷ 1 ∷ 0 ∷ 0 ∷ 0 ∷ 0 ∷ 0 ∷ 0 ∷ 0 ∷ 12 ∷ 0 ∷ 0 ∷ 0 ∷ 0 ∷ 0 ∷ 0 ∷ 4
    ∷ 210 ∷ 0 ∷ id ∷ 0 ∷ 0 ∷ []

abbrev voice_of : ℕ → List ℕ
voice_of id = 0x43 ∷ 0x56 ∷ 0x56 ∷ 0x52 ∷ 1 ∷ 2 ∷ 33 ∷ 0 ∷ 0 ∷ id ∷ 3 ∷ 4 ∷ 0 ∷ 3 ∷ 7 ∷ 8 ∷ 9 ∷ []

abbrev joined_as : JoinInfo
joined_as = record { session_id = 1234; player_id = 7 }

abbrev spoken : VoicePacket
spoken = record { speaker_id = 8; seq = 772; flags = 33; payload = 7 ∷ 8 ∷ 9 ∷ [] }

read_join : parse_join_payload (join_of 7) ≡ ok joined_as
unfolding parse_join_payload parse_packet_header hdr_of_bytes join_of_bytes bswap16 bswap32 bswap64
read_join = refl

read_join_8 : parse_join_payload (join_of 8) ≡ ok (record { session_id = 1234; player_id = 8 })
unfolding parse_join_payload parse_packet_header hdr_of_bytes join_of_bytes bswap16 bswap32 bswap64
read_join_8 = refl

read_voice : parse_voice_packet (voice_of 8) ≡ ok spoken
unfolding parse_voice_packet parse_packet_header hdr_of_bytes bswap16 bswap32
read_voice = refl

abbrev first_addr : SockAddr
first_addr = record { ver = 6; port = 1000; ip = replicate 16 1 }

abbrev second_addr : SockAddr
second_addr = record { ver = 6; port = 1001; ip = replicate 16 1 }

abbrev client : RelayClient
client = record { in_use = true; player_id = 7; addr = first_addr }

abbrev one_joined : List RelaySession
one_joined = relay_join relay_init 1234 7 first_addr

-- The entries of the first table.
free : (n : ℕ) (s r : RelaySession) → r.in_use ≡ false → Memᴰ s (replicate n r) → s.in_use ≡ false
free zero s r e m = absurd (Memᴰ.not-nil m)
free (suc n) s r e m = elim (Memᴰ.cases_cons m) [
  | inl is ↦ ap (λ t. t.in_use) is ∙ e
  | inr m' ↦ free n s r e m'
]

room : HasRoom relay_init 1234 7 first_addr
room = inr (
  λ s m. let is : s.in_use ≡ false = free 64 s _ refl m in ground arith,
  (_, Memᴰ.head refl, refl),
)

serve-joins_example :
    let (st', sent) = serve relay_init first_addr (ok (join_of 7)) in
    ((x : RelayClient) × Memᴰ x (clients_of st' 1234) × IsEntry 7 first_addr x) × (sent ≡ [])
serve-joins_example = serve-joins relay_init first_addr (join_of 7) joined_as read_join room

is_client : Memᴰ client (clients_of one_joined 1234)
unfolding clients_of relay_join update_first join_clients
is_client = Memᴰ.head refl

leaves :
    (info : JoinInfo)
    → parse_join_payload (join_of 8) ≡ ok info
    → (1234 ≢ info.session_id)
      ⊎ ((7 ≢ info.player_id) × (addr_equal first_addr second_addr ≡ false))
leaves info e =
    let is : info.player_id ≡ 8 = ground (arith, read_join_8) in
    inr (λ same. absurd (omega (arith, is, same)), refl)

-- The second player joins, and then speaks.
serve_all-reaches_example :
    Memᴰ
      (first_addr, voice_of 8)
      (serve
        (serve_all one_joined ((second_addr, ok (join_of 8)) ∷ [])).0
        second_addr
        (ok (voice_of 8))).1
serve_all-reaches_example =
    serve_all-reaches one_joined ((second_addr, ok (join_of 8)) ∷ []) client second_addr
      (voice_of 8) spoken is_client refl (leaves, tt) refl read_voice

sent_first : Memᴰ (first_addr, voice_of 8) (serve one_joined second_addr (ok (voice_of 8))).1
unfolding relay_join serve_all
sent_first =
    serve_all-reaches one_joined [] client second_addr (voice_of 8) spoken is_client refl tt refl
      read_voice

serve-only_example :
    (voice_of 8 ≡ voice_of 8)
    × ((x : RelayClient) × Memᴰ x (clients_of one_joined 1234)
        × (x.addr ≡ first_addr)
        × Gets second_addr x)
serve-only_example =
    serve-only one_joined second_addr first_addr (voice_of 8) (voice_of 8) spoken read_voice
      sent_first

started : start_server (λ s. pos 5000) true (λ port. true) ((53 ∷ []) ∷ []) ≡ serves 5000 relay_init
unfolding start_server parse_u16
started = refl

start_server-IsTable_example :
    (5000 < 65536) × IsTable (serve_all relay_init ((first_addr, ok (join_of 7)) ∷ [])).0
start_server-IsTable_example =
    start_server-IsTable (λ s. pos 5000) true (λ port. true) ((53 ∷ []) ∷ []) 5000 relay_init
      ((first_addr, ok (join_of 7)) ∷ []) started
