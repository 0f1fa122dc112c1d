-- ===== src/RelayMain.antt =====
-- The relay server, src/rv_relay_main.c: what it does with each datagram. The state is the table
-- of sessions, and what it sends is a list of datagrams with their destinations.
pub mod Serve
pub mod Table
mod Examples
use residual_engine_audio.Base.{
  ℕ, Bool, true, false, ◌||◌, Option, some, none, List, [], ◌∷◌, ◌++◌, ◌==◌, ltb, if◌then◌else◌,
  map, Result, ok, err,
}
use residual_engine_audio.Base.Int.{ℤ, pos, negsuc}
use residual_engine_audio.Netproto.{
  PktHdr, JoinInfo, rv_pkt_join, rv_pkt_voice, parse_packet_header, parse_join_payload,
}
use residual_engine_audio.Relay.{SockAddr, RelaySession, relay_init, relay_join, forward_voice}

-- A datagram that is sent, or a datagram that came, with the other end's address.
abbrev pub Datagram : Type 0
Datagram = SockAddr × List ℕ

-- The session of the prototype routing.
abbrev pub routed_session : ℕ
routed_session = 1234

-- The calls of `udp_send_wrap`, for every address that forwarding gives. The call may fail; the
-- relay ignores what it returns, so a datagram that is listed has been handed to the socket, no more.
abbrev pub udp_send_wrap : List ℕ → List SockAddr → List Datagram
udp_send_wrap pkt [] = []
udp_send_wrap pkt (to ∷ more) = (to, pkt) ∷ udp_send_wrap pkt more

abbrev pub join_from : List RelaySession → SockAddr → Result JoinInfo → List RelaySession
join_from st from (err k) = st
join_from st from (ok info) = relay_join st info.session_id info.player_id from

-- A datagram whose header is read, by its type.
abbrev pub serve_packet :
    List RelaySession → SockAddr → List ℕ → PktHdr → List RelaySession × List Datagram
serve_packet st from buf hdr =
    if hdr.type == rv_pkt_join
    then (join_from st from (parse_join_payload buf), [])
    else if hdr.type == rv_pkt_voice
    then (st, udp_send_wrap buf (forward_voice st routed_session from))
    else (st, [])

abbrev pub serve_parsed :
    List RelaySession → SockAddr → List ℕ → Result PktHdr → List RelaySession × List Datagram
serve_parsed st from buf (err k) = (st, [])
serve_parsed st from buf (ok hdr) = serve_packet st from buf hdr

-- One round of the loop: nothing came or the socket failed, and the server sleeps; or a datagram
-- came.
unfoldable pub serve :
    List RelaySession → SockAddr → Result (List ℕ) → List RelaySession × List Datagram
serve st from (err k) = (st, [])
serve st from (ok []) = (st, [])
serve st from (ok (b ∷ bs)) = serve_parsed st from (b ∷ bs) (parse_packet_header (b ∷ bs))

-- The loop, over what `rv_udp_recvfrom` gives in turn.
unfoldable pub serve_all :
    List RelaySession → List (SockAddr × Result (List ℕ)) → List RelaySession × List Datagram
unfolding serve
serve_all st [] = (st, [])
serve_all st ((from, r) ∷ more) =
    let (st', sent) = serve st from r in
    let (last, later) = serve_all st' more in (last, sent ++ later)

-- `parse_u16`: null is `none`. What `strtol` reads, in base 10, is a parameter.
unfoldable pub parse_u16 : (List ℕ → ℤ) → Option (List ℕ) → ℕ → ℕ
parse_u16 strtol none otherwise = otherwise
parse_u16 strtol (some []) otherwise = otherwise
parse_u16 strtol (some (c ∷ s)) otherwise = elim (strtol (c ∷ s)) [
  | pos v ↦ if ltb 65535 v then otherwise else v
  | negsuc n ↦ otherwise
]

-- What `main` comes to: an exit code, or a server on a port, with an empty table.
pub data Server : Type 0 where
  exits : ℕ → Server
  serves : ℕ → List RelaySession → Server

-- `main` up to its loop. `startup` says whether the socket library starts, and `bound` whether a
-- socket is made for a port.
unfoldable pub start_server : (List ℕ → ℤ) → Bool → (ℕ → Bool) → List (List ℕ) → Server
unfolding parse_u16
start_server strtol startup bound args =
    let port : ℕ = elim args [ [] ↦ 40000 | s ∷ more ↦ parse_u16 strtol (some s) 40000 ] in
    if startup then if bound port then serves port relay_init else exits 2 else exits 1
