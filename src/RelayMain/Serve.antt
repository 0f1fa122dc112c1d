-- ===== src/RelayMain/Serve.antt =====
-- Which packets the server forwards, and to whom.
use mathlib.Core.List.{Memᴰ}
use mathlib.Core.List.Memᴰ
use mathlib.Core.Path.{subst}
use residual_engine_audio.Base.{
  ℕ, ◌≡◌, ◌≢◌, ◌⊎◌, refl, ap, sym, ◌∙◌, arith, true, false, List, [], ◌∷◌, All, ◌==◌, ==_iff,
  Bool-cases, Result-cases, inl, inr, Result, ok, err, if_both,
}
use residual_engine_audio.Netproto.{
  PktHdr, JoinInfo, VoicePacket, rv_pkt_join, rv_pkt_voice, parse_packet_header, parse_join_payload,
  parse_voice_packet,
}
use residual_engine_audio.Relay.{
  SockAddr, RelayClient, RelaySession, addr_equal, relay_join, forward_voice,
}
use residual_engine_audio.Relay.Sessions.{IsEntry}
use residual_engine_audio.Relay.Forward.{clients_of, forward_voice_iff, Gets}
use residual_engine_audio.Relay.Joining.{
  relay_join-others, relay_join-keeps, relay_join-joins, HasRoom,
}
use residual_engine_audio.RelayMain.{
  Datagram, routed_session, udp_send_wrap, join_from, serve_packet, serve_parsed, serve, serve_all,
}

-- The header of a packet that one of the two parsers accepts.
join_header :
    (buf : List ℕ) (info : JoinInfo)
    → parse_join_payload buf ≡ ok info
    → (hdr : PktHdr) × (parse_packet_header buf ≡ ok hdr) × (hdr.type ≡ rv_pkt_join)
unfolding parse_join_payload
join_header buf info e = elim (Result-cases (parse_packet_header buf)) [
  | inl (hdr, is) ↦ (hdr, is, ground arith)
  | inr (k, is) ↦ absurd (ground arith)
]

voice_header :
    (buf : List ℕ) (p : VoicePacket)
    → parse_voice_packet buf ≡ ok p
    → (hdr : PktHdr) × (parse_packet_header buf ≡ ok hdr) × (hdr.type ≡ rv_pkt_voice)
unfolding parse_voice_packet
voice_header buf p e = elim (Result-cases (parse_packet_header buf)) [
  | inl (hdr, is) ↦ (hdr, is, ground arith)
  | inr (k, is) ↦ absurd (ground arith)
]

serve-parsed :
    (st : List RelaySession) (from : SockAddr) (buf : List ℕ) (hdr : PktHdr)
    → parse_packet_header buf ≡ ok hdr
    → serve st from (ok buf) ≡ serve_packet st from buf hdr
unfolding serve parse_packet_header
serve-parsed st from [] hdr e = absurd (ground arith)
serve-parsed st from (b ∷ bs) hdr e = ap (serve_parsed st from (b ∷ bs)) e

-- A JOIN changes the table as it says, and is not answered.
pub serve-join :
    (st : List RelaySession) (from : SockAddr) (buf : List ℕ) (info : JoinInfo)
    → parse_join_payload buf ≡ ok info
    → serve st from (ok buf) ≡ (relay_join st info.session_id info.player_id from, [])
serve-join st from buf info e =
    let (hdr, is, join) = join_header buf info e in
    serve-parsed st from buf hdr is ∙ rw (join, e) refl

-- A VOICE packet is forwarded as it came, and changes nothing.
pub serve-voice :
    (st : List RelaySession) (from : SockAddr) (buf : List ℕ) (p : VoicePacket)
    → parse_voice_packet buf ≡ ok p
    → serve st from (ok buf) ≡ (st, udp_send_wrap buf (forward_voice st routed_session from))
serve-voice st from buf p e =
    let (hdr, is, voice) = voice_header buf p e in serve-parsed st from buf hdr is ∙ rw voice refl

-- What may come without moving the entry: nothing or an error, or a datagram that is not a JOIN of
-- the entry's session by its player or from its address.
abbrev pub Leaves : ℕ → RelayClient → SockAddr × Result (List ℕ) → Type 0
Leaves id x (from, err k) = Unit
Leaves id x (from, ok buf) =
    (info : JoinInfo)
    → parse_join_payload buf ≡ ok info
    → (id ≢ info.session_id) ⊎ ((x.player_id ≢ info.player_id) × (addr_equal x.addr from ≡ false))

join_from-keeps :
    (st : List RelaySession) (from : SockAddr) (buf : List ℕ) (id : ℕ) (x : RelayClient)
    → x.in_use ≡ true
    → Leaves id x (from, ok buf)
    → Memᴰ x (clients_of st id)
    → Memᴰ x (clients_of (join_from st from (parse_join_payload buf)) id)
join_from-keeps st from buf id x used leaves m = elim (Result-cases (parse_join_payload buf)) [
  | inr (k, e) ↦ rw e m
  | inl (info, e) ↦ rw e (by_session info (leaves info e))
]
  where
    by_session :
        (info : JoinInfo)
        → (id ≢ info.session_id)
          ⊎ ((x.player_id ≢ info.player_id) × (addr_equal x.addr from ≡ false))
        → Memᴰ x (clients_of (relay_join st info.session_id info.player_id from) id)
    by_session info (inl ne) =
        subst (Memᴰ x) (sym (relay_join-others st info.session_id info.player_id from id ne)) m
    by_session info (inr (other, apart)) = elim (Bool-cases (id == info.session_id)) [
      | inl t ↦
          subst
            (λ k.
              Memᴰ x (clients_of st k)
              → Memᴰ x (clients_of (relay_join st info.session_id info.player_id from) k))
            (sym ((==_iff id info.session_id).0 t))
            (λ m. relay_join-keeps st info.session_id info.player_id from x m used other apart) m
      | inr f ↦
          subst (Memᴰ x)
            (sym (
              relay_join-others st info.session_id info.player_id from id
                (λ is. absurd (cc ((==_iff id info.session_id).1 is, f)))))
            m
    ]

serve-keeps :
    (st : List RelaySession) (from : SockAddr) (r : Result (List ℕ)) (id : ℕ) (x : RelayClient)
    → x.in_use ≡ true
    → Leaves id x (from, r)
    → Memᴰ x (clients_of st id)
    → Memᴰ x (clients_of (serve st from r).0 id)
unfolding serve
serve-keeps st from (err k) id x used leaves m = m
serve-keeps st from (ok []) id x used leaves m = m
serve-keeps st from (ok (b ∷ bs)) id x used leaves m = by_header (parse_packet_header (b ∷ bs))
  where
    by_header : (r : Result PktHdr) → Memᴰ x (clients_of (serve_parsed st from (b ∷ bs) r).0 id)
    by_header (err k) = m
    by_header (ok hdr) =
        if_both (λ (o : List RelaySession × List Datagram). Memᴰ x (clients_of o.0 id))
          (hdr.type == rv_pkt_join) (join_from-keeps st from (b ∷ bs) id x used leaves m)
          (if_both (λ (o : List RelaySession × List Datagram). Memᴰ x (clients_of o.0 id))
            (hdr.type == rv_pkt_voice) m m)

pub serve_all-keeps :
    (st : List RelaySession) (came : List (SockAddr × Result (List ℕ))) (id : ℕ) (x : RelayClient)
    → x.in_use ≡ true
    → All (Leaves id x) came
    → Memᴰ x (clients_of st id)
    → Memᴰ x (clients_of (serve_all st came).0 id)
unfolding serve_all
serve_all-keeps st [] id x used leaves m = m
serve_all-keeps st ((from, r) ∷ more) id x used (this, later) m =
    serve_all-keeps (serve st from r).0 more id x used later
      (serve-keeps st from r id x used this m)

send-Member :
    (pkt : List ℕ) (tos : List SockAddr) (a : SockAddr)
    → Memᴰ a tos
    → Memᴰ (a, pkt) (udp_send_wrap pkt tos)
send-Member pkt [] a m = absurd (Memᴰ.not-nil m)
send-Member pkt (to ∷ tos) a m = elim (Memᴰ.cases_cons m) [
  | inl is ↦ Memᴰ.head (ap (λ b. (b, pkt)) is)
  | inr m' ↦ Memᴰ.tail (send-Member pkt tos a m')
]

sent-Member :
    (pkt : List ℕ) (tos : List SockAddr) (a : SockAddr) (bytes : List ℕ)
    → Memᴰ (a, bytes) (udp_send_wrap pkt tos)
    → (bytes ≡ pkt) × Memᴰ a tos
sent-Member pkt [] a bytes m = absurd (Memᴰ.not-nil m)
sent-Member pkt (to ∷ tos) a bytes m = elim (Memᴰ.cases_cons m) [
  | inl is ↦ (ap (λ d. d.1) is, Memᴰ.head (ap (λ d. d.0) is))
  | inr m' ↦ let (same, there) = sent-Member pkt tos a bytes m' in (same, Memᴰ.tail there)
]

-- A JOIN packet for which there is room puts its player into the session it names, at the address
-- it came from or an equal one; it is not answered.
pub serve-joins :
    (st : List RelaySession) (from : SockAddr) (join : List ℕ) (info : JoinInfo)
    → parse_join_payload join ≡ ok info
    → HasRoom st info.session_id info.player_id from
    → let (st', sent) = serve st from (ok join) in
      ((x : RelayClient) × Memᴰ x (clients_of st' info.session_id) × IsEntry info.player_id from x)
      × (sent ≡ [])
serve-joins st from join info is room =
    let done = serve-join st from join info is in
    (
      subst
          (λ out.
            (x : RelayClient) × Memᴰ x (clients_of out info.session_id)
            × IsEntry info.player_id from x)
          (sym (ap (λ o. o.0) done)) (relay_join-joins st info.session_id info.player_id from room),
      ap (λ o. o.1) done,
    )

-- A client of session 1234 stays in it whatever comes, but for a JOIN of that session as its
-- player or from its address; and every VOICE packet that then comes from another address is sent
-- to it, unchanged.
pub serve_all-reaches :
    (st : List RelaySession) (came : List (SockAddr × Result (List ℕ))) (x : RelayClient)
    (from : SockAddr) (pkt : List ℕ) (voice : VoicePacket)
    → Memᴰ x (clients_of st 1234)
    → x.in_use ≡ true
    → All (Leaves 1234 x) came
    → addr_equal x.addr from ≡ false
    → parse_voice_packet pkt ≡ ok voice
    → Memᴰ (x.addr, pkt) (serve (serve_all st came).0 from (ok pkt)).1
serve_all-reaches st came x from pkt voice m used leaves apart heard =
    let later = (serve_all st came).0 in
    let kept = serve_all-keeps st came 1234 x used leaves m in
    subst (Memᴰ (x.addr, pkt)) (sym (ap (λ o. o.1) (serve-voice later from pkt voice heard))) (
      send-Member pkt (forward_voice later 1234 from) x.addr
        ((forward_voice_iff later 1234 from x.addr).1 (x, kept, refl, (used, apart))))

-- A VOICE packet is sent to nobody but the clients of session 1234 at other addresses than it came
-- from, whatever session its sender joined.
pub serve-only :
    (st : List RelaySession) (from to : SockAddr) (pkt bytes : List ℕ) (voice : VoicePacket)
    → parse_voice_packet pkt ≡ ok voice
    → Memᴰ (to, bytes) (serve st from (ok pkt)).1
    → (bytes ≡ pkt)
      × ((x : RelayClient) × Memᴰ x (clients_of st 1234) × (x.addr ≡ to) × Gets from x)
serve-only st from to pkt bytes voice heard m =
    let (is, there) =
      sent-Member pkt (forward_voice st 1234 from) to bytes
        (subst (Memᴰ (to, bytes)) (ap (λ o. o.1) (serve-voice st from pkt voice heard)) m) in
    (is, (forward_voice_iff st 1234 from to).0 there)
