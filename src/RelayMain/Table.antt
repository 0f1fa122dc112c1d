-- ===== src/RelayMain/Table.antt =====
-- What holds of the table of a server, whatever came.
use mathlib.Core.Path.{subst}
use residual_engine_audio.Base.{
  ℕ, ◌<◌, ◌≡◌, refl, sym, ◌∙◌, arith, Bool, true, false, Option, some, none, List, [], ◌∷◌, ◌==◌,
  ==_iff, length, All, Option-cases, inl, inr, Result, ok, err, if_both, if◌then◌else◌, ltb,
}
use residual_engine_audio.Base.Int.{ℤ, pos, negsuc}
use residual_engine_audio.Netproto.{
  PktHdr, JoinInfo, rv_pkt_join, rv_pkt_voice, parse_packet_header, parse_join_payload,
}
use residual_engine_audio.Relay.{
  SockAddr, RelayClient, RelaySession, update_first, is_session, is_player, join_clients,
  no_clients, zero_client, relay_init, relay_join, max_sessions, max_clients,
}
use residual_engine_audio.Relay.Members.{
  AtMostOne, AtMostOne-new, IsUnique, count-update_first, count-none, join_clients-IsUnique,
}
use residual_engine_audio.Relay.Updates.{
  length-update_first, length-or_else, All-update_first, All-replicate, count-replicate,
}
use residual_engine_audio.Relay.Table.{is_free, with_client, opened}
use residual_engine_audio.RelayMain.{
  Datagram, join_from, serve_parsed, serve, serve_all, exits, serves, start_server, parse_u16,
}

length-join_clients :
    (player_id : ℕ) (from : SockAddr) (clients : List RelayClient)
    → length clients ≡ max_clients
    → length (join_clients player_id from clients) ≡ max_clients
unfolding join_clients
length-join_clients player_id from clients e = length-or_else _ _ max_clients clients _ e (
    length-or_else _ _ max_clients clients _ e (length-or_else _ _ max_clients clients clients e e))

-- A session has its 16 entries, and no player has two of them.
abbrev pub IsSession : RelaySession → Type 0
IsSession s = (length s.clients ≡ max_clients) × IsUnique s.clients

-- The table has its 64 entries, each of them a session, and no number has two of them.
pub record IsTable (st : List RelaySession) : Type 0 where
  pub sessions : length st ≡ max_sessions
  pub clients : All IsSession st
  pub numbers : AtMostOne is_session st

no_clients-IsUnique : IsUnique no_clients
no_clients-IsUnique q =
    let none_yet = count-replicate (is_player q) max_clients zero_client refl in
    omega (arith, none_yet)

joined-IsSession :
    (player_id : ℕ) (from : SockAddr) (clients : List RelayClient)
    → (length clients ≡ max_clients) × IsUnique clients
    → (length (join_clients player_id from clients) ≡ max_clients)
      × IsUnique (join_clients player_id from clients)
joined-IsSession player_id from clients (n, one) =
    (length-join_clients player_id from clients n, join_clients-IsUnique player_id from clients one)

abbrev zero_session : RelaySession
zero_session = record { in_use = false; session_id = 0; clients = no_clients }

relay_init-IsTable : IsTable relay_init
relay_init-IsTable = record {
  sessions = refl;
  clients = All-replicate IsSession max_sessions zero_session (refl, no_clients-IsUnique);
  numbers = λ q.
      let none_yet = count-replicate (is_session q) max_sessions zero_session refl in
      omega (arith, none_yet);
}

module _ (st : List RelaySession) (h : IsTable st) (id player_id : ℕ) (from : SockAddr) where
  found-IsTable :
      (out : List RelaySession)
      → update_first (is_session id) (with_client player_id from) st ≡ some out
      → IsTable out
  found-IsTable out e = record {
    sessions = length-update_first _ _ st out e ∙ h.sessions;
    clients =
        All-update_first IsSession _ _ st out (λ s is. joined-IsSession player_id from s.clients is)
          h.clients e;
    numbers = λ q.
        let (s, hit, same) = count-update_first _ _ (is_session q) st out e in
        omega (arith, same, h.numbers q);
  }

  made-IsTable :
      (out : List RelaySession)
      → update_first (is_session id) (with_client player_id from) st ≡ none
      → update_first is_free (opened id player_id from) st ≡ some out
      → IsTable out
  made-IsTable out absent e = record {
    sessions = length-update_first _ _ st out e ∙ h.sessions;
    clients =
        All-update_first IsSession _ _ st out
          (λ s is. joined-IsSession player_id from no_clients (refl, no_clients-IsUnique)) h.clients
          e;
    numbers =
        AtMostOne-new is_session id _ _ st out (λ q s is. sym ((==_iff id q).0 is))
          (count-none (is_session id) _ st absent) h.numbers e;
  }

  relay_join-IsTable : IsTable (relay_join st id player_id from)
  unfolding relay_join
  relay_join-IsTable =
      elim (Option-cases (update_first (is_session id) (with_client player_id from) st)) [
        | inr (out, e) ↦ rw e (found-IsTable out e)
        | inl absent ↦ elim (Option-cases (update_first is_free (opened id player_id from) st)) [
          | inr (out, e) ↦ rw (absent, e) (made-IsTable out absent e)
          | inl full ↦ rw (absent, full) h
        ]
      ]

join_from-IsTable :
    (st : List RelaySession) (from : SockAddr) (r : Result JoinInfo)
    → IsTable st
    → IsTable (join_from st from r)
join_from-IsTable st from (err k) h = h
join_from-IsTable st from (ok info) h = relay_join-IsTable st h info.session_id info.player_id from

serve_parsed-IsTable :
    (st : List RelaySession) (from : SockAddr) (buf : List ℕ) (r : Result PktHdr)
    → IsTable st
    → IsTable (serve_parsed st from buf r).0
serve_parsed-IsTable st from buf (err k) h = h
serve_parsed-IsTable st from buf (ok hdr) h =
    if_both (λ (o : List RelaySession × List Datagram). IsTable o.0) (hdr.type == rv_pkt_join)
      (join_from-IsTable st from (parse_join_payload buf) h)
      (if_both (λ (o : List RelaySession × List Datagram). IsTable o.0) (hdr.type == rv_pkt_voice) h
        h)

pub serve-IsTable :
    (st : List RelaySession) (from : SockAddr) (r : Result (List ℕ))
    → IsTable st
    → IsTable (serve st from r).0
unfolding serve
serve-IsTable st from (err k) h = h
serve-IsTable st from (ok []) h = h
serve-IsTable st from (ok (b ∷ bs)) h =
    serve_parsed-IsTable st from (b ∷ bs) (parse_packet_header (b ∷ bs)) h

pub serve_all-IsTable :
    (st : List RelaySession) (came : List (SockAddr × Result (List ℕ)))
    → IsTable st
    → IsTable (serve_all st came).0
unfolding serve_all
serve_all-IsTable st [] h = h
serve_all-IsTable st ((from, r) ∷ more) h =
    serve_all-IsTable (serve st from r).0 more (serve-IsTable st from r h)

parse_u16-lt :
    (strtol : List ℕ → ℤ) (s : Option (List ℕ)) (otherwise : ℕ)
    → otherwise < 65536
    → parse_u16 strtol s otherwise < 65536
unfolding parse_u16
parse_u16-lt strtol none otherwise h = h
parse_u16-lt strtol (some []) otherwise h = h
parse_u16-lt strtol (some (c ∷ s)) otherwise h = by_value (strtol (c ∷ s))
  where
    by_value :
        (v : ℤ)
        → (elim v as (λ v. ℕ) [
          | pos v ↦ if ltb 65535 v then otherwise else v
          | negsuc n ↦ otherwise
        ])
          < 65536
    by_value (pos v) = ground arith
    by_value (negsuc n) = h

started :
    (startup made : Bool) (p port : ℕ) (st : List RelaySession)
    → p < 65536
    → (if startup then if made then serves p relay_init else exits 2 else exits 1) ≡ serves port st
    → (port < 65536) × IsTable st
started true true p port st h e =
    let same : p ≡ port = ground arith in
    let is : relay_init ≡ st = ground arith in (omega arith, subst IsTable is relay_init-IsTable)
started true false p port st h e = absurd (ground arith)
started false made p port st h e = absurd (ground arith)

-- If the server starts, it is on a port below 65536, whatever `strtol` makes of its argument; and
-- whatever it then receives, its table keeps its 64 sessions of 16 entries each, no two sessions
-- in use have the same number, and no player has two entries in a session.
pub start_server-IsTable :
    (strtol : List ℕ → ℤ) (startup : Bool) (bound : ℕ → Bool) (args : List (List ℕ)) (port : ℕ)
    (st : List RelaySession) (came : List (SockAddr × Result (List ℕ)))
    → start_server strtol startup bound args ≡ serves port st
    → (port < 65536) × IsTable (serve_all st came).0
unfolding start_server
start_server-IsTable strtol startup bound [] port st came e =
    let (low, h) = started startup (bound 40000) 40000 port st (omega arith) e in
    (low, serve_all-IsTable st came h)
start_server-IsTable strtol startup bound (s ∷ more) port st came e =
    let p = parse_u16 strtol (some s) 40000 in
    let small = parse_u16-lt strtol (some s) 40000 (omega arith) in
    let (low, h) = started startup (bound p) p port st small e in (low, serve_all-IsTable st came h)
