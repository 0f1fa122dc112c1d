-- ===== src/Udp/Client/Send.antt =====
-- A UDP client whose relay is an IPv4 address.
use residual_engine_audio.Base.{
  ℕ, ◌≡◌, refl, ap, sym, ◌∙◌, arith, Bool, true, false, Option, some, none, List, ◌∷◌, replicate,
  length, ltb, ◌==◌, if_both, if◌then◌else◌, Result, ok, err,
}
use residual_engine_audio.OutQueue.Refine.{contents}
use residual_engine_audio.Relay.{SockAddr, ipv4}
use residual_engine_audio.Udp.{Winsock, Storage, Families}
use residual_engine_audio.Udp.Address.{to_sockaddr, copy_bytes, parse_ip_port}
use residual_engine_audio.Udp.Socket.{udp_startup, udp_create_dualstack, udp_sendto, send_storage}
use residual_engine_audio.Udp.Client.{
  UdpClient, UdpConfig, sendto_relay, pump_voice_outgoing, transport_udp_create, with_relay,
  with_sock, with_startup, with_client, has_host, no_relay,
}
use residual_engine_audio.Voice.State.{Voice}
use residual_engine_audio.Voice.Invariant.State.{IsValid}
use residual_engine_audio.Transport.Outgoing.{offer, send_loop-IsOffered, few_waiting}

module _ {Net : Type 0} (w : Winsock Net) where
  -- A client that is created has for its relay what its host reads as.
  with_relay-parsed :
      (s : ℕ) (n : Net) (r : Result SockAddr) (t : UdpClient)
      → (with_relay w s n r).0 ≡ some t
      → r ≡ ok t.relay
  with_relay-parsed s n (err k) t e = absurd (cc e)
  with_relay-parsed s n (ok relay) t e = ap relay_of e
    where
      relay_of : Option UdpClient → Result SockAddr
      relay_of none = err 0
      relay_of (some t) = ok t.relay

  with_sock-parsed :
      (cfg : UdpConfig) (o : Option ℕ × Net) (t : UdpClient)
      → (with_sock w cfg o).0 ≡ some t
      → parse_ip_port w cfg.relay_host cfg.relay_port no_relay ≡ ok t.relay
  with_sock-parsed cfg (none, n) t e = absurd (cc e)
  with_sock-parsed cfg (some s, n) t e =
      with_relay-parsed s n (parse_ip_port w cfg.relay_host cfg.relay_port no_relay) t e

  with_startup-parsed :
      (cfg : UdpConfig) (o : Bool × Net) (t : UdpClient)
      → (with_startup w cfg o).0 ≡ some t
      → parse_ip_port w cfg.relay_host cfg.relay_port no_relay ≡ ok t.relay
  with_startup-parsed cfg (false, n) t e = absurd (cc e)
  with_startup-parsed cfg (true, n) t e =
      let port = if cfg.local_port == 0 then cfg.relay_port else cfg.local_port in
      with_sock-parsed cfg (udp_create_dualstack w port cfg.nonblocking n) t e

  with_client-parsed :
      (cfg : UdpConfig) (o : Bool × Net) (t : UdpClient)
      → (with_client w cfg o).0 ≡ some t
      → parse_ip_port w cfg.relay_host cfg.relay_port no_relay ≡ ok t.relay
  with_client-parsed cfg (false, n) t e = absurd (cc e)
  with_client-parsed cfg (true, n) t e = with_startup-parsed cfg (udp_startup w n) t e

  create-parsed :
      (cfg : UdpConfig) (n : Net) (t : UdpClient)
      → (transport_udp_create w cfg n).0 ≡ some t
      → parse_ip_port w cfg.relay_host cfg.relay_port no_relay ≡ ok t.relay
  unfolding transport_udp_create
  create-parsed cfg n t e = by_guards (has_host cfg) (cfg.relay_port == 0) e
    where
      by_guards :
          (host no_port : Bool)
          → (if host
              then if no_port then (none, n) else with_client w cfg (w.malloc n)
              else (none, n)).0
            ≡ some t
          → parse_ip_port w cfg.relay_host cfg.relay_port no_relay ≡ ok t.relay
      by_guards true true e = absurd (cc e)
      by_guards true false e = with_client-parsed cfg (w.malloc n) t e
      by_guards false b e = absurd (cc e)

  -- An IPv4 literal is read as an IPv4 address.
  parse-ipv4 :
      (host a4 : List ℕ) (port : ℕ) (out a : SockAddr)
      → w.inet_pton w.af_inet6 host ≡ none
      → w.inet_pton w.af_inet host ≡ some a4
      → parse_ip_port w (some host) port out ≡ ok a
      → a.ver ≡ ipv4
  unfolding parse_ip_port
  parse-ipv4 host a4 port out a e6 e4 e = ground (arith, e6, e4, e)

offer-fails :
    {User : Type 0} (send : User → List ℕ → Result ℕ × User) (p : List ℕ) (q : List (List ℕ))
    (u : User) (k : ℕ)
    → (send u p).0 ≡ err k
    → offer send (p ∷ q) u 0 ≡ (err 3, (send u p).1, q)
unfolding offer
offer-fails {User} send p q u k e = ap after e
  where
    after : Result ℕ → Result ℕ × User × List (List ℕ)
    after r = elim r [ err k ↦ (err 3, (send u p).1, q) | ok n ↦ offer send q (send u p).1 1 ]

module _ {Net : Type 0} (w : Winsock Net) (f : Families w) where
  -- Every call to send to an IPv4 address fails.
  sendto-ipv4 :
      (s : ℕ) (to : SockAddr) (bytes : List ℕ) (n : Net)
      → to.ver ≡ ipv4
      → (k : ℕ) × ((udp_sendto w (some s) to bytes n).0 ≡ err k)
  unfolding udp_sendto to_sockaddr
  sendto-ipv4 s to bytes n v =
      if_both (λ (o : Result ℕ × Net). (k : ℕ) × (o.0 ≡ err k)) (length bytes == 0) (1, refl)
        (rw v (3, after ss (f.refused s ss bytes n refl)))
    where
      ss : Storage
      ss = record {
        family = w.af_inet;
        port = w.htons to.port;
        addr = copy_bytes 4 (replicate 4 0) to.ip;
      }

      after :
          (ss : Storage)
          → ((k : ℕ) × ((w.sendto s ss bytes n).0 ≡ err k))
          → (send_storage w s bytes n (some ss)).0 ≡ err 3
      after ss (k, e) = rw e refl

  sendto_relay-ipv4 :
      (t : UdpClient) (n : Net) (bytes : List ℕ)
      → t.relay.ver ≡ ipv4
      → (k : ℕ) × ((sendto_relay w t n bytes).0 ≡ err k)
  unfolding sendto_relay
  sendto_relay-ipv4 t n bytes v = by_sock t.sock
    where
      by_sock :
          (o : Option ℕ)
          → (k : ℕ) × ((elim o as (λ o. Result ℕ × Net) [
            | none ↦ (err 1, n)
            | some s ↦
                if length bytes == 0
                then (err 1, n)
                else if ltb 0x7fffffff (length bytes)
                then (err 2, n)
                else udp_sendto w (some s) t.relay bytes n
          ]).0
              ≡ err k)
      by_sock none = (1, refl)
      by_sock (some s) =
          if_both (λ (o : Result ℕ × Net). (k : ℕ) × (o.0 ≡ err k)) (length bytes == 0) (1, refl)
            (if_both (λ (o : Result ℕ × Net). (k : ℕ) × (o.0 ≡ err k))
              (ltb 0x7fffffff (length bytes)) (2, refl) (sendto-ipv4 s t.relay bytes n v))

module _ {Net Encoder Decoder : Type 0} (w : Winsock Net) (f : Families w) where
  -- A transport whose relay host is an IPv4 literal, and no IPv6 literal, sends nothing: its socket
  -- is of the family AF_INET6, which takes no IPv4 address. With a packet waiting in a valid
  -- engine, pumping returns -3 and drops the packet.
  pub pump_outgoing-ipv4 :
      (cfg : UdpConfig) (host a4 : List ℕ) (n n' : Net) (t : UdpClient) (v : Voice Encoder Decoder)
      (p : List ℕ) (q : List (List ℕ))
      → cfg.relay_host ≡ some host
      → w.inet_pton w.af_inet6 host ≡ none
      → w.inet_pton w.af_inet host ≡ some a4
      → (transport_udp_create w cfg n).0 ≡ some t
      → IsValid v
      → contents v.out_q ≡ p ∷ q
      → let (r, left, v') = pump_voice_outgoing w t n' v in
        (r ≡ some (err 3)) × (contents v'.out_q ≡ q)
  unfolding pump_voice_outgoing
  pump_outgoing-ipv4 cfg host a4 n n' t v p q is e6 e4 created h waits =
      let v4 = parse-ipv4 w host a4 cfg.relay_port no_relay t.relay e6 e4 (
        ap (λ o. parse_ip_port w o cfg.relay_port no_relay) (sym is)
        ∙ create-parsed w cfg n t created) in
      let (k, fails) = sendto_relay-ipv4 w f t n' p v4 in
      let spec =
        ap (λ l. offer (sendto_relay w t) l n' 0) waits
        ∙ offer-fails (sendto_relay w t) p q n' k fails in
      let (r, left, kept, others, valid) =
        send_loop-IsOffered (sendto_relay w t) (contents v.out_q) 257 n' v 0 h.out_ok refl
          (few_waiting v h) in
      (r ∙ ap (λ o. some o.0) spec, kept ∙ ap (λ o. o.2) spec)
