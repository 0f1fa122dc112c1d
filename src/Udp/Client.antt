-- ===== src/Udp/Client.antt =====
-- The UDP transport and the UDP shim: src/rv_transport_udp.c and src/rv_shim_udp.c, which have the
-- same struct, the same configuration, and the same code to create and to destroy it.
pub mod Balance
pub mod Send
use residual_engine_audio.Base.{
  ℕ, ◌≡◌, Bool, true, false, ◌||◌, Option, some, none, List, [], replicate, length, ◌==◌, ltb,
  if◌then◌else◌, Result, ok, err,
}
use residual_engine_audio.Relay.{SockAddr}
use residual_engine_audio.Udp.{Winsock}
use residual_engine_audio.Udp.Address.{parse_ip_port}
use residual_engine_audio.Udp.Socket.{
  udp_startup, udp_create_dualstack, udp_destroy, udp_sendto, udp_recvfrom,
}
use residual_engine_audio.Voice.State.{Voice}
use residual_engine_audio.Transport.{Transport, Pumped, send_loop, recv_loop}

pub record UdpConfig : Type 0 where
  pub relay_host : Option (List ℕ)
  pub relay_port : ℕ
  pub local_port : ℕ
  pub nonblocking : Bool

-- `rv_transport_udp_t` and `rv_shim_udp_t`
pub record UdpClient : Type 0 where
  pub sock : Option ℕ
  pub relay : SockAddr
  pub started : Bool

-- The address of a struct that was cleared.
abbrev pub no_relay : SockAddr
no_relay = record { ver = 0; port = 0; ip = replicate 16 0 }

abbrev pub has_host : UdpConfig → Bool
has_host cfg = elim cfg.relay_host [ none ↦ false | some host ↦ true ]

module _ {Net : Type 0} (w : Winsock Net) where
  -- The steps of creation, from the last to the first; each gives up what the others have taken.
  abbrev pub with_relay : ℕ → Net → Result SockAddr → Option UdpClient × Net
  with_relay s n (err k) = (none, w.free (w.wsa_cleanup (udp_destroy w (some s) n)))
  with_relay s n (ok relay) = (some (record { sock = some s; relay = relay; started = true }), n)

  abbrev pub with_sock : UdpConfig → Option ℕ × Net → Option UdpClient × Net
  with_sock cfg (none, n) = (none, w.free (w.wsa_cleanup n))
  with_sock cfg (some s, n) =
      with_relay s n (parse_ip_port w cfg.relay_host cfg.relay_port no_relay)

  abbrev pub with_startup : UdpConfig → Bool × Net → Option UdpClient × Net
  with_startup cfg (false, n) = (none, w.free n)
  with_startup cfg (true, n) =
      let bind_port = if cfg.local_port == 0 then cfg.relay_port else cfg.local_port in
      with_sock cfg (udp_create_dualstack w bind_port cfg.nonblocking n)

  abbrev pub with_client : UdpConfig → Bool × Net → Option UdpClient × Net
  with_client cfg (false, n) = (none, n)
  with_client cfg (true, n) = with_startup cfg (udp_startup w n)

  -- `rv_transport_udp_create`
  unfoldable pub transport_udp_create : UdpConfig → Net → Option UdpClient × Net
  unfolding parse_ip_port udp_create_dualstack udp_destroy
  transport_udp_create cfg n =
      if has_host cfg
      then if cfg.relay_port == 0 then (none, n) else with_client cfg (w.malloc n)
      else (none, n)

  -- `rv_transport_udp_destroy`
  unfoldable pub transport_udp_destroy : Option UdpClient → Net → Net
  unfolding udp_destroy
  transport_udp_destroy none n = n
  transport_udp_destroy (some t) n =
      let n' = udp_destroy w t.sock n in w.free (if t.started then w.wsa_cleanup n' else n')

  -- `rv_shim_udp_create` and `rv_shim_udp_destroy`, step for step the same.
  unfoldable pub shim_udp_create : UdpConfig → Net → Option UdpClient × Net
  unfolding parse_ip_port udp_create_dualstack udp_destroy
  shim_udp_create cfg n =
      if has_host cfg
      then if cfg.relay_port == 0 then (none, n) else with_client cfg (w.malloc n)
      else (none, n)

  unfoldable pub shim_udp_destroy : Option UdpClient → Net → Net
  unfolding udp_destroy
  shim_udp_destroy none u = u
  shim_udp_destroy (some t) n =
      let n' = udp_destroy w t.sock n in w.free (if t.started then w.wsa_cleanup n' else n')

  -- `rv_transport_udp_sendto_relay`
  unfoldable pub sendto_relay : UdpClient → Net → List ℕ → Result ℕ × Net
  unfolding udp_sendto
  sendto_relay t n bytes = elim t.sock [
    | none ↦ (err 1, n)
    | some s ↦
        if length bytes == 0
        then (err 1, n)
        else if ltb 0x7fffffff (length bytes)
        then (err 2, n)
        else udp_sendto w (some s) t.relay bytes n
  ]

  -- `rv_transport_udp_recv`; the sender is not asked for.
  unfoldable pub udp_recv : UdpClient → Net → ℕ → Result (List ℕ) × Net
  unfolding udp_recvfrom
  udp_recv t n size = elim t.sock [
    | none ↦ (err 1, n)
    | some s ↦
        if size == 0
        then (err 1, n)
        else if ltb 0x7fffffff size
        then (err 2, n)
        else let (r, sender, n') = udp_recvfrom w (some s) none size n in (r, n')
  ]

  -- `udp_send_cb` and `udp_recv_cb` of the shim.
  unfoldable pub udp_send_cb : UdpClient → Net → List ℕ → Result ℕ × Net
  unfolding udp_sendto
  udp_send_cb t n bytes = elim t.sock [
    | none ↦ (err 1, n)
    | some s ↦
        if length bytes == 0
        then (err 1, n)
        else if ltb 0x7fffffff (length bytes)
        then (err 2, n)
        else udp_sendto w (some s) t.relay bytes n
  ]

  unfoldable pub udp_recv_cb : UdpClient → Net → ℕ → Result (List ℕ) × Net
  unfolding udp_recvfrom
  udp_recv_cb t n size = elim t.sock [
    | none ↦ (err 1, n)
    | some s ↦
        if size == 0
        then (err 1, n)
        else if ltb 0x7fffffff size
        then (err 2, n)
        else let (r, sender, n') = udp_recvfrom w (some s) none size n in (r, n')
  ]

  -- `rv_shim_udp_as_transport`
  abbrev pub as_transport : UdpClient → Transport Net
  as_transport t = record { send = some (udp_send_cb t); recv = some (udp_recv_cb t) }

module _ {Net Encoder Decoder : Type 0} (w : Winsock Net) where
  -- `rv_transport_udp_pump_voice_outgoing` and `rv_transport_udp_pump_voice_incoming`: the loops
  -- of the generic pumps, on the two functions above.
  unfoldable pub pump_voice_outgoing :
      UdpClient → Net → Voice Encoder Decoder → Pumped Net Encoder Decoder
  unfolding send_loop sendto_relay
  pump_voice_outgoing t n v = send_loop (sendto_relay w t) 257 n v 0

  unfoldable pub pump_voice_incoming :
      UdpClient → ℕ → Net → Voice Encoder Decoder → ℕ → Pumped Net Encoder Decoder
  unfolding recv_loop udp_recv
  pump_voice_incoming t fuel n v now_ms = recv_loop (udp_recv w t) fuel n v now_ms 0
