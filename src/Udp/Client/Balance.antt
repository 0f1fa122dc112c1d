-- ===== src/Udp/Client/Balance.antt =====
-- What creating and destroying a client leaves behind.
use mathlib.Core.Path.{subst}
use residual_engine_audio.Base.{
  ℕ, ◌≡◌, refl, ap, ◌∙◌, Bool, true, false, Option, some, none, ◌==◌, if_both, if◌then◌else◌,
  Result, ok, err,
}
use residual_engine_audio.Relay.{SockAddr}
use residual_engine_audio.Udp.{Winsock, Ledger, Accounts}
use residual_engine_audio.Udp.Address.{parse_ip_port}
use residual_engine_audio.Udp.Socket.{udp_create_dualstack, udp_destroy}
use residual_engine_audio.Udp.Socket.Balance.{
  more_startups, more_sockets, more_blocks, cleanup-undoes, free-undoes, IsHeld,
  create_dualstack-IsHeld, destroy-undoes,
}
use residual_engine_audio.Udp.Client.{
  UdpConfig, UdpClient, no_relay, has_host, with_relay, with_sock, with_startup, with_client,
  transport_udp_create, transport_udp_destroy, shim_udp_create,
}

module _ {Net : Type 0} (w : Winsock Net) (held : Net → Ledger) (a : Accounts w held) where
  -- What is held once a client is asked for: no more than before if there is none, and no more
  -- once it is destroyed if there is one.
  abbrev pub IsBalanced : Ledger → Option UdpClient × Net → Type 0
  IsBalanced l (none, n) = held n ≡ l
  IsBalanced l (some t, n) = held (transport_udp_destroy w (some t) n) ≡ l

  with_relay-IsBalanced :
      (l : Ledger) (s : ℕ) (n : Net) (r : Result SockAddr)
      → held n ≡ more_blocks (more_sockets (more_startups (more_blocks l)))
      → IsBalanced l (with_relay w s n r)
  unfolding transport_udp_destroy
  with_relay-IsBalanced l s n r e = by_reply r
    where
      destroyed : held (w.free (w.wsa_cleanup (udp_destroy w (some s) n))) ≡ l
      destroyed =
          let n' = udp_destroy w (some s) n in
          free-undoes w held a (w.wsa_cleanup n') l (
            cleanup-undoes w held a n' (more_blocks l)
              (destroy-undoes w held a s n (more_startups (more_blocks l)) e))

      by_reply : (r : Result SockAddr) → IsBalanced l (with_relay w s n r)
      by_reply (err k) = destroyed
      by_reply (ok relay) = destroyed

  with_sock-IsBalanced :
      (l : Ledger) (cfg : UdpConfig) (t : Option ℕ × Net)
      → IsHeld w held a (more_startups (more_blocks l)) t
      → IsBalanced l (with_sock w cfg t)
  with_sock-IsBalanced l cfg (none, n) e =
      free-undoes w held a (w.wsa_cleanup n) l (cleanup-undoes w held a n (more_blocks l) e)
  with_sock-IsBalanced l cfg (some s, n) e =
      with_relay-IsBalanced l s n (parse_ip_port w cfg.relay_host cfg.relay_port no_relay) e

  with_startup-IsBalanced :
      (l : Ledger) (cfg : UdpConfig) (t : Bool × Net)
      → (t.0 ≡ true → held t.1 ≡ more_startups (more_blocks l))
      → (t.0 ≡ false → held t.1 ≡ more_blocks l)
      → IsBalanced l (with_startup w cfg t)
  with_startup-IsBalanced l cfg (false, n) got failed = free-undoes w held a n l (failed refl)
  with_startup-IsBalanced l cfg (true, n) got failed =
      let port = if cfg.local_port == 0 then cfg.relay_port else cfg.local_port in
      let made = udp_create_dualstack w port cfg.nonblocking n in
      with_sock-IsBalanced l cfg made (
        subst (λ k. IsHeld w held a k made) (got refl)
          (create_dualstack-IsHeld w held a port cfg.nonblocking n))

  with_client-IsBalanced :
      (l : Ledger) (cfg : UdpConfig) (t : Bool × Net)
      → (t.0 ≡ true → held t.1 ≡ more_blocks l)
      → (t.0 ≡ false → held t.1 ≡ l)
      → IsBalanced l (with_client w cfg t)
  with_client-IsBalanced l cfg (false, n) got failed = failed refl
  with_client-IsBalanced l cfg (true, n) got failed =
      with_startup-IsBalanced l cfg (w.wsa_startup n)
        (λ t. a.startup_taken n t ∙ ap more_startups (got refl))
        (λ f. a.startup_failed n f ∙ got refl)

  -- Wherever creating a UDP transport fails, what it took by then is given back: the process holds
  -- as many startups, sockets and blocks of memory as before; and if it succeeds, destroying the
  -- transport gives back all that it took. Creating the shim does the same.
  pub udp_create-IsBalanced :
      (cfg : UdpConfig) (n : Net)
      → IsBalanced (held n) (transport_udp_create w cfg n)
        × (shim_udp_create w cfg n ≡ transport_udp_create w cfg n)
  unfolding transport_udp_create shim_udp_create
  udp_create-IsBalanced cfg n = (
    if_both (IsBalanced (held n)) (has_host cfg)
        (if_both (IsBalanced (held n)) (cfg.relay_port == 0) refl
          (with_client-IsBalanced (held n) cfg (w.malloc n) (a.malloc_taken n) (a.malloc_failed n)))
        refl,
    refl,
  )
