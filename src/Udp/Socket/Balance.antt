-- ===== src/Udp/Socket/Balance.antt =====
-- What a socket holds while it is open.
use residual_engine_audio.Base.{
  ℕ, ◌+◌, ◌-◌, ◌≡◌, refl, ap, ◌∙◌, arith, Bool, true, false, Option, some, none,
}
use residual_engine_audio.Udp.{Winsock, Ledger, Accounts}
use residual_engine_audio.Udp.Socket.{
  any_addr, with_block, with_bound, with_socket, udp_create_dualstack, udp_destroy,
}

-- One thing more of each kind, and one less.
abbrev pub more_startups : Ledger → Ledger
more_startups l = record l { startups = l.startups + 1 }

abbrev pub more_sockets : Ledger → Ledger
more_sockets l = record l { sockets = l.sockets + 1 }

abbrev pub more_blocks : Ledger → Ledger
more_blocks l = record l { blocks = l.blocks + 1 }

undone : (k : ℕ) → k + 1 - 1 ≡ k
undone k = omega arith

module _ {Net : Type 0} (w : Winsock Net) (held : Net → Ledger) (a : Accounts w held) where
  pub cleanup-undoes :
      (n : Net) (l : Ledger) → held n ≡ more_startups l → held (w.wsa_cleanup n) ≡ l
  cleanup-undoes n l e =
      a.cleaned_up n
      ∙ ap (λ (h : Ledger). record h { startups = h.startups - 1 }) e
      ∙ ap (λ k. record l { startups = k }) (undone l.startups)

  pub close-undoes :
      (s : ℕ) (n : Net) (l : Ledger) → held n ≡ more_sockets l → held (w.closesocket s n) ≡ l
  close-undoes s n l e =
      a.closed s n
      ∙ ap (λ (h : Ledger). record h { sockets = h.sockets - 1 }) e
      ∙ ap (λ k. record l { sockets = k }) (undone l.sockets)

  pub free-undoes : (n : Net) (l : Ledger) → held n ≡ more_blocks l → held (w.free n) ≡ l
  free-undoes n l e =
      a.freed n
      ∙ ap (λ (h : Ledger). record h { blocks = h.blocks - 1 }) e
      ∙ ap (λ k. record l { blocks = k }) (undone l.blocks)

  -- What is held once a socket is asked for: no more if there is none, else it and its block.
  abbrev pub IsHeld : Ledger → Option ℕ × Net → Type 0
  IsHeld l (none, n) = held n ≡ l
  IsHeld l (some s, n) = held n ≡ more_blocks (more_sockets l)

  with_block-IsHeld :
      (l : Ledger) (s : ℕ) (t : Bool × Net)
      → (t.0 ≡ true → held t.1 ≡ more_blocks (more_sockets l))
      → (t.0 ≡ false → held t.1 ≡ more_sockets l)
      → IsHeld l (with_block w s t)
  with_block-IsHeld l s (true, n) got failed = got refl
  with_block-IsHeld l s (false, n) got failed = close-undoes s n l (failed refl)

  with_bound-IsHeld :
      (l : Ledger) (s : ℕ) (nonblocking : Bool) (t : Bool × Net)
      → held t.1 ≡ more_sockets l
      → IsHeld l (with_bound w s nonblocking t)
  with_bound-IsHeld l s nonblocking (false, n) e = close-undoes s n l e
  with_bound-IsHeld l s true (true, n) e =
      let n' = w.set_nonblocking s n in
      let is : held n' ≡ more_sockets l = a.nonblocking_set s n ∙ e in
      with_block-IsHeld l s (w.malloc n') (λ t. a.malloc_taken n' t ∙ ap more_blocks is)
        (λ f. a.malloc_failed n' f ∙ is)
  with_bound-IsHeld l s false (true, n) e =
      with_block-IsHeld l s (w.malloc n) (λ t. a.malloc_taken n t ∙ ap more_blocks e)
        (λ f. a.malloc_failed n f ∙ e)

  with_socket-IsHeld :
      (l : Ledger) (port : ℕ) (nonblocking : Bool) (t : Option ℕ × Net)
      → ((s : ℕ) → t.0 ≡ some s → held t.1 ≡ more_sockets l)
      → (t.0 ≡ none → held t.1 ≡ l)
      → IsHeld l (with_socket w port nonblocking t)
  with_socket-IsHeld l port nonblocking (none, n) got failed = failed refl
  with_socket-IsHeld l port nonblocking (some s, n) got failed =
      let n' = w.set_reuse s (w.set_dual_stack s n) in
      with_bound-IsHeld l s nonblocking (w.bind s (any_addr w port) n') (
        a.bound s (any_addr w port) n'
        ∙ a.reuse_set s (w.set_dual_stack s n)
        ∙ a.dual_stack_set s n
        ∙ got s refl)

  pub create_dualstack-IsHeld :
      (port : ℕ) (nonblocking : Bool) (n : Net)
      → IsHeld (held n) (udp_create_dualstack w port nonblocking n)
  unfolding udp_create_dualstack
  create_dualstack-IsHeld port nonblocking n =
      with_socket-IsHeld (held n) port nonblocking (w.socket n) (a.socket_taken n)
        (a.socket_failed n)

  pub destroy-undoes :
      (s : ℕ) (n : Net) (l : Ledger)
      → held n ≡ more_blocks (more_sockets l)
      → held (udp_destroy w (some s) n) ≡ l
  unfolding udp_destroy
  destroy-undoes s n l e = free-undoes (w.closesocket s n) l (close-undoes s n (more_blocks l) e)
