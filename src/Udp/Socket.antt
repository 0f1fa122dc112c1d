-- ===== src/Udp/Socket.antt =====
-- The socket functions of src/rv_udp_win32.c.
pub mod Balance
use residual_engine_audio.Base.{
  ℕ, Bool, true, false, ◌||◌, Option, some, none, List, [], replicate, length, ◌==◌, if◌then◌else◌,
  Result, ok, err,
}
use residual_engine_audio.Relay.{SockAddr}
use residual_engine_audio.Udp.{Storage, Winsock}
use residual_engine_audio.Udp.Address.{to_sockaddr, from_sockaddr}

module _ {Net : Type 0} (w : Winsock Net) where
  -- `rv_udp_startup`
  abbrev pub udp_startup : Net → Bool × Net
  udp_startup n = w.wsa_startup n

  -- The wildcard address.
  abbrev pub any_addr : ℕ → Storage
  any_addr bind_port = record {
    family = w.af_inet6;
    port = w.htons bind_port;
    addr = replicate 16 0;
  }

  -- The three calls of `rv_udp_create_dualstack` that may fail, from the last to the first.
  abbrev pub with_block : ℕ → Bool × Net → Option ℕ × Net
  with_block s (false, n) = (none, w.closesocket s n)
  with_block s (true, n) = (some s, n)

  abbrev pub with_bound : ℕ → Bool → Bool × Net → Option ℕ × Net
  with_bound s nonblocking (false, n) = (none, w.closesocket s n)
  with_bound s nonblocking (true, n) =
      with_block s (w.malloc (if nonblocking then w.set_nonblocking s n else n))

  abbrev pub with_socket : ℕ → Bool → Option ℕ × Net → Option ℕ × Net
  with_socket bind_port nonblocking (none, n) = (none, n)
  with_socket bind_port nonblocking (some s, n) =
      with_bound s nonblocking
        (w.bind s (any_addr bind_port) (w.set_reuse s (w.set_dual_stack s n)))

  -- The socket that `rv_udp_socket_t` holds, or null.
  unfoldable pub udp_create_dualstack : ℕ → Bool → Net → Option ℕ × Net
  udp_create_dualstack bind_port nonblocking n = with_socket bind_port nonblocking (w.socket n)

  -- A null socket is `none`.
  unfoldable pub udp_destroy : Option ℕ → Net → Net
  udp_destroy none n = n
  udp_destroy (some s) n = w.free (w.closesocket s n)

  -- What is sent to an address in the library's form.
  abbrev pub send_storage : ℕ → List ℕ → Net → Option Storage → Result ℕ × Net
  send_storage s bytes n none = (err 2, n)
  send_storage s bytes n (some ss) =
      let (r, n') = w.sendto s ss bytes n in (elim r [ ok k ↦ ok k | err k ↦ err 3 ], n')

  -- `rv_udp_sendto`; the bytes are not null.
  unfoldable pub udp_sendto : Option ℕ → SockAddr → List ℕ → Net → Result ℕ × Net
  unfolding to_sockaddr
  udp_sendto none to bytes n = (err 1, n)
  udp_sendto (some s) to bytes n =
      if length bytes == 0 then (err 1, n) else send_storage s bytes n (to_sockaddr w to)

  -- `rv_udp_recvfrom`: the bytes, none of them if there is no datagram yet, and the sender. The
  -- buffer is not null; `from` is what the caller has there, if it wants the sender.
  unfoldable pub udp_recvfrom :
      Option ℕ → Option SockAddr → ℕ → Net → Result (List ℕ) × Option SockAddr × Net
  unfolding from_sockaddr
  udp_recvfrom none from out_cap n = (err 1, from, n)
  udp_recvfrom (some s) from out_cap n =
      if out_cap == 0
      then (err 1, from, n)
      else let (r, n') = w.recvfrom s out_cap n in
        elim r [
          | ok (ss, bytes) ↦
              (ok bytes, elim from [ none ↦ none | some a ↦ some (from_sockaddr w ss a) ], n')
          | err e ↦ if e == w.would_block then (ok [], from, n') else (err 2, from, n')
        ]
