-- ===== src/Udp.antt =====
-- UDP sockets and the two transports on them: src/rv_udp_win32.c, src/rv_transport_udp.c and
-- src/rv_shim_udp.c. The Windows socket library and the allocator are a parameter, whose state is
-- threaded through every call.
pub mod Address
pub mod Socket
pub mod Client
mod Examples
use residual_engine_audio.Base.{
  ℕ, ◌+◌, ◌-◌, ◌<◌, ◌^◌, ◌≡◌, ◌≢◌, Bool, true, false, Option, some, none, List, length, Result, ok,
  err,
}

-- What is read of a `sockaddr_storage`; the port is in network order.
pub record Storage : Type 0 where
  pub family : ℕ
  pub port : ℕ
  pub addr : List ℕ

-- The calls that the code makes. `socket` is of the family AF_INET6 and for datagrams. `recvfrom`
-- gives a datagram and its sender, or the error of `WSAGetLastError`.
pub record Winsock (Net : Type 0) : Type 0 where
  pub af_inet : ℕ
  pub af_inet6 : ℕ
  pub would_block : ℕ
  pub htons : ℕ → ℕ
  pub ntohs : ℕ → ℕ
  pub inet_pton : ℕ → List ℕ → Option (List ℕ)
  pub wsa_startup : Net → Bool × Net
  pub wsa_cleanup : Net → Net
  pub malloc : Net → Bool × Net
  pub free : Net → Net
  pub socket : Net → Option ℕ × Net
  pub set_dual_stack : ℕ → Net → Net
  pub set_reuse : ℕ → Net → Net
  pub set_nonblocking : ℕ → Net → Net
  pub bind : ℕ → Storage → Net → Bool × Net
  pub closesocket : ℕ → Net → Net
  pub sendto : ℕ → Storage → List ℕ → Net → Result ℕ × Net
  pub recvfrom : ℕ → ℕ → Net → Result (Storage × List ℕ) × Net

-- What a process holds: calls of `WSAStartup` not yet undone, open sockets, and blocks of memory.
pub record Ledger : Type 0 where
  pub startups : ℕ
  pub sockets : ℕ
  pub blocks : ℕ

-- What the library's documentation says of what a process holds: a call that succeeds takes one
-- thing more, the call that undoes it gives one back, and no other call changes that.
pub record Accounts {Net : Type 0} (w : Winsock Net) (held : Net → Ledger) : Type 0 where
  pub startup_taken :
      (n : Net)
      → (w.wsa_startup n).0 ≡ true
      → held (w.wsa_startup n).1 ≡ record (held n) { startups = (held n).startups + 1 }
  pub startup_failed : (n : Net) → (w.wsa_startup n).0 ≡ false → held (w.wsa_startup n).1 ≡ held n
  pub cleaned_up :
      (n : Net) → held (w.wsa_cleanup n) ≡ record (held n) { startups = (held n).startups - 1 }
  pub malloc_taken :
      (n : Net)
      → (w.malloc n).0 ≡ true
      → held (w.malloc n).1 ≡ record (held n) { blocks = (held n).blocks + 1 }
  pub malloc_failed : (n : Net) → (w.malloc n).0 ≡ false → held (w.malloc n).1 ≡ held n
  pub freed : (n : Net) → held (w.free n) ≡ record (held n) { blocks = (held n).blocks - 1 }
  pub socket_taken :
      (n : Net) (s : ℕ)
      → (w.socket n).0 ≡ some s
      → held (w.socket n).1 ≡ record (held n) { sockets = (held n).sockets + 1 }
  pub socket_failed : (n : Net) → (w.socket n).0 ≡ none → held (w.socket n).1 ≡ held n
  pub closed :
      (s : ℕ) (n : Net)
      → held (w.closesocket s n) ≡ record (held n) { sockets = (held n).sockets - 1 }
  pub dual_stack_set : (s : ℕ) (n : Net) → held (w.set_dual_stack s n) ≡ held n
  pub reuse_set : (s : ℕ) (n : Net) → held (w.set_reuse s n) ≡ held n
  pub nonblocking_set : (s : ℕ) (n : Net) → held (w.set_nonblocking s n) ≡ held n
  pub bound : (s : ℕ) (a : Storage) (n : Net) → held (w.bind s a n).1 ≡ held n

-- What it says of addresses: the families differ, the two byte orders are inverse to each other,
-- and a socket of the family AF_INET6 takes no address of the family AF_INET.
pub record Families {Net : Type 0} (w : Winsock Net) : Type 0 where
  pub apart : w.af_inet ≢ w.af_inet6
  pub ntohs-htons : (p : ℕ) → p < 2 ^ 16 → w.ntohs (w.htons p) ≡ p
  pub refused :
      (s : ℕ) (to : Storage) (bytes : List ℕ) (n : Net)
      → to.family ≡ w.af_inet
      → (k : ℕ) × ((w.sendto s to bytes n).0 ≡ err k)
