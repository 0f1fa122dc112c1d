-- ===== src/Udp/Examples.antt =====
-- A socket library whose state is what it has handed out.
use residual_engine_audio.Base.{
  ℕ, ◌+◌, ◌-◌, ◌≡◌, refl, arith, true, some, none, List, [], ◌∷◌, length, ◌==◌, replicate,
  if◌then◌else◌, ok, err, inl,
}
use residual_engine_audio.Ring.{store}
use residual_engine_audio.Ring.Laws
use residual_engine_audio.OutQueue.{out_init, out_push}
use residual_engine_audio.OutQueue.Refine.{contents}
use residual_engine_audio.Relay.{SockAddr, addr_equal}
use residual_engine_audio.Udp.{Storage, Winsock, Ledger, Accounts, Families}
use residual_engine_audio.Udp.Address.{to_sockaddr, from_sockaddr, from_to_sockaddr, parse_ip_port}
use residual_engine_audio.Udp.Client.{
  UdpConfig, UdpClient, transport_udp_create, shim_udp_create, pump_voice_outgoing,
}
use residual_engine_audio.Udp.Client.Balance.{IsBalanced, udp_create-IsBalanced}
use residual_engine_audio.Udp.Client.Send.{pump_outgoing-ipv4}
use residual_engine_audio.Udp.Socket.{udp_create_dualstack}
use residual_engine_audio.Voice.State.{Voice}
use residual_engine_audio.Voice.Emit.{emit_log}
use residual_engine_audio.Voice.Invariant.Calls.{out_q-IsValid}
use residual_engine_audio.Voice.Invariant.State.{IsValid}
use residual_engine_audio.Voice.Samples.{engine, engine-IsValid}

-- The socket option calls do nothing, a host with a dot is an IPv4 literal, and no datagram waits.
abbrev library : Winsock Ledger
library = record {
  af_inet = 2;
  af_inet6 = 23;
  would_block = 10035;
  htons = λ p. p;
  ntohs = λ p. p;
  inet_pton = λ family host. if family == 2 then some (127 ∷ 0 ∷ 0 ∷ 1 ∷ []) else none;
  wsa_startup = λ n. (true, record n { startups = n.startups + 1 });
  wsa_cleanup = λ n. record n { startups = n.startups - 1 };
  malloc = λ n. (true, record n { blocks = n.blocks + 1 });
  free = λ n. record n { blocks = n.blocks - 1 };
  socket = λ n. (some 5, record n { sockets = n.sockets + 1 });
  set_dual_stack = λ s n. n;
  set_reuse = λ s n. n;
  set_nonblocking = λ s n. n;
  bind = λ s a n. (true, n);
  closesocket = λ s n. record n { sockets = n.sockets - 1 };
  sendto = λ s to bytes n. (if to.family == 2 then err 1 else ok (length bytes), n);
  recvfrom = λ s size n. (err 10035, n);
}

library-Accounts : Accounts library (λ n. n)
library-Accounts = record {
  startup_taken = λ n e. refl;
  startup_failed = λ n e. absurd (cc e);
  cleaned_up = λ n. refl;
  malloc_taken = λ n e. refl;
  malloc_failed = λ n e. absurd (cc e);
  freed = λ n. refl;
  socket_taken = λ n s e. refl;
  socket_failed = λ n e. absurd (cc e);
  closed = λ s n. refl;
  dual_stack_set = λ s n. refl;
  reuse_set = λ s n. refl;
  nonblocking_set = λ s n. refl;
  bound = λ s a n. refl;
}

library-Families : Families library
library-Families = record {
  apart = λ e. absurd (omega (arith, e));
  ntohs-htons = λ p low. refl;
  refused = λ s to bytes n e. (1, rw e refl);
}

abbrev localhost : List ℕ
localhost = 49 ∷ 50 ∷ 55 ∷ 46 ∷ 48 ∷ 46 ∷ 48 ∷ 46 ∷ 49 ∷ []

abbrev config : UdpConfig
config = record {
  relay_host = some localhost;
  relay_port = 40000;
  local_port = 0;
  nonblocking = true;
}

abbrev nothing_held : Ledger
nothing_held = record { startups = 0; sockets = 0; blocks = 0 }

udp_create-IsBalanced_example :
    IsBalanced library
      (λ n. n)
      library-Accounts
      nothing_held
      (transport_udp_create library config nothing_held)
    × (shim_udp_create library config nothing_held
        ≡ transport_udp_create library config nothing_held)
udp_create-IsBalanced_example =
    udp_create-IsBalanced library (λ n. n) library-Accounts config nothing_held

abbrev relay_addr : SockAddr
relay_addr = record { ver = 4; port = 40000; ip = replicate 16 9 }

from_to_sockaddr_example :
    (ss : Storage) × (to_sockaddr library relay_addr ≡ some ss)
    × (addr_equal
          (from_sockaddr library ss (record { ver = 0; port = 0; ip = replicate 16 0 }))
          relay_addr
        ≡ true)
from_to_sockaddr_example =
    from_to_sockaddr library library-Families relay_addr
      (record { ver = 0; port = 0; ip = replicate 16 0 }) (inl refl) (omega arith) refl

abbrev client : UdpClient
client = record {
  sock = some 5;
  relay = record { ver = 4; port = 40000; ip = 127 ∷ 0 ∷ 0 ∷ 1 ∷ replicate 12 0 };
  started = true;
}

created : (transport_udp_create library config nothing_held).0 ≡ some client
unfolding transport_udp_create udp_create_dualstack parse_ip_port
created = refl

-- An engine with one packet waiting.
abbrev waiting : Voice ℕ ℕ
waiting = record engine { out_q = (out_push engine.out_q (9 ∷ [])).0 }

waits : contents waiting.out_q ≡ (9 ∷ []) ∷ []
unfolding emit_log out_init out_push Laws.contents store
waits = refl

waiting-IsValid : IsValid waiting
waiting-IsValid = out_q-IsValid engine (9 ∷ []) engine-IsValid

pump_outgoing-ipv4_example :
    let (r, left, v') = pump_voice_outgoing library client nothing_held waiting in
    (r ≡ some (err 3)) × (contents v'.out_q ≡ [])
pump_outgoing-ipv4_example =
    pump_outgoing-ipv4 library library-Families config localhost (127 ∷ 0 ∷ 0 ∷ 1 ∷ []) nothing_held
      nothing_held client waiting (9 ∷ []) [] refl refl refl created waiting-IsValid waits
