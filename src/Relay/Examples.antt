-- ===== src/Relay/Examples.antt =====
-- A session of two players.
use residual_engine_audio.Base.{◌≡◌, refl, List, [], ◌∷◌, replicate}
use residual_engine_audio.Relay.{
  SockAddr, RelaySession, relay_init, relay_join, forward_voice, join_clients, update_first,
  forward_to,
}

abbrev first_addr : SockAddr
first_addr = record { ver = 6; port = 1000; ip = replicate 16 1 }

abbrev second_addr : SockAddr
second_addr = record { ver = 6; port = 1001; ip = replicate 16 1 }

abbrev table : List RelaySession
table = relay_join (relay_join relay_init 1234 7 first_addr) 1234 8 second_addr

-- A packet of the first player goes to the second.
forwarded : forward_voice table 1234 first_addr ≡ second_addr ∷ []
unfolding relay_join forward_voice update_first join_clients forward_to
forwarded = refl
