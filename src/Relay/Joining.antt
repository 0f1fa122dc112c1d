-- ===== src/Relay/Joining.antt =====
-- A join, on the clients of every session.
use mathlib.Core.List.{Memᴰ}
use mathlib.Core.List.Memᴰ
use mathlib.Core.Path.{subst}
use residual_engine_audio.Base.{
  ℕ, ◌≡◌, ◌≢◌, ◌⊎◌, refl, sym, arith, true, false, Option, some, none, List, inl, inr,
}
use residual_engine_audio.Relay.{
  SockAddr, RelayClient, RelaySession, addr_equal, update_first, or_else, is_session, no_clients,
  relay_join,
}
use residual_engine_audio.Relay.Sessions.{
  update_first-IsUpdated, IsUpdated, join_clients-joins, join_clients-keeps, IsEntry,
}
use residual_engine_audio.Relay.Forward.{clients_of}
use residual_engine_audio.Relay.Table.{
  is_free, with_client, opened, Found, Made, find-Found, make-Made,
}

module _ (st : List RelaySession) (id player_id : ℕ) (from : SockAddr) where
  -- What the two searches of a join find.
  found : Option (List RelaySession)
  found = update_first (is_session id) (with_client player_id from) st

  made : Option (List RelaySession)
  made = update_first is_free (opened id player_id from) st

  made-Made :
      IsUpdated (is_session id) (with_client player_id from) st none
      → Made id player_id from st made
  unfolding made
  made-Made absent = make-Made id player_id from st absent

  join-is : relay_join st id player_id from ≡ or_else found (or_else made st)
  unfolding relay_join found made
  join-is = refl

  found-is : Found id player_id from st found
  unfolding found
  found-is = find-Found id player_id from st

  found-IsUpdated : IsUpdated (is_session id) (with_client player_id from) st found
  unfolding found
  found-IsUpdated = update_first-IsUpdated (is_session id) (with_client player_id from) st

  made-IsUpdated : IsUpdated is_free (opened id player_id from) st made
  unfolding made
  made-IsUpdated = update_first-IsUpdated is_free (opened id player_id from) st

  -- A join leaves the clients of every other session as they are.
  pub relay_join-others :
      (k : ℕ) → k ≢ id → clients_of (relay_join st id player_id from) k ≡ clients_of st k
  relay_join-others k ne =
      subst (λ out. clients_of out k ≡ clients_of st k) (sym join-is)
        (by_found found found-IsUpdated found-is)
    where
      by_made :
          (m : Option (List RelaySession))
          → Made id player_id from st m
          → clients_of (or_else m st) k ≡ clients_of st k
      by_made none h = refl
      by_made (some out) (new, others) = others k ne

      by_found :
          (f : Option (List RelaySession))
          → IsUpdated (is_session id) (with_client player_id from) st f
          → Found id player_id from st f
          → clients_of (or_else f (or_else made st)) k ≡ clients_of st k
      by_found none absent h = by_made made (made-Made absent)
      by_found (some out) u (changed, others) = others k ne

  -- A join keeps the entries of other players at other addresses in the session.
  pub relay_join-keeps :
      (x : RelayClient)
      → Memᴰ x (clients_of st id)
      → x.in_use ≡ true
      → x.player_id ≢ player_id
      → addr_equal x.addr from ≡ false
      → Memᴰ x (clients_of (relay_join st id player_id from) id)
  relay_join-keeps x m used other apart =
      subst (λ out. Memᴰ x (clients_of out id)) (sym join-is) (by_found found found-is)
    where
      by_found :
          (f : Option (List RelaySession))
          → Found id player_id from st f
          → Memᴰ x (clients_of (or_else f (or_else made st)) id)
      by_found none gone = absurd (Memᴰ.not-nil (subst (Memᴰ x) gone m))
      by_found (some out) (changed, others) =
          subst (Memᴰ x) (sym changed)
            (join_clients-keeps player_id from (clients_of st id) x m used other apart)

  -- There is room for a player at an address: in the session an entry is the player's, is at the
  -- address or is free, or there is no such session and a free entry for one.
  abbrev pub HasRoom : Type 0
  HasRoom =
      ((x : RelayClient) × Memᴰ x (clients_of st id)
        × ((x.in_use ≡ false) ⊎ (x.player_id ≡ player_id) ⊎ (addr_equal x.addr from ≡ true)))
      ⊎ (((s : RelaySession) → Memᴰ s st → is_session id s ≡ false)
          × ((s : RelaySession) × Memᴰ s st × (s.in_use ≡ false)))

  -- With room for it, a player that joins is in the session, at the address.
  pub relay_join-joins :
      HasRoom
      → (c : RelayClient) × Memᴰ c (clients_of (relay_join st id player_id from) id)
        × IsEntry player_id from c
  relay_join-joins room =
      subst (λ out. (c : RelayClient) × Memᴰ c (clients_of out id) × IsEntry player_id from c)
        (sym join-is) (by_found found found-IsUpdated found-is room)
    where
      Joins : List RelayClient → Type 0
      Joins clients = (c : RelayClient) × Memᴰ c clients × IsEntry player_id from c

      by_made :
          (m : Option (List RelaySession))
          → IsUpdated is_free (opened id player_id from) st m
          → Made id player_id from st m
          → (s : RelaySession) × Memᴰ s st × (s.in_use ≡ false)
          → Joins (clients_of (or_else m st) id)
      by_made none full h (s, there, free) = absurd (ground (arith, full s there))
      by_made (some out) u (new, others) s =
          subst Joins (sym new)
            (join_clients-joins player_id from no_clients _ (Memᴰ.head refl) (inl refl))

      by_found :
          (f : Option (List RelaySession))
          → IsUpdated (is_session id) (with_client player_id from) st f
          → Found id player_id from st f
          → HasRoom
          → Joins (clients_of (or_else f (or_else made st)) id)
      by_found none absent gone (inl (x, m, way)) = absurd (Memᴰ.not-nil (subst (Memᴰ x) gone m))
      by_found none absent gone (inr (no_session, free)) =
          by_made made made-IsUpdated (made-Made absent) free
      by_found (some out) u (changed, others) (inl (x, m, way)) =
          subst Joins (sym changed) (join_clients-joins player_id from (clients_of st id) x m way)
      by_found (some out) ((s, there, is, new), keeps) f (inr (no_session, free)) =
          absurd (cc (is, no_session s there))
