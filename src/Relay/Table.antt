-- ===== src/Relay/Table.antt =====
-- What a join does to the table of sessions.
use mathlib.Core.List.{Memᴰ}
use mathlib.Core.Path.{subst}
use residual_engine_audio.Base.{
  ℕ, ◌≡◌, ◌≢◌, refl, ap, sym, ◌∙◌, arith, Bool, true, false, Option, some, none, List, [], ◌∷◌,
  ◌==◌, ==_iff, ==_ne, ==_refl, not, Bool-cases, inl, inr,
}
use residual_engine_audio.Relay.{
  SockAddr, RelaySession, cons_some, update_first, is_session, join_clients, no_clients,
}
use residual_engine_audio.Relay.Sessions.{update_first-hit, update_first-miss}
use residual_engine_audio.Relay.Forward.{clients_of}

abbrev pub is_free : RelaySession → Bool
is_free s = not s.in_use

-- The session with a client joined, and a new one for it.
abbrev pub with_client : ℕ → SockAddr → RelaySession → RelaySession
with_client player_id from s = record s { clients = join_clients player_id from s.clients }

abbrev pub opened : ℕ → ℕ → SockAddr → RelaySession → RelaySession
opened session_id player_id from s = record {
  in_use = true;
  session_id = session_id;
  clients = join_clients player_id from no_clients;
}

clients_of-hit :
    (s : RelaySession) (st : List RelaySession) (id : ℕ)
    → is_session id s ≡ true
    → clients_of (s ∷ st) id ≡ s.clients
unfolding clients_of
clients_of-hit s st id e = rw e refl

clients_of-miss :
    (s : RelaySession) (st : List RelaySession) (id : ℕ)
    → is_session id s ≡ false
    → clients_of (s ∷ st) id ≡ clients_of st id
unfolding clients_of
clients_of-miss s st id e = rw e refl

-- The clients of every session, after a change of the first session with the number.
abbrev pub HasClients : ℕ → ℕ → SockAddr → List RelaySession → List RelaySession → Type 0
HasClients id player_id from st out =
    (clients_of out id ≡ join_clients player_id from (clients_of st id))
    × ((k : ℕ) → k ≢ id → clients_of out k ≡ clients_of st k)

-- Two tables that begin with the same session.
cons-HasClients :
    (id player_id : ℕ) (from : SockAddr) (s : RelaySession) (st out : List RelaySession)
    → is_session id s ≡ false
    → HasClients id player_id from st out
    → HasClients id player_id from (s ∷ st) (s ∷ out)
cons-HasClients id player_id from s st out e (same, others) = (
  clients_of-miss s out id e
      ∙ same
      ∙ ap (join_clients player_id from) (sym (clients_of-miss s st id e)),
  λ k ne. elim (Bool-cases (is_session k s)) [
    | inl t ↦ clients_of-hit s out k t ∙ sym (clients_of-hit s st k t)
    | inr f ↦ clients_of-miss s out k f ∙ others k ne ∙ sym (clients_of-miss s st k f)
  ],
)

other_session :
    (id k : ℕ) (s : RelaySession) → is_session id s ≡ true → k ≢ id → is_session k s ≡ false
other_session id k s t ne =
    let e : (s.session_id == id) ≡ true = ground arith in
    let is : s.session_id ≡ id = (==_iff s.session_id id).0 e in
    let other : (s.session_id == k) ≡ false = ==_ne s.session_id k (λ same. ne (sym same ∙ is)) in
    ground arith

-- Whether a session is there, and what a join makes of it.
abbrev pub Found : ℕ → ℕ → SockAddr → List RelaySession → Option (List RelaySession) → Type 0
Found id player_id from st none = clients_of st id ≡ []
Found id player_id from st (some out) = HasClients id player_id from st out

cons-Found :
    (id player_id : ℕ) (from : SockAddr) (s : RelaySession) (st : List RelaySession)
    (o : Option (List RelaySession))
    → is_session id s ≡ false
    → Found id player_id from st o
    → Found id player_id from (s ∷ st) (cons_some s o)
cons-Found id player_id from s st none e h = clients_of-miss s st id e ∙ h
cons-Found id player_id from s st (some out) e h = cons-HasClients id player_id from s st out e h

pub find-Found :
    (id player_id : ℕ) (from : SockAddr) (st : List RelaySession)
    → Found id player_id from st (update_first (is_session id) (with_client player_id from) st)
unfolding update_first clients_of
find-Found id player_id from [] = refl
find-Found id player_id from (s ∷ st) =
    let f = with_client player_id from in
    elim (Bool-cases (is_session id s)) [
      | inl t ↦
          subst (Found id player_id from (s ∷ st)) (sym (update_first-hit (is_session id) f s st t))
            (
              clients_of-hit (f s) st id t
                  ∙ ap (join_clients player_id from) (sym (clients_of-hit s st id t)),
              λ k ne.
                  let miss = other_session id k s t ne in
                  clients_of-miss (f s) st k miss ∙ sym (clients_of-miss s st k miss),
            )
      | inr e ↦
          subst (Found id player_id from (s ∷ st))
            (sym (update_first-miss (is_session id) f s st e))
            (cons-Found id player_id from s st (update_first (is_session id) f st) e
              (find-Found id player_id from st))
    ]

-- Whether there is room for a session, and what is there once it is made.
abbrev pub Made : ℕ → ℕ → SockAddr → List RelaySession → Option (List RelaySession) → Type 0
Made id player_id from st none = Unit
Made id player_id from st (some out) =
    (clients_of out id ≡ join_clients player_id from no_clients)
    × ((k : ℕ) → k ≢ id → clients_of out k ≡ clients_of st k)

cons-Made :
    (id player_id : ℕ) (from : SockAddr) (s : RelaySession) (st : List RelaySession)
    (o : Option (List RelaySession))
    → is_session id s ≡ false
    → Made id player_id from st o
    → Made id player_id from (s ∷ st) (cons_some s o)
cons-Made id player_id from s st none e h = tt
cons-Made id player_id from s st (some out) e (made, others) = (
  clients_of-miss s out id e ∙ made,
  λ k ne. elim (Bool-cases (is_session k s)) [
    | inl t ↦ clients_of-hit s out k t ∙ sym (clients_of-hit s st k t)
    | inr f ↦ clients_of-miss s out k f ∙ others k ne ∙ sym (clients_of-miss s st k f)
  ],
)

pub make-Made :
    (id player_id : ℕ) (from : SockAddr) (st : List RelaySession)
    → ((s : RelaySession) → Memᴰ s st → is_session id s ≡ false)
    → Made id player_id from st (update_first is_free (opened id player_id from) st)
unfolding update_first
make-Made id player_id from [] absent = tt
make-Made id player_id from (s ∷ st) absent =
    let f = opened id player_id from in
    elim (Bool-cases (is_free s)) [
      | inl t ↦ subst (Made id player_id from (s ∷ st)) (sym (update_first-hit is_free f s st t)) (
        clients_of-hit (f s) st id (==_refl id),
        λ k ne.
            let free : is_session k s ≡ false = ground arith in
            clients_of-miss (f s) st k (==_ne id k (λ same. ne (sym same)))
            ∙ sym (clients_of-miss s st k free),
      )
      | inr e ↦ subst (Made id player_id from (s ∷ st)) (sym (update_first-miss is_free f s st e)) (
          cons-Made id player_id from s st (update_first is_free f st) (absent s (Memᴰ.head refl))
            (make-Made id player_id from st (λ r m. absent r (Memᴰ.tail m))))
    ]
