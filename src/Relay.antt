-- ===== src/Relay.antt =====
-- The relay's table of sessions: src/rv_relay.h and src/rv_relay.c. The array of a session's
-- clients is a list, and a loop that changes the first entry of a kind is `update_first`.
pub mod Members
pub mod Updates
pub mod Sessions
pub mod Forward
pub mod Table
pub mod Joining
mod Examples
use residual_engine_audio.Base.{
  ℕ, zero, suc, Bool, true, false, ◌&&◌, Option, some, none, List, [], ◌∷◌, ◌==◌, if◌then◌else◌,
  not, replicate, take,
}

abbrev pub max_sessions : ℕ
max_sessions = 64

abbrev pub max_clients : ℕ
max_clients = 16

abbrev pub ipv4 : ℕ
ipv4 = 4

-- `rv_sockaddr_t`; `ip` is the 16 bytes of the union.
pub record SockAddr : Type 0 where
  pub ver : ℕ
  pub port : ℕ
  pub ip : List ℕ

pub record RelayClient : Type 0 where
  pub in_use : Bool
  pub player_id : ℕ
  pub addr : SockAddr

pub record RelaySession : Type 0 where
  pub in_use : Bool
  pub session_id : ℕ
  pub clients : List RelayClient

abbrev pub zero_client : RelayClient
zero_client = record {
  in_use = false;
  player_id = 0;
  addr = record { ver = 0; port = 0; ip = replicate 16 0 };
}

abbrev pub no_clients : List RelayClient
no_clients = replicate max_clients zero_client

-- `memcmp(a, b, n) == 0`
abbrev pub same_bytes : List ℕ → List ℕ → Bool
same_bytes [] [] = true
same_bytes [] (b ∷ bs) = false
same_bytes (a ∷ as') [] = false
same_bytes (a ∷ as') (b ∷ bs) = a == b && same_bytes as' bs

abbrev pub addr_equal : SockAddr → SockAddr → Bool
addr_equal a b =
    if not (a.ver == b.ver)
    then false
    else if not (a.port == b.port)
    then false
    else if a.ver == ipv4
    then same_bytes (take 4 a.ip) (take 4 b.ip)
    else same_bytes (take 16 a.ip) (take 16 b.ip)

module _ {A : Type 0} where
  abbrev pub cons_some : A → Option (List A) → Option (List A)
  cons_some x none = none
  cons_some x (some xs) = some (x ∷ xs)

  -- The first entry that `p` accepts is changed; `none` if there is none.
  unfoldable pub update_first : (A → Bool) → (A → A) → List A → Option (List A)
  update_first p f [] = none
  update_first p f (x ∷ xs) =
      let rest = cons_some x (update_first p f xs) in if p x then some (f x ∷ xs) else rest

  -- What was found and changed, or else what comes next.
  abbrev pub or_else : Option (List A) → List A → List A
  or_else none xs = xs
  or_else (some ys) xs = ys

abbrev pub is_player : ℕ → RelayClient → Bool
is_player player_id c = c.in_use && c.player_id == player_id

abbrev pub is_from : SockAddr → RelayClient → Bool
is_from from c = c.in_use && addr_equal c.addr from

-- The three loops of `rv_relay_join` over the clients.
unfoldable pub join_clients : ℕ → SockAddr → List RelayClient → List RelayClient
unfolding update_first
join_clients player_id from clients =
    let inserted =
      or_else
        (update_first (λ c. not c.in_use)
          (λ c. record { in_use = true; player_id = player_id; addr = from }) clients)
        clients in
    let restarted =
      or_else (update_first (is_from from) (λ c. record c { player_id = player_id }) clients)
        inserted in
    or_else (update_first (is_player player_id) (λ c. record c { addr = from }) clients) restarted

abbrev pub is_session : ℕ → RelaySession → Bool
is_session session_id s = s.in_use && s.session_id == session_id

-- `rv_relay_init`
abbrev pub relay_init : List RelaySession
relay_init =
    replicate max_sessions (record { in_use = false; session_id = 0; clients = no_clients })

-- The session is found, or made in the first free entry; with neither, nothing changes.
unfoldable pub relay_join : List RelaySession → ℕ → ℕ → SockAddr → List RelaySession
unfolding update_first join_clients
relay_join st session_id player_id from =
    let created =
      or_else
        (update_first (λ s. not s.in_use)
          (λ s. record {
            in_use = true;
            session_id = session_id;
            clients = join_clients player_id from no_clients;
          })
          st)
        st in
    or_else
      (update_first (is_session session_id)
        (λ s. record s { clients = join_clients player_id from s.clients }) st)
      created

-- The addresses to which `send_fn` is called with the packet, in order.
unfoldable pub forward_to : SockAddr → List RelayClient → List SockAddr
forward_to from [] = []
forward_to from (c ∷ clients) =
    let rest = forward_to from clients in
    if not c.in_use then rest else if addr_equal c.addr from then rest else c.addr ∷ rest

unfoldable pub forward_voice : List RelaySession → ℕ → SockAddr → List SockAddr
unfolding forward_to
forward_voice [] session_id from = []
forward_voice (s ∷ st) session_id from =
    let rest = forward_voice st session_id from in
    if is_session session_id s then forward_to from s.clients else rest
