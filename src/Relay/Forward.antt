-- ===== src/Relay/Forward.antt =====
-- The sessions of the table, and who gets the packets of one.
use mathlib.Core.List.{Memᴰ}
use mathlib.Core.List.Memᴰ
use mathlib.Core.Path.{subst}
use residual_engine_audio.Base.{
  ℕ, ◌≡◌, refl, ap, sym, arith, Bool, true, false, List, [], ◌∷◌, if◌then◌else◌, if_cases, if_both,
  ◌↔◌, ◌&&◌, not, Bool-cases, inl, inr,
}
use residual_engine_audio.Relay.{
  SockAddr, RelayClient, RelaySession, addr_equal, is_session, forward_to, forward_voice,
}

forward_to-cons :
    (from : SockAddr) (c : RelayClient) (clients : List RelayClient)
    → forward_to from (c ∷ clients) ≡ (
        if c.in_use && not (addr_equal c.addr from)
        then c.addr ∷ forward_to from clients
        else forward_to from clients)
unfolding forward_to
forward_to-cons from c clients = by_tests c.in_use (addr_equal c.addr from)
  where
    by_tests :
        (used same : Bool)
        → (if not used
            then forward_to from clients
            else if same
            then forward_to from clients
            else c.addr ∷ forward_to from clients)
          ≡ (if used && not same then c.addr ∷ forward_to from clients else forward_to from clients)
    by_tests true true = refl
    by_tests true false = refl
    by_tests false same = refl

-- The entries that get a packet: those in use, at another address than it came from.
abbrev pub Gets : SockAddr → RelayClient → Type 0
Gets from c = (c.in_use ≡ true) × (addr_equal c.addr from ≡ false)

pub forward_to-reaches :
    (from : SockAddr) (clients : List RelayClient) (c : RelayClient)
    → Memᴰ c clients
    → Gets from c
    → Memᴰ c.addr (forward_to from clients)
forward_to-reaches from [] c m gets = absurd (Memᴰ.not-nil m)
forward_to-reaches from (d ∷ clients) c m (used, apart) =
    subst (Memᴰ c.addr) (sym (forward_to-cons from d clients)) (elim (Memᴰ.cases_cons m) [
      | inl is ↦
          if_cases (Memᴰ c.addr) (d.in_use && not (addr_equal d.addr from))
            (λ t. Memᴰ.head (ap (λ e. e.addr) is))
            (λ f.
              absurd (ground (arith, ap (λ e. e.in_use) is, ap (λ e. addr_equal e.addr from) is)))
      | inr m' ↦
          let rest = forward_to-reaches from clients c m' (used, apart) in
          if_both (Memᴰ c.addr) (d.in_use && not (addr_equal d.addr from)) (Memᴰ.tail rest) rest
    ])

-- The test of the loop.
tests→Gets :
    (from : SockAddr) (d : RelayClient)
    → d.in_use && not (addr_equal d.addr from) ≡ true
    → Gets from d
tests→Gets from d t = by_tests d.in_use (addr_equal d.addr from) t
  where
    by_tests : (used same : Bool) → used && not same ≡ true → (used ≡ true) × (same ≡ false)
    by_tests true true t = absurd (cc t)
    by_tests true false t = (refl, refl)
    by_tests false same t = absurd (cc t)

pub forward_to-only :
    (from : SockAddr) (clients : List RelayClient) (a : SockAddr)
    → Memᴰ a (forward_to from clients)
    → (c : RelayClient) × Memᴰ c clients × (c.addr ≡ a) × Gets from c
unfolding forward_to
forward_to-only from [] a m = absurd (Memᴰ.not-nil m)
forward_to-only from (d ∷ clients) a m =
    if_cases (λ l. Memᴰ a l → (c : RelayClient) × Memᴰ c (d ∷ clients) × (c.addr ≡ a) × Gets from c)
      (d.in_use && not (addr_equal d.addr from))
      (λ t m. elim (Memᴰ.cases_cons m) [
        | inl is ↦ (d, Memᴰ.head refl, sym is, tests→Gets from d t)
        | inr m' ↦ later (forward_to-only from clients a m')
      ])
      (λ f m. later (forward_to-only from clients a m))
      (subst (Memᴰ a) (forward_to-cons from d clients) m)
  where
    later :
        ((c : RelayClient) × Memᴰ c clients × (c.addr ≡ a) × Gets from c)
        → (c : RelayClient) × Memᴰ c (d ∷ clients) × (c.addr ≡ a) × Gets from c
    later (c, in_rest, is, gets) = (c, Memᴰ.tail in_rest, is, gets)

-- The clients of a session: those of its first entry, none if there is none.
unfoldable pub clients_of : List RelaySession → ℕ → List RelayClient
clients_of [] session_id = []
clients_of (s ∷ st) session_id =
    let rest = clients_of st session_id in if is_session session_id s then s.clients else rest

pub forward_voice-clients :
    (st : List RelaySession) (session_id : ℕ) (from : SockAddr)
    → forward_voice st session_id from ≡ forward_to from (clients_of st session_id)
unfolding forward_voice clients_of forward_to
forward_voice-clients [] session_id from = refl
forward_voice-clients (s ∷ st) session_id from = elim (Bool-cases (is_session session_id s)) [
  | inl e ↦ rw e refl
  | inr e ↦ rw e (forward_voice-clients st session_id from)
]

-- A packet of a session goes to an address exactly if some client of the session, in use, is at
-- it, and it is another address than the packet came from.
pub forward_voice_iff :
    (st : List RelaySession) (session_id : ℕ) (from a : SockAddr)
    → Memᴰ a (forward_voice st session_id from)
      ↔ ((c : RelayClient) × Memᴰ c (clients_of st session_id) × (c.addr ≡ a) × Gets from c)
forward_voice_iff st session_id from a = (
  λ m.
      forward_to-only from (clients_of st session_id) a
        (subst (Memᴰ a) (forward_voice-clients st session_id from) m),
  λ (c, m, is, gets).
      subst (Memᴰ a) (sym (forward_voice-clients st session_id from))
        (Memᴰ.cast (sym is) (forward_to-reaches from (clients_of st session_id) c m gets)),
)
