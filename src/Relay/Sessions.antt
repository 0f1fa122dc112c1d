-- ===== src/Relay/Sessions.antt =====
-- The entries of a session, who joins them, and who gets its packets.
use mathlib.Core.List.{Memᴰ}
use mathlib.Core.List.Memᴰ
use mathlib.Core.Path.{subst}
use residual_engine_audio.Base.{
  ℕ, ◌≡◌, ◌≢◌, ◌⊎◌, refl, ap, sym, ◌∙◌, arith, Bool, true, false, Option, some, none, List, [], ◌∷◌,
  ◌==◌, ==_refl, if◌then◌else◌, not, take, Bool-cases, inl, inr,
}
use residual_engine_audio.Relay.{
  SockAddr, RelayClient, addr_equal, same_bytes, cons_some, update_first, or_else, is_player,
  is_from, join_clients,
}

pub same_bytes_refl : (bs : List ℕ) → same_bytes bs bs ≡ true
same_bytes_refl [] = refl
same_bytes_refl (b ∷ bs) = rw (==_refl b) (same_bytes_refl bs)

pub addr_equal_refl : (a : SockAddr) → addr_equal a a ≡ true
addr_equal_refl a =
    rw
      (==_refl a.ver, ==_refl a.port, same_bytes_refl (take 4 a.ip), same_bytes_refl (take 16 a.ip))
      (by_version (a.ver == 4))
  where
    by_version : (b : Bool) → (if b then true else true) ≡ true
    by_version true = refl
    by_version false = refl

module _ {A : Type 0} where
  -- A search that finds the first entry at once, and one that goes on.
  pub update_first-hit :
      (p : A → Bool) (f : A → A) (y : A) (xs : List A)
      → p y ≡ true
      → update_first p f (y ∷ xs) ≡ some (f y ∷ xs)
  unfolding update_first
  update_first-hit p f y xs e = rw e refl

  pub update_first-miss :
      (p : A → Bool) (f : A → A) (y : A) (xs : List A)
      → p y ≡ false
      → update_first p f (y ∷ xs) ≡ cons_some y (update_first p f xs)
  unfolding update_first
  update_first-miss p f y xs e = rw e refl

  -- What a change of the first entry of a kind does: it fails if no entry is of the kind; else
  -- one entry of the kind is changed, and the others are kept.
  abbrev pub IsUpdated : (A → Bool) → (A → A) → List A → Option (List A) → Type 0
  IsUpdated p f xs none = (x : A) → Memᴰ x xs → p x ≡ false
  IsUpdated p f xs (some out) =
      ((x : A) × Memᴰ x xs × (p x ≡ true) × Memᴰ (f x) out)
      × ((x : A) → Memᴰ x xs → p x ≡ false → Memᴰ x out)

  cons-IsUpdated :
      (p : A → Bool) (f : A → A) (y : A) (xs : List A) (o : Option (List A))
      → p y ≡ false
      → IsUpdated p f xs o
      → IsUpdated p f (y ∷ xs) (cons_some y o)
  cons-IsUpdated p f y xs none e h =
      λ x m. elim (Memᴰ.cases_cons m) [ inl is ↦ ap p is ∙ e | inr m' ↦ h x m' ]
  cons-IsUpdated p f y xs (some out) e h =
      let ((x, old, hit, new), keeps) = h in
      (
        (x, Memᴰ.tail old, hit, Memᴰ.tail new),
        λ x m other. elim (Memᴰ.cases_cons m) [
          | inl is ↦ Memᴰ.head is
          | inr m' ↦ Memᴰ.tail (keeps x m' other)
        ],
      )

  pub update_first-IsUpdated :
      (p : A → Bool) (f : A → A) (xs : List A) → IsUpdated p f xs (update_first p f xs)
  unfolding update_first
  update_first-IsUpdated p f [] = λ x m. absurd (Memᴰ.not-nil m)
  update_first-IsUpdated p f (y ∷ xs) = elim (Bool-cases (p y)) [
    | inl e ↦ subst (IsUpdated p f (y ∷ xs)) (sym (update_first-hit p f y xs e)) (
      (y, Memᴰ.head refl, e, Memᴰ.head refl),
      λ x m other. elim (Memᴰ.cases_cons m) [
        | inl is ↦ absurd (cc (ap p is, e, other))
        | inr m' ↦ Memᴰ.tail m'
      ],
    )
    | inr e ↦
        subst (IsUpdated p f (y ∷ xs)) (sym (update_first-miss p f y xs e))
          (cons-IsUpdated p f y xs (update_first p f xs) e (update_first-IsUpdated p f xs))
  ]

-- A free entry, which a join fills.
abbrev is_free : RelayClient → Bool
is_free c = not c.in_use

abbrev moved_to : SockAddr → RelayClient → RelayClient
moved_to from c = record c { addr = from }

abbrev renamed : ℕ → RelayClient → RelayClient
renamed player_id c = record c { player_id = player_id }

abbrev filled : ℕ → SockAddr → RelayClient → RelayClient
filled player_id from c = record { in_use = true; player_id = player_id; addr = from }

-- The entry is a player's, at an address.
abbrev pub IsEntry : ℕ → SockAddr → RelayClient → Type 0
IsEntry player_id from c =
    (c.in_use ≡ true) × (c.player_id ≡ player_id) × (addr_equal c.addr from ≡ true)

-- What is in the session after one of the three changes.
abbrev Joined : ℕ → SockAddr → List RelayClient → Type 0
Joined player_id from out = (c : RelayClient) × Memᴰ c out × IsEntry player_id from c

-- A join finds or makes an entry of the player at the address, if one of the entries is the
-- player's, is at the address, or is free.
pub join_clients-joins :
    (player_id : ℕ) (from : SockAddr) (clients : List RelayClient) (x : RelayClient)
    → Memᴰ x clients
    → (x.in_use ≡ false) ⊎ (x.player_id ≡ player_id) ⊎ (addr_equal x.addr from ≡ true)
    → (c : RelayClient) × Memᴰ c (join_clients player_id from clients) × IsEntry player_id from c
unfolding join_clients
join_clients-joins player_id from clients x m some_way =
    by_cases (update_first (is_player player_id) (moved_to from) clients)
      (update_first (is_from from) (renamed player_id) clients)
      (update_first is_free (filled player_id from) clients)
      (update_first-IsUpdated (is_player player_id) (moved_to from) clients)
      (update_first-IsUpdated (is_from from) (renamed player_id) clients)
      (update_first-IsUpdated is_free (filled player_id from) clients)
  where
    by_cases :
        (moved restarted inserted : Option (List RelayClient))
        → IsUpdated (is_player player_id) (moved_to from) clients moved
        → IsUpdated (is_from from) (renamed player_id) clients restarted
        → IsUpdated is_free (filled player_id from) clients inserted
        → Joined player_id from (or_else moved (or_else restarted (or_else inserted clients)))
    by_cases (some out) restarted inserted ((c, old, hit, new), keeps) r i =
        (moved_to from c, new, (ground arith, ground arith, addr_equal_refl from))
    by_cases none (some out) inserted p ((c, old, hit, new), keeps) i =
        (renamed player_id c, new, (ground arith, refl, ground arith))
    by_cases none none (some out) p r ((c, old, hit, new), keeps) =
        (filled player_id from c, new, (refl, refl, addr_equal_refl from))
    by_cases none none none p r i = absurd (elim some_way [
      | inl free ↦ ground (arith, i x m)
      | inr (inl mine) ↦ ground (arith, i x m, p x m, ==_refl player_id)
      | inr (inr there) ↦ ground (arith, i x m, r x m)
    ])

-- A join keeps the entries of the other players at other addresses.
pub join_clients-keeps :
    (player_id : ℕ) (from : SockAddr) (clients : List RelayClient) (x : RelayClient)
    → Memᴰ x clients
    → x.in_use ≡ true
    → x.player_id ≢ player_id
    → addr_equal x.addr from ≡ false
    → Memᴰ x (join_clients player_id from clients)
unfolding join_clients
join_clients-keeps player_id from clients x m used other apart =
    by_cases (update_first (is_player player_id) (moved_to from) clients)
      (update_first (is_from from) (renamed player_id) clients)
      (update_first is_free (filled player_id from) clients)
      (update_first-IsUpdated (is_player player_id) (moved_to from) clients)
      (update_first-IsUpdated (is_from from) (renamed player_id) clients)
      (update_first-IsUpdated is_free (filled player_id from) clients)
  where
    by_cases :
        (moved restarted inserted : Option (List RelayClient))
        → IsUpdated (is_player player_id) (moved_to from) clients moved
        → IsUpdated (is_from from) (renamed player_id) clients restarted
        → IsUpdated is_free (filled player_id from) clients inserted
        → Memᴰ x (or_else moved (or_else restarted (or_else inserted clients)))
    by_cases (some out) restarted inserted (new, keeps) r i = keeps x m (ground arith)
    by_cases none (some out) inserted p (new, keeps) i = keeps x m (ground arith)
    by_cases none none (some out) p r (new, keeps) = keeps x m (ground arith)
    by_cases none none none p r i = m
