-- ===== src/Relay/Members.antt =====
-- Who is a member of a session, and who gets its packets.
use residual_engine_audio.Base.{
  ℕ, suc, ◌+◌, ◌≤◌, ◌≡◌, ◌∙◌, refl, ap, arith, Bool, true, false, Option, some, none, List, [], ◌∷◌,
  if◌then◌else◌, not, All, Bool-cases, Option-cases, inl, inr,
}
use residual_engine_audio.Relay.{
  SockAddr, RelayClient, RelaySession, addr_equal, update_first, or_else, is_player, is_from,
  is_session, join_clients, forward_to, forward_voice,
}

forward_to-All :
    (from : SockAddr) (clients : List RelayClient)
    → All (λ a. addr_equal a from ≡ false) (forward_to from clients)
unfolding forward_to
forward_to-All from [] = tt
forward_to-All from (c ∷ clients) = elim (Bool-cases c.in_use) [
  | inr e ↦ rw e (forward_to-All from clients)
  | inl e ↦ elim (Bool-cases (addr_equal c.addr from)) [
    | inl same ↦ rw (e, same) (forward_to-All from clients)
    | inr other ↦ rw (e, other) (other, forward_to-All from clients)
  ]
]

-- A forwarded packet is never sent back to the address that it came from.
pub forward_voice-no_echo :
    (st : List RelaySession) (session_id : ℕ) (from : SockAddr)
    → All (λ a. addr_equal a from ≡ false) (forward_voice st session_id from)
unfolding forward_voice
forward_voice-no_echo [] session_id from = tt
forward_voice-no_echo (s ∷ st) session_id from = elim (Bool-cases (is_session session_id s)) [
  | inl e ↦ rw e (forward_to-All from s.clients)
  | inr e ↦ rw e (forward_voice-no_echo st session_id from)
]

abbrev one_if : Bool → ℕ
one_if b = if b then 1 else 0

module _ {A : Type 0} where
  -- How many entries pass the test.
  unfoldable pub count_if : (A → Bool) → List A → ℕ
  count_if g [] = 0
  count_if g (x ∷ xs) = let rest = count_if g xs in if g x then suc rest else rest

  count-cons :
      (g : A → Bool) (x : A) (xs : List A) → count_if g (x ∷ xs) ≡ one_if (g x) + count_if g xs
  unfolding count_if
  count-cons g x xs = ground arith

  -- A change of one entry changes the counts by what it does to that entry.
  pub count-update_first :
      (p : A → Bool) (f : A → A) (g : A → Bool) (xs out : List A)
      → update_first p f xs ≡ some out
      → (c : A) × (p c ≡ true) × (count_if g out + one_if (g c) ≡ count_if g xs + one_if (g (f c)))
  unfolding update_first
  count-update_first p f g [] out e = cc
  count-update_first p f g (c ∷ xs) out e = elim (Bool-cases (p c)) [
    | inl hit ↦
        let is : out ≡ f c ∷ xs = ground arith in
        (c, hit, rw is (omega (arith, count-cons g (f c) xs, count-cons g c xs)))
    | inr miss ↦ elim (Option-cases (update_first p f xs)) [
      | inl absent ↦ absurd (ground arith)
      | inr (rest, found) ↦
          let is : out ≡ c ∷ rest = ground arith in
          let (d, hit, same) = count-update_first p f g xs rest found in
          (d, hit, rw is (omega (arith, same, count-cons g c rest, count-cons g c xs)))
    ]
  ]

  -- A search that finds no entry: there is none.
  pub count-none :
      (g : A → Bool) (f : A → A) (xs : List A) → update_first g f xs ≡ none → count_if g xs ≡ 0
  unfolding update_first count_if
  count-none g f [] e = refl
  count-none g f (c ∷ xs) e = elim (Option-cases (update_first g f xs)) [
    | inl absent ↦ ground (arith, count-none g f xs absent)
    | inr (rest, found) ↦ absurd (ground arith)
  ]

  -- Every number passes the test of at most one entry.
  abbrev pub AtMostOne : (ℕ → A → Bool) → List A → Type 0
  AtMostOne g xs = (q : ℕ) → count_if (g q) xs ≤ 1

  -- A new or changed entry of a number that has none leaves every number with at most one.
  pub AtMostOne-new :
      (g : ℕ → A → Bool) (n : ℕ) (p : A → Bool) (f : A → A) (xs out : List A)
      → ((q : ℕ) (c : A) → g q (f c) ≡ true → q ≡ n)
      → count_if (g n) xs ≡ 0
      → AtMostOne g xs
      → update_first p f xs ≡ some out
      → AtMostOne g out
  AtMostOne-new g n p f xs out new absent one e q =
      let (c, hit, same) = count-update_first p f (g q) xs out e in
      elim (Bool-cases (g q (f c))) [
        | inl mine ↦
            let is : q ≡ n = new q c mine in
            let none_yet : count_if (g q) xs ≡ 0 = ap (λ k. count_if (g k) xs) is ∙ absent in
            ground (arith, same, none_yet)
        | inr other ↦ ground (arith, same, one q)
      ]

-- No player has two entries.
abbrev pub IsUnique : List RelayClient → Type 0
IsUnique clients = AtMostOne is_player clients

-- The three loops, with what each finds.
join_clients-cases :
    (player_id : ℕ) (from : SockAddr) (clients : List RelayClient)
    (moved restarted inserted : Option (List RelayClient))
    → update_first (is_player player_id) (λ c. record c { addr = from }) clients ≡ moved
    → update_first (is_from from) (λ c. record c { player_id = player_id }) clients ≡ restarted
    → update_first
        (λ c. not c.in_use)
        (λ c. record { in_use = true; player_id = player_id; addr = from })
        clients
      ≡ inserted
    → join_clients player_id from clients
      ≡ or_else moved (or_else restarted (or_else inserted clients))
unfolding join_clients
join_clients-cases player_id from clients moved restarted inserted m r i = rw (m, r, i) refl

-- A join leaves every player of a session with at most one entry, whether it moves an entry to a
-- new address, renames one, takes a free one, or finds no room.
pub join_clients-IsUnique :
    (player_id : ℕ) (from : SockAddr) (clients : List RelayClient)
    → IsUnique clients
    → IsUnique (join_clients player_id from clients)
join_clients-IsUnique player_id from clients one =
    rw (join_clients-cases player_id from clients _ _ _ refl refl refl)
      (by_cases _ _ _ refl refl refl)
  where
    by_cases :
        (moved restarted inserted : Option (List RelayClient))
        → update_first (is_player player_id) (λ c. record c { addr = from }) clients ≡ moved
        → update_first (is_from from) (λ c. record c { player_id = player_id }) clients ≡ restarted
        → update_first
            (λ c. not c.in_use)
            (λ c. record { in_use = true; player_id = player_id; addr = from })
            clients
          ≡ inserted
        → IsUnique (or_else moved (or_else restarted (or_else inserted clients)))
    by_cases (some out) restarted inserted m r i = λ q.
        let (c, hit, same) = count-update_first _ _ (is_player q) clients out m in
        omega (arith, same, one q)
    by_cases none (some out) inserted m r i =
        AtMostOne-new is_player player_id _ _ clients out (λ q c e. ground arith)
          (count-none (is_player player_id) _ clients m) one r
    by_cases none none (some out) m r i =
        AtMostOne-new is_player player_id _ _ clients out (λ q c e. ground arith)
          (count-none (is_player player_id) _ clients m) one i
    by_cases none none none m r i = one
