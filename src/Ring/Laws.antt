-- ===== src/Ring/Laws.antt =====
-- A ring as the list of what it holds, oldest first, through any number of counter wraps.
use native.Mathlib.Nat.{mod-lt}
use residual_engine_audio.Base.{
  ℕ, zero, suc, ◌+◌, ◌-◌, ◌%◌, ◌^◌, ◌≤◌, ◌<◌, ◌≡◌, ◌≢◌, refl, ap, ap₂, ◌∙◌, ◌↔◌, List, [], ◌∷◌,
  ◌++◌, arith, true, false, leb, leb→le, lt→ltb, le→ltb, length, get_or, set, u32, sub32,
  length-set, length-replicate, get_or-set_self, get_or-set_ne,
}
use residual_engine_audio.Queue
use residual_engine_audio.Ring.{Ring, is_empty, RingSize, init, store, front, advance, count}

module _ {ℓ} {A : Type ℓ} (cap : ℕ) (d : A) where
  -- The `n` slots from counter `r` on.
  unfoldable pub window : List A → ℕ → ℕ → List A
  window slots r zero = []
  window slots r (suc n) = get_or slots (r % cap) d ∷ window slots (u32 (r + 1)) n

  unfoldable pub contents : Ring A → List A
  unfolding window
  contents q = window q.slots q.r (count q)

  pub length-window : (slots : List A) (r n : ℕ) → length (window slots r n) ≡ n
  unfolding window
  length-window slots r zero = refl
  length-window slots r (suc n) = ap suc (length-window slots (u32 (r + 1)) n)

  pub length-contents : (q : Ring A) → length (contents q) ≡ count q
  unfolding contents
  length-contents q = length-window q.slots q.r (count q)

  window_of_ne_zero :
      (slots : List A) (r n : ℕ)
      → n ≢ 0
      → window slots r n ≡ get_or slots (r % cap) d ∷ window slots (u32 (r + 1)) (n - 1)
  unfolding window
  window_of_ne_zero slots r zero p = absurd (p refl)
  window_of_ne_zero slots r (suc n) p =
      ap (λ k. get_or slots (r % cap) d ∷ window slots (u32 (r + 1)) k) (omega arith)

  -- A write just past a window extends it.
  window-set :
      (size : RingSize cap) (slots : List A) (x : A) (r n i : ℕ)
      → length slots ≡ cap
      → n < cap
      → i ≡ u32 (r + n) % cap
      → r < 2 ^ 32
      → window (set slots i x) r (suc n) ≡ window slots r n ++ (x ∷ [])
  unfolding window
  window-set size slots x r zero i l h e small =
      let at_front : i ≡ r % cap = e ∙ ap (λ k. k % cap) (omega arith) in
      let inside : r % cap < length slots =
        omega (arith, size.positive, mod-lt r {m = cap} size.positive) in
      rw at_front (rw (get_or-set_self slots (r % cap) x d inside))
  window-set size slots x r (suc n) i l h e small =
      ap₂ ◌∷◌ (get_or-set_ne slots i (r % cap) x d (rw e (size.distinct r (suc n) (omega arith) h)))
        (window-set size slots x (u32 (r + 1)) n i l (omega arith)
          (e ∙ ap (λ k. k % cap) (omega arith)) (omega arith))

  -- The representation invariant.
  pub record IsValid (q : Ring A) : Type ℓ where
    pub sized : length q.slots ≡ cap
    pub r_fits : q.r < 2 ^ 32
    pub w_fits : q.w < 2 ^ 32
    pub bounded : count q ≤ cap

  pub init-IsValid : IsValid (init cap d)
  unfolding init
  init-IsValid = record {
    sized = length-replicate cap d;
    r_fits = omega arith;
    w_fits = omega arith;
    bounded = omega arith;
  }

  pub contents-init : contents (init cap d) ≡ []
  unfolding init contents
  contents-init = refl

  pub store-IsValid :
      (size : RingSize cap) (q : Ring A) (x : A)
      → IsValid q
      → count q < cap
      → IsValid (store cap d q x)
  unfolding store
  store-IsValid size q x v room = record {
    sized = length-set q.slots (q.w % cap) x ∙ v.sized;
    r_fits = v.r_fits;
    w_fits = omega arith;
    bounded = omega (arith, v.r_fits, v.w_fits, size.small);
  }

  pub contents-store :
      (size : RingSize cap) (q : Ring A) (x : A)
      → IsValid q
      → count q < cap
      → contents (store cap d q x) ≡ contents q ++ (x ∷ [])
  unfolding store contents
  contents-store size q x v room =
      let more : sub32 (u32 (q.w + 1)) q.r ≡ suc (count q) =
        omega (arith, v.r_fits, v.w_fits, size.small) in
      rw more (
        window-set size q.slots x q.r (count q) (q.w % cap) v.sized room
          (ap (λ k. k % cap) (omega (arith, v.r_fits, v.w_fits))) v.r_fits)

  pub is_empty_iff : (q : Ring A) → IsValid q → q.r ≡ q.w ↔ count q ≡ 0
  is_empty_iff q v =
      (λ e. omega (arith, v.r_fits, v.w_fits), λ e. omega (arith, v.r_fits, v.w_fits))

  pub advance-IsValid : (q : Ring A) → IsValid q → q.r ≢ q.w → IsValid (advance q)
  unfolding advance
  advance-IsValid q v ne = record {
    sized = v.sized;
    r_fits = omega arith;
    w_fits = v.w_fits;
    bounded = omega (arith, v.r_fits, v.w_fits, v.bounded);
  }

  pub contents-advance :
      (q : Ring A) → IsValid q → q.r ≢ q.w → contents q ≡ front cap d q ∷ contents (advance q)
  unfolding advance front contents
  contents-advance q v ne =
      let less : sub32 q.w (u32 (q.r + 1)) ≡ count q - 1 = omega (arith, v.r_fits, v.w_fits) in
      rw less (window_of_ne_zero q.slots q.r (count q) (omega (arith, v.r_fits, v.w_fits)))

  -- The two cases of a push, and of a pop, as the bounded queue sees them.
  pub push-full :
      (q : Ring A) (x : A)
      → leb cap (count q) ≡ true
      → Queue.push cap (contents q) x ≡ (contents q, false)
  unfolding Queue.push
  push-full q x e =
      rw (
        le→ltb (length (contents q)) cap (omega (arith, length-contents q, leb→le cap (count q) e)))

  pub push-room :
      (size : RingSize cap) (q : Ring A) (x : A)
      → IsValid q
      → leb cap (count q) ≡ false
      → IsValid (store cap d q x)
        × (Queue.push cap (contents q) x ≡ (contents (store cap d q x), true))
  unfolding Queue.push
  push-room size q x v e =
      let room : count q < cap = ground arith in
      (
        store-IsValid size q x v room,
        rw (
          lt→ltb (length (contents q)) cap (omega (arith, length-contents q)),
          contents-store size q x v room,
        ),
      )

  pub pop-empty : (q : Ring A) → IsValid q → is_empty q ≡ true → contents q ≡ []
  unfolding contents
  pop-empty q v e = let none_held : count q ≡ 0 = ground (arith, v.r_fits, v.w_fits) in rw none_held

  pub pop-held :
      (q : Ring A)
      → IsValid q
      → is_empty q ≡ false
      → IsValid (advance q) × (contents q ≡ front cap d q ∷ contents (advance q))
  pop-held q v e =
      let ne : q.r ≢ q.w = ground arith in (advance-IsValid q v ne, contents-advance q v ne)
