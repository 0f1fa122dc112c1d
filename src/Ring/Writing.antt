-- ===== src/Ring/Writing.antt =====
-- A ring whose next slot is written before the counter says so.
use native.Mathlib.Nat.{mod-lt}
use residual_engine_audio.Base.{
  ℕ, zero, suc, ◌+◌, ◌-◌, ◌%◌, ◌^◌, ◌≤◌, ◌<◌, ◌≡◌, refl, ap, ap₂, ◌∙◌, sym, List, [], ◌∷◌, ◌++◌,
  arith, get_or, set, u32, sub32, length-set, get_or-set_self, get_or-set_ne,
}
use residual_engine_audio.Ring.{Ring, RingSize, front, count}
use residual_engine_audio.Ring.Laws.{window, contents, IsValid}

module _ {ℓ} {A : Type ℓ} (cap : ℕ) (d : A) (size : RingSize cap) where
  -- The ring with the slot behind its last written over, and the ring with that slot published.
  abbrev pub scribble : Ring A → A → Ring A
  scribble q x = record q { slots = set q.slots (q.w % cap) x }

  abbrev pub publish : Ring A → Ring A
  publish q = record q { w = u32 (q.w + 1) }

  window-set_behind :
      (slots : List A) (x : A) (r n m i : ℕ)
      → n ≤ m
      → m < cap
      → i ≡ u32 (r + m) % cap
      → r < 2 ^ 32
      → window cap d (set slots i x) r n ≡ window cap d slots r n
  unfolding window
  window-set_behind slots x r zero m i le lt e small = refl
  window-set_behind slots x r (suc n) m i le lt e small =
      ap₂ ◌∷◌ (get_or-set_ne slots i (r % cap) x d (rw e (size.distinct r m (omega arith) lt))) (
        window-set_behind slots x (u32 (r + 1)) n (m - 1) i (omega arith) (omega arith)
          (e ∙ ap (λ k. k % cap) (omega arith)) (omega arith))

  window-suc :
      (slots : List A) (r n : ℕ)
      → r < 2 ^ 32
      → window cap d slots r (suc n)
        ≡ window cap d slots r n ++ (get_or slots (u32 (r + n) % cap) d ∷ [])
  unfolding window
  window-suc slots r zero small = ap (λ k. get_or slots (k % cap) d ∷ []) (omega arith)
  window-suc slots r (suc n) small =
      ap (λ l. get_or slots (r % cap) d ∷ l)
        (window-suc slots (u32 (r + 1)) n (omega arith)
          ∙ ap (λ k. window cap d slots (u32 (r + 1)) n ++ (get_or slots (k % cap) d ∷ []))
              (omega arith))

  -- Writing over the slot behind the last leaves what the ring holds as it is.
  pub contents-scribble :
      (q : Ring A) (x : A)
      → IsValid cap d q
      → count q < cap
      → contents cap d (scribble q x) ≡ contents cap d q
  unfolding contents
  contents-scribble q x v room =
      window-set_behind q.slots x q.r (count q) (count q) (q.w % cap) (omega arith) room
        (ap (λ k. k % cap) (omega (arith, v.r_fits, v.w_fits))) v.r_fits

  pub scribble-IsValid : (q : Ring A) (x : A) → IsValid cap d q → IsValid cap d (scribble q x)
  scribble-IsValid q x v = record {
    sized = length-set q.slots (q.w % cap) x ∙ v.sized;
    r_fits = v.r_fits;
    w_fits = v.w_fits;
    bounded = v.bounded;
  }

  -- What was written there can be read there.
  pub written-scribble :
      (q : Ring A) (x : A) → IsValid cap d q → get_or (scribble q x).slots (q.w % cap) d ≡ x
  written-scribble q x v =
      get_or-set_self q.slots (q.w % cap) x d
        (omega (arith, v.sized, size.positive, mod-lt q.w {m = cap} size.positive))

  -- The slot that is read next is another, unless the ring is empty or full.
  pub front-scribble :
      (q : Ring A) (x : A)
      → IsValid cap d q
      → 0 < count q
      → count q < cap
      → front cap d (scribble q x) ≡ front cap d q
  unfolding front
  front-scribble q x v some_held room =
      let at : q.w ≡ u32 (q.r + count q) = omega (arith, v.r_fits, v.w_fits) in
      get_or-set_ne q.slots (q.w % cap) (q.r % cap) x d
        (λ e. size.distinct q.r (count q) some_held room (ap (λ k. k % cap) (sym at) ∙ e))

  -- Publishing the slot adds what it holds behind the others.
  pub contents-publish :
      (q : Ring A)
      → IsValid cap d q
      → count q < cap
      → contents cap d (publish q) ≡ contents cap d q ++ (get_or q.slots (q.w % cap) d ∷ [])
  unfolding contents
  contents-publish q v room =
      let more : sub32 (u32 (q.w + 1)) q.r ≡ suc (count q) =
        omega (arith, v.r_fits, v.w_fits, size.small) in
      let at : u32 (q.r + count q) ≡ q.w = omega (arith, v.r_fits, v.w_fits) in
      rw more (window-suc q.slots q.r (count q) v.r_fits)
      ∙ ap (λ k. window cap d q.slots q.r (count q) ++ (get_or q.slots (k % cap) d ∷ [])) at

  pub publish-IsValid : (q : Ring A) → IsValid cap d q → count q < cap → IsValid cap d (publish q)
  publish-IsValid q v room = record {
    sized = v.sized;
    r_fits = v.r_fits;
    w_fits = omega arith;
    bounded = omega (arith, v.r_fits, v.w_fits, size.small);
  }
