-- ===== src/Relay/Updates.antt =====
-- Lists of which the first entry of a kind is changed.
use mathlib.Core.Path.{subst}
use residual_engine_audio.Base.{
  ℕ, zero, suc, ◌≡◌, refl, ap, sym, ◌∙◌, arith, Bool, false, some, List, [], ◌∷◌, length, replicate,
  All, Bool-cases, Option-cases, inl, inr,
}
use residual_engine_audio.Relay.{update_first, or_else}
use residual_engine_audio.Relay.Members.{count_if}

module _ {A : Type 0} where
  pub length-update_first :
      (p : A → Bool) (f : A → A) (xs out : List A)
      → update_first p f xs ≡ some out
      → length out ≡ length xs
  unfolding update_first
  length-update_first p f [] out e = absurd (ground arith)
  length-update_first p f (x ∷ xs) out e = elim (Bool-cases (p x)) [
    | inl hit ↦ let is : out ≡ f x ∷ xs = ground arith in ap length is
    | inr miss ↦ elim (Option-cases (update_first p f xs)) [
      | inl absent ↦ absurd (ground arith)
      | inr (rest, found) ↦
          let is : out ≡ x ∷ rest = ground arith in
          ap length is ∙ ap suc (length-update_first p f xs rest found)
    ]
  ]

  pub length-or_else :
      (p : A → Bool) (f : A → A) (n : ℕ) (xs ys : List A)
      → length xs ≡ n
      → length ys ≡ n
      → length (or_else (update_first p f xs) ys) ≡ n
  length-or_else p f n xs ys e e' = elim (Option-cases (update_first p f xs)) [
    | inl absent ↦ rw absent e'
    | inr (out, found) ↦ rw found (length-update_first p f xs out found ∙ e)
  ]

  pub All-update_first :
      (P : A → Type 0) (p : A → Bool) (f : A → A) (xs out : List A)
      → ((x : A) → P x → P (f x))
      → All P xs
      → update_first p f xs ≡ some out
      → All P out
  unfolding update_first
  All-update_first P p f [] out keep all e = absurd (ground arith)
  All-update_first P p f (x ∷ xs) out keep (this, others) e = elim (Bool-cases (p x)) [
    | inl hit ↦
        let is : out ≡ f x ∷ xs = ground arith in subst (All P) (sym is) (keep x this, others)
    | inr miss ↦ elim (Option-cases (update_first p f xs)) [
      | inl absent ↦ absurd (ground arith)
      | inr (rest, found) ↦
          let is : out ≡ x ∷ rest = ground arith in
          subst (All P) (sym is) (this, All-update_first P p f xs rest keep others found)
    ]
  ]

  pub All-replicate : (P : A → Type 0) (n : ℕ) (x : A) → P x → All P (replicate n x)
  All-replicate P zero x h = tt
  All-replicate P (suc n) x h = (h, All-replicate P n x h)

  pub count-replicate :
      (g : A → Bool) (n : ℕ) (x : A) → g x ≡ false → count_if g (replicate n x) ≡ 0
  unfolding count_if
  count-replicate g zero x e = refl
  count-replicate g (suc n) x e = rw e (count-replicate g n x e)
