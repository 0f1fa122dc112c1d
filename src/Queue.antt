-- ===== src/Queue.antt =====
-- What the rings promise: a first-in first-out queue that refuses what does not fit.
use residual_engine_audio.Base.{
  ℕ, Bool, true, false, Option, some, none, List, [], ◌∷◌, ◌++◌, ltb, if◌then◌else◌, length,
}

module _ {ℓ} {A : Type ℓ} where
  unfoldable pub push : ℕ → List A → A → List A × Bool
  push cap q x = if ltb (length q) cap then (q ++ (x ∷ []), true) else (q, false)

  unfoldable pub pop : List A → Option A × List A
  pop [] = (none, [])
  pop (x ∷ q) = (some x, q)

-- A client's calls in order, and what each returns.
pub data Op {ℓ} (A : Type ℓ) : Type ℓ where
  put : A → Op A
  get : Op A

pub data Reply {ℓ} (A : Type ℓ) : Type ℓ where
  taken : Bool → Reply A
  given : Option A → Reply A

module _ {ℓ} {A : Type ℓ} (cap : ℕ) where
  unfoldable pub run : List A → List (Op A) → List (Reply A)
  run q [] = []
  run q (put x ∷ ops) = let (q', done) = push cap q x in taken done ∷ run q' ops
  run q (get ∷ ops) = let (out, q') = pop q in given out ∷ run q' ops
