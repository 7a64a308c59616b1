-- ===== src/Ring/Queue.antt =====
-- What a ring promises: a first-in first-out queue of at most `cap` elements, oldest first.
use plcmaster.Prelude.{
  ℕ, Bool, true, false, Option, none, some, List, [], ◌∷◌, ◌++◌, leb, if◌then◌else◌, length,
}

module _ {ℓ} {A : Type ℓ} where
  unfoldable pub push : ℕ → List A → A → List A × Bool
  push cap q x = if leb cap (length q) then (q, false) else (q ++ x ∷ [], true)

  unfoldable pub pop : List A → List A × Option A
  pop [] = ([], none)
  pop (x ∷ q) = (q, some x)
