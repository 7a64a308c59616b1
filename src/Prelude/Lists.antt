-- ===== src/Prelude/Lists.antt =====
-- C arrays as lists with native indices.
use Prim.Native.Nat.{ℕ, zero, suc, ◌+◌, ◌-◌, ◌≤◌, ◌<◌, min}
use mathlib.Core.Path.{◌≡◌, refl, ap}
use mathlib.Core.Logic.{◌≢◌, ◌⊎◌, inl, inr}
use mathlib.Core.List.{List, [], ◌∷◌, ◌++◌, map}
use mathlib.Core.Option.{Option, none, some}
use native.Mathlib.Omega.{arith}

module _ {ℓ} {A : Type ℓ} where
  abbrev pub length : List A → ℕ
  length [] = 0
  length (x ∷ xs) = suc (length xs)

  abbrev pub get_elem? : List A → ℕ → Option A
  get_elem? [] i = none
  get_elem? (x ∷ xs) zero = some x
  get_elem? (x ∷ xs) (suc i) = get_elem? xs i

  -- A write out of bounds changes nothing.
  abbrev pub set : List A → ℕ → A → List A
  set [] i v = []
  set (x ∷ xs) zero v = v ∷ xs
  set (x ∷ xs) (suc i) v = x ∷ set xs i v

  abbrev pub take : ℕ → List A → List A
  take zero xs = []
  take (suc n) [] = []
  take (suc n) (x ∷ xs) = x ∷ take n xs

  abbrev pub drop : ℕ → List A → List A
  drop zero xs = xs
  drop (suc n) [] = []
  drop (suc n) (x ∷ xs) = drop n xs

  abbrev pub replicate : ℕ → A → List A
  replicate zero a = []
  replicate (suc n) a = a ∷ replicate n a

  -- `memcpy(p, base + i, n)`: the `n` elements from index `i` on.
  abbrev pub slice : List A → ℕ → ℕ → List A
  slice xs i n = take n (drop i xs)

  -- `memcpy(base + i, bs, n)`: the elements from index `i` on are overwritten by `bs`.
  abbrev pub blit : List A → ℕ → List A → List A
  blit [] i bs = []
  blit (x ∷ xs) zero [] = x ∷ xs
  blit (x ∷ xs) zero (b ∷ bs) = b ∷ blit xs zero bs
  blit (x ∷ xs) (suc i) bs = x ∷ blit xs i bs

module _ {ℓ} {A : Type ℓ} where
  pub length-append : (xs ys : List A) → length (xs ++ ys) ≡ length xs + length ys
  length-append [] ys = omega arith
  length-append (x ∷ xs) ys = omega (arith, length-append xs ys)

  pub length-set : (xs : List A) (i : ℕ) (v : A) → length (set xs i v) ≡ length xs
  length-set [] i v = refl
  length-set (x ∷ xs) zero v = refl
  length-set (x ∷ xs) (suc i) v = ap suc (length-set xs i v)

  pub length-take : (n : ℕ) (xs : List A) → length (take n xs) ≡ min n (length xs)
  length-take zero xs = omega arith
  length-take (suc n) [] = omega arith
  length-take (suc n) (x ∷ xs) = omega (arith, length-take n xs)

  pub length-drop : (n : ℕ) (xs : List A) → length (drop n xs) ≡ length xs - n
  length-drop zero xs = omega arith
  length-drop (suc n) [] = omega arith
  length-drop (suc n) (x ∷ xs) = omega (arith, length-drop n xs)

  pub length-replicate : (n : ℕ) (a : A) → length (replicate n a) ≡ n
  length-replicate zero a = refl
  length-replicate (suc n) a = ap suc (length-replicate n a)

  pub get_elem?-set_self :
      (xs : List A) (i : ℕ) (v : A) → i < length xs → get_elem? (set xs i v) i ≡ some v
  get_elem?-set_self [] i v h = elim h [ ]
  get_elem?-set_self (x ∷ xs) zero v h = refl
  get_elem?-set_self (x ∷ xs) (suc i) v h = get_elem?-set_self xs i v (omega arith)

  pub get_elem?-set_ne :
      (xs : List A) (i j : ℕ) (v : A) → i ≢ j → get_elem? (set xs i v) j ≡ get_elem? xs j
  get_elem?-set_ne [] i j v h = refl
  get_elem?-set_ne (x ∷ xs) zero zero v h = absurd (h refl)
  get_elem?-set_ne (x ∷ xs) zero (suc j) v h = refl
  get_elem?-set_ne (x ∷ xs) (suc i) zero v h = refl
  get_elem?-set_ne (x ∷ xs) (suc i) (suc j) v h = get_elem?-set_ne xs i j v (λ e. h (ap suc e))

  -- An index in range is read.
  pub get_elem?-some : (xs : List A) (i : ℕ) → i < length xs → (a : A) × (get_elem? xs i ≡ some a)
  get_elem?-some [] i h = elim h [ ]
  get_elem?-some (x ∷ xs) zero h = (x, refl)
  get_elem?-some (x ∷ xs) (suc i) h = get_elem?-some xs i (omega arith)

  pub get_elem?-lt : (xs : List A) (i : ℕ) (a : A) → get_elem? xs i ≡ some a → i < length xs
  get_elem?-lt [] i a h = cc
  get_elem?-lt (x ∷ xs) zero a h = omega arith
  get_elem?-lt (x ∷ xs) (suc i) a h = omega (arith, get_elem?-lt xs i a h)

  pub get_elem?-none : (xs : List A) (i : ℕ) → length xs ≤ i → get_elem? xs i ≡ none
  get_elem?-none [] i h = refl
  get_elem?-none (x ∷ xs) zero h = absurd (omega arith)
  get_elem?-none (x ∷ xs) (suc i) h = get_elem?-none xs i (omega arith)

  pub get_elem?-append_left :
      (xs ys : List A) (i : ℕ) → i < length xs → get_elem? (xs ++ ys) i ≡ get_elem? xs i
  get_elem?-append_left [] ys i h = elim h [ ]
  get_elem?-append_left (x ∷ xs) ys zero h = refl
  get_elem?-append_left (x ∷ xs) ys (suc i) h = get_elem?-append_left xs ys i (omega arith)

  pub get_elem?-append_last :
      (xs : List A) (y : A) (i : ℕ) → i ≡ length xs → get_elem? (xs ++ y ∷ []) i ≡ some y
  get_elem?-append_last [] y zero h = refl
  get_elem?-append_last [] y (suc i) h = absurd (omega arith)
  get_elem?-append_last (x ∷ xs) y zero h = absurd (omega arith)
  get_elem?-append_last (x ∷ xs) y (suc i) h = get_elem?-append_last xs y i (omega arith)

  -- An element of a list with one element more at the end.
  pub get_elem?-snoc :
      (xs : List A) (y : A) (i : ℕ) (a : A)
      → get_elem? (xs ++ y ∷ []) i ≡ some a
      → (get_elem? xs i ≡ some a) ⊎ ((i ≡ length xs) × (a ≡ y))
  get_elem?-snoc [] y zero a h = inr (refl, cc)
  get_elem?-snoc [] y (suc i) a h = cc
  get_elem?-snoc (x ∷ xs) y zero a h = inl h
  get_elem?-snoc (x ∷ xs) y (suc i) a h = elim (get_elem?-snoc xs y i a h) [
    | inl p ↦ inl p
    | inr (e, is) ↦ inr (ap suc e, is)
  ]

  pub length-blit : (xs : List A) (i : ℕ) (bs : List A) → length (blit xs i bs) ≡ length xs
  length-blit [] i bs = refl
  length-blit (x ∷ xs) zero [] = refl
  length-blit (x ∷ xs) zero (b ∷ bs) = ap suc (length-blit xs zero bs)
  length-blit (x ∷ xs) (suc i) bs = ap suc (length-blit xs i bs)

  -- What was copied in range is read back.
  pub slice-blit :
      (xs : List A) (i : ℕ) (bs : List A)
      → i + length bs ≤ length xs
      → slice (blit xs i bs) i (length bs) ≡ bs
  slice-blit [] zero [] h = refl
  slice-blit [] (suc i) [] h = refl
  slice-blit [] i (b ∷ bs) h = absurd (omega arith)
  slice-blit (x ∷ xs) zero [] h = refl
  slice-blit (x ∷ xs) zero (b ∷ bs) h = ap (λ t. b ∷ t) (slice-blit xs zero bs (omega arith))
  slice-blit (x ∷ xs) (suc i) bs h = slice-blit xs i bs (omega arith)

  -- Indices outside the copied range keep their element.
  pub get_elem?-blit_outside :
      (xs : List A) (i : ℕ) (bs : List A) (j : ℕ)
      → (j < i) ⊎ (i + length bs ≤ j)
      → get_elem? (blit xs i bs) j ≡ get_elem? xs j
  get_elem?-blit_outside [] i bs j h = refl
  get_elem?-blit_outside (x ∷ xs) zero [] j h = refl
  get_elem?-blit_outside (x ∷ xs) zero (b ∷ bs) zero h = absurd (omega arith)
  get_elem?-blit_outside (x ∷ xs) zero (b ∷ bs) (suc j) h =
      get_elem?-blit_outside xs zero bs j (inr (omega arith))
  get_elem?-blit_outside (x ∷ xs) (suc i) bs zero h = refl
  get_elem?-blit_outside (x ∷ xs) (suc i) bs (suc j) (inl h) =
      get_elem?-blit_outside xs i bs j (inl (omega arith))
  get_elem?-blit_outside (x ∷ xs) (suc i) bs (suc j) (inr h) =
      get_elem?-blit_outside xs i bs j (inr (omega arith))

  pub take-all : (n : ℕ) (xs : List A) → length xs ≤ n → take n xs ≡ xs
  take-all zero [] h = refl
  take-all zero (x ∷ xs) h = absurd (omega arith)
  take-all (suc n) [] h = refl
  take-all (suc n) (x ∷ xs) h = ap (λ t. x ∷ t) (take-all n xs (omega arith))

  -- A copy over a whole array replaces it.
  pub blit-all : (xs bs : List A) → length bs ≡ length xs → blit xs 0 bs ≡ bs
  blit-all [] [] h = refl
  blit-all [] (b ∷ bs) h = absurd (omega arith)
  blit-all (x ∷ xs) [] h = absurd (omega arith)
  blit-all (x ∷ xs) (b ∷ bs) h = ap (λ t. b ∷ t) (blit-all xs bs (omega arith))

  -- A copy leaves a part of the array that it does not meet as it was.
  pub slice-blit_outside :
      (xs : List A) (i : ℕ) (bs : List A) (at n : ℕ)
      → (i + length bs ≤ at) ⊎ (at + n ≤ i)
      → slice (blit xs i bs) at n ≡ slice xs at n
  slice-blit_outside [] i bs at n h = refl
  slice-blit_outside (x ∷ xs) zero [] at n h = refl
  slice-blit_outside (x ∷ xs) zero (b ∷ bs) at zero h = refl
  slice-blit_outside (x ∷ xs) zero (b ∷ bs) zero (suc n) h = absurd (omega arith)
  slice-blit_outside (x ∷ xs) zero (b ∷ bs) (suc at) (suc n) (inl h) =
      slice-blit_outside xs zero bs at (suc n) (inl (omega arith))
  slice-blit_outside (x ∷ xs) zero (b ∷ bs) (suc at) (suc n) (inr h) = absurd (omega arith)
  slice-blit_outside (x ∷ xs) (suc i) bs at zero h = refl
  slice-blit_outside (x ∷ xs) (suc i) bs zero (suc n) (inl h) = absurd (omega arith)
  slice-blit_outside (x ∷ xs) (suc i) bs zero (suc n) (inr h) =
      ap (λ t. x ∷ t) (slice-blit_outside xs i bs zero n (inr (omega arith)))
  slice-blit_outside (x ∷ xs) (suc i) bs (suc at) (suc n) (inl h) =
      slice-blit_outside xs i bs at (suc n) (inl (omega arith))
  slice-blit_outside (x ∷ xs) (suc i) bs (suc at) (suc n) (inr h) =
      slice-blit_outside xs i bs at (suc n) (inr (omega arith))

module _ {ℓ₁ ℓ₂} {A : Type ℓ₁} {B : Type ℓ₂} where
  pub get_elem?-map :
      (f : A → B) (xs : List A) (i : ℕ) (y : B)
      → get_elem? (map f xs) i ≡ some y
      → (x : A) × (get_elem? xs i ≡ some x) × (f x ≡ y)
  get_elem?-map f [] i y h = cc
  get_elem?-map f (x ∷ xs) zero y h = (x, refl, cc)
  get_elem?-map f (x ∷ xs) (suc i) y h = get_elem?-map f xs i y h

  pub get_elem?-map_at :
      (f : A → B) (xs : List A) (i : ℕ) (x : A)
      → get_elem? xs i ≡ some x
      → get_elem? (map f xs) i ≡ some (f x)
  get_elem?-map_at f [] i x h = cc
  get_elem?-map_at f (x' ∷ xs) zero x h = cc
  get_elem?-map_at f (x' ∷ xs) (suc i) x h = get_elem?-map_at f xs i x h
