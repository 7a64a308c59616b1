-- ===== src/Ring/Refine.antt =====
-- A valid ring behaves as the bounded queue of the elements that it holds.
use native.Mathlib.Nat.{add-zero}
use mathlib.Core.Path.{subst}
use plcmaster.Prelude.{
  ℕ, zero, suc, ◌+◌, ◌%◌, ◌≤◌, ◌<◌, ◌≡◌, ◌≢◌, refl, ap, ◌∙◌, ◌⊎◌, inl, inr, Bool-cases, true, ◌==◌,
  Option, none, some, List, [], ◌∷◌, ◌++◌, length, length-set, get_elem?, get_elem?-set_self,
  get_elem?-set_ne, get_elem?-some, set, leb, arith,
}
use plcmaster.Ring.{SpscRing, u32_mod, add_u32, push, pop}
use plcmaster.Ring.Inv.{IsValid, level, slot_wrap, slot-ne}
use plcmaster.Ring.Queue

module _ {ℓ} {A : Type ℓ} where
  abbrev prepend : Option A → List A → List A
  prepend none rest = rest
  prepend (some x) rest = x ∷ rest

  prepend-append :
      (o : Option A) (xs : List A) (y : A) → prepend o (xs ++ y ∷ []) ≡ prepend o xs ++ y ∷ []
  prepend-append none xs y = refl
  prepend-append (some x) xs y = refl

  -- The `n` elements from the free-running index `i` on.
  abbrev pub window : List A → ℕ → ℕ → ℕ → List A
  window st cap i zero = []
  window st cap i (suc n) = prepend (get_elem? st (i % cap)) (window st cap (suc i) n)

  abbrev pub contents : SpscRing A → List A
  contents q = window q.storage q.capacity q.read_index (level q)

  slot_get :
      (st : List A) (cap i : ℕ)
      → 0 < cap
      → cap ≤ length st
      → (a : A) × (get_elem? st (i % cap) ≡ some a)
  slot_get st cap i h k = get_elem?-some st (i % cap) (omega arith)

  length-window :
      (st : List A) (cap i n : ℕ) → 0 < cap → cap ≤ length st → length (window st cap i n) ≡ n
  length-window st cap i zero h k = refl
  length-window st cap i (suc n) h k =
      let (a, e) = slot_get st cap i h k in rw e (ap suc (length-window st cap (suc i) n h k))

  -- Starting one turn of the index later shows the same elements.
  window_wrap :
      (st : List A) (cap i j n : ℕ)
      → u32_mod % cap ≡ 0
      → i % u32_mod ≡ j % u32_mod
      → window st cap i n ≡ window st cap j n
  window_wrap st cap i j zero d e = refl
  window_wrap st cap i j (suc n) d e = rw (
    ← slot_wrap cap i d,
    ← slot_wrap cap j d,
    e,
    window_wrap st cap (suc i) (suc j) n d (omega arith),
  )

  -- A write at a later slot leaves a window alone.
  window-set_ne :
      (st : List A) (cap i n k s : ℕ) (x : A)
      → n ≤ k
      → k < cap
      → s ≡ (i + k) % cap
      → window (set st s x) cap i n ≡ window st cap i n
  window-set_ne st cap i zero k s x h hk e = refl
  window-set_ne st cap i (suc n) zero s x h hk e = absurd (omega arith)
  window-set_ne st cap i (suc n) (suc k) s x h hk e =
      let apart : s ≢ i % cap = rw e (slot-ne cap i (suc k) (omega arith) hk) in
      let rest =
        window-set_ne st cap (suc i) n k s x (omega arith) (omega arith)
          (e ∙ ap (λ t. t % cap) (omega arith)) in
      rw (get_elem?-set_ne st s (i % cap) x apart, rest)

  window-snoc :
      (st : List A) (cap i n : ℕ) (x : A)
      → get_elem? st ((i + n) % cap) ≡ some x
      → window st cap i (suc n) ≡ window st cap i n ++ x ∷ []
  window-snoc st cap i zero x e = rw (← add-zero i, e)
  window-snoc st cap i (suc n) x e =
      let here : (i + suc n) % cap ≡ (suc i + n) % cap = ap (λ t. t % cap) (omega arith) in
      let rest = window-snoc st cap (suc i) n x (rw here at e) in
      rw (rest) (prepend-append (get_elem? st (i % cap)) (window st cap (suc i) n) x)

  pub length-contents : {q : SpscRing A} → IsValid q → length (contents q) ≡ level q
  length-contents {q} v =
      length-window q.storage q.capacity q.read_index (level q) v.positive v.stored

  -- The slot that a push writes is the one just behind the stored elements.
  write_slot :
      {q : SpscRing A}
      → IsValid q
      → q.write_index % q.capacity ≡ (q.read_index + level q) % q.capacity
  write_slot {q} v =
      let whole : q.write_index ≡ (q.read_index + level q) % u32_mod = omega arith in
      ap (λ t. t % q.capacity) whole ∙ slot_wrap q.capacity (q.read_index + level q) v.divides

  window-push :
      {q : SpscRing A} (x : A)
      → IsValid q
      → level q < q.capacity
      → window
          (set q.storage (q.write_index % q.capacity) x)
          q.capacity
          q.read_index
          (suc (level q))
        ≡ contents q ++ x ∷ []
  window-push {q} x v room =
      let slot = write_slot v in
      let st = set q.storage (q.write_index % q.capacity) x in
      let written = get_elem?-set_self q.storage (q.write_index % q.capacity) x (omega arith) in
      window-snoc st q.capacity q.read_index (level q) x
        (subst (λ t. get_elem? st t ≡ some x) slot written)
      ∙ ap (λ t. t ++ x ∷ [])
          (window-set_ne q.storage q.capacity q.read_index (level q) (level q) _ x (omega arith)
            room slot)

  -- The ring after a push that finds room.
  abbrev pushed : SpscRing A → A → SpscRing A
  pushed q x = record q {
    storage = set q.storage (q.write_index % q.capacity) x;
    write_index = add_u32 q.write_index 1;
  }

  level-pushed :
      {q : SpscRing A} (x : A)
      → IsValid q
      → level q < q.capacity
      → level (pushed q x) ≡ suc (level q)
  level-pushed x v room = omega arith

  contents-pushed :
      {q : SpscRing A} (x : A)
      → IsValid q
      → level q < q.capacity
      → contents (pushed q x) ≡ contents q ++ x ∷ []
  contents-pushed {q} x v room =
      ap (window (pushed q x).storage q.capacity q.read_index) (level-pushed x v room)
      ∙ window-push x v room

  pushed-IsValid :
      {q : SpscRing A} (x : A) → IsValid q → level q < q.capacity → IsValid (pushed q x)
  pushed-IsValid {q} x v room = omega (arith, length-set q.storage (q.write_index % q.capacity) x)

  -- `spsc_ring_push` on a valid ring returns the flag of the queue's push and leaves the ring
  -- holding the queue's contents; the ring stays valid, also when an index passes 2^32.
  pub push_refines :
      {q : SpscRing A} (x : A)
      → IsValid q
      → let (q', done) = push q (some x) in
        ((contents q', done) ≡ Queue.push q.capacity (contents q) x)
        × IsValid q'
        × (q'.capacity ≡ q.capacity)
  unfolding push Queue.push
  push_refines {q} x v = rw (length-contents v) (elim (Bool-cases (leb q.capacity (level q))) [
    | inl full ↦ rw full (refl, v, refl)
    | inr room ↦ rw room (
      ap (λ c. (c, true)) (contents-pushed x v (ground arith)),
      pushed-IsValid x v (ground arith),
      refl,
    )
  ])

  abbrev popped : SpscRing A → SpscRing A
  popped q = record q { read_index = add_u32 q.read_index 1 }

  contents-popped :
      {q : SpscRing A}
      → IsValid q
      → q.read_index ≢ q.write_index
      → contents q ≡ prepend (get_elem? q.storage (q.read_index % q.capacity)) (contents (popped q))
  contents-popped {q} v ne =
      let more : level q ≡ suc (level (popped q)) = omega arith in
      ap (window q.storage q.capacity q.read_index) more
      ∙ ap (prepend _) (
          window_wrap q.storage q.capacity (suc q.read_index) (add_u32 q.read_index 1)
            (level (popped q)) v.divides (omega arith))

  popped-IsValid : {q : SpscRing A} → IsValid q → q.read_index ≢ q.write_index → IsValid (popped q)
  popped-IsValid {q} v ne = omega arith

  contents-empty : {q : SpscRing A} → IsValid q → q.read_index ≡ q.write_index → contents q ≡ []
  contents-empty {q} v e =
      let none_left : level q ≡ 0 = omega arith in
      ap (window q.storage q.capacity q.read_index) none_left

  -- `spsc_ring_pop` on a valid ring returns what the queue's pop returns and leaves the ring holding
  -- the rest; the ring stays valid, also when an index passes 2^32.
  pub pop_refines :
      {q : SpscRing A}
      → IsValid q
      → let (q', out) = pop q in
        ((contents q', out) ≡ Queue.pop (contents q)) × IsValid q' × (q'.capacity ≡ q.capacity)
  unfolding pop Queue.pop
  pop_refines {q} v = elim (Bool-cases (q.read_index == q.write_index)) [
    | inl empty ↦ let e = contents-empty v (ground arith) in rw (empty, e) (refl, v, refl)
    | inr some_left ↦
        let (a, e) = slot_get q.storage q.capacity q.read_index v.positive v.stored in
        let c = contents-popped v (ground arith) in
        rw (some_left, c, e) (refl, popped-IsValid v (ground arith), refl)
  ]

  -- The two outcomes of a pop from a valid ring, through the queue.
  pub pop_cases :
      {q : SpscRing A}
      → IsValid q
      → ((contents q ≡ []) × ((pop q).1 ≡ none) × (contents (pop q).0 ≡ []) × IsValid (pop q).0)
        ⊎ ((x : A) × (rest : List A) × (contents q ≡ x ∷ rest)
            × ((pop q).1 ≡ some x)
            × (contents (pop q).0 ≡ rest)
            × IsValid (pop q).0)
  unfolding Queue.pop
  pop_cases {q} v = let (same, valid, size) = pop_refines v in go (contents q) refl same valid
    where
      go :
          (l : List A)
          → contents q ≡ l
          → (contents (pop q).0, (pop q).1) ≡ Queue.pop (contents q)
          → IsValid (pop q).0
          → ((contents q ≡ []) × ((pop q).1 ≡ none) × (contents (pop q).0 ≡ []) × IsValid (pop q).0)
            ⊎ ((x : A) × (rest : List A) × (contents q ≡ x ∷ rest)
                × ((pop q).1 ≡ some x)
                × (contents (pop q).0 ≡ rest)
                × IsValid (pop q).0)
      go [] e same valid =
          let both = same ∙ ap Queue.pop e in inl (e, ap (λ p. p.1) both, ap (λ p. p.0) both, valid)
      go (x ∷ rest) e same valid =
          let both = same ∙ ap Queue.pop e in
          inr (x, rest, e, ap (λ p. p.1) both, ap (λ p. p.0) both, valid)
