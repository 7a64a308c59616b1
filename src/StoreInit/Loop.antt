-- ===== src/StoreInit/Loop.antt =====
-- The loop over the descriptions: which slot ends up with which value.
use plcmaster.Prelude.{
  ℕ, ◌<◌, ◌≡◌, ◌≢◌, refl, sym, ap, ◌∙◌, inl, inr, Option-cases, Option, none, some, List, [], ◌∷◌,
  ◌++◌, length, length-set, get_elem?, get_elem?-some, get_elem?-set_self, get_elem?-set_ne, take,
  arith,
}
use plcmaster.Tag.{TagType, unknown}
use plcmaster.Tag.Value.{tag_type_size}
use plcmaster.Runtime.{Value, ValueStore}
use plcmaster.StoreInit.{Target, apply_initial, put_initial, init_from}

-- What a slot holds once it was initialised with a type of the enumeration.
abbrev pub initialised : TagType → List ℕ → Value
initialised type initial = record { type = type; v = take (tag_type_size type) initial }

apply_initial-known :
    (type : TagType) (initial : List ℕ) (slot : Value)
    → 0 < tag_type_size type
    → apply_initial type initial slot ≡ initialised type initial
unfolding apply_initial tag_type_size
apply_initial-known (unknown n) initial slot pos = absurd (omega arith)
apply_initial-known _ initial slot pos = refl

put_initial_self :
    (store : ValueStore) (i : ℕ) (type : TagType) (initial : List ℕ)
    → i < length store.values
    → 0 < tag_type_size type
    → get_elem? (put_initial store (i, (type, initial))).values i ≡ some (initialised type initial)
unfolding put_initial
put_initial_self store i type initial lt pos =
    let (old, at) = get_elem?-some store.values i lt in
    ground (
      arith,
      at,
      get_elem?-set_self store.values i (apply_initial type initial old) lt,
      apply_initial-known type initial old pos,
    )

put_initial_ne :
    (store : ValueStore) (t : Target) (j : ℕ)
    → t.0 ≢ j
    → get_elem? (put_initial store t).values j ≡ get_elem? store.values j
unfolding put_initial
put_initial_ne store (i, (type, initial)) j ne = elim (Option-cases (get_elem? store.values i)) [
  | inl out ↦ ground (arith, out)
  | inr (old, at) ↦
      ground (arith, at, get_elem?-set_ne store.values i j (apply_initial type initial old) ne)
]

put_initial-sizes :
    (store : ValueStore) (t : Target)
    → ((put_initial store t).count ≡ store.count)
      × (length (put_initial store t).values ≡ length store.values)
unfolding put_initial
put_initial-sizes store (i, (type, initial)) = elim (Option-cases (get_elem? store.values i)) [
  | inl out ↦ (ground (arith, out), ground (arith, out))
  | inr (old, at) ↦ (
    ground (arith, at),
    ground (arith, at, length-set store.values i (apply_initial type initial old)),
  )
]

module _ {D : Type 0} (target : ValueStore → D → Option Target) where
  -- No description of the list is for slot `i`.
  pub data Elsewhere (store : ValueStore) (i : ℕ) : List D → Type 0 where
    nothing : Elsewhere store i []
    next :
        (d : D) (ds : List D)
        → ((t : Target) → target store d ≡ some t → t.0 ≢ i)
        → Elsewhere store i ds
        → Elsewhere store i (d ∷ ds)

  -- The tests look at the number of variables, not at their values.
  pub record IsStable : Type 0 where
    pub same : (s s' : ValueStore) (d : D) → s'.count ≡ s.count → target s' d ≡ target s d

  abbrev stepped : ValueStore → D → ValueStore
  stepped store d = elim (target store d) [ none ↦ store | some t ↦ put_initial store t ]

  stepped-sizes :
      (store : ValueStore) (d : D)
      → ((stepped store d).count ≡ store.count)
        × (length (stepped store d).values ≡ length store.values)
  stepped-sizes store d = elim (Option-cases (target store d)) [
    | inl none_at ↦ (ground (arith, none_at), ground (arith, none_at))
    | inr (t, e) ↦
        let (count, size) = put_initial-sizes store t in
        (ground (arith, e, count), ground (arith, e, size))
  ]

  Elsewhere-stepped :
      (store store' : ValueStore) (i : ℕ) (ds : List D)
      → IsStable
      → store'.count ≡ store.count
      → Elsewhere store i ds
      → Elsewhere store' i ds
  Elsewhere-stepped store store' i [] stable same nothing = nothing
  Elsewhere-stepped store store' i (d ∷ ds) stable same (next _ _ ne rest) =
      next d ds (λ t e. ne t (sym (stable.same store store' d same) ∙ e))
        (Elsewhere-stepped store store' i ds stable same rest)

  init_from-Elsewhere :
      (ds : List D) (store : ValueStore) (i : ℕ)
      → IsStable
      → Elsewhere store i ds
      → get_elem? (init_from target ds store).values i ≡ get_elem? store.values i
  unfolding init_from
  init_from-Elsewhere [] store i stable nothing = refl
  init_from-Elsewhere (d ∷ ds) store i stable (next _ _ ne rest) =
      let (count, size) = stepped-sizes store d in
      init_from-Elsewhere ds (stepped store d) i stable
        (Elsewhere-stepped store (stepped store d) i ds stable count rest)
      ∙ (elim (Option-cases (target store d)) [
        | inl none_at ↦ ground (arith, none_at)
        | inr (t, e) ↦ ground (arith, e, put_initial_ne store t i (ne t e))
      ])

  init_from-count :
      (ds : List D) (store : ValueStore) → (init_from target ds store).count ≡ store.count
  unfolding init_from
  init_from-count [] store = refl
  init_from-count (d ∷ ds) store = init_from-count ds (stepped store d) ∙ (stepped-sizes store d).0

  -- The last description that is for a slot gives it its value.
  pub init_from_last :
      (before : List D) (d : D) (after : List D) (store : ValueStore) (i : ℕ) (type : TagType)
      (initial : List ℕ)
      → IsStable
      → target store d ≡ some (i, (type, initial))
      → i < length store.values
      → 0 < tag_type_size type
      → Elsewhere store i after
      → (get_elem? (init_from target (before ++ d ∷ after) store).values i
          ≡ some (initialised type initial))
        × ((init_from target (before ++ d ∷ after) store).count ≡ store.count)
  unfolding init_from
  init_from_last [] d after store i type initial stable at lt pos others =
      let (count, size) = stepped-sizes store d in
      let put : stepped store d ≡ put_initial store (i, (type, initial)) = ground (arith, at) in
      (
        init_from-Elsewhere after (stepped store d) i stable
              (Elsewhere-stepped store (stepped store d) i after stable count others)
            ∙ ap (λ u. get_elem? u.values i) put
            ∙ put_initial_self store i type initial lt pos,
        init_from-count after (stepped store d) ∙ count,
      )
  init_from_last (b ∷ before) d after store i type initial stable at lt pos others =
      let (count, size) = stepped-sizes store b in
      let store' = stepped store b in
      let (slot, same) =
        init_from_last before d after store' i type initial stable
          (stable.same store store' d count ∙ at) (omega arith) pos
          (Elsewhere-stepped store store' i after stable count others) in
      (slot, same ∙ count)
