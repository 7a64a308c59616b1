-- ===== src/Tag/Table/Lookup.antt =====
-- `tag_table_find_id` and `tag_table_get` on a valid table, and after `tag_table_add`.
use plcmaster.Prelude.{
  ℕ, zero, suc, ◌+◌, ◌-◌, ◌<◌, ◌≡◌, ◌≢◌, ◌⊎◌, ◌↔◌, inl, inr, refl, sym, ap, ◌∙◌, Bool-cases, none,
  some, [], ◌∷◌, ◌==◌, if◌then◌else◌, length, length-append, get_elem?, get_elem?-snoc,
  get_elem?-append_left, get_elem?-append_last, get_elem?-none, CString, str_eq, str_eq_iff, arith,
}
use plcmaster.Tag.{TagEntry}
use plcmaster.Tag.Table.{TagTable, name_size, contains, add, find_from, find_id, get, count}
use plcmaster.Tag.Table.Laws.{
  IsValid, Admits, stored, grown, add-success, add_outcome, contains_at, find_from_absent,
  find_from_present, find_from-append,
}

pub get-index : (t : TagTable) (k : ℕ) → get t (suc k) ≡ get_elem? t.entries k
unfolding get
get-index t k = ground (arith, get_elem?-none t.entries k)

pub get-zero : (t : TagTable) → get t 0 ≡ none
unfolding get
get-zero t = refl

find_id-index :
    (t : TagTable) (name : CString)
    → (find_id t name ≡ 0)
      ⊎ ((k : ℕ) × (e : TagEntry) × (find_id t name ≡ suc k)
          × (get_elem? t.entries k ≡ some e)
          × (e.full_name ≡ some name))
unfolding find_id
find_id-index t name = elim (Bool-cases (contains name t.entries)) [
  | inl here ↦
      let (k, e, at, got, is) = find_from_present name 0 t.entries here in
      inr (k, e, omega (arith, at), got, is)
  | inr absent ↦ inl (find_from_absent name 0 t.entries absent)
]

absent_at :
    (t : TagTable) (name : CString) (k : ℕ) (e : TagEntry)
    → get_elem? t.entries k ≡ some e
    → e.full_name ≡ some name
    → ¬ (find_id t name ≡ 0)
unfolding find_id
absent_at t name k e got is no_id =
    let (j, d, at, got', is') =
      find_from_present name 0 t.entries (contains_at name t.entries k e got is) in
    omega (arith, at)

-- In a valid table `tag_table_find_id` returns the nonzero id `id` exactly for the entry that
-- `tag_table_get` gives for `id`: the two are inverse.
pub find_id_iff :
    (t : TagTable) (name : CString) (id : ℕ)
    → IsValid t
    → id ≢ 0
    → (find_id t name ≡ id) ↔ ((e : TagEntry) × (get t id ≡ some e) × (e.full_name ≡ some name))
find_id_iff t name zero v h = absurd (h refl)
find_id_iff t name (suc k) v h = (
  λ found. elim (find_id-index t name) [
    | inl no_id ↦ absurd (omega arith)
    | inr (j, e, at, got, is) ↦
        (e, get-index t k ∙ ap (get_elem? t.entries) (omega arith) ∙ got, is)
  ],
  λ w.
      let (e, got, is) = w in
      let at_k : get_elem? t.entries k ≡ some e = sym (get-index t k) ∙ got in
      elim (find_id-index t name) [
        | inl no_id ↦ absurd (absent_at t name k e at_k is no_id)
        | inr (j, d, at, found, has) ↦ at ∙ ap suc (v.unique j k d e name found at_k has is)
      ],
)

-- `tag_table_find_id` returns 0 exactly for the names that no entry of the table has.
pub find_id_zero_iff :
    (t : TagTable) (name : CString)
    → (find_id t name ≡ 0) ↔ ((id : ℕ) (e : TagEntry) → get t id ≡ some e → e.full_name ≢ some name)
find_id_zero_iff t name = (
  λ no_id id e got is. none_at id e got is no_id,
  λ all. elim (find_id-index t name) [
    | inl no_id ↦ no_id
    | inr (k, e, at, got, is) ↦ absurd (all (suc k) e (get-index t k ∙ got) is)
  ],
)
  where
    none_at :
        (id : ℕ) (e : TagEntry)
        → get t id ≡ some e
        → e.full_name ≡ some name
        → ¬ (find_id t name ≡ 0)
    none_at zero e got is = cc (get-zero t)
    none_at (suc k) e got is = absent_at t name k e (sym (get-index t k) ∙ got) is

-- After an admitted `tag_table_add` the new name has the next id, and every other name keeps the id
-- that it had.
pub find_id-add :
    (t : TagTable) (e : TagEntry) (name other : CString)
    → e.full_name ≡ some name
    → Admits t name
    → find_id (add t e).0 other ≡ (if str_eq name other then count t + 1 else find_id t other)
unfolding find_id count find_from
find_id-add t e name other h a = rw (add-success t e name h a) (
    ground (
      arith,
      find_from-append other 0 t.entries (stored name e ∷ []),
      find_from_absent other 0 t.entries,
      str_eq_iff name other,
    ))

-- After an admitted `tag_table_add` the next id gives the entry as it was passed, with its name, and
-- every other id gives what it gave before.
pub get-add :
    (t : TagTable) (e : TagEntry) (name : CString) (id : ℕ)
    → e.full_name ≡ some name
    → Admits t name
    → get (add t e).0 id ≡ (if id == count t + 1 then some (stored name e) else get t id)
unfolding get count
get-add t e name id h a = rw (add-success t e name h a) (
    ground (
      arith,
      length-append t.entries (stored name e ∷ []),
      get_elem?-append_left t.entries (stored name e ∷ []) (id - 1),
      get_elem?-append_last t.entries (stored name e) (id - 1),
      get_elem?-none t.entries (id - 1),
    ))

module _ (t : TagTable) (e : TagEntry) (name : CString) (v : IsValid t) (a : Admits t name) where
  grown_names :
      (k : ℕ) (d : TagEntry)
      → get_elem? (grown t name e).entries k ≡ some d
      → (n : CString) × (d.full_name ≡ some n) × (0 < length n) × (length n < name_size)
  grown_names k d got = elim (get_elem?-snoc t.entries (stored name e) k d got) [
    | inl old ↦ v.names k d old
    | inr (last, is) ↦ (name, ap (λ x. x.full_name) is, a.not_empty, a.short)
  ]

  -- An old entry does not have the new name.
  old-new :
      (k : ℕ) (d c : TagEntry) (n : CString)
      → get_elem? t.entries k ≡ some d
      → c ≡ stored name e
      → d.full_name ≡ some n
      → c.full_name ≡ some n
      → ⊥
  old-new k d c n got is dn cn =
      let same : name ≡ n = cc (ap (λ x. x.full_name) is) in
      cc (contains_at n t.entries k d got dn, ap (λ m. contains m t.entries) same, a.new)

  grown_unique :
      (j k : ℕ) (d c : TagEntry) (n : CString)
      → get_elem? (grown t name e).entries j ≡ some d
      → get_elem? (grown t name e).entries k ≡ some c
      → d.full_name ≡ some n
      → c.full_name ≡ some n
      → j ≡ k
  grown_unique j k d c n gj gk dn cn = elim (get_elem?-snoc t.entries (stored name e) j d gj) [
    | inl oj ↦ elim (get_elem?-snoc t.entries (stored name e) k c gk) [
      | inl ok ↦ v.unique j k d c n oj ok dn cn
      | inr (lk, is) ↦ absurd (old-new j d c n oj is dn cn)
    ]
    | inr (lj, isj) ↦ elim (get_elem?-snoc t.entries (stored name e) k c gk) [
      | inl ok ↦ absurd (old-new k c d n ok isj cn dn)
      | inr (lk, isk) ↦ omega arith
    ]
  ]

  grown-IsValid : IsValid (grown t name e)
  grown-IsValid = record {
    fits = omega (arith, length-append t.entries (stored name e ∷ []));
    names = grown_names;
    unique = grown_unique;
  }

-- Every call of `tag_table_add`, successful or not, keeps a table valid.
pub add-IsValid : (t : TagTable) (e : TagEntry) → IsValid t → IsValid (add t e).0
add-IsValid t e v = elim (add_outcome t e) [
  | inl f ↦ rw f v
  | inr (name, h, a) ↦ rw (add-success t e name h a) (grown-IsValid t e name v a)
]
