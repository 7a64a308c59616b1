-- ===== src/Tag/Table/Laws.antt =====
-- The tag table as a map: what `add`, `find_id` and `get` do to one another.
use mathlib.Core.Path.{subst}
use plcmaster.Prelude.{
  ℕ, zero, suc, ◌+◌, ◌≤◌, ◌<◌, ◌≡◌, ◌⊎◌, ◌↔◌, inl, inr, refl, sym, ap, ◌∙◌, true, false, ◌||◌,
  Bool-cases, Option-cases, Option, none, some, List, [], ◌∷◌, ◌++◌, leb, if◌then◌else◌, length,
  get_elem?, CString, str_eq, str_eq_iff, str_eq_refl, arith,
}
use plcmaster.Status.{success, failed}
use plcmaster.Tag.{TagEntry}
use plcmaster.Tag.Table.{TagTable, max_tags, name_size, named, contains, add, add_named, find_from}

named_opt :
    (name : CString) (o : Option CString)
    → (elim o [ none ↦ false | some n ↦ str_eq n name ]) ≡ true
    → o ≡ some name
named_opt name none h = cc
named_opt name (some n) h = ap some ((str_eq_iff n name).0 h)

-- An entry carries the name that the comparison finds.
pub named_sound : (name : CString) (e : TagEntry) → named name e ≡ true → e.full_name ≡ some name
named_sound name e h = named_opt name e.full_name h

pub named_complete : (name : CString) (e : TagEntry) → e.full_name ≡ some name → named name e ≡ true
named_complete name e h = rw h (str_eq_refl name)

pub contains-append :
    (name : CString) (xs ys : List TagEntry)
    → contains name (xs ++ ys) ≡ (contains name xs || contains name ys)
unfolding contains
contains-append name [] ys = refl
contains-append name (x ∷ xs) ys = ground (arith, contains-append name xs ys)

pub find_from_absent :
    (name : CString) (i : ℕ) (es : List TagEntry)
    → contains name es ≡ false
    → find_from name i es ≡ 0
unfolding contains find_from
find_from_absent name i [] h = refl
find_from_absent name i (e ∷ es) h = ground (arith, find_from_absent name (i + 1) es)

pub find_from_present :
    (name : CString) (i : ℕ) (es : List TagEntry)
    → contains name es ≡ true
    → (k : ℕ) × (e : TagEntry) × (find_from name i es ≡ i + k + 1)
      × (get_elem? es k ≡ some e)
      × (e.full_name ≡ some name)
unfolding contains find_from
find_from_present name i [] h = cc
find_from_present name i (e ∷ es) h = elim (Bool-cases (named name e)) [
  | inl here ↦ (0, e, rw here (omega arith), refl, named_sound name e here)
  | inr later ↦
      let (k, f, at, got, is) = find_from_present name (i + 1) es (ground arith) in
      (suc k, f, rw later (omega (arith, at)), got, is)
]

pub find_from-append :
    (name : CString) (i : ℕ) (xs ys : List TagEntry)
    → find_from name i (xs ++ ys)
      ≡ (if contains name xs then find_from name i xs else find_from name (i + length xs) ys)
unfolding contains find_from
find_from-append name i [] ys = ap (λ k. find_from name k ys) (omega arith)
find_from-append name i (x ∷ xs) ys = elim (Bool-cases (named name x)) [
  | inl here ↦ rw (here) refl
  | inr later ↦
      rw (later, find_from-append name (i + 1) xs ys)
        (ap (λ k. if contains name xs then find_from name (i + 1) xs else find_from name k ys)
          (omega arith))
]

-- An entry with the name at some index is met by the loop.
pub contains_at :
    (name : CString) (es : List TagEntry) (k : ℕ) (e : TagEntry)
    → get_elem? es k ≡ some e
    → e.full_name ≡ some name
    → contains name es ≡ true
unfolding contains
contains_at name [] k e h n = cc
contains_at name (x ∷ xs) zero e h n =
    rw (named_complete name x (ap (λ o. elim o [ none ↦ none | some y ↦ y.full_name ]) h ∙ n)) refl
contains_at name (x ∷ xs) (suc k) e h n = ground (arith, contains_at name xs k e h n)

-- What every table of the program satisfies: at most 256 entries, each with a name of 1 to 127
-- bytes, and no name twice.
pub record IsValid (t : TagTable) : Type 0 where
  pub fits : length t.entries ≤ max_tags
  pub names :
      (k : ℕ) (e : TagEntry)
      → get_elem? t.entries k ≡ some e
      → (n : CString) × (e.full_name ≡ some n) × (0 < length n) × (length n < name_size)
  pub unique :
      (j k : ℕ) (d e : TagEntry) (n : CString)
      → get_elem? t.entries j ≡ some d
      → get_elem? t.entries k ≡ some e
      → d.full_name ≡ some n
      → e.full_name ≡ some n
      → j ≡ k

-- The entry that `tag_table_add` stores.
abbrev pub stored : CString → TagEntry → TagEntry
stored name e = record e { full_name = some name }

abbrev pub grown : TagTable → CString → TagEntry → TagTable
grown t name e = record { entries = t.entries ++ stored name e ∷ [] }

-- What `tag_table_add` requires of the table and the name.
pub record Admits (t : TagTable) (name : CString) : Type 0 where
  pub new : contains name t.entries ≡ false
  pub room : length t.entries < max_tags
  pub not_empty : 0 < length name
  pub short : length name < name_size

add_named-success :
    (t : TagTable) (e : TagEntry) (name : CString)
    → Admits t name
    → add_named t name e ≡ (grown t name e, success)
unfolding add_named
add_named-success t e name a = rw (a.new) (ground arith)

add_named-failed :
    (t : TagTable) (e : TagEntry) (name : CString)
    → 0 < length name
    → (Admits t name) ⊎ (add_named t name e ≡ (t, failed))
unfolding add_named
add_named-failed t e name pos = elim (Bool-cases (contains name t.entries)) [
  | inl old ↦ inr (rw old)
  | inr new ↦ elim (Bool-cases (leb max_tags (length t.entries))) [
    | inl full ↦ inr (rw (new, full))
    | inr room ↦ elim (Bool-cases (leb name_size (length name))) [
      | inl long ↦ inr (rw (new, room, long))
      | inr short ↦
          inl (record { new = new; room = ground arith; not_empty = pos; short = ground arith })
    ]
  ]
]

-- `tag_table_add` stores an entry with an admitted name at the end, under that name.
pub add-success :
    (t : TagTable) (e : TagEntry) (name : CString)
    → e.full_name ≡ some name
    → Admits t name
    → add t e ≡ (grown t name e, success)
unfolding add
add-success t e [] h a = absurd (omega arith)
add-success t e (c ∷ cs) h a = rw h (add_named-success t e (c ∷ cs) a)

-- Any call of `tag_table_add` either stores an entry with an admitted name, or fails and leaves the
-- table as it was.
pub add_outcome :
    (t : TagTable) (e : TagEntry)
    → (add t e ≡ (t, failed)) ⊎ ((name : CString) × (e.full_name ≡ some name) × Admits t name)
unfolding add
add_outcome t e = elim (Option-cases e.full_name) [
  | inl null ↦ inl (rw null)
  | inr (name, h) ↦ go name h
]
  where
    go :
        (name : CString)
        → e.full_name ≡ some name
        → (add t e ≡ (t, failed)) ⊎ ((name : CString) × (e.full_name ≡ some name) × Admits t name)
    go [] h = inl (rw h)
    go (c ∷ cs) h = elim (add_named-failed t e (c ∷ cs) (omega arith)) [
      | inl a ↦ inr (c ∷ cs, h, a)
      | inr f ↦ inl (rw h f)
    ]

-- `tag_table_add` of an entry with a name fails, and leaves the table as it was, exactly where the name is
-- already in the table, or has not 1 to 127 bytes, or the table is full.
pub add-failed_iff :
    (t : TagTable) (e : TagEntry) (name : CString)
    → e.full_name ≡ some name
    → (add t e ≡ (t, failed)) ↔ (¬ Admits t name)
add-failed_iff t e name h = (
  λ f a.
      let clash : success ≡ failed =
        sym (ap (λ r. r.1) (add-success t e name h a)) ∙ ap (λ r. r.1) f in
      cc,
  λ na. elim (add_outcome t e) [
    | inl f ↦ f
    | inr (m, hm, a) ↦ let e : m ≡ name = cc in absurd (na (subst (Admits t) e a))
  ],
)
