-- ===== src/Tag/Resolve/Laws.antt =====
-- What `resolve_entry` finds, as a relation on the table.
use plcmaster.Prelude.{
  ℕ, zero, suc, ◌≤◌, ◌<◌, ◌≡◌, ◌≢◌, ◌↔◌, inl, inr, refl, ◌∙◌, ap, Bool, true, false, Bool-cases,
  Option-cases, none, some, arith,
}
use plcmaster.Tag.{
  TagRef, invalid, io, proc, hmi_alias, hmi_var, TagHmiAliasRef, TagHmiVarRef, TagEntry,
}
use plcmaster.Tag.Table
use plcmaster.Tag.Table.{TagTable}
use plcmaster.Tag.Resolve.{resolve_left, resolve_entry}

-- Whether a tag may be used this way: a write needs a nonzero access.
abbrev Permits : Bool → ℕ → Type 0
Permits for_write access = for_write ≡ true → access ≢ 0

-- What an entry that is no alias asks of the access.
abbrev pub Direct : Bool → TagRef → Type 0
Direct for_write (hmi_alias a) = ⊥
Direct for_write (hmi_var h) = Permits for_write h.access
Direct for_write _ = Unit {0}

-- `Resolves t w id n e`: from `id`, `n` aliases that permit the access lead to the entry `e`, which is
-- no alias and permits it.
pub data Resolves (t : TagTable) (for_write : Bool) : ℕ → ℕ → TagEntry → Type 0 where
  direct :
      {id : ℕ} {e : TagEntry} (r : TagRef)
      → Table.get t id ≡ some e
      → e.ref ≡ r
      → Direct for_write r
      → Resolves t for_write id zero e
  via :
      {id n : ℕ} {e : TagEntry} (d : TagEntry) (a : TagHmiAliasRef)
      → Table.get t id ≡ some d
      → d.ref ≡ hmi_alias a
      → Permits for_write a.access
      → a.target ≢ 0
      → Resolves t for_write a.target n e
      → Resolves t for_write id (suc n) e

module _ (t : TagTable) (w : Bool) where
  sound_at :
      (k id : ℕ) (e d : TagEntry) (r : TagRef)
      → ((i : ℕ) → resolve_left k t i w ≡ some e → (n : ℕ) × (n < k) × Resolves t w i n e)
      → Table.get t id ≡ some d
      → d.ref ≡ r
      → resolve_left (suc k) t id w ≡ some e
      → (n : ℕ) × (n < suc k) × Resolves t w id n e
  unfolding resolve_left
  sound_at k id e d (hmi_alias a) ih g q h =
      let (n, lt, r) = ih a.target (ground arith) in
      (suc n, omega arith, via d a g q (λ x. ground arith) (ground arith) r)
  sound_at k id e d (hmi_var v) ih g q h =
      let same : d ≡ e = ground arith in
      (0, omega arith, direct (hmi_var v) (g ∙ ap some same) (ground arith) (λ x. ground arith))
  sound_at k id e d invalid ih g q h =
      let same : d ≡ e = ground arith in
      (0, omega arith, direct invalid (g ∙ ap some same) (ground arith) tt)
  sound_at k id e d (io x) ih g q h =
      let same : d ≡ e = ground arith in
      (0, omega arith, direct (io x) (g ∙ ap some same) (ground arith) tt)
  sound_at k id e d (proc x) ih g q h =
      let same : d ≡ e = ground arith in
      (0, omega arith, direct (proc x) (g ∙ ap some same) (ground arith) tt)

  resolve_left_sound :
      (k id : ℕ) (e : TagEntry)
      → resolve_left k t id w ≡ some e
      → (n : ℕ) × (n < k) × Resolves t w id n e
  unfolding resolve_left
  resolve_left_sound zero id e h = cc
  resolve_left_sound (suc k) id e h = elim (Option-cases (Table.get t id)) [
    | inl g ↦ ground arith
    | inr (d, g) ↦ sound_at k id e d d.ref (λ i. resolve_left_sound k i e) g refl h
  ]

  complete-Direct :
      (k id : ℕ) (e : TagEntry) (r : TagRef)
      → Table.get t id ≡ some e
      → e.ref ≡ r
      → Direct w r
      → resolve_left (suc k) t id w ≡ some e
  unfolding resolve_left
  complete-Direct k id e (hmi_alias a) g q p = absurd p
  complete-Direct k id e (hmi_var v) g q p = elim (Bool-cases w) [
    | inl writing ↦ let z : v.access ≢ 0 = p writing in ground arith
    | inr reading ↦ ground arith
  ]
  complete-Direct k id e invalid g q p = ground arith
  complete-Direct k id e (io x) g q p = ground arith
  complete-Direct k id e (proc x) g q p = ground arith

  complete_via :
      (k id : ℕ) (e d : TagEntry) (a : TagHmiAliasRef)
      → Table.get t id ≡ some d
      → d.ref ≡ hmi_alias a
      → Permits w a.access
      → a.target ≢ 0
      → resolve_left k t a.target w ≡ some e
      → resolve_left (suc k) t id w ≡ some e
  unfolding resolve_left
  complete_via k id e d a g q p nz h = elim (Bool-cases w) [
    | inl writing ↦ let z : a.access ≢ 0 = p writing in ground arith
    | inr reading ↦ ground arith
  ]

resolve_left_complete :
    {t : TagTable} {w : Bool} {id n : ℕ} {e : TagEntry} (k : ℕ)
    → n < k
    → Resolves t w id n e
    → resolve_left k t id w ≡ some e
resolve_left_complete {t} {w} zero lt r = absurd (omega arith)
resolve_left_complete {t} {w} {id} {e = e} (suc k) lt (direct r g q p) =
    complete-Direct t w k id e r g q p
resolve_left_complete {t} {w} {id} {e = e} (suc k) lt (via d a g q p nz rest) =
    complete_via t w k id e d a g q p nz (resolve_left_complete k (omega arith) rest)

-- `resolve_entry` returns the entry `e` exactly where at most four aliases lead from the id to `e`, each
-- alias and `e` permit the access, and `e` is no alias.
pub resolve_entry_iff :
    (t : TagTable) (id : ℕ) (for_write : Bool) (e : TagEntry)
    → (resolve_entry t id for_write ≡ some e) ↔ ((n : ℕ) × (n ≤ 4) × Resolves t for_write id n e)
unfolding resolve_entry
resolve_entry_iff t id for_write e = (
  λ h. let (n, lt, r) = resolve_left_sound t for_write 5 id e h in (n, omega arith, r),
  λ w. let (n, le, r) = w in resolve_left_complete 5 (omega arith) r,
)

Direct-read : (w : Bool) (r : TagRef) → Direct w r → Direct false r
Direct-read w (hmi_alias a) p = p
Direct-read w (hmi_var v) p = λ e. cc
Direct-read w invalid p = tt
Direct-read w (io x) p = tt
Direct-read w (proc x) p = tt

Resolves-read :
    {t : TagTable} {w : Bool} {id n : ℕ} {e : TagEntry}
    → Resolves t w id n e
    → Resolves t false id n e
Resolves-read (direct r g q p) = direct r g q (Direct-read _ r p)
Resolves-read (via d a g q p nz rest) = via d a g q (λ e. cc) nz (Resolves-read rest)

-- A tag that may be written may be read, and is the same one.
pub resolve_entry-read :
    (t : TagTable) (id : ℕ) (e : TagEntry)
    → resolve_entry t id true ≡ some e
    → resolve_entry t id false ≡ some e
resolve_entry-read t id e h =
    let (n, le, r) = (resolve_entry_iff t id true e).0 h in
    (resolve_entry_iff t id false e).1 (n, le, Resolves-read r)

-- What a write may not pass: an alias or a variable with access 0.
pub data IsReadOnly : TagRef → Type 0 where
  alias : (a : TagHmiAliasRef) → a.access ≡ 0 → IsReadOnly (hmi_alias a)
  var : (v : TagHmiVarRef) → v.access ≡ 0 → IsReadOnly (hmi_var v)

-- A write does not get through a read-only alias or to a read-only variable.
pub resolve_entry_read_only :
    (t : TagTable) (id : ℕ) (e : TagEntry) (r : TagRef)
    → Table.get t id ≡ some e
    → e.ref ≡ r
    → IsReadOnly r
    → resolve_entry t id true ≡ none
unfolding resolve_entry resolve_left
resolve_entry_read_only t id e _ g q (alias a z) = ground arith
resolve_entry_read_only t id e _ g q (var v z) = ground arith
