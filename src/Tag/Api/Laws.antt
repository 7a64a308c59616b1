-- ===== src/Tag/Api/Laws.antt =====
-- `tag_read` and `tag_write`: what a write leaves for the next read, and what neither changes.
use mathlib.Core.Path.{subst}
use plcmaster.Prelude.{
  ℕ, ◌<◌, ◌≡◌, ◌≢◌, inl, inr, refl, sym, ◌∙◌, ap, true, false, Option-cases, Option, none, some,
  List, length, get_elem?, get_elem?-set_self, get_elem?-set_ne, get_elem?-lt, take, take-all,
  arith,
}
use plcmaster.Prelude.Bits.{IsBytes}
use plcmaster.Status.{Status, success, einval}
use plcmaster.Tag.{
  TagType, bool, u8, u16, u32, real, unknown, TagRef, TagProcRef, invalid, io, proc, hmi_alias,
  hmi_var, TagEntry,
}
use plcmaster.Tag.Value.{tag_type_size, get_value, put_value}
use plcmaster.Tag.Table
use plcmaster.Tag.Table.{TagTable}
use plcmaster.Tag.Resolve.{resolve_entry}
use plcmaster.Tag.Resolve.Laws.{resolve_entry-read, IsReadOnly, resolve_entry_read_only}
use plcmaster.Tag.Io.Laws.{IsValue}
use plcmaster.Tag.Io.Driver.{IsStaged, read_io_value-write_io_value}
use plcmaster.Tag.Io.Frame.{
  SameData, SameData-refl, read_io_value-SameData, write_io_value-SameData,
}
use plcmaster.Tag.Api.{tag_read, tag_write, read_ref, write_ref}
use plcmaster.Runtime.{Runtime, Value, ValueStore}

-- A slot that was written shows the bytes written, with its type.
pub get_value-put_value :
    (store : ValueStore) (index : ℕ) (type : TagType) (old : Value) (bytes : List ℕ)
    → get_value store index type ≡ some old
    → get_value (put_value store index bytes) index type ≡ some (record old { v = bytes })
unfolding get_value put_value
get_value-put_value store index type old bytes h =
    elim (Option-cases (get_elem? store.values index)) [
      | inl out ↦ ground arith
      | inr (x, at) ↦ ground (
        arith,
        get_elem?-set_self store.values index (record x { v = bytes })
            (get_elem?-lt store.values index x at),
      )
    ]

-- The other slots keep type and value.
pub get_value-put_value_ne :
    (store : ValueStore) (i j : ℕ) (type : TagType) (bytes : List ℕ)
    → i ≢ j
    → get_value (put_value store i bytes) j type ≡ get_value store j type
unfolding get_value put_value
get_value-put_value_ne store i j type bytes ne = elim (Option-cases (get_elem? store.values i)) [
  | inl out ↦ ground arith
  | inr (x, at) ↦ ground (arith, get_elem?-set_ne store.values i j (record x { v = bytes }) ne)
]

IsValue-size : (type : TagType) (v : List ℕ) → IsValue type v → length v ≡ tag_type_size type
unfolding tag_type_size
IsValue-size bool v (inl e) = rw e
IsValue-size bool v (inr e) = rw e
IsValue-size u8 v e = e
IsValue-size u16 v e = e
IsValue-size u32 v e = e
IsValue-size real v e = e
IsValue-size (unknown n) v e = absurd e

IsValue-pos : (type : TagType) (v : List ℕ) → IsValue type v → 0 < tag_type_size type
unfolding tag_type_size
IsValue-pos (unknown n) v e = absurd e
IsValue-pos bool v e = omega arith
IsValue-pos _ v e = omega arith

module _ {Impl : Type 0} where
  read_ref-write_ref :
      (rt rt' : Runtime Impl) (r : TagRef) (type : TagType) (v : List ℕ)
      → IsStaged rt
      → IsValue type v
      → IsBytes v
      → write_ref rt r type v ≡ (rt', success)
      → (read_ref rt' r type (length v)).1 ≡ (success, v)
  unfolding write_ref read_ref
  read_ref-write_ref rt rt' (proc p) type v st ok fine h =
      elim (Option-cases (get_value rt.proc_store p.index type)) [
        | inl null ↦ ground arith
        | inr (old, e) ↦
            ground
              (arith, get_value-put_value rt.proc_store p.index type old v e, take-all (length v) v)
      ]
  read_ref-write_ref rt rt' (hmi_var x) type v st ok fine h =
      elim (Option-cases (get_value rt.hmi_store x.index type)) [
        | inl null ↦ ground arith
        | inr (old, e) ↦
            ground
              (arith, get_value-put_value rt.hmi_store x.index type old v e, take-all (length v) v)
      ]
  read_ref-write_ref rt rt' (io ref) type v st ok fine h =
      read_io_value-write_io_value rt rt' ref type v st ok fine h
  read_ref-write_ref rt rt' (hmi_alias a) type v st ok fine h = ground arith
  read_ref-write_ref rt rt' invalid type v st ok fine h = ground arith

  read_ref-SameData :
      (rt : Runtime Impl) (r : TagRef) (type : TagType) (size : ℕ)
      → SameData rt (read_ref rt r type size).0
  unfolding read_ref
  read_ref-SameData rt (proc p) type size = ground (arith, SameData-refl rt)
  read_ref-SameData rt (hmi_var x) type size = ground (arith, SameData-refl rt)
  read_ref-SameData rt (io ref) type size = read_io_value-SameData rt ref type
  read_ref-SameData rt (hmi_alias a) type size = SameData-refl rt
  read_ref-SameData rt invalid type size = SameData-refl rt

  -- A call of `tag_read` changes no tag, no process value, no HMI value and not the number of drivers.
  pub tag_read-SameData :
      (rt : Runtime Impl) (id : ℕ) (out : Option ℕ) → SameData rt (tag_read rt id out).0
  unfolding tag_read
  tag_read-SameData rt id none = SameData-refl rt
  tag_read-SameData rt id (some size) = elim (Option-cases (resolve_entry rt.tag_table id false)) [
    | inl null ↦ ground (arith, SameData-refl rt)
    | inr (e, at) ↦
        ground (arith, SameData-refl rt, read_ref-SameData rt e.ref e.type (tag_type_size e.type))
  ]

  pub write_ref-table :
      (rt : Runtime Impl) (r : TagRef) (type : TagType) (v : List ℕ)
      → (write_ref rt r type v).0.tag_table ≡ rt.tag_table
  unfolding write_ref
  write_ref-table rt (proc p) type v = ground arith
  write_ref-table rt (hmi_var x) type v = ground arith
  write_ref-table rt (io ref) type v = (write_io_value-SameData rt ref type v).table
  write_ref-table rt (hmi_alias a) type v = refl
  write_ref-table rt invalid type v = refl

  -- `tag_write` once the entry is known.
  tag_write_resolved :
      (rt : Runtime Impl) (id : ℕ) (e : TagEntry) (v : List ℕ)
      → resolve_entry rt.tag_table id true ≡ some e
      → IsValue e.type v
      → tag_write rt id (some v) ≡ write_ref rt e.ref e.type v
  unfolding tag_write
  tag_write_resolved rt id e v at ok =
      ground (
        arith,
        IsValue-size e.type v ok,
        IsValue-pos e.type v ok,
        take-all (tag_type_size e.type) v,
      )

  tag_read_resolved :
      (rt : Runtime Impl) (id : ℕ) (e : TagEntry) (v : List ℕ)
      → resolve_entry rt.tag_table id false ≡ some e
      → IsValue e.type v
      → tag_read rt id (some (length v)) ≡ read_ref rt e.ref e.type (length v)
  unfolding tag_read
  tag_read_resolved rt id e v at ok =
      ground (arith, IsValue-size e.type v ok, IsValue-pos e.type v ok)

  -- The bytes of a value of the tag's type that `tag_write` stored with success are those that `tag_read`
  -- of the same id then returns, through any aliases and for process values, HMI variables and outputs
  -- alike, where the drivers keep what is written to their output data.
  pub tag_read-tag_write :
      (rt rt' : Runtime Impl) (id : ℕ) (e : TagEntry) (v : List ℕ)
      → IsStaged rt
      → resolve_entry rt.tag_table id true ≡ some e
      → IsValue e.type v
      → IsBytes v
      → tag_write rt id (some v) ≡ (rt', success)
      → (tag_read rt' id (some (length v))).1 ≡ (success, v)
  tag_read-tag_write rt rt' id e v st at ok fine h =
      let wrote = sym (tag_write_resolved rt id e v at ok) ∙ h in
      let table : rt'.tag_table ≡ rt.tag_table =
        sym (ap (λ p. p.0.tag_table) wrote) ∙ write_ref-table rt e.ref e.type v in
      let at' =
        ap (λ t. resolve_entry t id false) table ∙ resolve_entry-read rt.tag_table id e at in
      ap (λ p. p.1) (tag_read_resolved rt' id e v at' ok)
      ∙ read_ref-write_ref rt rt' e.ref e.type v st ok fine wrote

  -- `tag_write` to an HMI alias or an HMI variable with access 0 returns -EINVAL and changes nothing.
  pub tag_write_read_only :
      (rt : Runtime Impl) (id : ℕ) (e : TagEntry) (v : Option (List ℕ))
      → Table.get rt.tag_table id ≡ some e
      → IsReadOnly e.ref
      → tag_write rt id v ≡ (rt, einval)
  unfolding tag_write
  tag_write_read_only rt id e none at ro = refl
  tag_write_read_only rt id e (some v) at ro =
      ground (arith, resolve_entry_read_only rt.tag_table id e e.ref at refl ro)

  write_ref_failed :
      (rt rt' : Runtime Impl) (r : TagRef) (type : TagType) (v : List ℕ) (status : Status)
      → write_ref rt r type v ≡ (rt', status)
      → status ≢ success
      → SameData rt rt'
  unfolding write_ref
  write_ref_failed rt rt' (proc p) type v status h ne = ground (arith, SameData-refl rt)
  write_ref_failed rt rt' (hmi_var x) type v status h ne = ground (arith, SameData-refl rt)
  write_ref_failed rt rt' (io ref) type v status h ne =
      subst (SameData rt) (ap (λ p. p.0) h) (write_io_value-SameData rt ref type v)
  write_ref_failed rt rt' (hmi_alias a) type v status h ne = ground (arith, SameData-refl rt)
  write_ref_failed rt rt' invalid type v status h ne = ground (arith, SameData-refl rt)

  -- A `tag_write` that returns an error has changed no tag, no process value and no HMI value.
  pub tag_write_failed :
      (rt rt' : Runtime Impl) (id : ℕ) (v : Option (List ℕ)) (status : Status)
      → tag_write rt id v ≡ (rt', status)
      → status ≢ success
      → SameData rt rt'
  unfolding tag_write
  tag_write_failed rt rt' id none status h ne = ground (arith, SameData-refl rt)
  tag_write_failed rt rt' id (some v) status h ne =
      elim (Option-cases (resolve_entry rt.tag_table id true)) [
        | inl null ↦ ground (arith, SameData-refl rt)
        | inr (e, at) ↦ ground (
          arith,
          SameData-refl rt,
          write_ref_failed rt rt' e.ref e.type (take (tag_type_size e.type) v) status,
        )
      ]

  -- A successful `tag_write` to a tag that stands for a process value leaves every other process value, the
  -- HMI values, the tags and the drivers as they were.
  pub tag_write_proc_frame :
      (rt rt' : Runtime Impl) (id : ℕ) (e : TagEntry) (p : TagProcRef) (v : List ℕ) (j : ℕ)
      (type : TagType)
      → resolve_entry rt.tag_table id true ≡ some e
      → e.ref ≡ proc p
      → IsValue e.type v
      → tag_write rt id (some v) ≡ (rt', success)
      → p.index ≢ j
      → (get_value rt'.proc_store j type ≡ get_value rt.proc_store j type)
        × (rt'.hmi_store ≡ rt.hmi_store)
        × (rt'.tag_table ≡ rt.tag_table)
        × (rt'.backends ≡ rt.backends)
  unfolding write_ref
  tag_write_proc_frame rt rt' id e p v j type at is ok h ne =
      let wrote = sym (tag_write_resolved rt id e v at ok) ∙ h in
      ground (arith, get_value-put_value_ne rt.proc_store p.index j type v ne)
