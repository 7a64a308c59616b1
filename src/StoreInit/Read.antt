-- ===== src/StoreInit/Read.antt =====
-- Reading a variable after the initialisation, by the id of its tag.
use plcmaster.Prelude.{
  ℕ, ◌<◌, ◌≡◌, ◌≢◌, refl, ap, ◌∙◌, Bool, true, some, List, ◌∷◌, ◌++◌, length, length-take,
  get_elem?, take, take-all, CString, codes, arith,
}
use plcmaster.Status.{success}
use plcmaster.Tag.{TagType, unknown, proc, hmi_var, TagEntry, TagProcRef, TagHmiVarRef}
use plcmaster.Tag.Value.{tag_type_size, same_type, get_value}
use plcmaster.Tag.Table
use plcmaster.Tag.Table.{TagTable, name_size}
use plcmaster.Tag.Table.Lookup.{get-zero}
use plcmaster.Tag.Resolve.{resolve_left, resolve_entry}
use plcmaster.Tag.Api.{tag_read, read_ref}
use plcmaster.Runtime.{Runtime, ValueStore}
use plcmaster.StoreInit.{
  StartMode, start_hmi_init, start_cold, ProcessVarDesc, HmiTagDesc, var, entry_of, proc_target,
  hmi_target, init_from, proc_init, hmi_init,
}
use plcmaster.StoreInit.Loop.{initialised, IsStable, Elsewhere, init_from_last}

proc_target-IsStable : (t : TagTable) → IsStable (proc_target t)
unfolding proc_target
proc_target-IsStable t = record {
  same = λ s s' d e. ap (λ c. proc_target t (record s { count = c }) d) e;
}

hmi_target-IsStable : (t : TagTable) → IsStable (hmi_target t)
unfolding hmi_target
hmi_target-IsStable t = record {
  same = λ s s' d e. ap (λ c. hmi_target t (record s { count = c }) d) e;
}

same_type_refl : (type : TagType) → same_type type type ≡ true
unfolding same_type
same_type_refl (unknown n) = ground arith
same_type_refl _ = refl

entry_of-get :
    (t : TagTable) (name : CString) (e : TagEntry)
    → length name < name_size
    → Table.get t (Table.find_id t name) ≡ some e
    → entry_of t name ≡ some e
unfolding entry_of
entry_of-get t name e short at = ground (arith, at, get-zero t)

take_twice : (n : ℕ) (xs : List ℕ) → take n (take n xs) ≡ take n xs
take_twice n xs = take-all n (take n xs) (omega (arith, length-take n xs))

get_value-initialised :
    (store : ValueStore) (i : ℕ) (type : TagType) (initial : List ℕ)
    → i < store.count
    → get_elem? store.values i ≡ some (initialised type initial)
    → get_value store i type ≡ some (initialised type initial)
unfolding get_value
get_value-initialised store i type initial lt at = ground (arith, at, same_type_refl type)

module _ {Impl : Type 0} where
  -- Where a tag with a process or an HMI value has a value of the tag's type, `tag_read` returns it.
  read_proc :
      (rt : Runtime Impl) (id : ℕ) (e : TagEntry) (p : TagProcRef) (initial : List ℕ)
      → Table.get rt.tag_table id ≡ some e
      → e.ref ≡ proc p
      → 0 < tag_type_size e.type
      → get_value rt.proc_store p.index e.type ≡ some (initialised e.type initial)
      → (tag_read rt id (some (tag_type_size e.type))).1
        ≡ (success, take (tag_type_size e.type) initial)
  unfolding tag_read read_ref resolve_entry resolve_left
  read_proc rt id e p initial at is pos v =
      ground (arith, at, is, v, take_twice (tag_type_size e.type) initial)

  read_hmi :
      (rt : Runtime Impl) (id : ℕ) (e : TagEntry) (h : TagHmiVarRef) (initial : List ℕ)
      → Table.get rt.tag_table id ≡ some e
      → e.ref ≡ hmi_var h
      → 0 < tag_type_size e.type
      → get_value rt.hmi_store h.index e.type ≡ some (initialised e.type initial)
      → (tag_read rt id (some (tag_type_size e.type))).1
        ≡ (success, take (tag_type_size e.type) initial)
  unfolding tag_read read_ref resolve_entry resolve_left
  read_hmi rt id e h initial at is pos v =
      ground (arith, at, is, v, take_twice (tag_type_size e.type) initial)

  proc_init_runs :
      (rt : Runtime Impl) (ds : List ProcessVarDesc) (mode : StartMode)
      → mode ≢ start_hmi_init
      → proc_init rt ds mode
        ≡ record rt { proc_store = init_from (proc_target rt.tag_table) ds rt.proc_store }
  unfolding proc_init
  proc_init_runs rt ds start_hmi_init ne = absurd (ne refl)
  proc_init_runs rt ds _ ne = refl

  hmi_init_runs :
      (rt : Runtime Impl) (ds : List HmiTagDesc) (mode : StartMode)
      → mode ≢ start_cold
      → hmi_init rt ds mode
        ≡ record rt { hmi_store = init_from (hmi_target rt.tag_table) ds rt.hmi_store }
  unfolding hmi_init
  hmi_init_runs rt ds start_cold ne = absurd (ne refl)
  hmi_init_runs rt ds _ ne = refl

  -- After `proc_init` in a mode that initialises process values, `tag_read` of the tag of a described
  -- variable returns its initial value. The tag is in the table under "proc." and the variable's name,
  -- has the variable's type and a slot in use, and no later description is for that slot.
  pub tag_read-proc_init :
      (rt : Runtime Impl) (before : List ProcessVarDesc) (d : ProcessVarDesc)
      (after : List ProcessVarDesc) (mode : StartMode) (id : ℕ) (e : TagEntry) (p : TagProcRef)
      → mode ≢ start_hmi_init
      → length (codes "proc." ++ d.name) < name_size
      → Table.find_id rt.tag_table (codes "proc." ++ d.name) ≡ id
      → Table.get rt.tag_table id ≡ some e
      → e.ref ≡ proc p
      → e.type ≡ d.type
      → 0 < tag_type_size e.type
      → p.index < rt.proc_store.count
      → p.index < length rt.proc_store.values
      → Elsewhere (proc_target rt.tag_table) rt.proc_store p.index after
      → (tag_read (proc_init rt (before ++ d ∷ after) mode) id (some (tag_type_size e.type))).1
        ≡ (success, take (tag_type_size e.type) d.initial)
  unfolding proc_target
  tag_read-proc_init rt before d after mode id e p on short found at is same pos used room others =
      let name = codes "proc." ++ d.name in
      let entry = entry_of-get rt.tag_table name e short (ap (Table.get rt.tag_table) found ∙ at) in
      let aim : proc_target rt.tag_table rt.proc_store d ≡ some (p.index, (e.type, d.initial)) =
        ground (arith, entry, is, same) in
      let (slot, count) =
        init_from_last (proc_target rt.tag_table) before d after rt.proc_store p.index e.type
          d.initial (proc_target-IsStable rt.tag_table) aim room pos others in
      let store = init_from (proc_target rt.tag_table) (before ++ d ∷ after) rt.proc_store in
      ap (λ r. (tag_read r id (some (tag_type_size e.type))).1)
        (proc_init_runs rt (before ++ d ∷ after) mode on)
      ∙ read_proc (record rt { proc_store = store }) id e p d.initial at is pos
          (get_value-initialised store p.index e.type d.initial (omega arith) slot)

  -- After `hmi_init` in a mode that initialises HMI values, `tag_read` of the tag of a described variable
  -- returns its initial value. The tag is in the table under "hmi." and the variable's name, has the
  -- variable's type and a slot in use, and no later description is for that slot.
  pub tag_read-hmi_init :
      (rt : Runtime Impl) (before : List HmiTagDesc) (d : HmiTagDesc) (after : List HmiTagDesc)
      (mode : StartMode) (id : ℕ) (e : TagEntry) (h : TagHmiVarRef) (initial : List ℕ)
      (retain : Bool)
      → mode ≢ start_cold
      → d.body ≡ var e.type initial retain
      → length (codes "hmi." ++ d.name) < name_size
      → Table.find_id rt.tag_table (codes "hmi." ++ d.name) ≡ id
      → Table.get rt.tag_table id ≡ some e
      → e.ref ≡ hmi_var h
      → 0 < tag_type_size e.type
      → h.index < rt.hmi_store.count
      → h.index < length rt.hmi_store.values
      → Elsewhere (hmi_target rt.tag_table) rt.hmi_store h.index after
      → (tag_read (hmi_init rt (before ++ d ∷ after) mode) id (some (tag_type_size e.type))).1
        ≡ (success, take (tag_type_size e.type) initial)
  unfolding hmi_target
  tag_read-hmi_init rt before d after mode id e h initial retain on kind short found at is pos used
        room others =
      let name = codes "hmi." ++ d.name in
      let entry = entry_of-get rt.tag_table name e short (ap (Table.get rt.tag_table) found ∙ at) in
      let aim : hmi_target rt.tag_table rt.hmi_store d ≡ some (h.index, (e.type, initial)) =
        ground (arith, kind, entry, is, same_type_refl e.type) in
      let (slot, count) =
        init_from_last (hmi_target rt.tag_table) before d after rt.hmi_store h.index e.type initial
          (hmi_target-IsStable rt.tag_table) aim room pos others in
      let store = init_from (hmi_target rt.tag_table) (before ++ d ∷ after) rt.hmi_store in
      ap (λ r. (tag_read r id (some (tag_type_size e.type))).1)
        (hmi_init_runs rt (before ++ d ∷ after) mode on)
      ∙ read_hmi (record rt { hmi_store = store }) id e h initial at is pos
          (get_value-initialised store h.index e.type initial (omega arith) slot)
