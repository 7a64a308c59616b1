-- ===== src/StoreInit.antt =====
-- app/plc/store_init.c: the initial values of the process and HMI variables.
--
-- The functions that load, save and erase retained values are empty in the source and have no
-- counterpart here.
pub mod Loop
pub mod Read
use plcmaster.Prelude.{
  ℕ, Bool, true, false, Option, none, some, List, [], ◌∷◌, ◌++◌, if◌then◌else◌, leb, ◌==◌, length,
  get_elem?, set, take, CString, codes,
}
use plcmaster.Tag.{TagType, unknown, invalid, io, proc, hmi_alias, hmi_var, TagEntry}
use plcmaster.Tag.Value.{tag_type_size, same_type}
use plcmaster.Tag.Table
use plcmaster.Tag.Table.{TagTable, name_size}
use plcmaster.Runtime.{Runtime, Value, ValueStore}

-- `StartMode_t`
pub data StartMode : Type 0 where
  start_hmi_init start_cold start_factory : StartMode

-- `ProcessVarDesc_t`; `initial` holds the bytes of its union.
pub record ProcessVarDesc : Type 0 where
  pub name : CString
  pub type : TagType
  pub initial : List ℕ
  pub retain : Bool

-- `HmiTagKind_t` with the member of the union that the kind selects.
pub data HmiTagBody : Type 0 where
  alias : Option CString → HmiTagBody
  var : (type : TagType) (initial : List ℕ) (retain : Bool) → HmiTagBody
  other : ℕ → HmiTagBody

-- `HmiTagDesc_t`; `access` is 0 for HMI_RO and 1 for HMI_RW.
pub record HmiTagDesc : Type 0 where
  pub name : CString
  pub access : ℕ
  pub body : HmiTagBody

-- A slot of a store, with the type and the initial value that it is to get.
abbrev pub Target : Type 0
Target = ℕ × (TagType × List ℕ)

-- `proc_apply_initial` and `hmi_apply_initial`: for a type outside the enumeration only the slot's
-- type is set.
unfoldable pub apply_initial : TagType → List ℕ → Value → Value
apply_initial (unknown n) initial slot = record slot { type = unknown n }
apply_initial type initial slot = record { type = type; v = take (tag_type_size type) initial }

-- The store after the slot got its initial value.
unfoldable pub put_initial : ValueStore → Target → ValueStore
put_initial store (i, (type, initial)) = elim (get_elem? store.values i) [
  | none ↦ store
  | some slot ↦ record store { values = set store.values i (apply_initial type initial slot) }
]

-- The entry of the table under a prefixed name that fits in 127 bytes.
unfoldable pub entry_of : TagTable → CString → Option TagEntry
entry_of t full_name =
    if leb name_size (length full_name)
    then none
    else if Table.find_id t full_name == 0
    then none
    else Table.get t (Table.find_id t full_name)

-- The tests in the loop of `proc_init`: `none` where the description is skipped.
unfoldable pub proc_target : TagTable → ValueStore → ProcessVarDesc → Option Target
proc_target t store desc = elim (entry_of t (codes "proc." ++ desc.name)) [
  | none ↦ none
  | some entry ↦ elim entry.ref [
    | proc p ↦ if leb store.count p.index then none else some (p.index, (desc.type, desc.initial))
    | _ ↦ none
  ]
]

-- The tests in the loop of `hmi_init`.
unfoldable pub hmi_target : TagTable → ValueStore → HmiTagDesc → Option Target
hmi_target t store desc = elim desc.body [
  | var type initial retain ↦ elim (entry_of t (codes "hmi." ++ desc.name)) [
    | none ↦ none
    | some entry ↦ elim entry.ref [
      | hmi_var h ↦
          if same_type entry.type type
          then (if leb store.count h.index then none else some (h.index, (type, initial)))
          else none
      | _ ↦ none
    ]
  ]
  | _ ↦ none
]

-- The loops of `proc_init` and `hmi_init`, which differ in their tests.
unfoldable pub init_from :
    {D : Type 0} → (ValueStore → D → Option Target) → List D → ValueStore → ValueStore
init_from target [] store = store
init_from target (d ∷ ds) store =
    init_from target ds (elim (target store d) [ none ↦ store | some t ↦ put_initial store t ])

module _ {Impl : Type 0} where
  -- `proc_init`, which returns 0 for pointers that are not NULL.
  unfoldable pub proc_init : Runtime Impl → List ProcessVarDesc → StartMode → Runtime Impl
  proc_init rt descs start_hmi_init = rt
  proc_init rt descs mode = record rt {
    proc_store = init_from (proc_target rt.tag_table) descs rt.proc_store;
  }

  -- `hmi_init`
  unfoldable pub hmi_init : Runtime Impl → List HmiTagDesc → StartMode → Runtime Impl
  hmi_init rt descs start_cold = rt
  hmi_init rt descs mode = record rt {
    hmi_store = init_from (hmi_target rt.tag_table) descs rt.hmi_store;
  }
