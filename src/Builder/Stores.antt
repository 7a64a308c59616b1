-- ===== src/Builder/Stores.antt =====
-- system/builder/system_builder.c: the process variables and HMI tags of `system_build`. The pointer
-- `name` of a description is not NULL; `alias_of` may be.
use plcmaster.Prelude.{
  ℕ, ◌+◌, ◌%◌, ◌^◌, Bool, true, false, Option, none, some, List, [], ◌∷◌, if◌then◌else◌, ltb, leb,
  ◌==◌, length, set, CString, codes,
}
use plcmaster.Tag.{TagType, TagEntry, proc, hmi_alias, hmi_var}
use plcmaster.Tag.Table
use plcmaster.Tag.Table.{TagTable}
use plcmaster.Runtime.{Runtime, ValueStore, zero_value, store_size}
use plcmaster.StoreInit.{ProcessVarDesc, HmiTagDesc, alias, var, other}
use plcmaster.Builder.{SystemConfig, print_name, add_tag}

-- The slot of a store cleared, with its type.
unfoldable pub put_slot : ValueStore → ℕ → TagType → ValueStore
put_slot store i type = record store {
  values = set store.values i (record zero_value { type = type });
}

module _ {Impl : Type 0} where
  -- The loop over the process variables from index `i` on.
  unfoldable pub build_process : ℕ → List ProcessVarDesc → Runtime Impl → Runtime Impl × Bool
  unfolding print_name put_slot Table.add
  build_process i [] rt = (rt, true)
  build_process i (desc ∷ ds) rt = elim (print_name (codes "proc.") desc.name) [
    | none ↦ (rt, false)
    | some full ↦
        let (t, done) = add_tag rt.tag_table (record {
          full_name = some full;
          type = desc.type;
          ref = proc (record { index = i % 2 ^ 32 });
        }) in
        let rest =
          build_process (i + 1) ds
            (record rt { tag_table = t; proc_store = put_slot rt.proc_store i desc.type }) in
        if done then rest else (record rt { tag_table = t }, false)
  ]

  -- The stage of the process variables.
  unfoldable pub process_stage : SystemConfig → Runtime Impl → Runtime Impl × Bool
  unfolding build_process
  process_stage config rt = elim config.process_vars [
    | none ↦ (rt, config.process_var_count == 0)
    | some ds ↦
        if ltb store_size (length ds)
        then (rt, false)
        else let (rt', done) = build_process 0 ds rt in
          if done
          then (record rt' { proc_store = record rt'.proc_store { count = length ds } }, true)
          else (rt', false)
  ]

  -- The entry of an HMI tag, with the store after its slot was set: an alias of a tag that is in the
  -- table, or the variable `vars`.
  unfoldable pub hmi_entry :
      ℕ → CString → HmiTagDesc → Runtime Impl → Option (TagEntry × (ValueStore × ℕ))
  unfolding put_slot Table.find_id Table.get
  hmi_entry vars full desc rt = elim desc.body [
    | alias none ↦ none
    | alias (some target) ↦
        if Table.find_id rt.tag_table target == 0
        then none
        else elim (Table.get rt.tag_table (Table.find_id rt.tag_table target)) [
          | none ↦ none
          | some e ↦ some (
            record {
              full_name = some full;
              type = e.type;
              ref = hmi_alias (record {
                target = Table.find_id rt.tag_table target;
                access = desc.access % 256;
              });
            },
            (rt.hmi_store, vars),
          )
        ]
    | var type initial retain ↦
        if leb store_size vars
        then none
        else some (
          record {
            full_name = some full;
            type = type;
            ref = hmi_var (record { index = vars % 2 ^ 32; access = desc.access % 256 });
          },
          (put_slot rt.hmi_store vars type, vars + 1),
        )
    | other n ↦ none
  ]

  -- The loop over the HMI tags, after `vars` variables.
  unfoldable pub build_hmi : ℕ → List HmiTagDesc → Runtime Impl → Runtime Impl × (ℕ × Bool)
  unfolding print_name hmi_entry Table.add
  build_hmi vars [] rt = (rt, (vars, true))
  build_hmi vars (desc ∷ ds) rt = elim (print_name (codes "hmi.") desc.name) [
    | none ↦ (rt, (vars, false))
    | some full ↦ elim (hmi_entry vars full desc rt) [
      | none ↦ (rt, (vars, false))
      | some made ↦
          let (t, done) = add_tag rt.tag_table made.0 in
          let rt' = record rt { tag_table = t; hmi_store = made.1.0 } in
          let rest = build_hmi made.1.1 ds rt' in if done then rest else (rt', (made.1.1, false))
    ]
  ]

  -- The stage of the HMI tags.
  unfoldable pub hmi_stage : SystemConfig → Runtime Impl → Runtime Impl × Bool
  unfolding build_hmi
  hmi_stage config rt = elim config.hmi_tags [
    | none ↦ (rt, config.hmi_tag_count == 0)
    | some ds ↦
        let (rt', (vars, done)) = build_hmi 0 ds rt in
        if done
        then (record rt' { hmi_store = record rt'.hmi_store { count = vars } }, true)
        else (rt', false)
  ]
