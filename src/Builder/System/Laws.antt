-- ===== src/Builder/System/Laws.antt =====
-- What a call of `tag_table_add` keeps of the tag table, the stages of `system_build` keep.
use mathlib.Core.Path.{subst}
use plcmaster.Prelude.{
  ℕ, ◌+◌, ◌%◌, ◌^◌, ◌≡◌, refl, sym, Option-cases, Bool-cases, inl, inr, Bool, true, false, Option,
  some, List, [], ◌∷◌, ◌++◌, if◌then◌else◌, ltb, length, CString, codes, arith,
}
use plcmaster.Status.{Status, success, failed, einval, erange, enoent}
use plcmaster.Tag.{TagEntry, io, proc}
use plcmaster.Tag.Table
use plcmaster.Tag.Table.{TagTable}
use plcmaster.Tag.Table.Laws.{IsValid}
use plcmaster.Tag.Table.Lookup.{add-IsValid}
use plcmaster.Device.{TagDesc, DeviceDesc, DeviceConfig}
use plcmaster.Backend.{BackendConfig}
use plcmaster.Runtime.{Runtime, store_size}
use plcmaster.StoreInit.{ProcessVarDesc, HmiTagDesc}
use plcmaster.Builder.{
  SystemConfig, io_ref, find_backend_index, find_backend_device_index, print_name,
  validate_tag_desc, add_tag, add_each, build_tag, tags_for_device,
}
use plcmaster.Builder.Registry.{device_registry_find}
use plcmaster.Builder.Stores.{
  put_slot, build_process, process_stage, hmi_entry, build_hmi, hmi_stage,
}
use plcmaster.Builder.System.{device_tags, tags_from}

-- The table after a call of `tag_table_add`, or as it was.
data After (t : TagTable) : TagTable → Type 0 where
  same : After t t
  added : (e : TagEntry) → After t (Table.add t e).0

add_tag-After : (t : TagTable) (e : TagEntry) → After t (add_tag t e).0
add_tag-After t e = subst (After t) (sym (pick (Table.add t e).1 refl)) (added e)
  where
    pick : (s : Status) → (Table.add t e).1 ≡ s → (add_tag t e).0 ≡ (Table.add t e).0
    pick success h = ground arith
    pick failed h = ground arith
    pick einval h = ground arith
    pick erange h = ground arith
    pick enoent h = ground arith

build_tag-After :
    (device : CString) (b d : ℕ) (desc : DeviceDesc) (tag : TagDesc) (t : TagTable)
    → After t (build_tag device b d desc tag t).0
unfolding build_tag
build_tag-After device b d desc tag t = elim (Bool-cases (validate_tag_desc tag desc)) [
  | inl ok ↦ elim (Option-cases tag.name) [
    | inl e ↦ subst (After t) (ground arith) same
    | inr (name, e) ↦ elim (Option-cases (print_name (device ++ codes ".") name)) [
      | inl e' ↦ subst (After t) (ground arith) same
      | inr (full, e') ↦ subst (After t) (ground arith) (
          add_tag-After t
            (record { full_name = some full; type = tag.type; ref = io (io_ref b d tag) }))
    ]
  ]
  | inr bad ↦ subst (After t) (ground arith) same
]

choose :
    (P : TagTable → Type 0) (c : Bool) (x y : TagTable × Bool)
    → P x.0
    → P y.0
    → P (if c then x else y).0
choose P true x y hx hy = hx
choose P false x y hx hy = hy

-- A property of the tag table that `tag_table_add` keeps.
pub record IsKept (P : TagTable → Type 0) : Type 0 where
  pub add : (t : TagTable) (e : TagEntry) → P t → P (Table.add t e).0

module _ (P : TagTable → Type 0) (kept : IsKept P) where
  After-keeps : {t t' : TagTable} → After t t' → P t → P t'
  After-keeps same v = v
  After-keeps {t} (added e) v = kept.add t e v

  -- A part of `system_build` keeps the property.
  unfoldable pub Keeps : (TagTable → TagTable × Bool) → Type 0
  Keeps f = (t : TagTable) → P t → P (f t).0

  add_each-Keeps :
      {A : Type 0} (turn : A → TagTable → TagTable × Bool) (xs : List A)
      → ((x : A) → Keeps (turn x))
      → Keeps (add_each turn xs)
  unfolding Keeps add_each
  add_each-Keeps turn [] keeps t v = v
  add_each-Keeps turn (x ∷ xs) keeps t v =
      choose P (turn x t).1 (add_each turn xs (turn x t).0) ((turn x t).0, false)
        (add_each-Keeps turn xs keeps (turn x t).0 (keeps x t v)) (keeps x t v)

  tags_for_device-Keeps :
      (cfg : DeviceConfig) (b d : ℕ) (desc : DeviceDesc) → Keeps (tags_for_device cfg b d desc)
  unfolding Keeps tags_for_device
  tags_for_device-Keeps cfg b d desc t v = elim (Option-cases cfg.name) [
    | inl e ↦ subst P (ground arith) v
    | inr (name, e) ↦ subst P (ground arith) (
        add_each-Keeps (build_tag name b d desc) desc.tags
          (λ tag u w. After-keeps (build_tag-After name b d desc tag u) w) t v)
  ]

  device_tags-Keeps :
      (descs : List (Option DeviceDesc)) (cfgs : List BackendConfig) (devices : List DeviceConfig)
      (i : ℕ) (cfg : DeviceConfig)
      → Keeps (device_tags descs cfgs devices i cfg)
  unfolding Keeps device_tags
  device_tags-Keeps descs cfgs devices i cfg t v =
      elim (Option-cases (device_registry_find descs cfg.model)) [
        | inl e ↦ subst P (ground arith) v
        | inr (desc, e) ↦ elim (Option-cases (find_backend_index cfgs cfg.backend)) [
          | inl e' ↦ subst P (ground arith) v
          | inr (b, e') ↦ elim (Option-cases (find_backend_device_index devices i cfg.backend)) [
            | inl e'' ↦ subst P (ground arith) v
            | inr (d, e'') ↦ subst P (ground arith) (tags_for_device-Keeps cfg b d desc t v)
          ]
        ]
      ]

  pub tags_from-Keeps :
      (descs : List (Option DeviceDesc)) (cfgs : List BackendConfig) (devices : List DeviceConfig)
      (i : ℕ) (left : List DeviceConfig)
      → Keeps (tags_from descs cfgs devices i left)
  unfolding Keeps tags_from
  tags_from-Keeps descs cfgs devices i [] t v = v
  tags_from-Keeps descs cfgs devices i (cfg ∷ left) t v =
      let turn = device_tags descs cfgs devices i cfg t in
      let v' = device_tags-Keeps descs cfgs devices i cfg t v in
      choose P turn.1 (tags_from descs cfgs devices (i + 1) left turn.0) (turn.0, false)
        (tags_from-Keeps descs cfgs devices (i + 1) left turn.0 v') v'

module _ (P : TagTable → Type 0) (kept : IsKept P) {Impl : Type 0} where
  pub build_process_stays :
      (i : ℕ) (ds : List ProcessVarDesc) (rt : Runtime Impl)
      → P rt.tag_table
      → P (build_process i ds rt).0.tag_table
  unfolding build_process
  build_process_stays i [] rt v = v
  build_process_stays i (desc ∷ ds) rt v =
      elim (Option-cases (print_name (codes "proc.") desc.name)) [
        | inl e ↦ subst P (ground arith) v
        | inr (full, e) ↦
            let entry : TagEntry = record {
              full_name = some full;
              type = desc.type;
              ref = proc (record { index = i % 2 ^ 32 });
            } in
            let v' = After-keeps P kept (add_tag-After rt.tag_table entry) v in
            let rt' : Runtime Impl = record rt {
              tag_table = (add_tag rt.tag_table entry).0;
              proc_store = put_slot rt.proc_store i desc.type;
            } in
            let rest = build_process_stays (i + 1) ds rt' v' in
            elim (Bool-cases (add_tag rt.tag_table entry).1) [
              | inl done ↦ subst P (ground arith) rest
              | inr undone ↦ subst P (ground arith) v'
            ]
      ]

  pub process_stage_stays :
      (config : SystemConfig) (rt : Runtime Impl)
      → P rt.tag_table
      → P (process_stage config rt).0.tag_table
  unfolding process_stage
  process_stage_stays config rt v = elim (Option-cases config.process_vars) [
    | inl e ↦ subst P (ground arith) v
    | inr (ds, e) ↦
        let v' = build_process_stays 0 ds rt v in
        elim (Bool-cases (ltb store_size (length ds))) [
          | inl many ↦ subst P (ground arith) v
          | inr few ↦ elim (Bool-cases (build_process 0 ds rt).1) [
            | inl done ↦ subst P (ground arith) v'
            | inr undone ↦ subst P (ground arith) v'
          ]
        ]
  ]

  build_hmi_stays :
      (vars : ℕ) (ds : List HmiTagDesc) (rt : Runtime Impl)
      → P rt.tag_table
      → P (build_hmi vars ds rt).0.tag_table
  unfolding build_hmi
  build_hmi_stays vars [] rt v = v
  build_hmi_stays vars (desc ∷ ds) rt v =
      elim (Option-cases (print_name (codes "hmi.") desc.name)) [
        | inl e ↦ subst P (ground arith) v
        | inr (full, e) ↦ elim (Option-cases (hmi_entry vars full desc rt)) [
          | inl e' ↦ subst P (ground arith) v
          | inr (made, e') ↦
              let v' = After-keeps P kept (add_tag-After rt.tag_table made.0) v in
              let rt' : Runtime Impl = record rt {
                tag_table = (add_tag rt.tag_table made.0).0;
                hmi_store = made.1.0;
              } in
              let rest = build_hmi_stays made.1.1 ds rt' v' in
              elim (Bool-cases (add_tag rt.tag_table made.0).1) [
                | inl done ↦ subst P (ground arith) rest
                | inr undone ↦ subst P (ground arith) v'
              ]
        ]
      ]

  pub hmi_stage_stays :
      (config : SystemConfig) (rt : Runtime Impl)
      → P rt.tag_table
      → P (hmi_stage config rt).0.tag_table
  unfolding hmi_stage
  hmi_stage_stays config rt v = elim (Option-cases config.hmi_tags) [
    | inl e ↦ subst P (ground arith) v
    | inr (ds, e) ↦
        let v' = build_hmi_stays 0 ds rt v in
        elim (Bool-cases (build_hmi 0 ds rt).1.1) [
          | inl done ↦ subst P (ground arith) v'
          | inr undone ↦ subst P (ground arith) v'
        ]
  ]

pub IsValid-IsKept : IsKept IsValid
IsValid-IsKept = record { add = add-IsValid }
