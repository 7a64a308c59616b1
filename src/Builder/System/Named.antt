-- ===== src/Builder/System/Named.antt =====
-- The tags of process variables after `system_build`.
use mathlib.Core.Path.{subst}
use plcmaster.Prelude.{
  ℕ, zero, suc, ◌+◌, ◌%◌, ◌^◌, ◌≤◌, ◌≡◌, ◌≢◌, refl, sym, ◌∙◌, ap, Option-cases, Bool-cases, inl,
  inr, true, false, Option, none, some, some_inj, List, [], ◌∷◌, ◌==◌, if◌then◌else◌, length,
  replicate, get_elem?, get_elem?-lt, CString, codes, ltb, arith,
}
use plcmaster.Status.{success, failed}
use plcmaster.Tag.{TagEntry, proc}
use plcmaster.Tag.Table
use plcmaster.Tag.Table.{TagTable, get, count, find_id}
use plcmaster.Tag.Table.Laws.{IsValid, stored, add-success, add_outcome}
use plcmaster.Tag.Table.Lookup.{get-zero, get-index, get-add, find_id_iff}
use plcmaster.Device.{DeviceDesc, DeviceConfig}
use plcmaster.Backend.{BackendConfig}
use plcmaster.Runtime.{Runtime, max_backends, store_size}
use plcmaster.StoreInit.{ProcessVarDesc}
use plcmaster.Builder.{SystemConfig, print_name, add_tag}
use plcmaster.Builder.Registry.{BackendFactoryEntry}
use plcmaster.Builder.Drivers.{build_backends}
use plcmaster.Builder.Stores.{put_slot, build_process, process_stage, hmi_stage}
use plcmaster.Builder.System.{tags_from, build_tags, build, system_build}
use plcmaster.Builder.System.Laws.{
  Keeps, IsKept, build_process_stays, hmi_stage_stays, tags_from-Keeps,
}
use plcmaster.Builder.System.Outcome.{system_build_same, system_build-IsValid}

-- An id gives an entry.
record Holds (id : ℕ) (e : TagEntry) (t : TagTable) : Type 0 where
  got : get t id ≡ some e

get_bound : (t : TagTable) (id : ℕ) (e : TagEntry) → get t id ≡ some e → id ≤ count t
unfolding count
get_bound t zero e h = omega arith
get_bound t (suc k) e h =
    let lt = get_elem?-lt t.entries k e (sym (get-index t k) ∙ h) in omega (arith, lt)

Holds-IsKept : (id : ℕ) (e : TagEntry) → IsKept (Holds id e)
Holds-IsKept id e = record {
  add = λ t new h. elim (add_outcome t new) [
    | inl f ↦ subst (λ p. Holds id e p.0) (sym f) h
    | inr (name, is, a) ↦
        let old : (id == count t + 1) ≡ false =
          let le = get_bound t id e h.got in ground (arith, le) in
        record {
          got =
              get-add t new name id is a
              ∙ ap (λ c. if c then some (stored name new) else get t id) old
              ∙ h.got;
        }
  ];
}

-- A tag that was added is held by the next id.
add_tag-Holds :
    (t : TagTable) (e : TagEntry) (full : CString)
    → e.full_name ≡ some full
    → (add_tag t e).1 ≡ true
    → Holds (count t + 1) e (add_tag t e).0
add_tag-Holds t e full named done = elim (add_outcome t e) [
  | inl f ↦ let bad : (Table.add t e).1 ≡ failed = ap (λ p. p.1) f in absurd (ground arith)
  | inr (name, is, a) ↦
      let ok : (Table.add t e).1 ≡ success = ap (λ p. p.1) (add-success t e name is a) in
      let table : (add_tag t e).0 ≡ (Table.add t e).0 = ground arith in
      let self : (count t + 1 == count t + 1) ≡ true = ground arith in
      record {
        got =
            ap (λ u. get u (count t + 1)) table
            ∙ get-add t e name (count t + 1) is a
            ∙ ap (λ c. if c then some (stored name e) else get t (count t + 1)) self
            ∙ ap (λ n. some (record e { full_name = n })) (sym is);
      }
]

-- The tag of a process variable, under its name and with the index of its slot.
pub record IsTag (t : TagTable) (index : ℕ) (desc : ProcessVarDesc) : Type 0 where
  pub full : CString
  pub printed : print_name (codes "proc.") desc.name ≡ some full
  pub id : ℕ
  pub entry : TagEntry
  pub got : get t id ≡ some entry
  pub named : entry.full_name ≡ some full
  pub type : entry.type ≡ desc.type
  pub ref : entry.ref ≡ proc (record { index = index % 2 ^ 32 })

abbrev entry_of : ℕ → ProcessVarDesc → CString → TagEntry
entry_of i desc full = record {
  full_name = some full;
  type = desc.type;
  ref = proc (record { index = i % 2 ^ 32 });
}

module _ {Impl : Type 0} where
  abbrev with_entry : ℕ → ProcessVarDesc → CString → Runtime Impl → Runtime Impl
  with_entry i desc full rt = record rt {
    tag_table = (add_tag rt.tag_table (entry_of i desc full)).0;
    proc_store = put_slot rt.proc_store i desc.type;
  }

  -- The first turn of a loop that succeeds.
  build_process_first :
      (i : ℕ) (x : ProcessVarDesc) (ds : List ProcessVarDesc) (rt : Runtime Impl)
      → (build_process i (x ∷ ds) rt).1 ≡ true
      → (full : CString) × (print_name (codes "proc.") x.name ≡ some full)
        × ((add_tag rt.tag_table (entry_of i x full)).1 ≡ true)
        × (build_process i (x ∷ ds) rt ≡ build_process (i + 1) ds (with_entry i x full rt))
  unfolding build_process
  build_process_first i x ds rt done = elim (Option-cases (print_name (codes "proc.") x.name)) [
    | inl e ↦ absurd (ground arith)
    | inr (full, e) ↦ elim (Bool-cases (add_tag rt.tag_table (entry_of i x full)).1) [
      | inl ok ↦ (full, e, ok, ground arith)
      | inr bad ↦ absurd (ground arith)
    ]
  ]

  build_process-IsTag :
      (i : ℕ) (ds : List ProcessVarDesc) (rt : Runtime Impl) (j : ℕ) (desc : ProcessVarDesc)
      → (build_process i ds rt).1 ≡ true
      → get_elem? ds j ≡ some desc
      → IsTag (build_process i ds rt).0.tag_table (i + j) desc
  build_process-IsTag i [] rt j desc done at = cc
  build_process-IsTag i (x ∷ ds) rt zero desc done at =
      let (full, e, ok, is) = build_process_first i x ds rt done in
      let id = count rt.tag_table + 1 in
      let added = add_tag-Holds rt.tag_table (entry_of i x full) full refl ok in
      let kept =
        build_process_stays (Holds id (entry_of i x full)) (Holds-IsKept id (entry_of i x full))
          (i + 1) ds (with_entry i x full rt) added in
      let here : IsTag (build_process (i + 1) ds (with_entry i x full rt)).0.tag_table i x =
        record {
          full = full;
          printed = e;
          id = id;
          entry = entry_of i x full;
          got = kept.got;
          named = refl;
          type = refl;
          ref = refl;
        } in
      subst (λ n. IsTag (build_process i (x ∷ ds) rt).0.tag_table n desc) (same i)
        (subst (IsTag (build_process i (x ∷ ds) rt).0.tag_table i) (some_inj at)
          (subst (λ p. IsTag p.0.tag_table i x) (sym is) here))
    where
      same : (k : ℕ) → k ≡ k + 0
      same k = omega arith
  build_process-IsTag i (x ∷ ds) rt (suc j) desc done at =
      let (full, e, ok, is) = build_process_first i x ds rt done in
      let rest =
        build_process-IsTag (i + 1) ds (with_entry i x full rt) j desc
          (sym (ap (λ p. p.1) is) ∙ done) at in
      subst (λ n. IsTag (build_process i (x ∷ ds) rt).0.tag_table n desc) (same i j)
        (subst (λ p. IsTag p.0.tag_table (i + 1 + j) desc) (sym is) rest)
    where
      same : (k m : ℕ) → k + 1 + m ≡ k + suc m
      same k m = omega arith

  process_stage-IsTag :
      (config : SystemConfig) (ds : List ProcessVarDesc) (rt : Runtime Impl) (j : ℕ)
      (desc : ProcessVarDesc)
      → config.process_vars ≡ some ds
      → (process_stage config rt).1 ≡ true
      → get_elem? ds j ≡ some desc
      → IsTag (process_stage config rt).0.tag_table j desc
  unfolding process_stage
  process_stage-IsTag config ds rt j desc vars done at =
      elim (Bool-cases (ltb store_size (length ds))) [
        | inl many ↦ absurd (ground arith)
        | inr few ↦
            let ok : (build_process 0 ds rt).1 ≡ true = ground arith in
            let tag = build_process-IsTag 0 ds rt j desc ok at in
            subst (λ n. IsTag (process_stage config rt).0.tag_table n desc) (same j)
              (subst (λ t. IsTag t (0 + j) desc) (ground arith) tag)
      ]
    where
      same : (k : ℕ) → 0 + k ≡ k
      same k = omega arith

-- A process variable as clients find it: by its name, with its type and the index of its slot.
pub record IsFound (t : TagTable) (index : ℕ) (desc : ProcessVarDesc) : Type 0 where
  pub full : CString
  pub printed : print_name (codes "proc.") desc.name ≡ some full
  pub entry : TagEntry
  pub got : get t (find_id t full) ≡ some entry
  pub type : entry.type ≡ desc.type
  pub ref : entry.ref ≡ proc (record { index = index % 2 ^ 32 })

IsTag-IsFound :
    (t : TagTable) (index : ℕ) (desc : ProcessVarDesc)
    → IsValid t
    → IsTag t index desc
    → IsFound t index desc
IsTag-IsFound t index desc v h = record {
  full = h.full;
  printed = h.printed;
  entry = h.entry;
  got = ap (get t) ((find_id_iff t h.full h.id v not_zero).1 (h.entry, h.got, h.named)) ∙ h.got;
  type = h.type;
  ref = h.ref;
}
  where
    not_zero : h.id ≢ 0
    not_zero z = let e : none ≡ some h.entry = sym (get-zero t) ∙ ap (get t) (sym z) ∙ h.got in cc

module _ {Impl : Type 0} (descs : List (Option DeviceDesc))
    (factories : List (BackendFactoryEntry Impl)) where
  build_tags-IsTag :
      (config : SystemConfig) (cfgs : List BackendConfig) (devices : List DeviceConfig)
      (rt : Runtime Impl) (ds : List ProcessVarDesc) (j : ℕ) (desc : ProcessVarDesc)
      → config.process_vars ≡ some ds
      → (build_tags descs factories config cfgs devices rt).1 ≡ true
      → get_elem? ds j ≡ some desc
      → IsTag (build_tags descs factories config cfgs devices rt).0.tag_table j desc
  unfolding build_tags Keeps
  build_tags-IsTag config cfgs devices rt ds j desc vars done at =
      let rt₁ = (process_stage config rt).0 in
      let rt₂ = (hmi_stage config rt₁).0 in
      let procs : (process_stage config rt).1 ≡ true = ground arith in
      let tag = process_stage-IsTag config ds rt j desc vars procs at in
      let kept = Holds-IsKept tag.id tag.entry in
      let last : Holds tag.id tag.entry (tags_from descs cfgs devices 0 devices rt₂.tag_table).0 =
        tags_from-Keeps (Holds tag.id tag.entry) kept descs cfgs devices 0 devices rt₂.tag_table
          (hmi_stage_stays (Holds tag.id tag.entry) kept config rt₁ (record { got = tag.got })) in
      let table : (tags_from descs cfgs devices 0 devices rt₂.tag_table).0
          ≡ (build_tags descs factories config cfgs devices rt).0.tag_table =
        ground arith in
      record {
        full = tag.full;
        printed = tag.printed;
        id = tag.id;
        entry = tag.entry;
        got = ap (λ t. get t tag.id) (sym table) ∙ last.got;
        named = tag.named;
        type = tag.type;
        ref = tag.ref;
      }

  build-IsTag :
      (config : SystemConfig) (cfgs : List BackendConfig) (devices : List DeviceConfig)
      (rt : Runtime Impl) (ds : List ProcessVarDesc) (j : ℕ) (desc : ProcessVarDesc)
      → config.process_vars ≡ some ds
      → (build descs factories config cfgs devices rt).1 ≡ true
      → get_elem? ds j ≡ some desc
      → IsTag (build descs factories config cfgs devices rt).0.tag_table j desc
  unfolding build
  build-IsTag config cfgs devices rt ds j desc vars done at =
      let b = build_backends descs factories devices 0 cfgs (replicate max_backends none) in
      let rt₁ : Runtime Impl = record rt { backends = some b.0; backend_count = b.1.0 } in
      let made : b.1.1 ≡ true = ground arith in
      let tags : (build_tags descs factories config cfgs devices rt₁).1 ≡ true = ground arith in
      subst (λ t. IsTag t j desc) (ground arith)
        (build_tags-IsTag config cfgs devices rt₁ ds j desc vars tags at)

  -- After a `system_build` that succeeds on a valid tag table, each process variable of the configuration
  -- is found: the tag table gives for the name `proc.<name>`, which was short enough, an entry with the
  -- type of the variable that refers to the slot of the variable's index.
  pub system_build-IsFound :
      (config : SystemConfig) (rt : Runtime Impl) (ds : List ProcessVarDesc) (j : ℕ)
      (desc : ProcessVarDesc)
      → IsValid rt.tag_table
      → (system_build descs factories config rt).1 ≡ true
      → config.process_vars ≡ some ds
      → get_elem? ds j ≡ some desc
      → IsFound (system_build descs factories config rt).0.tag_table j desc
  system_build-IsFound config rt ds j desc v done vars at =
      IsTag-IsFound (system_build descs factories config rt).0.tag_table j desc
        (system_build-IsValid descs factories config rt v)
        (elim (system_build_same descs factories config rt) [
          | inl e ↦ let bad : false ≡ true = sym (ap (λ p. p.1) e) ∙ done in cc
          | inr (cfgs, devices, e, e', few, is) ↦
              subst (λ p. IsTag p.0.tag_table j desc) (sym is)
                (build-IsTag config cfgs devices rt ds j desc vars (sym (ap (λ p. p.1) is) ∙ done)
                  at)
        ])
