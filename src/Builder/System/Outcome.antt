-- ===== src/Builder/System/Outcome.antt =====
-- What `system_build` leaves, whether it succeeds or not.
use mathlib.Core.Path.{subst}
use plcmaster.Prelude.{
  Bool, true, ◌≤◌, ◌≡◌, ◌⊎◌, sym, Option-cases, Bool-cases, inl, inr, false, ◌||◌, Option, none,
  some, List, ltb, ◌==◌, length, replicate, arith,
}
use plcmaster.Tag.Table.Laws.{IsValid}
use plcmaster.Tag.Table.{TagTable}
use plcmaster.Device.{DeviceDesc, DeviceConfig}
use plcmaster.Backend.{BackendConfig}
use plcmaster.Runtime.{Runtime, max_backends}
use plcmaster.Builder.{SystemConfig}
use plcmaster.Builder.Registry.{BackendFactoryEntry}
use plcmaster.Builder.Drivers.{check_devices, build_backends}
use plcmaster.Builder.Stores.{process_stage, hmi_stage}
use plcmaster.Builder.System.{clean_up, cleanup_backends, build_tags, build, system_build}
use plcmaster.Builder.System.Laws.{
  Keeps, IsKept, IsValid-IsKept, process_stage_stays, hmi_stage_stays, tags_from-Keeps,
}

module _ (P : TagTable → Type 0) (kept : IsKept P) {Impl : Type 0}
    (descs : List (Option DeviceDesc)) (factories : List (BackendFactoryEntry Impl)) where
  pub build_tags_stays :
      (config : SystemConfig) (cfgs : List BackendConfig) (devices : List DeviceConfig)
      (rt : Runtime Impl)
      → P rt.tag_table
      → P (build_tags descs factories config cfgs devices rt).0.tag_table
  unfolding build_tags Keeps
  build_tags_stays config cfgs devices rt v =
      let v₁ = process_stage_stays P kept config rt v in
      let v₂ = hmi_stage_stays P kept config (process_stage config rt).0 v₁ in
      let v₃ =
        tags_from-Keeps P kept descs cfgs devices 0 devices
          (hmi_stage config (process_stage config rt).0).0.tag_table v₂ in
      elim (Bool-cases (process_stage config rt).1) [
        | inl procs ↦ elim (Bool-cases (hmi_stage config (process_stage config rt).0).1) [
          | inl hmis ↦ subst P (ground arith) v₃
          | inr bad ↦ subst P (ground arith) v₂
        ]
        | inr bad ↦ subst P (ground arith) v₁
      ]

module _ {Impl : Type 0} (descs : List (Option DeviceDesc))
    (factories : List (BackendFactoryEntry Impl)) where
  clean_up-IsValid :
      (b : Bool) (rt : Runtime Impl) → IsValid rt.tag_table → IsValid (clean_up b rt).tag_table
  unfolding cleanup_backends
  clean_up-IsValid true rt v = v
  clean_up-IsValid false rt v = v

  build-IsValid :
      (config : SystemConfig) (cfgs : List BackendConfig) (devices : List DeviceConfig)
      (rt : Runtime Impl)
      → IsValid rt.tag_table
      → IsValid (build descs factories config cfgs devices rt).0.tag_table
  unfolding build
  build-IsValid config cfgs devices rt v =
      let b = build_backends descs factories devices 0 cfgs (replicate max_backends none) in
      let rt₁ : Runtime Impl = record rt { backends = some b.0; backend_count = b.1.0 } in
      let v₂ = build_tags_stays IsValid IsValid-IsKept descs factories config cfgs devices rt₁ v in
      let v₁' = clean_up-IsValid (ltb 0 b.1.0) rt₁ v in
      let v₂' =
        clean_up-IsValid (ltb 0 b.1.0) (build_tags descs factories config cfgs devices rt₁).0 v₂ in
      elim (Bool-cases b.1.1) [
        | inl made ↦ elim (Bool-cases (build_tags descs factories config cfgs devices rt₁).1) [
          | inl done ↦ subst IsValid (ground arith) v₂
          | inr undone ↦ subst IsValid (ground arith) v₂'
        ]
        | inr unmade ↦ subst IsValid (ground arith) v₁'
      ]

  pub system_build_same :
      (config : SystemConfig) (rt : Runtime Impl)
      → (system_build descs factories config rt ≡ (rt, false))
        ⊎ ((cfgs : List BackendConfig) × (devices : List DeviceConfig) × (config.backends
              ≡ some cfgs)
            × (config.devices ≡ some devices)
            × (length cfgs ≤ max_backends)
            × (system_build descs factories config rt
                ≡ build descs factories config cfgs devices rt))
  unfolding system_build
  system_build_same config rt = elim (Option-cases config.backends) [
    | inl e ↦ inl (ground arith)
    | inr (cfgs, e) ↦ elim (Option-cases config.devices) [
      | inl e' ↦ inl (ground arith)
      | inr (devices, e') ↦ elim (Bool-cases (length cfgs == 0 || length devices == 0)) [
        | inl empty ↦ inl (ground arith)
        | inr some_of ↦ elim (Bool-cases (check_devices descs cfgs devices)) [
          | inl ok ↦ elim (Bool-cases (ltb max_backends (length cfgs))) [
            | inl many ↦ inl (ground arith)
            | inr few ↦ inr (cfgs, devices, e, e', ground arith, ground arith)
          ]
          | inr bad ↦ inl (ground arith)
        ]
      ]
    ]
  ]

  -- Whether it succeeds or not, `system_build` on a valid tag table leaves a valid one.
  pub system_build-IsValid :
      (config : SystemConfig) (rt : Runtime Impl)
      → IsValid rt.tag_table
      → IsValid (system_build descs factories config rt).0.tag_table
  system_build-IsValid config rt v = elim (system_build_same config rt) [
    | inl e ↦ subst (λ p. IsValid p.0.tag_table) (sym e) v
    | inr (cfgs, devices, e, e', few, is) ↦
        subst (λ p. IsValid p.0.tag_table) (sym is) (build-IsValid config cfgs devices rt v)
  ]
