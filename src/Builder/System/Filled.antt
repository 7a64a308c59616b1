-- ===== src/Builder/System/Filled.antt =====
-- The drivers that `system_build` leaves where it succeeds.
use mathlib.Core.Path.{subst}
use plcmaster.Prelude.{
  ℕ, ◌+◌, ◌%◌, ◌^◌, ◌≤◌, ◌<◌, ◌≡◌, refl, sym, ◌∙◌, ap, Option-cases, Bool-cases, inl, inr, true,
  false, Option, none, some, some_inj, List, [], ◌∷◌, ◌==◌, length, replicate, get_elem?, set,
  length-set, get_elem?-set_self, get_elem?-set_ne, ◌≢◌, codes, arith,
}
use plcmaster.Tag.{TagEntry, proc}
use plcmaster.Device.{DeviceDesc, DeviceConfig}
use plcmaster.Backend.{BackendConfig, BackendDriver}
use plcmaster.Runtime.{Runtime, max_backends}
use plcmaster.StoreInit.{ProcessVarDesc, HmiTagDesc}
use plcmaster.Builder.{SystemConfig, print_name, add_tag}
use plcmaster.Builder.Registry.{BackendFactoryEntry}
use plcmaster.Builder.Drivers.{build_backends}
use plcmaster.Builder.Stores.{
  put_slot, build_process, process_stage, hmi_entry, build_hmi, hmi_stage,
}
use plcmaster.Builder.System.{build_tags, build, system_build}
use plcmaster.Builder.Drivers.{new_driver, set_up}
use plcmaster.Builder.System.Outcome.{system_build_same}

-- Two runtimes with the same drivers.
pub record SameDrivers {Impl : Type 0} (rt rt' : Runtime Impl) : Type 0 where
  pub slots : rt'.backends ≡ rt.backends
  pub number : rt'.backend_count ≡ rt.backend_count

SameDrivers-then :
    {Impl : Type 0} {a b c : Runtime Impl} → SameDrivers a b → SameDrivers b c → SameDrivers a c
SameDrivers-then h g = record { slots = g.slots ∙ h.slots; number = g.number ∙ h.number }

module _ {Impl : Type 0} where
  build_process-SameDrivers :
      (i : ℕ) (ds : List ProcessVarDesc) (rt : Runtime Impl)
      → SameDrivers rt (build_process i ds rt).0
  unfolding build_process
  build_process-SameDrivers i [] rt = record { slots = refl; number = refl }
  build_process-SameDrivers i (desc ∷ ds) rt =
      elim (Option-cases (print_name (codes "proc.") desc.name)) [
        | inl e ↦ record { slots = ground arith; number = ground arith }
        | inr (full, e) ↦
            let entry : TagEntry = record {
              full_name = some full;
              type = desc.type;
              ref = proc (record { index = i % 2 ^ 32 });
            } in
            let rt' : Runtime Impl = record rt {
              tag_table = (add_tag rt.tag_table entry).0;
              proc_store = put_slot rt.proc_store i desc.type;
            } in
            let rest = build_process-SameDrivers (i + 1) ds rt' in
            let slots : (build_process (i + 1) ds rt').0.backends ≡ rt.backends = rest.slots in
            let number : (build_process (i + 1) ds rt').0.backend_count ≡ rt.backend_count =
              rest.number in
            elim (Bool-cases (add_tag rt.tag_table entry).1) [
              | inl done ↦ record { slots = ground arith; number = ground arith }
              | inr undone ↦ record { slots = ground arith; number = ground arith }
            ]
      ]

  process_stage-SameDrivers :
      (config : SystemConfig) (rt : Runtime Impl) → SameDrivers rt (process_stage config rt).0
  unfolding process_stage
  process_stage-SameDrivers config rt = elim (Option-cases config.process_vars) [
    | inl e ↦ record { slots = ground arith; number = ground arith }
    | inr (ds, e) ↦
        let rest = build_process-SameDrivers 0 ds rt in
        let slots : (build_process 0 ds rt).0.backends ≡ rt.backends = rest.slots in
        let number : (build_process 0 ds rt).0.backend_count ≡ rt.backend_count = rest.number in
        record { slots = ground arith; number = ground arith }
  ]

  build_hmi-SameDrivers :
      (vars : ℕ) (ds : List HmiTagDesc) (rt : Runtime Impl)
      → SameDrivers rt (build_hmi vars ds rt).0
  unfolding build_hmi
  build_hmi-SameDrivers vars [] rt = record { slots = refl; number = refl }
  build_hmi-SameDrivers vars (desc ∷ ds) rt =
      elim (Option-cases (print_name (codes "hmi.") desc.name)) [
        | inl e ↦ record { slots = ground arith; number = ground arith }
        | inr (full, e) ↦ elim (Option-cases (hmi_entry vars full desc rt)) [
          | inl e' ↦ record { slots = ground arith; number = ground arith }
          | inr (made, e') ↦
              let rt' : Runtime Impl = record rt {
                tag_table = (add_tag rt.tag_table made.0).0;
                hmi_store = made.1.0;
              } in
              let rest = build_hmi-SameDrivers made.1.1 ds rt' in
              let slots : (build_hmi made.1.1 ds rt').0.backends ≡ rt.backends = rest.slots in
              let number : (build_hmi made.1.1 ds rt').0.backend_count ≡ rt.backend_count =
                rest.number in
              record { slots = ground arith; number = ground arith }
        ]
      ]

  hmi_stage-SameDrivers :
      (config : SystemConfig) (rt : Runtime Impl) → SameDrivers rt (hmi_stage config rt).0
  unfolding hmi_stage
  hmi_stage-SameDrivers config rt = elim (Option-cases config.hmi_tags) [
    | inl e ↦ record { slots = ground arith; number = ground arith }
    | inr (ds, e) ↦
        let rest = build_hmi-SameDrivers 0 ds rt in
        let slots : (build_hmi 0 ds rt).0.backends ≡ rt.backends = rest.slots in
        let number : (build_hmi 0 ds rt).0.backend_count ≡ rt.backend_count = rest.number in
        record { slots = ground arith; number = ground arith }
  ]

module _ {Impl : Type 0} where
  -- The first `n` slots of the driver array hold drivers.
  pub record Filled (drvs : List (Option (BackendDriver Impl))) (n : ℕ) : Type 0 where
    pub driver : (k : ℕ) → k < n → (drv : BackendDriver Impl) × (get_elem? drvs k ≡ some (some drv))

  Filled-next :
      (drvs : List (Option (BackendDriver Impl))) (n : ℕ) (drv : BackendDriver Impl)
      → n < length drvs
      → Filled drvs n
      → Filled (set drvs n (some drv)) (n + 1)
  Filled-next drvs n drv room h = record {
    driver = λ k lt. elim (Bool-cases (n == k)) [
      | inl e ↦
          let is : n ≡ k = ground arith in
          (
            drv,
            ap (get_elem? (set drvs n (some drv))) (sym is)
                ∙ get_elem?-set_self drvs n (some drv) room,
          )
      | inr e ↦
          let ne : n ≢ k = λ i. ground arith in
          let (d, at) = h.driver k (ground arith) in
          (d, get_elem?-set_ne drvs n k (some drv) ne ∙ at)
    ];
  }

module _ {Impl : Type 0} (descs : List (Option DeviceDesc))
    (factories : List (BackendFactoryEntry Impl)) where
  pub build_tags-SameDrivers :
      (config : SystemConfig) (cfgs : List BackendConfig) (devices : List DeviceConfig)
      (rt : Runtime Impl)
      → SameDrivers rt (build_tags descs factories config cfgs devices rt).0
  unfolding build_tags
  build_tags-SameDrivers config cfgs devices rt =
      let a = process_stage-SameDrivers config rt in
      let b = SameDrivers-then a (hmi_stage-SameDrivers config (process_stage config rt).0) in
      let s₁ : (process_stage config rt).0.backends ≡ rt.backends = a.slots in
      let n₁ : (process_stage config rt).0.backend_count ≡ rt.backend_count = a.number in
      let s₂ : (hmi_stage config (process_stage config rt).0).0.backends ≡ rt.backends = b.slots in
      let n₂ : (hmi_stage config (process_stage config rt).0).0.backend_count ≡ rt.backend_count =
        b.number in
      record { slots = ground arith; number = ground arith }

  build_backends-Filled :
      (devices : List DeviceConfig) (i : ℕ) (cfgs : List BackendConfig)
      (drvs : List (Option (BackendDriver Impl)))
      → i + length cfgs ≤ length drvs
      → Filled drvs i
      → (build_backends descs factories devices i cfgs drvs).1.1 ≡ true
      → ((build_backends descs factories devices i cfgs drvs).1.0 ≡ i + length cfgs)
        × Filled (build_backends descs factories devices i cfgs drvs).0 (i + length cfgs)
  unfolding build_backends
  build_backends-Filled devices i [] drvs room h ok =
      (omega arith, subst (Filled drvs) (omega arith) h)
  build_backends-Filled devices i (cfg ∷ cfgs) drvs room h ok =
      elim (Option-cases (new_driver descs factories devices i cfg)) [
        | inl e ↦ absurd (ground arith)
        | inr (made, e) ↦
            let up = set_up descs factories made.0 devices made.1 in
            let drvs' = set drvs i (some up.0) in
            elim (Bool-cases up.1) [
              | inl done ↦
                  let len = length-set drvs i (some up.0) in
                  let (n, filled) =
                    build_backends-Filled devices (i + 1) cfgs drvs' (omega arith)
                      (Filled-next drvs i up.0 (omega arith) h) (ground arith) in
                  let rest : List (Option (BackendDriver Impl)) =
                    (build_backends descs factories devices (i + 1) cfgs drvs').0 in
                  let all : List (Option (BackendDriver Impl)) =
                    (build_backends descs factories devices i (cfg ∷ cfgs) drvs).0 in
                  let same : rest ≡ all = ground arith in
                  let number : i + 1 + length cfgs ≡ i + length (cfg ∷ cfgs) = omega arith in
                  (
                    ground arith,
                    subst (λ t. Filled t (i + length (cfg ∷ cfgs))) same
                        (subst (Filled rest) number filled),
                  )
              | inr undone ↦ absurd (ground arith)
            ]
      ]

  built :
      (config : SystemConfig) (cfgs : List BackendConfig) (devices : List DeviceConfig)
      (rt : Runtime Impl)
      → length cfgs ≤ max_backends
      → (build descs factories config cfgs devices rt).1 ≡ true
      → ((build descs factories config cfgs devices rt).0.backend_count ≡ length cfgs)
        × (drvs : List (Option (BackendDriver Impl))) × ((build descs factories config cfgs devices
              rt).0.backends
            ≡ some drvs)
        × Filled drvs (length cfgs)
  unfolding build
  built config cfgs devices rt few ok =
      let empty : List (Option (BackendDriver Impl)) = replicate max_backends none in
      let b = build_backends descs factories devices 0 cfgs empty in
      let rt₁ : Runtime Impl = record rt { backends = some b.0; backend_count = b.1.0 } in
      let s = build_tags-SameDrivers config cfgs devices rt₁ in
      let slots : (build_tags descs factories config cfgs devices rt₁).0.backends ≡ some b.0 =
        s.slots in
      let number : (build_tags descs factories config cfgs devices rt₁).0.backend_count ≡ b.1.0 =
        s.number in
      let made : b.1.1 ≡ true = ground arith in
      let done : (build_tags descs factories config cfgs devices rt₁).1 ≡ true = ground arith in
      let (n, filled) =
        build_backends-Filled devices 0 cfgs empty (omega arith)
          (record { driver = λ k lt. absurd (omega arith) }) made in
      (ground arith, b.0, ground arith, subst (Filled b.0) (omega arith) filled)

  -- A `system_build` that succeeds leaves as many drivers as backends are configured, one in each
  -- of the first slots of the driver array.
  pub system_build-Filled :
      (config : SystemConfig) (cfgs : List BackendConfig) (rt : Runtime Impl)
      → config.backends ≡ some cfgs
      → (system_build descs factories config rt).1 ≡ true
      → ((system_build descs factories config rt).0.backend_count ≡ length cfgs)
        × (drvs : List (Option (BackendDriver Impl))) × ((system_build descs factories config
              rt).0.backends
            ≡ some drvs)
        × Filled drvs (length cfgs)
  system_build-Filled config cfgs rt e ok = elim (system_build_same descs factories config rt) [
    | inl same ↦ let bad : false ≡ true = ap (λ p. p.1) (sym same) ∙ ok in cc
    | inr (cfgs', devices, e', d, few, is) ↦
        let cfg_same : cfgs' ≡ cfgs = some_inj (sym e' ∙ e) in
        let ok' = ap (λ p. p.1) (sym is) ∙ ok in
        let (n, drvs, at, filled) = built config cfgs' devices rt few ok' in
        (
          ap (λ p. p.0.backend_count) is ∙ n ∙ ap length cfg_same,
          drvs,
          ap (λ p. p.0.backends) is ∙ at,
          subst (λ c. Filled drvs (length c)) cfg_same filled,
        )
  ]
