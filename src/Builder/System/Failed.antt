-- ===== src/Builder/System/Failed.antt =====
-- A `system_build` that fails.
use mathlib.Core.Path.{subst}
use plcmaster.Prelude.{
  ℕ, zero, suc, ◌+◌, ◌≡◌, ◌⊎◌, refl, sym, ◌∙◌, ap, ap₂, Option-cases, Bool-cases, inl, inr, true,
  false, Option, none, some, List, [], ◌∷◌, ltb, replicate, set, arith,
}
use plcmaster.Device.{DeviceDesc, DeviceConfig}
use plcmaster.Backend.{BackendConfig, BackendDriver}
use plcmaster.Runtime.{Runtime, max_backends}
use plcmaster.Builder.{SystemConfig}
use plcmaster.Builder.Registry.{BackendFactoryEntry}
use plcmaster.Builder.Drivers.{build_backends, new_driver, set_up}
use plcmaster.Builder.System.{
  clear_slots, cleanup_backends, clean_up, build_tags, build, system_build,
}
use plcmaster.Builder.System.Outcome.{system_build_same}
use plcmaster.Builder.System.Filled.{build_tags-SameDrivers}

-- The drivers that a runtime shows: none.
pub record NoDrivers {Impl : Type 0} (rt : Runtime Impl) : Type 0 where
  pub slots : rt.backends ≡ some (replicate max_backends none)
  pub number : rt.backend_count ≡ 0

module _ {Impl : Type 0} where
  clear_slots-zero : (drvs : List (Option (BackendDriver Impl))) → clear_slots zero drvs ≡ drvs
  unfolding clear_slots
  clear_slots-zero [] = refl
  clear_slots-zero (d ∷ drvs) = refl

  clear_slots-set :
      (n : ℕ) (drvs : List (Option (BackendDriver Impl))) (d : Option (BackendDriver Impl))
      → clear_slots (suc n) (set drvs n d) ≡ clear_slots (suc n) drvs
  unfolding clear_slots
  clear_slots-set n [] d = refl
  clear_slots-set zero (x ∷ drvs) d = refl
  clear_slots-set (suc n) (x ∷ drvs) d = ap (λ l. none ∷ l) (clear_slots-set n drvs d)

  clear_slots-again :
      (n : ℕ) (drvs : List (Option (BackendDriver Impl)))
      → clear_slots (suc n) (clear_slots n drvs) ≡ clear_slots (suc n) drvs
  unfolding clear_slots
  clear_slots-again n [] = refl
  clear_slots-again zero (x ∷ drvs) = refl
  clear_slots-again (suc n) (x ∷ drvs) = ap (λ l. none ∷ l) (clear_slots-again n drvs)

  clear_slots-replicate :
      (n room : ℕ) → clear_slots {Impl = Impl} n (replicate room none) ≡ replicate room none
  unfolding clear_slots
  clear_slots-replicate n zero = refl
  clear_slots-replicate zero (suc room) = refl
  clear_slots-replicate (suc n) (suc room) = ap (λ l. none ∷ l) (clear_slots-replicate n room)

  -- All drivers of an array are in its first `n` slots.
  abbrev IsWithin : ℕ → List (Option (BackendDriver Impl)) → Type 0
  IsWithin n drvs = clear_slots n drvs ≡ replicate max_backends none

  IsWithin-next :
      (n : ℕ) (drvs : List (Option (BackendDriver Impl))) (d : Option (BackendDriver Impl))
      → IsWithin n drvs
      → IsWithin (n + 1) (set drvs n d)
  IsWithin-next n drvs d h =
      subst (λ m. IsWithin m (set drvs n d)) (step n)
        (clear_slots-set n drvs d
          ∙ sym (clear_slots-again n drvs)
          ∙ ap (clear_slots (suc n)) h
          ∙ clear_slots-replicate (suc n) max_backends)
    where
      step : (k : ℕ) → suc k ≡ k + 1
      step k = omega arith

  -- The statements behind the label `cleanup` leave no driver.
  clean_up-NoDrivers :
      (rt : Runtime Impl) (drvs : List (Option (BackendDriver Impl))) (n : ℕ)
      → rt.backends ≡ some drvs
      → rt.backend_count ≡ n
      → IsWithin n drvs
      → NoDrivers (clean_up (ltb 0 n) rt)
  unfolding cleanup_backends
  clean_up-NoDrivers rt drvs zero held count h = record {
    slots = held ∙ ap some (sym (clear_slots-zero drvs) ∙ h);
    number = count;
  }
  clean_up-NoDrivers rt drvs (suc n) held count h =
      let some_driver : true ≡ ltb 0 (suc n) = ground arith in
      subst (λ b. NoDrivers (clean_up b rt)) some_driver
        (record {
          slots =
              ap₂
                (λ o c. elim o as (λ t. Option (List (Option (BackendDriver Impl)))) [
                  | none ↦ none
                  | some d ↦ some (clear_slots c d)
                ])
                held count
              ∙ ap some h;
          number = refl;
        })

module _ {Impl : Type 0} (descs : List (Option DeviceDesc))
    (factories : List (BackendFactoryEntry Impl)) where
  build_backends-IsWithin :
      (devices : List DeviceConfig) (i : ℕ) (cfgs : List BackendConfig)
      (drvs : List (Option (BackendDriver Impl)))
      → IsWithin i drvs
      → IsWithin
          (build_backends descs factories devices i cfgs drvs).1.0
          (build_backends descs factories devices i cfgs drvs).0
  unfolding build_backends
  build_backends-IsWithin devices i [] drvs h = h
  build_backends-IsWithin devices i (cfg ∷ cfgs) drvs h =
      elim (Option-cases (new_driver descs factories devices i cfg)) [
        | inl e ↦ ground (arith, h)
        | inr (created, e) ↦
            let drv = (set_up descs factories created.0 devices created.1).0 in
            let next = IsWithin-next i drvs (some drv) h in
            let rest = build_backends-IsWithin devices (i + 1) cfgs (set drvs i (some drv)) next in
            elim (Bool-cases (set_up descs factories created.0 devices created.1).1) [
              | inl done ↦ ground (arith, rest)
              | inr undone ↦ ground (arith, next)
            ]
      ]

  build_fails :
      (config : SystemConfig) (cfgs : List BackendConfig) (devices : List DeviceConfig)
      (rt : Runtime Impl)
      → (build descs factories config cfgs devices rt).1 ≡ false
      → NoDrivers (build descs factories config cfgs devices rt).0
  unfolding build
  build_fails config cfgs devices rt bad =
      let b = build_backends descs factories devices 0 cfgs (replicate max_backends none) in
      let rt₁ : Runtime Impl = record rt { backends = some b.0; backend_count = b.1.0 } in
      let rt₂ : Runtime Impl = (build_tags descs factories config cfgs devices rt₁).0 in
      let same = build_tags-SameDrivers descs factories config cfgs devices rt₁ in
      let within : IsWithin b.1.0 b.0 =
        build_backends-IsWithin devices 0 cfgs (replicate max_backends none)
          (clear_slots-zero (replicate max_backends none)) in
      let early = clean_up-NoDrivers rt₁ b.0 b.1.0 refl refl within in
      let late = clean_up-NoDrivers rt₂ b.0 b.1.0 same.slots same.number within in
      elim (Bool-cases b.1.1) [
        | inl made ↦ elim (Bool-cases (build_tags descs factories config cfgs devices rt₁).1) [
          | inl done ↦ absurd (ground arith)
          | inr undone ↦ subst NoDrivers (ground arith) late
        ]
        | inr unmade ↦ subst NoDrivers (ground arith) early
      ]

  -- A `system_build` that fails leaves the runtime as it was, or without any driver: all slots of the
  -- driver array are empty and the number of drivers is 0, whichever stage failed.
  pub system_build-fails :
      (config : SystemConfig) (rt : Runtime Impl)
      → (system_build descs factories config rt).1 ≡ false
      → ((system_build descs factories config rt).0 ≡ rt)
        ⊎ NoDrivers (system_build descs factories config rt).0
  system_build-fails config rt h = elim (system_build_same descs factories config rt) [
    | inl e ↦ inl (ap (λ p. p.0) e)
    | inr (cfgs, devices, e, e', few, is) ↦ inr (
        subst (λ p. NoDrivers p.0) (sym is)
          (build_fails config cfgs devices rt (ap (λ p. p.1) (sym is) ∙ h)))
  ]
