-- ===== src/Builder/System.antt =====
-- system/builder/system_builder.c: `system_build`.
--
-- What a driver does when it is destroyed is not seen by the runtime.
pub mod Laws
pub mod Outcome
pub mod Filled
pub mod Failed
pub mod Named
use plcmaster.Prelude.{
  ℕ, zero, suc, ◌+◌, Bool, true, false, ◌||◌, not, Option, none, some, List, [], ◌∷◌, if◌then◌else◌,
  ltb, ◌==◌, length, replicate,
}
use plcmaster.Tag.Table.{TagTable}
use plcmaster.Device.{DeviceDesc, DeviceConfig}
use plcmaster.Backend.{BackendConfig, BackendDriver}
use plcmaster.Runtime.{Runtime, max_backends}
use plcmaster.Builder.{SystemConfig, find_backend_index, find_backend_device_index, tags_for_device}
use plcmaster.Builder.Registry.{device_registry_find, BackendFactoryEntry}
use plcmaster.Builder.Drivers.{check_devices, build_backends}
use plcmaster.Builder.Stores.{process_stage, hmi_stage}

-- The turn of the last loop for the device with an index.
unfoldable pub device_tags :
    List (Option DeviceDesc)
    → List BackendConfig
    → List DeviceConfig
    → ℕ
    → DeviceConfig
    → TagTable
    → TagTable × Bool
unfolding device_registry_find find_backend_index find_backend_device_index tags_for_device
device_tags descs cfgs devices index cfg t = elim (device_registry_find descs cfg.model) [
  | none ↦ (t, false)
  | some desc ↦ elim (find_backend_index cfgs cfg.backend) [
    | none ↦ (t, false)
    | some backend_index ↦ elim (find_backend_device_index devices index cfg.backend) [
      | none ↦ (t, false)
      | some device_index ↦ tags_for_device cfg backend_index device_index desc t
    ]
  ]
]

-- The loop over the devices from index `i` on.
unfoldable pub tags_from :
    List (Option DeviceDesc)
    → List BackendConfig
    → List DeviceConfig
    → ℕ
    → List DeviceConfig
    → TagTable
    → TagTable × Bool
unfolding device_tags
tags_from descs cfgs devices i [] t = (t, true)
tags_from descs cfgs devices i (cfg ∷ left) t =
    let (t', done) = device_tags descs cfgs devices i cfg t in
    let rest = tags_from descs cfgs devices (i + 1) left t' in if done then rest else (t', false)

module _ {Impl : Type 0} where
  -- The loop of `cleanup_backends` over `backend_array`, with `count` drivers to go.
  unfoldable pub clear_slots :
      ℕ → List (Option (BackendDriver Impl)) → List (Option (BackendDriver Impl))
  clear_slots count [] = []
  clear_slots zero (drv ∷ drvs) = drv ∷ drvs
  clear_slots (suc count) (drv ∷ drvs) = none ∷ clear_slots count drvs

  unfoldable pub cleanup_backends : Runtime Impl → Runtime Impl
  unfolding clear_slots
  cleanup_backends rt = record rt {
    backends = elim rt.backends [
      | none ↦ none
      | some drvs ↦ some (clear_slots rt.backend_count drvs)
    ];
    backend_count = 0;
  }

  -- The statements behind the label `cleanup`.
  abbrev pub clean_up : Bool → Runtime Impl → Runtime Impl
  clean_up backends_initialized rt = if backends_initialized then cleanup_backends rt else rt

module _ {Impl : Type 0} (descs : List (Option DeviceDesc))
    (factories : List (BackendFactoryEntry Impl)) where
  -- The stages after the drivers.
  unfoldable pub build_tags :
      SystemConfig → List BackendConfig → List DeviceConfig → Runtime Impl → Runtime Impl × Bool
  unfolding process_stage hmi_stage tags_from
  build_tags config cfgs devices rt =
      let (rt₁, procs) = process_stage config rt in
      let (rt₂, hmis) = hmi_stage config rt₁ in
      let (t, tags) = tags_from descs cfgs devices 0 devices rt₂.tag_table in
      if not procs
      then (rt₁, false)
      else if not hmis
      then (rt₂, false)
      else (record rt₂ { tag_table = t }, tags)

  -- `system_build` from the creation of the drivers on. `backends_initialized` is set with the first
  -- driver.
  unfoldable pub build :
      SystemConfig → List BackendConfig → List DeviceConfig → Runtime Impl → Runtime Impl × Bool
  unfolding build_backends build_tags cleanup_backends
  build config cfgs devices rt =
      let (drvs, (n, made)) =
        build_backends descs factories devices 0 cfgs (replicate max_backends none) in
      let rt₁ = record rt { backends = some drvs; backend_count = n } in
      let (rt₂, done) = build_tags config cfgs devices rt₁ in
      let backends_initialized = ltb 0 n in
      if not made
      then (clean_up backends_initialized rt₁, false)
      else if not done
      then (clean_up backends_initialized rt₂, false)
      else (rt₂, true)

  unfoldable pub system_build : SystemConfig → Runtime Impl → Runtime Impl × Bool
  unfolding check_devices build
  system_build config rt = elim config.backends [
    | none ↦ (rt, false)
    | some cfgs ↦ elim config.devices [
      | none ↦ (rt, false)
      | some devices ↦
          if length cfgs == 0 || length devices == 0
          then (rt, false)
          else if not (check_devices descs cfgs devices)
          then (rt, false)
          else if ltb max_backends (length cfgs)
          then (rt, false)
          else build config cfgs devices rt
    ]
  ]
