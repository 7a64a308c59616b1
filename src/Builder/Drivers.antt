-- ===== src/Builder/Drivers.antt =====
-- system/builder/system_builder.c: the drivers of `system_build`.
--
-- A stage gives whether it succeeded; its failure is the jump to `cleanup`.
use plcmaster.Prelude.{
  ℕ, ◌+◌, Bool, true, false, ◌&&◌, not, Option, none, some, List, [], ◌∷◌, if◌then◌else◌, ◌==◌,
  length, set, CString,
}
use plcmaster.Device.{DeviceDesc, DeviceConfig}
use plcmaster.Backend.{BackendConfig, BackendDriver}
use plcmaster.Builder.{find_backend_index}
use plcmaster.Builder.Registry.{is_text, device_registry_find, BackendFactoryEntry, backend_create}

-- The test whether a device names a configured backend and a known model.
unfoldable pub check_device : List (Option DeviceDesc) → List BackendConfig → DeviceConfig → Bool
unfolding find_backend_index device_registry_find
check_device descs cfgs cfg = elim cfg.backend [
  | none ↦ false
  | some name ↦
      elim (find_backend_index cfgs (some name)) [ none ↦ false | some i ↦ true ]
      && elim (device_registry_find descs cfg.model) [ none ↦ false | some desc ↦ true ]
]

unfoldable pub check_devices :
    List (Option DeviceDesc) → List BackendConfig → List DeviceConfig → Bool
unfolding check_device
check_devices descs cfgs [] = true
check_devices descs cfgs (cfg ∷ devices) =
    check_device descs cfgs cfg && check_devices descs cfgs devices

-- The size that the loop over the devices adds up, `none` for a model that is not known.
unfoldable pub image_size : List (Option DeviceDesc) → CString → List DeviceConfig → ℕ → Option ℕ
unfolding device_registry_find
image_size descs name [] size = some size
image_size descs name (cfg ∷ devices) size = elim (device_registry_find descs cfg.model) [
  | none ↦ none
  | some desc ↦
      image_size descs name devices
        (if is_text cfg.backend name then size + desc.rx_bytes + desc.tx_bytes + 1 else size)
]

module _ {Impl : Type 0} (descs : List (Option DeviceDesc))
    (factories : List (BackendFactoryEntry Impl)) where
  -- The loop that binds the devices of a backend to its driver.
  unfoldable pub bind_devices :
      (Impl → DeviceConfig → DeviceDesc → Impl × Bool)
      → CString
      → List DeviceConfig
      → Impl
      → Impl × Bool
  unfolding device_registry_find
  bind_devices bind name [] impl = (impl, true)
  bind_devices bind name (cfg ∷ devices) impl = elim (device_registry_find descs cfg.model) [
    | none ↦ (impl, false)
    | some desc ↦
        let (impl', done) = bind impl cfg desc in
        let rest = bind_devices bind name devices impl' in
        let skip = bind_devices bind name devices impl in
        if is_text cfg.backend name then if done then rest else (impl', false) else skip
  ]

  -- `init`, the bindings and `finalize` of a driver that has been created.
  unfoldable pub set_up :
      CString → List DeviceConfig → BackendDriver Impl → BackendDriver Impl × Bool
  unfolding bind_devices
  set_up name devices drv = elim drv.ops [
    | none ↦ (drv, false)
    | some ops ↦ elim ops.init [
      | none ↦ (drv, false)
      | some init ↦ elim ops.bind [
        | none ↦ (drv, false)
        | some bind ↦ elim ops.finalize [
          | none ↦ (drv, false)
          | some finalize ↦
              let (i₁, inited) = init drv.impl in
              let (i₂, bound) = bind_devices bind name devices i₁ in
              let (i₃, final) = finalize i₂ in
              if not inited
              then (record drv { impl = i₁ }, false)
              else if not bound
              then (record drv { impl = i₂ }, false)
              else (record drv { impl = i₃ }, final)
        ]
      ]
    ]
  ]

  -- The driver array with a driver in slot `i`.
  abbrev with_driver :
      List (Option (BackendDriver Impl))
      → ℕ
      → BackendDriver Impl
      → List (Option (BackendDriver Impl))
  with_driver drvs i drv = set drvs i (some drv)

  -- The driver of one backend, `none` where none is created.
  unfoldable pub new_driver :
      List DeviceConfig → ℕ → BackendConfig → Option (CString × BackendDriver Impl)
  unfolding image_size backend_create
  new_driver devices index cfg = elim cfg.name [
    | none ↦ none
    | some name ↦ elim cfg.ifname [
      | none ↦ none
      | some ifname ↦ elim (image_size descs name devices 0) [
        | none ↦ none
        | some size ↦
            elim (backend_create factories cfg index (length devices)
              (if size == 0 then 256 else size)) [ none ↦ none | some drv ↦ some (name, drv) ]
      ]
    ]
  ]

  -- The loop over the backends from index `i` on, which is also the number of drivers so far: the driver
  -- array, the number of drivers, and whether all succeeded.
  unfoldable pub build_backends :
      List DeviceConfig
      → ℕ
      → List BackendConfig
      → List (Option (BackendDriver Impl))
      → List (Option (BackendDriver Impl)) × (ℕ × Bool)
  unfolding new_driver set_up
  build_backends devices i [] drvs = (drvs, (i, true))
  build_backends devices i (cfg ∷ cfgs) drvs = elim (new_driver devices i cfg) [
    | none ↦ (drvs, (i, false))
    | some created ↦
        let (drv', done) = set_up created.0 devices created.1 in
        let rest = build_backends devices (i + 1) cfgs (with_driver drvs i drv') in
        if done then rest else (with_driver drvs i drv', (i + 1, false))
  ]
