-- ===== src/Builder/Registry.antt =====
-- core/backend/backend_registry.c, core/device/device_registry.c and system/builder/backend_factories.c:
-- the drivers and the device descriptions that the program is built with.
use plcmaster.Prelude.{
  ℕ, Bool, true, false, Option, none, some, List, [], ◌∷◌, if◌then◌else◌, ◌==◌, CString, str_eq,
}
use plcmaster.Device.{DeviceDesc}
use plcmaster.Backend.{
  BackendType, nothing, ethercat, modbus, unknown, BackendConfig, BackendDriver,
}
use plcmaster.EtherCat.{EthercatDriver}
use plcmaster.EtherCat.Soem.{Soem}
use plcmaster.EtherCat.Setup.{Host, ethercat_backend_create}
use plcmaster.EtherCat.Mapping.{ec_ops}

-- `strcmp(a, b) == 0` where `a` may be NULL, which the program tests first.
abbrev pub is_text : Option CString → CString → Bool
is_text none b = false
is_text (some a) b = str_eq a b

-- The loop of `device_registry_find`; an entry of the list may be NULL.
unfoldable pub find_model : CString → List (Option DeviceDesc) → Option DeviceDesc
find_model model [] = none
find_model model (none ∷ descs) = find_model model descs
find_model model (some desc ∷ descs) =
    let rest = find_model model descs in if is_text desc.model model then some desc else rest

-- `device_registry_find` in the list `g_device_descs`.
unfoldable pub device_registry_find : List (Option DeviceDesc) → Option CString → Option DeviceDesc
unfolding find_model
device_registry_find descs none = none
device_registry_find descs (some model) = find_model model descs

-- The values of `BackendType_t` are compared as numbers.
unfoldable pub same_backend_type : BackendType → BackendType → Bool
same_backend_type nothing nothing = true
same_backend_type ethercat ethercat = true
same_backend_type modbus modbus = true
same_backend_type (unknown m) (unknown n) = m == n
same_backend_type _ _ = false

-- `BackendFactoryEntry_t` but for its name and for `destroy`, which only releases memory. `create` takes
-- the configuration, the size of the process image, the largest number of devices and the index.
pub record BackendFactoryEntry (Impl : Type 0) : Type 0 where
  pub type : BackendType
  pub create : Option (BackendConfig → ℕ → ℕ → ℕ → Option (BackendDriver Impl))

module _ {Impl : Type 0} where
  -- `backend_registry_find_factory` in the list `g_backend_factories`
  unfoldable pub backend_registry_find_factory :
      BackendType → List (BackendFactoryEntry Impl) → Option (BackendFactoryEntry Impl)
  unfolding same_backend_type
  backend_registry_find_factory type [] = none
  backend_registry_find_factory type (f ∷ fs) =
      let rest = backend_registry_find_factory type fs in
      if same_backend_type f.type type then some f else rest

  -- `backend_create`
  unfoldable pub backend_create :
      List (BackendFactoryEntry Impl) → BackendConfig → ℕ → ℕ → ℕ → Option (BackendDriver Impl)
  unfolding backend_registry_find_factory same_backend_type
  backend_create factories cfg backend_index max_devices iomap_size_hint =
      if same_backend_type cfg.type nothing
      then none
      else elim (backend_registry_find_factory cfg.type factories) [
        | none ↦ none
        | some f ↦ elim f.create [
          | none ↦ none
          | some create ↦ create cfg iomap_size_hint max_devices backend_index
        ]
      ]

-- `g_backend_factories`: the EtherCAT driver alone.
unfoldable pub backend_factories :
    {Ctx : Type 0} → Soem Ctx → Host → List (BackendFactoryEntry (EthercatDriver Ctx))
unfolding ethercat_backend_create ec_ops
backend_factories soem host =
    record {
      type = ethercat;
      create = some (λ cfg iomap_size max_devices index.
          elim (ethercat_backend_create soem host cfg iomap_size max_devices index) [
            | none ↦ none
            | some d ↦ some (record { ops = some (ec_ops soem host); impl = d })
          ]);
    }
    ∷ []
