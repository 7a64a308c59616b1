-- ===== src/Tests/Builder.antt =====
-- A configuration of one EtherCAT backend with two devices of one model.
use plcmaster.Prelude.{
  ℕ, ◌+◌, ◌≡◌, ◌⊎◌, refl, true, false, Option, none, some, List, [], ◌∷◌, get_elem?, str_eq, codes,
  arith,
}
use plcmaster.Tag.{TagType, bool, u8, u16, output}
use plcmaster.Tag.Table
use plcmaster.Tag.Table.{contains, add_named, find_from}
use plcmaster.Tag.Table.Laws.{IsValid}
use plcmaster.Tag.Io.{io_in_range}
use plcmaster.Device.{TagDesc, DeviceDesc, DeviceConfig}
use plcmaster.Backend.{ethercat, BackendConfig, BackendDriver}
use plcmaster.Runtime.{Runtime}
use plcmaster.StoreInit.{ProcessVarDesc, HmiTagDesc, alias}
use plcmaster.EtherCat.{EthercatDevice, EthercatDriver, free_device_buffers}
use plcmaster.EtherCat.Soem.{context_init, configure_iomap_group0, await_safe_op, request_safe_op}
use plcmaster.EtherCat.Setup.{
  period_of, priority_of, affinity_of, check_cycles, settings_of, ethercat_backend_create,
  ethercat_init, is_bound, ethercat_bind_device,
}
use plcmaster.EtherCat.Mapping.{
  new_buffers, matches, map_device, map_from, free_each, give_up, reset, map_devices,
  ethercat_finalize_mapping, ec_ops,
}
use plcmaster.Builder.{
  SystemConfig, find_backend_from, find_backend_index, find_device_from, find_backend_device_index,
  tag_type_size, io_size_of, validate_at, validate_tag_desc, print_name, io_ref, build_tag,
  add_each, tags_for_device,
}
use plcmaster.Builder.Registry.{
  device_registry_find, find_model, same_backend_type, backend_registry_find_factory,
  backend_create, backend_factories,
}
use plcmaster.Builder.Drivers.{
  check_device, check_devices, image_size, bind_devices, set_up, new_driver, build_backends,
}
use plcmaster.Builder.Stores.{
  put_slot, build_process, process_stage, hmi_entry, build_hmi, hmi_stage,
}
use plcmaster.Builder.System.{
  device_tags, tags_from, clear_slots, cleanup_backends, build_tags, build, system_build,
}
use plcmaster.Builder.System.Failed.{NoDrivers, system_build-fails}
use plcmaster.Builder.System.Named.{IsFound, system_build-IsFound}
use plcmaster.Builder.System.Filled.{Filled, system_build-Filled}
use plcmaster.Builder.Validate.{validate_tag_desc-in_range, validate_tag_desc-wraps}
use plcmaster.Builder.Bound.{bind_devices-index}
use plcmaster.Tests.EtherCat.{bus, host, first_bound, unmapped, desc_of}

abbrev tag_at : ℕ → TagType → ℕ → TagDesc
tag_at offset type bit = record {
  name = some (codes "out");
  dir = output;
  type = type;
  offset_byte = offset;
  bit_index = bit;
  iec_alias = none;
  comment = none;
}

abbrev desc : DeviceDesc
desc = record (desc_of 230 2 2) { tags = tag_at 1 bool 3 ∷ [] }

abbrev device_at : ℕ → DeviceConfig
device_at pos = record {
  name = some ((48 + pos) ∷ []);
  model = some (codes "M");
  backend = some (codes "main");
  expected_position = pos;
  io_addr = pos;
  vendor_id = 0;
  product_code = 0;
}

-- A second model, of one output byte.
abbrev small_desc : DeviceDesc
small_desc = record (desc_of 400 1 0) {
  model = some (codes "N");
  tags = record (tag_at 0 u8 0) { name = some (codes "lamp") } ∷ [];
}

abbrev small_device : DeviceConfig
small_device = record (device_at 2) { model = some (codes "N") }

abbrev descs : List (Option DeviceDesc)
descs = none ∷ some desc ∷ some small_desc ∷ []

abbrev backend_cfg : BackendConfig
backend_cfg = record {
  type = ethercat;
  name = some (codes "main");
  ifname = some (codes "eth0");
  cycle_time_us = 1000;
  dc_clock = false;
  period_ns = 0;
  spin_threshold_ns = 0;
  rt_priority = 1;
  rt_affinity_cpu = 0;
  rt_reserved_cpu = 0;
  rt_timer_resolution_ms = 1;
  wkc_warn_threshold = 0;
  wkc_fail_threshold = 0;
  warmup_cycles = 0;
  state_check_period_ms = 0;
}

abbrev speed : ProcessVarDesc
speed = record { name = codes "speed"; type = u16; initial = []; retain = false }

abbrev shown : HmiTagDesc
shown = record { name = codes "speed"; access = 0; body = alias (some (codes "proc.speed")) }

abbrev config : SystemConfig
config = record {
  backends = some (backend_cfg ∷ []);
  devices = some (device_at 1 ∷ small_device ∷ []);
  process_vars = some (speed ∷ []);
  process_var_count = 1;
  hmi_tags = some (shown ∷ []);
  hmi_tag_count = 1;
  plc_scheduler_base_cycle_ms = 10;
}

abbrev empty_runtime : Runtime (EthercatDriver ℕ)
empty_runtime = record {
  tag_table = record { entries = [] };
  proc_store = record { values = []; count = 0 };
  hmi_store = record { values = []; count = 0 };
  backends = none;
  backend_count = 0;
}

bind_made :
    bind_devices descs
      (backend_factories (bus 3) host)
      (ethercat_bind_device (bus 3))
      (codes "main")
      (device_at 1 ∷ device_at 2 ∷ [])
      (record first_bound { devices = [] })
    ≡ (
      record first_bound {
        devices =
            record (unmapped 1 desc) { cfg = device_at 1 }
            ∷ record (unmapped 2 desc) { cfg = device_at 2 }
            ∷ [];
      },
      true,
    )
unfolding bind_devices ethercat_bind_device is_bound device_registry_find find_model str_eq
bind_made = refl

index_found :
    find_backend_device_index (device_at 1 ∷ device_at 2 ∷ []) 1 (some (codes "main")) ≡ some 1
unfolding find_backend_device_index find_device_from str_eq
index_found = refl

bind_devices-index_example :
    (dev : EthercatDevice) × (get_elem?
        (record (unmapped 1 desc) { cfg = device_at 1 }
          ∷ record (unmapped 2 desc) { cfg = device_at 2 }
          ∷ [])
        1
      ≡ some dev)
    × (get_elem? (device_at 1 ∷ device_at 2 ∷ []) 1 ≡ some dev.cfg)
bind_devices-index_example =
    bind_devices-index (bus 3) descs (backend_factories (bus 3) host) (codes "main")
      (device_at 1 ∷ device_at 2 ∷ []) (record first_bound { devices = [] })
      (record first_bound {
        devices =
            record (unmapped 1 desc) { cfg = device_at 1 }
            ∷ record (unmapped 2 desc) { cfg = device_at 2 }
            ∷ [];
      })
      1 1 refl (omega arith) bind_made index_found

validate_tag_desc-in_range_example :
    (size : ℕ) × (io_size_of output desc ≡ some size)
    × (io_in_range (io_ref 0 1 (tag_at 1 bool 3)) bool size ≡ true)
unfolding tag_type_size validate_tag_desc validate_at
validate_tag_desc-in_range_example =
    validate_tag_desc-in_range (tag_at 1 bool 3) desc 0 1 (omega arith) refl

validate_tag_desc-wraps_example :
    (validate_tag_desc (tag_at 4294967295 u16 0) desc ≡ true)
    × (io_in_range (io_ref 0 1 (tag_at 4294967295 u16 0)) u16 2 ≡ false)
unfolding tag_type_size
validate_tag_desc-wraps_example =
    validate_tag_desc-wraps (tag_at 4294967295 u16 0) desc (codes "out") 2 0 1 refl refl (record {
      number = λ e. omega arith;
      bit = refl;
      some_data = λ e. omega arith;
      data_fits = omega arith;
      offset_fits = omega arith;
      end_wraps = omega arith;
      end_small = omega arith;
    })

empty-IsValid : IsValid empty_runtime.tag_table
empty-IsValid = record { fits = omega arith; names = λ k e at. cc; unique = λ j k d e n at. cc }

-- An alias of a tag that is not in the table.
abbrev bad_config : SystemConfig
bad_config = record config {
  hmi_tags = some (record shown { body = alias (some (codes "1.out")) } ∷ []);
}

refused : (system_build descs (backend_factories (bus 3) host) bad_config empty_runtime).1 ≡ false
unfolding system_build check_devices check_device find_backend_index find_backend_from
    device_registry_find find_model str_eq image_size new_driver backend_create
    backend_registry_find_factory same_backend_type backend_factories ethercat_backend_create
    settings_of period_of priority_of affinity_of check_cycles context_init set_up bind_devices
    ec_ops ethercat_init ethercat_bind_device is_bound ethercat_finalize_mapping
    configure_iomap_group0 map_devices map_from map_device matches new_buffers reset request_safe_op
    await_safe_op build build_backends build_tags process_stage build_process print_name hmi_stage
    build_hmi hmi_entry put_slot Table.add contains add_named Table.find_id find_from Table.get
    tags_from device_tags tags_for_device add_each build_tag validate_tag_desc validate_at
    tag_type_size find_backend_device_index find_device_from cleanup_backends clear_slots give_up
    free_each free_device_buffers
refused = refl

system_build-fails_example :
    ((system_build descs (backend_factories (bus 3) host) bad_config empty_runtime).0
      ≡ empty_runtime)
    ⊎ NoDrivers (system_build descs (backend_factories (bus 3) host) bad_config empty_runtime).0
system_build-fails_example =
    system_build-fails descs (backend_factories (bus 3) host) bad_config empty_runtime refused

built_ok : (system_build descs (backend_factories (bus 3) host) config empty_runtime).1 ≡ true
unfolding system_build check_devices check_device find_backend_index find_backend_from
    device_registry_find find_model str_eq image_size new_driver backend_create
    backend_registry_find_factory same_backend_type backend_factories ethercat_backend_create
    settings_of period_of priority_of affinity_of check_cycles context_init set_up bind_devices
    ec_ops ethercat_init ethercat_bind_device is_bound ethercat_finalize_mapping
    configure_iomap_group0 map_devices map_from map_device matches new_buffers reset request_safe_op
    await_safe_op build build_backends build_tags process_stage build_process print_name hmi_stage
    build_hmi hmi_entry put_slot Table.add contains add_named Table.find_id find_from Table.get
    tags_from device_tags tags_for_device add_each build_tag validate_tag_desc validate_at
    tag_type_size find_backend_device_index find_device_from cleanup_backends clear_slots give_up
    free_each free_device_buffers
built_ok = refl

system_build-Filled_example :
    ((system_build descs (backend_factories (bus 3) host) config empty_runtime).0.backend_count ≡ 1)
    × (drvs : List (Option (BackendDriver (EthercatDriver ℕ)))) × ((system_build descs
          (backend_factories (bus 3) host)
          config
          empty_runtime).0.backends
        ≡ some drvs)
    × Filled drvs 1
system_build-Filled_example =
    system_build-Filled descs (backend_factories (bus 3) host) config (backend_cfg ∷ [])
      empty_runtime refl built_ok

system_build-IsFound_example :
    IsFound
      (system_build descs (backend_factories (bus 3) host) config empty_runtime).0.tag_table
      0
      speed
system_build-IsFound_example =
    system_build-IsFound descs (backend_factories (bus 3) host) config empty_runtime (speed ∷ []) 0
      speed empty-IsValid built_ok refl refl
