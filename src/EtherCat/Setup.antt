-- ===== src/EtherCat/Setup.antt =====
-- backends/ethercat/ec_backend.c: creation of an EtherCAT driver, its devices, and their mapping.
--
-- What the host gives is a parameter: `memory k` says whether the `k`-th `calloc` of a call succeeds.
pub mod Laws
use plcmaster.Prelude.{
  ℕ, ◌-◌, ◌*◌, ◌/◌, ◌%◌, ◌^◌, Bool, true, false, ◌||◌, ◌&&◌, not, Option, none, some, List, [], ◌∷◌,
  ◌++◌, if◌then◌else◌, ltb, leb, ◌==◌, length, take, replicate, CString, codes,
}
use plcmaster.Device.{DeviceConfig, DeviceDesc}
use plcmaster.Backend.{BackendConfig}
use plcmaster.EtherCat.{EthercatDevice, EthercatSettings, EthercatDriver, absent}
use plcmaster.EtherCat.Soem.{Soem, is_negative, close, context_init}
use plcmaster.EtherCat.Rt.{or_default}

-- What the driver uses of the operating system.
pub record Host : Type 0 where
  pub memory : ℕ → Bool
  pub thread_made : Bool
  pub perf_freq : ℕ
  pub print_unsigned : ℕ → CString

-- `EC_MAX_IFNAME_LEN`
abbrev pub max_ifname_len : ℕ
max_ifname_len = 63

-- `sizeof(impl->base.name)` and `sizeof(impl->base.system_name)`
abbrev pub field_size : ℕ
field_size = 16

-- The period of the thread: as configured, or from the cycle time, or a millisecond.
unfoldable pub period_of : BackendConfig → ℕ
period_of cfg =
    if not (cfg.period_ns == 0)
    then cfg.period_ns
    else if not (cfg.cycle_time_us == 0)
    then cfg.cycle_time_us * 1000
    else 1000000

-- The priority, HIGH where the configured one is outside the enumeration from -1 to 2.
unfoldable pub priority_of : BackendConfig → ℕ
priority_of cfg =
    if ltb 2 cfg.rt_priority && ltb cfg.rt_priority (2 ^ 32 - 1) then 1 else cfg.rt_priority

unfoldable pub affinity_of : BackendConfig → ℕ
affinity_of cfg =
    let own =
      if is_negative cfg.rt_affinity_cpu && not (is_negative cfg.rt_reserved_cpu)
      then cfg.rt_reserved_cpu
      else cfg.rt_affinity_cpu in
    if is_negative own then 2 ^ 32 - 1 else own

-- How many passes of the thread lie between two checks of the state, 1 at least before the cut to 32
-- bits.
unfoldable pub check_cycles : ℕ → ℕ → ℕ
check_cycles period_ms period_ns =
    let cycles = period_ms * 1000000 / period_ns in (if cycles == 0 then 1 else cycles) % 2 ^ 32

-- The members that `ethercat_backend_create` sets from the configuration.
unfoldable pub settings_of : Host → BackendConfig → CString → ℕ → ℕ → EthercatSettings
unfolding period_of priority_of affinity_of check_cycles
settings_of host cfg ifname max_devices backend_index =
    let period = period_of cfg in
    let check_ms = or_default cfg.state_check_period_ms 200 in
    record {
      name = elim cfg.name [ none ↦ [] | some name ↦ take (field_size - 1) name ];
      system_name = take (field_size - 1) (codes "ec" ++ host.print_unsigned backend_index);
      ifname = ifname;
      dc_clock = cfg.dc_clock;
      cycle_time_us = or_default cfg.cycle_time_us (period / 1000 % 2 ^ 32);
      period_ns = period;
      spin_threshold_ns = or_default cfg.spin_threshold_ns 50000;
      wkc_warn_threshold = or_default cfg.wkc_warn_threshold 2;
      wkc_fail_threshold = or_default cfg.wkc_fail_threshold 10;
      warmup_cycles = or_default cfg.warmup_cycles 20;
      state_check_period_cycles = check_cycles check_ms period;
      state_check_period_ms = check_ms;
      device_capacity = max_devices;
      priority = priority_of cfg;
      affinity_cpu = affinity_of cfg;
      timer_resolution_ms = or_default cfg.rt_timer_resolution_ms 1;
    }

module _ {Ctx : Type 0} (soem : Soem Ctx) (host : Host) where
  -- `ethercat_backend_create`; the driver's memory is cleared first.
  unfoldable pub ethercat_backend_create : BackendConfig → ℕ → ℕ → ℕ → Option (EthercatDriver Ctx)
  unfolding settings_of context_init
  ethercat_backend_create cfg iomap_size max_devices backend_index = elim cfg.ifname [
    | none ↦ none
    | some ifname ↦
        let settings = settings_of host cfg ifname max_devices backend_index in
        let (ctx, opened) = context_init soem soem.blank ifname in
        if not (host.memory 0 && host.memory 1)
        then none
        else if ltb max_ifname_len (length ifname)
        then none
        else if not opened
        then none
        else some (record {
          settings = settings;
          ctx = ctx;
          iomap = none;
          iomap_size = iomap_size;
          expected_wkc = 0;
          devices = [];
          perf_freq = 0;
          rt_cycle_us = settings.period_ns / 1000 % 2 ^ 32;
          rt_thread = absent;
          rt_should_run = false;
          rt_is_running = false;
          last_wkc = 0;
          fault_latched = 0;
          ec_state = 0;
          dowkccheck = 0;
          state_check_cycle_ctr = 0;
          active_in_buffer_idx = 0;
          active_out_buffer_idx = 0;
          rt_out_buffer_idx = 0;
          plc_in_buffer_idx = 0;
          in_op = false;
          stats = record {
            cycle_count = 0;
            overruns = 0;
            jitter_current_ns = 0;
            jitter_min_ns = 0;
            jitter_max_ns = 0;
          };
        })
  ]

  -- `ethercat_init`
  unfoldable pub ethercat_init : EthercatDriver Ctx → EthercatDriver Ctx × Bool
  ethercat_init d =
      let (ctx, slave_count) = soem.config_init d.ctx in
      let scanned = record d { perf_freq = host.perf_freq; ctx = ctx } in
      let size = or_default d.iomap_size 4096 in
      if is_negative slave_count || slave_count == 0
      then (scanned, false)
      else if host.memory 0
      then (record scanned { iomap_size = size; iomap = some (replicate size 0) }, true)
      else (record scanned { iomap_size = size; iomap = none }, false)

  -- `free_driver_resources`
  unfoldable pub free_driver_resources : EthercatDriver Ctx → EthercatDriver Ctx
  unfolding close
  free_driver_resources d = record d {
    ctx = close soem d.ctx;
    iomap = none;
    iomap_size = 0;
    devices = [];
    settings = record d.settings { device_capacity = 0 };
  }

-- Whether a device is bound at a position of the bus.
unfoldable pub is_bound : ℕ → List EthercatDevice → Bool
is_bound pos [] = false
is_bound pos (dev ∷ devs) = dev.slave_index == pos || is_bound pos devs

-- A device before its mapping.
abbrev pub new_device : DeviceConfig → DeviceDesc → ℕ → EthercatDevice
new_device cfg desc pos = record {
  cfg = cfg;
  desc = desc;
  slave_index = pos;
  soem_inputs = none;
  soem_outputs = none;
  in_buffers = record { first = none; second = none };
  out_buffers = record { first = none; second = none };
  in_size = 0;
  out_size = 0;
}

module _ {Ctx : Type 0} (soem : Soem Ctx) where
  -- Whether a position is behind the slaves that the scan found, where it found some.
  abbrev pub beyond : Ctx → ℕ → Bool
  beyond ctx pos =
      let found = soem.slavecount ctx in
      not (is_negative found) && not (found == 0) && ltb found pos

  -- `ethercat_bind_device`
  unfoldable pub ethercat_bind_device :
      EthercatDriver Ctx → DeviceConfig → DeviceDesc → EthercatDriver Ctx × Bool
  unfolding is_bound
  ethercat_bind_device d cfg desc =
      let pos = cfg.expected_position in
      if leb d.settings.device_capacity (length d.devices)
      then (d, false)
      else if pos == 0 || beyond d.ctx pos
      then (d, false)
      else if is_bound pos d.devices
      then (d, false)
      else (
        record d {
          devices = d.devices ++ new_device cfg desc pos ∷ [];
          ctx = soem.set_hook d.ctx pos desc.hooks.on_init;
        },
        true,
      )
