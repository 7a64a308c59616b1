-- ===== src/EtherCat/Mapping.antt =====
-- backends/ethercat/ec_backend.c: the mapping of the devices into the process image, and the table of
-- the driver's operations.
pub mod Laws
pub mod Final
use plcmaster.Prelude.{
  ℕ, ◌+◌, ◌/◌, ◌%◌, ◌^◌, Bool, true, false, ◌||◌, ◌&&◌, not, none, some, List, [], ◌∷◌, map,
  if◌then◌else◌, ltb, ◌==◌, replicate,
}
use plcmaster.Backend.{BackendOps}
use plcmaster.EtherCat.{Buffers, EthercatDevice, EthercatDriver, free_device_buffers}
use plcmaster.EtherCat.Soem.{
  Soem, Slave, state_none, state_safe_op, is_negative, configure_iomap_group0, request_safe_op,
}
use plcmaster.EtherCat.Rt.{or_default}
use plcmaster.EtherCat.Ops.{
  fresh_stats, start, stop, process, get_status, cycle_begin, cycle_end, get_input_data,
  get_output_data, store_output,
}
use plcmaster.EtherCat.Setup.{Host, ethercat_init, ethercat_bind_device}

-- The cleared buffers of one size, NULL where there is no memory. `k` counts the calls of `calloc`.
unfoldable pub new_buffers : Host → ℕ → ℕ → Buffers
new_buffers host k size = record {
  first = if host.memory k then some (replicate size 0) else none;
  second = if host.memory (k + 1) then some (replicate size 0) else none;
}

-- Whether a slave is of the expected vendor and product, and has the process data of its description.
unfoldable pub matches : EthercatDevice → Slave → Bool
matches dev sl =
    let vendor = or_default dev.cfg.vendor_id dev.desc.vendor_id in
    let product = or_default dev.cfg.product_code dev.desc.product_code in
    (vendor == 0 || sl.eep_man == vendor)
    && (product == 0 || sl.eep_id == product)
    && not (ltb sl.input_bytes dev.desc.tx_bytes || ltb sl.output_bytes dev.desc.rx_bytes)

module _ {Ctx : Type 0} (soem : Soem Ctx) (host : Host) where
  -- The turn of `ethercat_finalize_mapping` for one device, whose first call of `calloc` is the `k`-th;
  -- `false` is the jump to `error`.
  unfoldable pub map_device : Ctx → ℕ → EthercatDevice → EthercatDevice × Bool
  unfolding matches new_buffers
  map_device ctx k dev =
      let found = soem.slavecount ctx in
      let sl = soem.slave ctx dev.slave_index in
      let placed = record dev { soem_inputs = sl.inputs; soem_outputs = sl.outputs } in
      let sized = record placed {
        in_size = dev.desc.tx_bytes;
        out_size = dev.desc.rx_bytes;
        in_buffers = new_buffers host k dev.desc.tx_bytes;
        out_buffers = new_buffers host (k + 2) dev.desc.rx_bytes;
      } in
      if dev.slave_index == 0 || is_negative found || ltb found dev.slave_index
      then (dev, false)
      else if not (matches dev sl)
      then (placed, false)
      else (
        sized,
        host.memory k && host.memory (k + 1) && host.memory (k + 2) && host.memory (k + 3),
      )

  -- The loop over the devices, which ends at the first that fails.
  unfoldable pub map_from : Ctx → ℕ → List EthercatDevice → List EthercatDevice × Bool
  unfolding map_device
  map_from ctx k [] = ([], true)
  map_from ctx k (dev ∷ devs) =
      let (dev', done) = map_device ctx k dev in
      let (devs', rest) = map_from ctx (k + 4) devs in
      if done then (dev' ∷ devs', rest) else (dev' ∷ devs, false)

-- The statements at `error`.
unfoldable pub free_each : List EthercatDevice → List EthercatDevice
unfolding free_device_buffers
free_each devs = map free_device_buffers devs

module _ {Ctx : Type 0} where
  unfoldable pub give_up : EthercatDriver Ctx → EthercatDriver Ctx × Bool
  unfolding free_each
  give_up d = (record d { devices = free_each d.devices }, false)

  -- The state of a driver whose devices are mapped, before the bus goes to SAFE_OP.
  unfoldable pub reset : EthercatDriver Ctx → EthercatDriver Ctx
  reset d = record d {
    active_in_buffer_idx = 0;
    active_out_buffer_idx = 1;
    rt_out_buffer_idx = 0;
    plc_in_buffer_idx = 0;
    last_wkc = 0;
    fault_latched = 0;
    ec_state = state_none;
    rt_should_run = false;
    rt_is_running = false;
    stats = fresh_stats;
    rt_cycle_us = d.settings.period_ns / 1000 % 2 ^ 32;
  }

module _ {Ctx : Type 0} (soem : Soem Ctx) (host : Host) where
  -- `ethercat_finalize_mapping` from the loop over the devices on.
  unfoldable pub map_devices : EthercatDriver Ctx → EthercatDriver Ctx × Bool
  unfolding map_from give_up reset request_safe_op
  map_devices d =
      let (devs, done) = map_from soem host d.ctx 0 d.devices in
      let mapped = record d { devices = devs } in
      let (ctx, safe) =
        request_safe_op soem (if d.settings.dc_clock then soem.configdc d.ctx else d.ctx) in
      let ready = record (reset mapped) { ctx = ctx } in
      if not done
      then give_up mapped
      else if safe
      then (record ready { ec_state = state_safe_op }, true)
      else give_up ready

  -- `ethercat_finalize_mapping`
  unfoldable pub ethercat_finalize_mapping : EthercatDriver Ctx → EthercatDriver Ctx × Bool
  unfolding configure_iomap_group0 map_devices
  ethercat_finalize_mapping d = elim d.iomap [
    | none ↦ (d, false)
    | some image ↦
        let (ctx, (image', wkc)) = configure_iomap_group0 soem d.ctx image d.iomap_size in
        let asked = record d { ctx = ctx; iomap = some image' } in
        elim wkc [
          | none ↦ (asked, false)
          | some expected ↦ map_devices (record asked { expected_wkc = expected })
        ]
  ]

  -- `g_ec_ops`
  unfoldable pub ec_ops : BackendOps (EthercatDriver Ctx)
  unfolding ethercat_init ethercat_bind_device ethercat_finalize_mapping start stop process
      get_status cycle_begin cycle_end get_input_data get_output_data store_output
  ec_ops = record {
    init = some (ethercat_init soem host);
    bind = some (ethercat_bind_device soem);
    finalize = some ethercat_finalize_mapping;
    start = some (start soem host.thread_made);
    stop = some (stop soem);
    process = some process;
    get_status = some get_status;
    cycle_begin = some cycle_begin;
    cycle_end = some cycle_end;
    get_input_data = some get_input_data;
    get_output_data = some get_output_data;
    store_output = store_output;
  }
