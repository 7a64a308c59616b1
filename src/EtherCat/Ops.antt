-- ===== src/EtherCat/Ops.antt =====
-- backends/ethercat/ec_backend.c: the operations of the EtherCAT driver while it runs.
use plcmaster.Prelude.{
  ℕ, ◌-◌, ◌^◌, Bool, true, false, not, Option, none, some, List, if◌then◌else◌, ltb, ◌==◌,
  get_elem?, set, take, blit,
}
use plcmaster.Backend.{BackendStatus}
use plcmaster.EtherCat.{
  EthercatDevice, EthercatDriver, RtStats, absent, created, ended, looping, buffer, put_buffer,
  clear_at, copy_out_buffers, load_buffer_index, on_image, image_of, zero_output_buffers,
}
use plcmaster.EtherCat.Soem.{
  Soem, state_none, state_safe_op, state_operational, request_op, request_safe_op,
}
use plcmaster.EtherCat.Rt.{exchange, send_zeros, rt_exit}

-- The counters as `ethercat_start` and `ethercat_finalize_mapping` set them.
abbrev pub fresh_stats : RtStats
fresh_stats = record {
  cycle_count = 0;
  overruns = 0;
  jitter_current_ns = 0;
  jitter_min_ns = 2 ^ 64 - 1;
  jitter_max_ns = 0;
}

module _ {Ctx : Type 0} (soem : Soem Ctx) where
  -- The part of `ethercat_start` that brings the bus up.
  unfoldable pub bring_up : EthercatDriver Ctx → EthercatDriver Ctx
  unfolding exchange zero_output_buffers
  bring_up d = exchange soem (
      exchange soem
        (exchange soem (zero_output_buffers (on_image (λ image. clear_at image 0 d.iomap_size) d))))

  -- `ethercat_start`; the first argument says whether the thread can be created.
  unfoldable pub start : Bool → EthercatDriver Ctx → EthercatDriver Ctx × Bool
  unfolding bring_up request_op
  start thread_made d = elim d.iomap [
    | none ↦ (d, false)
    | some image ↦
        let up = bring_up d in
        let (ctx, (image', done)) = request_op soem up.ctx (image_of up) in
        let asked = record (on_image (λ old. image') up) { ctx = ctx } in
        if not done
        then (asked, false)
        else let ready = record asked {
          ec_state = state_operational;
          dowkccheck = 0;
          state_check_cycle_ctr = 0;
          in_op = true;
          fault_latched = 0;
          rt_should_run = true;
          rt_is_running = false;
          stats = fresh_stats;
        } in
          if thread_made
          then (record ready { rt_thread = created }, true)
          else (record ready { in_op = false; rt_should_run = false }, false)
  ]

  -- `plat_thread_join`: the thread, which is in its loop, ends it.
  unfoldable pub join : EthercatDriver Ctx → EthercatDriver Ctx
  unfolding rt_exit
  join d = elim d.rt_thread [ absent ↦ d | created ↦ d | looping l ↦ rt_exit soem d | ended ↦ d ]

  -- `ethercat_stop`
  unfoldable pub stop : EthercatDriver Ctx → EthercatDriver Ctx × Bool
  unfolding join send_zeros request_safe_op
  stop d =
      let told = record d { rt_should_run = false } in
      let joined = if told.rt_is_running then join told else told in
      let zeros = record (send_zeros soem joined) { last_wkc = joined.last_wkc } in
      let (ctx, done) = request_safe_op soem zeros.ctx in
      (
        record zeros {
          ctx = ctx;
          in_op = false;
          ec_state = if done then state_safe_op else state_none;
        },
        done,
      )

-- The device after bytes were stored through the pointer to one of its output buffers.
abbrev pub store_in : EthercatDevice → ℕ → List ℕ → EthercatDevice
store_in dev idx bytes = record dev {
  out_buffers = elim (buffer dev.out_buffers idx) [
    | none ↦ dev.out_buffers
    | some b ↦ put_buffer dev.out_buffers idx (some (blit b 0 bytes))
  ];
}

module _ {Ctx : Type 0} where
  -- `ethercat_process`
  unfoldable pub process : EthercatDriver Ctx → EthercatDriver Ctx × Bool
  process d = (d, true)

  -- `ethercat_cycle_begin`
  unfoldable pub cycle_begin : EthercatDriver Ctx → EthercatDriver Ctx
  unfolding copy_out_buffers
  cycle_begin d =
      let in_idx = load_buffer_index d.active_in_buffer_idx 0 in
      let rt_out_idx = load_buffer_index d.rt_out_buffer_idx 0 in
      let plc_out_idx = load_buffer_index d.active_out_buffer_idx 1 in
      record d {
        active_in_buffer_idx = in_idx;
        plc_in_buffer_idx = in_idx;
        rt_out_buffer_idx = rt_out_idx;
        active_out_buffer_idx = plc_out_idx;
        devices = copy_out_buffers rt_out_idx plc_out_idx d.devices;
      }

  -- `ethercat_cycle_end`
  unfoldable pub cycle_end : EthercatDriver Ctx → EthercatDriver Ctx
  cycle_end d =
      let plc_out = load_buffer_index d.active_out_buffer_idx 1 in
      record d {
        rt_out_buffer_idx = plc_out;
        active_out_buffer_idx =
            if ltb 1 d.rt_out_buffer_idx
            then if plc_out == 0 then 1 else 0
            else d.rt_out_buffer_idx;
      }

  -- `ethercat_get_input_data`
  unfoldable pub get_input_data : EthercatDriver Ctx → ℕ → EthercatDriver Ctx × Option (List ℕ)
  get_input_data d device_index = elim (get_elem? d.devices device_index) [
    | none ↦ (d, none)
    | some dev ↦
        let lost = ltb 1 d.plc_in_buffer_idx in
        let active = load_buffer_index d.active_in_buffer_idx 0 in
        let idx = if lost then active else d.plc_in_buffer_idx in
        (
          record d {
            plc_in_buffer_idx = idx;
            active_in_buffer_idx = if lost then active else d.active_in_buffer_idx;
          },
          elim (buffer dev.in_buffers idx) [ none ↦ none | some b ↦ some (take dev.in_size b) ],
        )
  ]

  -- `ethercat_get_output_data`
  unfoldable pub get_output_data : EthercatDriver Ctx → ℕ → EthercatDriver Ctx × Option (List ℕ)
  get_output_data d device_index = elim (get_elem? d.devices device_index) [
    | none ↦ (d, none)
    | some dev ↦
        let idx = load_buffer_index d.active_out_buffer_idx 1 in
        (
          record d { active_out_buffer_idx = idx },
          elim (buffer dev.out_buffers idx) [ none ↦ none | some b ↦ some (take dev.out_size b) ],
        )
  ]

  -- Stores through the pointer that `ethercat_get_output_data` gave.
  unfoldable pub store_output : EthercatDriver Ctx → ℕ → List ℕ → EthercatDriver Ctx
  store_output d device_index bytes = elim (get_elem? d.devices device_index) [
    | none ↦ d
    | some dev ↦ record d {
      devices =
          set d.devices device_index
            (store_in dev (load_buffer_index d.active_out_buffer_idx 1) bytes);
    }
  ]

  -- `ethercat_get_status`
  unfoldable pub get_status :
      EthercatDriver Ctx → BackendStatus → EthercatDriver Ctx × BackendStatus
  get_status d out = (
    d,
    record { in_op = d.in_op; fault_latched = not (d.fault_latched == 0); last_error = d.ec_state },
  )
