-- ===== src/EtherCat.antt =====
-- backends/ethercat/ec_backend.c and .h: the EtherCAT driver.
--
-- The record of the driver, its buffers, and the copies between the buffers and the process image. An
-- `int32_t` is its bit pattern, so that a negative buffer index is a number above 1.
pub mod Soem
pub mod Rt
pub mod Ops
pub mod Setup
pub mod Mapping
pub mod Run
pub mod Indices
pub mod Layout
pub mod Ready
pub mod Outputs
pub mod Publish
pub mod PlcCycle
pub mod Fault
pub mod Snapshot
pub mod Staging
pub mod Start
pub mod Race
use plcmaster.Prelude.{
  ℕ, ◌-◌, Bool, true, false, ◌||◌, ◌&&◌, not, Option, none, some, List, [], ◌∷◌, map, if◌then◌else◌,
  ltb, ◌==◌, length, take, replicate, slice, blit, CString,
}
use plcmaster.Device.{DeviceConfig, DeviceDesc}

-- `uint8_t *buffers[2]`; a buffer is `none` for NULL.
pub record Buffers : Type 0 where
  pub first : Option (List ℕ)
  pub second : Option (List ℕ)

-- `buffers[idx]` for an index 0 or 1.
abbrev pub buffer : Buffers → ℕ → Option (List ℕ)
buffer b idx = if idx == 0 then b.first else b.second

abbrev pub put_buffer : Buffers → ℕ → Option (List ℕ) → Buffers
put_buffer b idx new = if idx == 0 then record b { first = new } else record b { second = new }

-- `EthercatDevice_t`. The pointers into the process image are offsets.
pub record EthercatDevice : Type 0 where
  pub cfg : DeviceConfig
  pub desc : DeviceDesc
  pub slave_index : ℕ
  pub soem_inputs : Option ℕ
  pub soem_outputs : Option ℕ
  pub in_buffers : Buffers
  pub out_buffers : Buffers
  pub in_size : ℕ
  pub out_size : ℕ

-- The members of `EthercatDriver_t` that only `ethercat_backend_create` sets. `rt_params` is the last
-- three; its class and stack size are constants.
pub record EthercatSettings : Type 0 where
  pub name : CString
  pub system_name : CString
  pub ifname : CString
  pub dc_clock : Bool
  pub cycle_time_us : ℕ
  pub period_ns : ℕ
  pub spin_threshold_ns : ℕ
  pub wkc_warn_threshold : ℕ
  pub wkc_fail_threshold : ℕ
  pub warmup_cycles : ℕ
  pub state_check_period_cycles : ℕ
  pub state_check_period_ms : ℕ
  pub device_capacity : ℕ
  pub priority : ℕ
  pub affinity_cpu : ℕ
  pub timer_resolution_ms : ℕ

-- The counters of the real-time thread.
pub record RtStats : Type 0 where
  pub cycle_count : ℕ
  pub overruns : ℕ
  pub jitter_current_ns : ℕ
  pub jitter_min_ns : ℕ
  pub jitter_max_ns : ℕ

-- The local variables of `ethercat_rt_thread` that live from cycle to cycle.
pub record RtLocals : Type 0 where
  pub expected_wkc : ℕ
  pub wkc_warn_threshold : ℕ
  pub wkc_fail_threshold : ℕ
  pub cycle_count : ℕ
  pub deadline : ℕ

-- The real-time thread: before its creation, before its first statement, in its loop, at its end.
pub data RtThread : Type 0 where
  absent created ended : RtThread
  looping : RtLocals → RtThread

-- `EthercatDriver_t`. `devices` has `device_count` elements; the entries of the array behind them are
-- cleared memory.
pub record EthercatDriver (Ctx : Type 0) : Type 0 where
  pub settings : EthercatSettings
  pub ctx : Ctx
  pub iomap : Option (List ℕ)
  pub iomap_size : ℕ
  pub expected_wkc : ℕ
  pub devices : List EthercatDevice
  pub perf_freq : ℕ
  pub rt_cycle_us : ℕ
  pub rt_thread : RtThread
  pub rt_should_run : Bool
  pub rt_is_running : Bool
  pub last_wkc : ℕ
  pub fault_latched : ℕ
  pub ec_state : ℕ
  pub dowkccheck : ℕ
  pub state_check_cycle_ctr : ℕ
  pub active_in_buffer_idx : ℕ
  pub active_out_buffer_idx : ℕ
  pub rt_out_buffer_idx : ℕ
  pub plc_in_buffer_idx : ℕ
  pub in_op : Bool
  pub stats : RtStats

-- `memset(p, 0, n)` and `memcpy(p, src, n)` at an offset of an array.
abbrev pub clear_at : List ℕ → ℕ → ℕ → List ℕ
clear_at base i n = blit base i (replicate n 0)

abbrev pub copy_to : List ℕ → ℕ → List ℕ → ℕ → List ℕ
copy_to base i src n = blit base i (take n src)

-- `free_device_buffers`
unfoldable pub free_device_buffers : EthercatDevice → EthercatDevice
free_device_buffers dev = record dev {
  in_buffers = record { first = none; second = none };
  out_buffers = record { first = none; second = none };
  in_size = 0;
  out_size = 0;
}

-- The turn of `ethercat_copy_out_to_iomap` for one device.
unfoldable pub put_outputs : EthercatDevice → ℕ → Bool → List ℕ → List ℕ
put_outputs dev out_idx zero_outputs image = elim dev.soem_outputs [
  | none ↦ image
  | some at ↦ if dev.out_size == 0 then image else elim (buffer dev.out_buffers out_idx) [
    | none ↦ clear_at image at dev.out_size
    | some out ↦
        if zero_outputs then clear_at image at dev.out_size else copy_to image at out dev.out_size
  ]
]

unfoldable pub copy_out_to_iomap : List EthercatDevice → ℕ → Bool → List ℕ → List ℕ
unfolding put_outputs
copy_out_to_iomap [] out_idx zero_outputs image = image
copy_out_to_iomap (dev ∷ devs) out_idx zero_outputs image =
    copy_out_to_iomap devs out_idx zero_outputs (put_outputs dev out_idx zero_outputs image)

-- The turn of `ethercat_copy_iomap_to_in` for one device.
unfoldable pub take_inputs : ℕ → List ℕ → EthercatDevice → EthercatDevice
take_inputs next image dev = record dev {
  in_buffers = elim dev.soem_inputs [
    | none ↦ dev.in_buffers
    | some at ↦ elim (buffer dev.in_buffers next) [
      | none ↦ dev.in_buffers
      | some old ↦
          if dev.in_size == 0
          then dev.in_buffers
          else put_buffer dev.in_buffers next
              (some (copy_to old 0 (slice image at dev.in_size) dev.in_size))
    ]
  ];
}

unfoldable pub copy_iomap_to_in : ℕ → List ℕ → List EthercatDevice → List EthercatDevice
unfolding take_inputs
copy_iomap_to_in next image devs = map (take_inputs next image) devs

-- The turn of `ethercat_copy_out_buffers` for one device.
unfoldable pub keep_outputs : ℕ → ℕ → EthercatDevice → EthercatDevice
keep_outputs src dst dev = record dev {
  out_buffers = elim (buffer dev.out_buffers src) [
    | none ↦ dev.out_buffers
    | some from ↦ elim (buffer dev.out_buffers dst) [
      | none ↦ dev.out_buffers
      | some to ↦
          if dev.out_size == 0
          then dev.out_buffers
          else put_buffer dev.out_buffers dst (some (copy_to to 0 from dev.out_size))
    ]
  ];
}

unfoldable pub copy_out_buffers : ℕ → ℕ → List EthercatDevice → List EthercatDevice
unfolding keep_outputs
copy_out_buffers src dst devs = if src == dst then devs else map (keep_outputs src dst) devs

abbrev pub zeroed : Option (List ℕ) → ℕ → Option (List ℕ)
zeroed o n = elim o [ none ↦ none | some b ↦ some (clear_at b 0 n) ]

-- The turn of `ethercat_zero_output_buffers` for the buffers of one device.
unfoldable pub zero_outputs_of : EthercatDevice → EthercatDevice
zero_outputs_of dev = record dev {
  out_buffers = record {
    first =
        if dev.out_size == 0
        then dev.out_buffers.first
        else zeroed dev.out_buffers.first dev.out_size;
    second =
        if dev.out_size == 0
        then dev.out_buffers.second
        else zeroed dev.out_buffers.second dev.out_size;
  };
}

unfoldable pub zero_each : List EthercatDevice → List EthercatDevice
unfolding zero_outputs_of
zero_each devs = map zero_outputs_of devs

-- The part of `ethercat_zero_output_buffers` that clears the outputs in the process image.
unfoldable pub zero_image : List EthercatDevice → List ℕ → List ℕ
zero_image [] image = image
zero_image (dev ∷ devs) image = zero_image devs (elim dev.soem_outputs [
  | none ↦ image
  | some at ↦ if dev.out_size == 0 then image else clear_at image at dev.out_size
])

-- `ethercat_load_buffer_index`: the index, which is also what the atomic holds afterwards.
abbrev pub load_buffer_index : ℕ → ℕ → ℕ
load_buffer_index idx fallback = if ltb 1 idx then fallback else idx

module _ {Ctx : Type 0} where
  abbrev pub on_image : (List ℕ → List ℕ) → EthercatDriver Ctx → EthercatDriver Ctx
  on_image f d = record d { iomap = elim d.iomap [ none ↦ none | some image ↦ some (f image) ] }

  -- The process image; an image that was not allocated has no bytes.
  abbrev pub image_of : EthercatDriver Ctx → List ℕ
  image_of d = elim d.iomap [ none ↦ [] | some image ↦ image ]

  unfoldable pub zero_output_buffers : EthercatDriver Ctx → EthercatDriver Ctx
  unfolding zero_each zero_image
  zero_output_buffers d = record (on_image (zero_image d.devices) d) {
    devices = zero_each d.devices;
  }
