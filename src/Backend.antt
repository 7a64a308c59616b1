-- ===== src/Backend.antt =====
-- core/backend/backend_iface.h and backend_config.h: what the runtime and the system builder ask of a
-- fieldbus driver, and its configuration.
--
-- A driver is its table of operations and the state behind its `impl` pointer. The operations are
-- the members of `BackendDriverOps_t`; each is an option, `none` for a NULL function pointer. An
-- operation takes the state and gives the new one; a return value that is only compared with 0 is a
-- Boolean, `true` for 0.
use plcmaster.Prelude.{ℕ, Bool, ◌≡◌, Option, some, List, length, CString}
use plcmaster.Prelude.Bits.{IsBytes}
use plcmaster.Device.{DeviceConfig, DeviceDesc}

-- `BackendType_t`; `unknown` is any value outside the enumeration.
pub data BackendType : Type 0 where
  nothing ethercat modbus : BackendType
  unknown : ℕ → BackendType

-- `BackendConfig_t`; a string is `none` for NULL, an `int` is its bit pattern.
pub record BackendConfig : Type 0 where
  pub type : BackendType
  pub name : Option CString
  pub ifname : Option CString
  pub cycle_time_us : ℕ
  pub dc_clock : Bool
  pub period_ns : ℕ
  pub spin_threshold_ns : ℕ
  pub rt_priority : ℕ
  pub rt_affinity_cpu : ℕ
  pub rt_reserved_cpu : ℕ
  pub rt_timer_resolution_ms : ℕ
  pub wkc_warn_threshold : ℕ
  pub wkc_fail_threshold : ℕ
  pub warmup_cycles : ℕ
  pub state_check_period_ms : ℕ

-- `BackendStatus_t`; `last_error` is the bit pattern of the `int32_t`.
pub record BackendStatus : Type 0 where
  pub in_op : Bool
  pub fault_latched : Bool
  pub last_error : ℕ

-- `BackendDriverOps_t`. The two data operations give the bytes that the returned pointer and `size_out` describe, `none` for NULL;
-- `store_output` is the effect of a client's writes through the pointer to a device's output data.
pub record BackendOps (Impl : Type 0) : Type 0 where
  pub init : Option (Impl → Impl × Bool)
  pub bind : Option (Impl → DeviceConfig → DeviceDesc → Impl × Bool)
  pub finalize : Option (Impl → Impl × Bool)
  pub start : Option (Impl → Impl × Bool)
  pub stop : Option (Impl → Impl × Bool)
  pub process : Option (Impl → Impl × Bool)
  pub get_status : Option (Impl → BackendStatus → Impl × BackendStatus)
  pub cycle_begin : Option (Impl → Impl)
  pub cycle_end : Option (Impl → Impl)
  pub get_input_data : Option (Impl → ℕ → Impl × Option (List ℕ))
  pub get_output_data : Option (Impl → ℕ → Impl × Option (List ℕ))
  pub store_output : Impl → ℕ → List ℕ → Impl

-- `BackendDriver_t`
pub record BackendDriver (Impl : Type 0) : Type 0 where
  pub ops : Option (BackendOps Impl)
  pub impl : Impl

-- What `get_output_data` promises in a state of the driver: the pointer is to the device's staging
-- buffer, so that bytes written through it are what the next call shows. What it shows are bytes.
pub record IsStaging {Impl : Type 0} (o : BackendOps Impl) (i : Impl) : Type 0 where
  pub stored :
      (get : Impl → ℕ → Impl × Option (List ℕ)) (device : ℕ) (old new : List ℕ)
      → o.get_output_data ≡ some get
      → (get i device).1 ≡ some old
      → length new ≡ length old
      → IsBytes new
      → (get (o.store_output (get i device).0 device new) device).1 ≡ some new
  pub bytes :
      (get : Impl → ℕ → Impl × Option (List ℕ)) (device : ℕ) (shown : List ℕ)
      → o.get_output_data ≡ some get
      → (get i device).1 ≡ some shown
      → IsBytes shown
