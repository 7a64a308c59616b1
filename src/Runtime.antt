-- ===== src/Runtime.antt =====
-- core/runtime/runtime.h and runtime.c: the shared state of the controller and the calls that reach
-- all of its drivers.
pub mod Health
pub mod Slots
pub mod Start
use plcmaster.Prelude.{
  ℕ, zero, suc, ◌+◌, ◌-◌, Bool, true, false, ◌&&◌, not, Option, none, some, List, [], ◌∷◌,
  if◌then◌else◌, get_elem?, set, replicate,
}
use plcmaster.Tag.{TagType, bool}
use plcmaster.Tag.Table
use plcmaster.Tag.Table.{TagTable}
use plcmaster.Backend.{BackendStatus, BackendOps, BackendDriver}

-- `ProcValue_t` and `HmiValue_t`. `v` holds the bytes of the union `TagValue_u` that have a
-- determinate value, from its first byte on: four after a `memset`, as many as the type has after a
-- store through one member.
pub record Value : Type 0 where
  pub type : TagType
  pub v : List ℕ

-- `ProcessStore_t` and `HmiStore_t`
pub record ValueStore : Type 0 where
  pub values : List Value
  pub count : ℕ

-- `PlcHealthLevel_t`
pub data PlcHealthLevel : Type 0 where
  ok warn fault : PlcHealthLevel

-- The 64 slots of a store.
abbrev pub store_size : ℕ
store_size = 64

-- `MAX_BACKENDS`
abbrev pub max_backends : ℕ
max_backends = 4

-- A store cleared by `memset`; the type with the value 0 is `TAG_T_BOOL`.
abbrev pub zero_value : Value
zero_value = record { type = bool; v = replicate 4 0 }

unfoldable pub zero_store : ValueStore
zero_store = record { values = replicate store_size zero_value; count = 0 }

-- `Runtime_t`. `backends` is `none` for the NULL pointer, else the array `backend_array` that it
-- points at; a slot of it is `none` for a NULL driver. The slots point at distinct drivers. The
-- opaque pointer `status_view`, which nothing reads, is left out.
pub record Runtime (Impl : Type 0) : Type 0 where
  pub tag_table : TagTable
  pub proc_store : ValueStore
  pub hmi_store : ValueStore
  pub backends : Option (List (Option (BackendDriver Impl)))
  pub backend_count : ℕ

-- The status that `runtime_get_health_level` hands to a driver.
abbrev pub fresh_status : BackendStatus
fresh_status = record { in_op = true; fault_latched = false; last_error = 0 }

module _ {Impl : Type 0} where
  -- `runtime_init`, for a pointer that is not NULL; `tag_table_init` does not fail.
  unfoldable pub init : Runtime Impl → Runtime Impl
  unfolding Table.init zero_store
  init rt = record {
    tag_table = Table.init;
    proc_store = zero_store;
    hmi_store = zero_store;
    backends = some (replicate max_backends none);
    backend_count = 0;
  }

  -- `runtime_deinit`
  unfoldable pub deinit : Runtime Impl → Runtime Impl
  unfolding Table.deinit zero_store
  deinit rt = record {
    tag_table = Table.deinit rt.tag_table;
    proc_store = zero_store;
    hmi_store = zero_store;
    backends = some (replicate max_backends none);
    backend_count = 0;
  }

  -- The driver in slot `i`, `none` also behind the array's end, which a valid runtime never reads.
  abbrev pub driver_at : List (Option (BackendDriver Impl)) → ℕ → Option (BackendDriver Impl)
  driver_at drvs i = elim (get_elem? drvs i) [ none ↦ none | some slot ↦ slot ]

  abbrev pub driver_op :
      {F : Type 0} → (BackendOps Impl → Option F) → Option (BackendDriver Impl) → Option (Impl × F)
  driver_op field none = none
  driver_op field (some drv) = elim drv.ops [
    | none ↦ none
    | some ops ↦ elim (field ops) [ none ↦ none | some f ↦ some (drv.impl, f) ]
  ]

  -- The operation that a member of the table gives, with the state that it works on: `none` where
  -- the driver, its table or the member is NULL.
  abbrev pub op_at :
      {F : Type 0}
      → (BackendOps Impl → Option F)
      → List (Option (BackendDriver Impl))
      → ℕ
      → Option (Impl × F)
  op_at field drvs i = driver_op field (driver_at drvs i)

  abbrev with_impl : Impl → Option (BackendDriver Impl) → Option (BackendDriver Impl)
  with_impl impl none = none
  with_impl impl (some drv) = some (record drv { impl = impl })

  -- The drivers after slot `i` got a new state.
  abbrev pub put_impl :
      List (Option (BackendDriver Impl)) → ℕ → Impl → List (Option (BackendDriver Impl))
  put_impl drvs i impl = set drvs i (with_impl impl (driver_at drvs i))

  -- One call of `start` or `stop`, with its return value.
  abbrev call : (Impl × (Impl → Impl × Bool)) → Impl × Bool
  call (impl, f) = f impl

  -- The loop that stops the drivers below `stop_index`, the last first.
  unfoldable pub rollback :
      ℕ → List (Option (BackendDriver Impl)) → List (Option (BackendDriver Impl))
  rollback zero drvs = drvs
  rollback (suc k) drvs =
      rollback k
        (elim (op_at (λ o. o.stop) drvs k) [ none ↦ drvs | some op ↦ put_impl drvs k (call op).0 ])

  -- The loop of `runtime_backends_start` with `left` slots to go; `true` is the return value 0.
  unfoldable pub start_from :
      ℕ → ℕ → ℕ → List (Option (BackendDriver Impl)) → List (Option (BackendDriver Impl)) × Bool
  unfolding rollback
  start_from zero i started drvs = (drvs, true)
  start_from (suc left) i started drvs = elim (op_at (λ o. o.start) drvs i) [
    | none ↦ start_from left (i + 1) started drvs
    | some op ↦
        let (impl, done) = call op in
        elim done [
          | true ↦ start_from left (i + 1) (started + 1) (put_impl drvs i impl)
          | false ↦ (rollback started (put_impl drvs i impl), false)
        ]
  ]

  unfoldable pub backends_start : Runtime Impl → Runtime Impl × Bool
  unfolding start_from
  backends_start rt = elim rt.backends [
    | none ↦ (rt, false)
    | some drvs ↦
        let (drvs', done) = start_from rt.backend_count 0 0 drvs in
        (record rt { backends = some drvs' }, done)
  ]

  -- The loop of `runtime_backends_stop`; `rc` is `true` for 0.
  unfoldable pub stop_from :
      ℕ → ℕ → Bool → List (Option (BackendDriver Impl)) → List (Option (BackendDriver Impl)) × Bool
  stop_from zero i rc drvs = (drvs, rc)
  stop_from (suc left) i rc drvs = elim (op_at (λ o. o.stop) drvs i) [
    | none ↦ stop_from left (i + 1) rc drvs
    | some op ↦
        let (impl, done) = call op in
        stop_from left (i + 1) (if done then rc else false) (put_impl drvs i impl)
  ]

  unfoldable pub backends_stop : Runtime Impl → Runtime Impl × Bool
  unfolding stop_from
  backends_stop rt = elim rt.backends [
    | none ↦ (rt, false)
    | some drvs ↦
        let (drvs', rc) = stop_from rt.backend_count 0 true drvs in
        (record rt { backends = some drvs' }, rc)
  ]

  abbrev apply_hook : (Impl × (Impl → Impl)) → Impl
  apply_hook (impl, f) = f impl

  -- The loop of `runtime_backends_cycle_begin` and of `runtime_backends_sync_outputs`, which differ in
  -- the member that they call.
  unfoldable pub each_from :
      (BackendOps Impl → Option (Impl → Impl))
      → ℕ
      → ℕ
      → List (Option (BackendDriver Impl))
      → List (Option (BackendDriver Impl))
  each_from field zero i drvs = drvs
  each_from field (suc left) i drvs =
      each_from field left (i + 1)
        (elim (op_at field drvs i) [ none ↦ drvs | some op ↦ put_impl drvs i (apply_hook op) ])

  unfoldable pub backends_cycle_begin : Runtime Impl → Runtime Impl
  unfolding each_from
  backends_cycle_begin rt = elim rt.backends [
    | none ↦ rt
    | some drvs ↦ record rt {
      backends = some (each_from (λ o. o.cycle_begin) rt.backend_count 0 drvs);
    }
  ]

  unfoldable pub backends_sync_outputs : Runtime Impl → Runtime Impl
  unfolding each_from
  backends_sync_outputs rt = elim rt.backends [
    | none ↦ rt
    | some drvs ↦ record rt {
      backends = some (each_from (λ o. o.cycle_end) rt.backend_count 0 drvs);
    }
  ]

  -- `runtime_backends_process_nonrt` is a placeholder.
  unfoldable pub backends_process_nonrt : Runtime Impl → Runtime Impl
  backends_process_nonrt rt = rt

  abbrev pub ask : (Impl × (Impl → BackendStatus → Impl × BackendStatus)) → Impl × BackendStatus
  ask (impl, f) = f impl fresh_status

  -- The loop of `runtime_get_health_level`. A driver without the operation keeps the status that
  -- the loop starts it with, which reports nothing; so does a NULL driver.
  unfoldable pub health_from :
      ℕ
      → ℕ
      → PlcHealthLevel
      → List (Option (BackendDriver Impl))
      → List (Option (BackendDriver Impl)) × PlcHealthLevel
  health_from zero i level drvs = (drvs, level)
  health_from (suc left) i level drvs = elim (op_at (λ o. o.get_status) drvs i) [
    | none ↦ health_from left (i + 1) level drvs
    | some op ↦
        let (impl, status) = ask op in
        elim status.fault_latched [
          | true ↦ (put_impl drvs i impl, fault)
          | false ↦
              health_from left (i + 1) (if status.in_op then level else warn) (put_impl drvs i impl)
        ]
  ]

  unfoldable pub get_health_level : Runtime Impl → Runtime Impl × PlcHealthLevel
  unfolding health_from
  get_health_level rt = elim rt.backends [
    | none ↦ (rt, ok)
    | some drvs ↦
        let (drvs', level) = health_from rt.backend_count 0 ok drvs in
        (record rt { backends = some drvs' }, level)
  ]
