-- ===== src/Scheduler.antt =====
-- core/plc/plc_task.h, plc_scheduler.h and plc_scheduler.c: the periodic tasks and their thread.
--
-- What a task or a hook does is a function on a World: a state `W` of the outside, and the health level of
-- the scheduler, which `plc_scheduler_set_health` sets from within a hook. A task also returns a number,
-- which is only printed. The functions are modelled as run without interruption by one another, and queue
-- no tasks.
pub mod Cycle
pub mod Pending
pub mod Setup
use plcmaster.Prelude.{
  ℕ, zero, suc, ◌+◌, ◌-◌, ◌*◌, ◌%◌, ◌^◌, ◌<◌, Bool, true, false, not, ◌&&◌, ◌||◌, Option, none,
  some, List, [], ◌∷◌, ◌++◌, if◌then◌else◌, ltb, leb, ◌==◌, length, get_elem?, set, replicate,
  CString,
}
use plcmaster.Runtime.{PlcHealthLevel, ok, warn, fault}

-- `PlcTaskPolicy_t`
pub data PlcTaskPolicy : Type 0 where
  always_run skip_on_fault only_when_ok : PlcTaskPolicy

-- What tasks and hooks act on.
pub record World (W : Type 0) : Type 0 where
  pub health : PlcHealthLevel
  pub outside : W

-- `PlcTask_t`, with `fn` applied to `ctx`; `fn` is `none` for NULL.
pub record PlcTask (W : Type 0) : Type 0 where
  pub name : Option CString
  pub fn : Option (World W → World W)
  pub period_ms : ℕ
  pub phase_ms : ℕ
  pub last_run_ms : ℕ
  pub policy : PlcTaskPolicy

-- A hook: the function pointer, by which hooks are compared, and the function, which takes a user
-- pointer.
pub record Hook (W : Type 0) : Type 0 where
  pub pointer : ℕ
  pub run : ℕ → World W → World W

-- The capacities of `tasks` and of the two arrays of pending tasks.
abbrev pub max_tasks : ℕ
max_tasks = 32

abbrev pub max_pending : ℕ
max_pending = 32

abbrev pub u32_mod : ℕ
u32_mod = 2 ^ 32

-- `PlcScheduler_t`; `tasks` is its array up to `task_count`. The thread handle is left out.
pub record PlcScheduler (W : Type 0) : Type 0 where
  pub base_cycle_ms : ℕ
  pub tasks : List (PlcTask W)
  pub pending_write : ℕ
  pub pending_read : ℕ
  pub pending_ready : List Bool
  pub pending_tasks : List (PlcTask W)
  pub running : Bool
  pub health_level : PlcHealthLevel
  pub backend_cycle_begin : Option (Hook W)
  pub backend_cycle_end : Option (Hook W)
  pub backend_user : ℕ
  pub on_cycle_begin : Option (Hook W)
  pub on_cycle_end : Option (Hook W)
  pub user : ℕ

module _ {W : Type 0} where
  -- `plc_scheduler_init`; `none` is the return value -1.
  unfoldable pub init : PlcScheduler W → ℕ → Option (PlcScheduler W)
  init s base_cycle_ms =
      if base_cycle_ms == 0
      then none
      else some (record s {
        base_cycle_ms = base_cycle_ms;
        tasks = [];
        pending_write = 0;
        pending_read = 0;
        pending_ready = replicate max_pending false;
        running = false;
        health_level = ok;
        backend_cycle_begin = none;
        backend_cycle_end = none;
        backend_user = 0;
        on_cycle_begin = none;
        on_cycle_end = none;
        user = 0;
      })

  abbrev has_fn : PlcTask W → Bool
  has_fn task = elim task.fn [ none ↦ false | some f ↦ true ]

  -- `plc_scheduler_add_task_internal`; `true` is the return value 0.
  unfoldable pub add_task_internal : PlcScheduler W → PlcTask W → PlcScheduler W × Bool
  add_task_internal s task =
      if not (has_fn task) || task.period_ms == 0
      then (s, false)
      else if leb max_tasks (length s.tasks)
      then (s, false)
      else (record s { tasks = s.tasks ++ record task { last_run_ms = 0 } ∷ [] }, true)

  unfoldable pub add_task : PlcScheduler W → PlcTask W → PlcScheduler W × Bool
  add_task s task = if s.running then (s, false) else add_task_internal s task

  -- `plc_scheduler_queue_task` with no other thread between its steps: the loop ends in its first
  -- round, since the compare-and-swap finds the value that was just read.
  unfoldable pub queue_task : PlcScheduler W → PlcTask W → PlcScheduler W × Bool
  queue_task s task =
      if leb max_pending ((s.pending_write + u32_mod - s.pending_read) % u32_mod)
      then (s, false)
      else (
        record s {
          pending_write = (s.pending_write + 1) % u32_mod;
          pending_tasks = set s.pending_tasks (s.pending_write % max_pending) task;
          pending_ready = set s.pending_ready (s.pending_write % max_pending) true;
        },
        true,
      )

  unfoldable pub add_task_runtime : PlcScheduler W → PlcTask W → PlcScheduler W × Bool
  add_task_runtime s task =
      if not (has_fn task) || task.period_ms == 0
      then (s, false)
      else if s.running
      then queue_task s task
      else add_task s task

  unfoldable pub set_backend_hooks :
      PlcScheduler W → Option (Hook W) → Option (Hook W) → ℕ → PlcScheduler W × Bool
  set_backend_hooks s cycle_begin cycle_end user = if s.running then (s, false) else (
    record s {
      backend_cycle_begin = cycle_begin;
      backend_cycle_end = cycle_end;
      backend_user = user;
    },
    true,
  )

  abbrev or_else : Option (Hook W) → Option (Hook W) → Option (Hook W)
  or_else none h = h
  or_else (some g) h = some g

  abbrev is_null : Option (Hook W) → Bool
  is_null none = true
  is_null (some g) = false

  -- `plc_scheduler_set_callbacks`: a backend hook that is NULL becomes the callback, and with it the
  -- user pointer that both backend hooks share.
  unfoldable pub set_callbacks :
      PlcScheduler W → Option (Hook W) → Option (Hook W) → ℕ → PlcScheduler W × Bool
  set_callbacks s cycle_begin cycle_end user = if s.running then (s, false) else (
    record s {
      on_cycle_begin = cycle_begin;
      on_cycle_end = cycle_end;
      user = user;
      backend_cycle_begin = or_else s.backend_cycle_begin cycle_begin;
      backend_cycle_end = or_else s.backend_cycle_end cycle_end;
      backend_user =
          if is_null s.backend_cycle_begin || is_null s.backend_cycle_end
          then user
          else s.backend_user;
    },
    true,
  )

  unfoldable pub set_health : PlcScheduler W → PlcHealthLevel → PlcScheduler W
  set_health s level = record s { health_level = level }

  -- `plc_scheduler_start`; `created` is the outcome of `plat_thread_create`.
  unfoldable pub start : PlcScheduler W → Bool → PlcScheduler W × Bool
  start s created =
      if s.running
      then (s, false)
      else if created
      then (record s { running = true }, true)
      else (record s { running = false }, false)

  -- `plc_scheduler_stop`; `joined` is the outcome of `plat_thread_join`.
  unfoldable pub stop : PlcScheduler W → Bool → PlcScheduler W × Bool
  stop s joined = if s.running then (record s { running = false }, joined) else (s, true)

  unfoldable pub is_running : PlcScheduler W → Bool
  is_running s = s.running

  -- The task in the slot of index `r`, if `r` is below `w` and the slot is marked ready.
  unfoldable pub pending_at : PlcScheduler W → ℕ → ℕ → Option (PlcTask W)
  pending_at s r w =
      if ltb r w
      then elim (get_elem? s.pending_ready (r % max_pending)) [
        | some true ↦ get_elem? s.pending_tasks (r % max_pending)
        | _ ↦ none
      ]
      else none

  -- The body of the loop of `plc_scheduler_drain_pending`: the slot is given back, then the task is
  -- added; one that `plc_scheduler_add_task_internal` refuses is dropped.
  unfoldable pub take_pending : PlcScheduler W → ℕ → PlcTask W → PlcScheduler W
  take_pending s r task =
      (add_task_internal
        (record s {
          pending_ready = set s.pending_ready (r % max_pending) false;
          pending_read = (r + 1) % u32_mod;
        })
        task).0

  -- The loop of `plc_scheduler_drain_pending` with the local copies of the two indices, for at most
  -- `fuel` rounds.
  unfoldable pub drain_from : ℕ → ℕ → ℕ → PlcScheduler W → PlcScheduler W
  drain_from zero r w s = s
  drain_from (suc fuel) r w s = elim (pending_at s r w) [
    | none ↦ s
    | some task ↦ drain_from fuel ((r + 1) % u32_mod) w (take_pending s r task)
  ]

  -- The loop ends within `pending_write` rounds, since the read index grows by one in each.
  unfoldable pub drain_pending : PlcScheduler W → PlcScheduler W
  drain_pending s = drain_from (suc s.pending_write) s.pending_read s.pending_write s
