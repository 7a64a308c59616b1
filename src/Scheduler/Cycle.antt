-- ===== src/Scheduler/Cycle.antt =====
-- core/plc/plc_scheduler.c, `plc_scheduler_thread`: the phase of each task and one pass of the loop.
--
-- Times in milliseconds have 64 bits and do not reach 2^64; `last_run_ms` has 32.
pub mod CatchUp
pub mod Ends
pub mod Policy
use plcmaster.Prelude.{
  ℕ, zero, suc, ◌+◌, ◌-◌, ◌*◌, ◌%◌, ◌^◌, Bool, true, false, not, ◌&&◌, ◌||◌, Option, none, some,
  List, [], ◌∷◌, map, if◌then◌else◌, ltb, leb, ◌==◌,
}
use plcmaster.Runtime.{PlcHealthLevel, ok, warn, fault}
use plcmaster.Scheduler.{
  PlcTaskPolicy, always_run, skip_on_fault, only_when_ok, World, PlcTask, Hook, PlcScheduler,
  u32_mod, drain_pending,
}

abbrev pub u64_mod : ℕ
u64_mod = 2 ^ 64

-- `now_ms - (uint64_t)last_run_ms`
abbrev pub since : ℕ → ℕ → ℕ
since now last = (now + u64_mod - last) % u64_mod

-- The loop that moves `last_run_ms` on by whole periods, for at most `fuel` rounds; `none` means
-- that it has not ended by then.
unfoldable pub catch_up : ℕ → ℕ → ℕ → ℕ → Option ℕ
catch_up zero now period last = none
catch_up (suc fuel) now period last =
    let rest = catch_up fuel now period ((last + period) % u32_mod) in
    if leb period (since now last) then rest else some last

-- Whether a task that is due may run at a health level.
unfoldable pub allow_run : PlcHealthLevel → PlcTaskPolicy → Bool
allow_run fault always_run = true
allow_run fault _ = false
allow_run _ _ = true

-- The time of the next tick after a cycle at `now`; `5 * base_cycle_ms` has 32 bits.
unfoldable pub next_tick : ℕ → ℕ → ℕ → ℕ
next_tick base now tick =
    let next = tick + base in
    if ltb next now && ltb (5 * base % u32_mod) (now - next) then now + base else next

module _ {W : Type 0} where
  -- The loop over the tasks before the first cycle.
  unfoldable pub set_phase : ℕ → PlcTask W → PlcTask W
  set_phase start task =
      let phase_start = start + task.phase_ms in
      record task {
        last_run_ms =
            (if ltb 0 task.period_ms
              then (if leb task.period_ms phase_start then phase_start - task.period_ms else 0)
              else phase_start)
            % u32_mod;
      }

  unfoldable pub set_phases : ℕ → PlcScheduler W → PlcScheduler W
  set_phases start s = record s { tasks = map (set_phase start) s.tasks }

  abbrev pub call_fn : Option (World W → World W) → World W → World W
  call_fn none w = w
  call_fn (some f) w = f w

  -- Whether a task is due.
  unfoldable pub is_due : ℕ → ℕ → PlcTask W → Bool
  is_due now start task =
      leb (start + task.phase_ms) now && leb task.period_ms (since now task.last_run_ms)

  -- The body of the loop over the tasks, which loads the health level for each task. A task in the array
  -- has a function.
  unfoldable pub run_task : ℕ → ℕ → ℕ → PlcTask W → World W → Option (PlcTask W × World W)
  run_task fuel now start task w =
      if is_due now start task
      then elim (catch_up fuel now task.period_ms task.last_run_ms) [
        | none ↦ none
        | some last ↦ some (
          record task { last_run_ms = last },
          (if allow_run w.health task.policy then call_fn task.fn w else w),
        )
      ]
      else some (task, w)

  -- The loop over the tasks.
  unfoldable pub run_tasks :
      ℕ → ℕ → ℕ → List (PlcTask W) → World W → Option (List (PlcTask W) × World W)
  run_tasks fuel now start [] w = some ([], w)
  run_tasks fuel now start (task ∷ tasks) w = elim (run_task fuel now start task w) [
    | none ↦ none
    | some done ↦ elim (run_tasks fuel now start tasks done.1) [
      | none ↦ none
      | some rest ↦ some (done.0 ∷ rest.0, rest.1)
    ]
  ]

  abbrev call_hook : Option (Hook W) → ℕ → World W → World W
  call_hook none user w = w
  call_hook (some h) user w = h.run user w

  -- `on != NULL && on != backend`
  abbrev distinct : Option (Hook W) → Option (Hook W) → Bool
  distinct none backend = false
  distinct (some h) none = true
  distinct (some h) (some g) = not (h.pointer == g.pointer)

  -- The hooks at the start and at the end of a cycle.
  unfoldable pub begin_hooks : PlcScheduler W → World W → World W
  begin_hooks s w =
      let w' = call_hook s.backend_cycle_begin s.backend_user w in
      if distinct s.on_cycle_begin s.backend_cycle_begin
      then call_hook s.on_cycle_begin s.user w'
      else w'

  unfoldable pub end_hooks : PlcScheduler W → World W → World W
  end_hooks s w =
      call_hook s.backend_cycle_end s.backend_user (
        if distinct s.on_cycle_end s.backend_cycle_end
        then call_hook s.on_cycle_end s.user w
        else w)

  -- One pass of the thread's loop once `now` has reached the tick: the scheduler, the time of the next
  -- tick and the world after it.
  unfoldable pub cycle : ℕ → ℕ → ℕ → PlcScheduler W → ℕ → W → Option (PlcScheduler W × ℕ × W)
  cycle fuel now start s tick w =
      let s' = drain_pending s in
      let begun = begin_hooks s' (record { health = s'.health_level; outside = w }) in
      elim (run_tasks fuel now start s'.tasks begun) [
        | none ↦ none
        | some done ↦
            let ended = end_hooks s' done.1 in
            some (
              record s' { tasks = done.0; health_level = ended.health },
              next_tick s'.base_cycle_ms now tick,
              ended.outside,
            )
      ]

  -- The thread at one time: before the tick it sleeps, else it makes a cycle.
  unfoldable pub thread_at : ℕ → ℕ → ℕ → PlcScheduler W → ℕ → W → Option (PlcScheduler W × ℕ × W)
  thread_at fuel now start s tick w =
      if not s.running || ltb now tick then some (s, tick, w) else cycle fuel now start s tick w
