-- ===== src/Scheduler/Cycle/Ends.antt =====
-- Each cycle of the thread ends, below 2^32 ms of monotonic time.
use plcmaster.Prelude.{ℕ, ◌≤◌, ◌<◌, ◌≡◌, refl, inr, some, List, [], ◌∷◌, arith}
use plcmaster.Scheduler.{World, PlcTask, PlcScheduler, u32_mod, drain_pending}
use plcmaster.Scheduler.Cycle.{set_phase, run_tasks, begin_hooks, end_hooks, next_tick, cycle}
use plcmaster.Scheduler.Cycle.Policy.{IsTimely, IsTimely-later, run_task_lem}

module _ {W : Type 0} where
  pub data AllTimely (now start : ℕ) : List (PlcTask W) → Type 0 where
    nothing : AllTimely now start []
    next :
        (t : PlcTask W) (ts : List (PlcTask W))
        → IsTimely now start t
        → AllTimely now start ts
        → AllTimely now start (t ∷ ts)

  -- A task with a period whose phase `plc_scheduler_thread` has set is in the state that the loop relies
  -- on, at any time below 2^32 ms.
  pub set_phase-IsTimely :
      (start now : ℕ) (task : PlcTask W)
      → 0 < task.period_ms
      → now < u32_mod
      → IsTimely now start (set_phase start task)
  unfolding set_phase
  set_phase-IsTimely start now task pos top = record {
    period = pos;
    past = inr (ground arith);
    small = top;
  }

  -- The loop over the tasks ends, and leaves all tasks in the state that it relies on at a later time.
  run_tasks_total :
      (fuel now later start : ℕ) (ts : List (PlcTask W)) (w : World W)
      → AllTimely now start ts
      → now < fuel
      → now ≤ later
      → later < u32_mod
      → (ts' : List (PlcTask W)) × (w' : World W) × (run_tasks fuel now start ts w ≡ some (ts', w'))
        × AllTimely later start ts'
  unfolding run_tasks
  run_tasks_total fuel now later start [] w all f le top = ([], w, refl, nothing)
  run_tasks_total fuel now later start (t ∷ ts) w (next _ _ timely rest) f le top =
      let (k, last, w1, e, moved, kept, called, near) = run_task_lem fuel now start t w timely f in
      let (ts', w', e', all) = run_tasks_total fuel now later start ts w1 rest f le top in
      (
        record t { last_run_ms = last } ∷ ts',
        w',
        ground (arith, e, e'),
        next (record t { last_run_ms = last }) ts' (IsTimely-later later le top kept) all,
      )

  -- At a time below 2^32 ms a cycle of the thread ends, whose tasks, with those that it took over, have a
  -- period and a last run that is not after the time or not after their phase, whatever its tasks and
  -- hooks do to the health level. So have the tasks after it, at any later time below 2^32 ms. The
  -- scheduler is the one with the tasks taken over, but for the last runs and the health level that the
  -- hooks at the end leave; the next tick is as `next_tick` says.
  pub cycle_total :
      (fuel now later start tick : ℕ) (s : PlcScheduler W) (w : W)
      → AllTimely now start (drain_pending s).tasks
      → now < fuel
      → now ≤ later
      → later < u32_mod
      → (ts : List (PlcTask W)) × (w' : World W) × (cycle fuel now start s tick w
          ≡ some (
            record (drain_pending s) {
              tasks = ts;
              health_level = (end_hooks (drain_pending s) w').health;
            },
            next_tick (drain_pending s).base_cycle_ms now tick,
            (end_hooks (drain_pending s) w').outside,
          ))
        × AllTimely later start ts
  unfolding cycle
  cycle_total fuel now later start tick s w all f le top =
      let s' = drain_pending s in
      let (ts, w', e, after) =
        run_tasks_total fuel now later start s'.tasks
          (begin_hooks s' (record { health = s'.health_level; outside = w })) all f le top in
      (ts, w', ground (arith, e), after)
