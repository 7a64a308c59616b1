-- ===== src/Tests/Scheduler.antt =====
-- A scheduler of a controller whose outside is a number that the tasks count up.
use plcmaster.Prelude.{
  List, inl, ℕ, suc, ◌+◌, ◌-◌, ◌*◌, ◌≤◌, ◌<◌, ◌≡◌, refl, true, false, ◌&&◌, none, some, [], ◌∷◌,
  if◌then◌else◌, replicate, codes, arith,
}
use plcmaster.Runtime.{ok}
use plcmaster.Scheduler.{
  drain_from, pending_at, take_pending, World, PlcTask, PlcScheduler, Hook, only_when_ok, u32_mod,
  add_task_internal, queue_task, drain_pending,
}
use plcmaster.Scheduler.Cycle.{
  cycle, next_tick, end_hooks, catch_up, allow_run, is_due, call_fn, run_task,
}
use plcmaster.Scheduler.Cycle.Ends
use plcmaster.Scheduler.Cycle.Ends.{AllTimely, cycle_total}
use plcmaster.Scheduler.Cycle.CatchUp.{catch_up_total, catch_up_stuck}
use plcmaster.Scheduler.Cycle.Policy.{IsTimely, run_task_lem}
use plcmaster.Scheduler.Pending.{nothing, next, IsPending, add_all, drain_pending_lem}
use plcmaster.Scheduler.Pending.Queue.{drain_pending_wrap}
use plcmaster.Scheduler.Setup
use plcmaster.Scheduler.Setup.{
  AllRunnable, IsReady, add_task_internal-IsReady, callbacks_once, callbacks_take_user,
}

abbrev task : PlcTask ℕ
task = record {
  name = some (codes "count");
  fn = some (λ w. record w { outside = suc w.outside });
  period_ms = 10;
  phase_ms = 3;
  last_run_ms = 100;
  policy = only_when_ok;
}

abbrev fine : World ℕ
fine = record { health = ok; outside = 0 }

abbrev hook : ℕ → Hook ℕ
hook p = record { pointer = p; run = λ user w. record w { outside = user + w.outside } }

-- No task yet, and one pending: index 33 is in slot 1.
abbrev sched : PlcScheduler ℕ
sched = record {
  base_cycle_ms = 1;
  tasks = [];
  pending_write = 34;
  pending_read = 33;
  pending_ready = false ∷ true ∷ replicate 30 false;
  pending_tasks = replicate 32 task;
  running = false;
  health_level = ok;
  backend_cycle_begin = none;
  backend_cycle_end = none;
  backend_user = 0;
  on_cycle_begin = none;
  on_cycle_end = none;
  user = 0;
}

sched-IsPending : IsPending sched (task ∷ [])
sched-IsPending = record {
  window = next task refl refl nothing;
  count = refl;
  few = omega arith;
  top = omega arith;
  ready_size = refl;
  tasks_size = refl;
}

drain_pending_lem_example :
    ((drain_pending sched).tasks ≡ add_all [] (task ∷ [])) × IsPending (drain_pending sched) []
drain_pending_lem_example = drain_pending_lem sched (task ∷ []) sched-IsPending

abbrev late : PlcScheduler ℕ
late = record sched { pending_write = u32_mod - 1; pending_read = u32_mod - 1 }

drain_pending_wrap_example :
    ((queue_task late task).1 ≡ true)
    × (drain_pending (queue_task late task).0 ≡ (queue_task late task).0)
drain_pending_wrap_example = drain_pending_wrap late task refl (omega arith) (omega arith)

catch_up_total_example :
    (k : ℕ) × (catch_up 100 125 10 100 ≡ some (100 + k * 10))
    × (100 + k * 10 ≤ 125)
    × (125 < 100 + k * 10 + 10)
catch_up_total_example =
    catch_up_total 100 125 10 100 (omega arith) (omega arith) (omega arith) (omega arith)

catch_up_stuck_example : catch_up 1000 (u32_mod + 10) 10 100 ≡ none
catch_up_stuck_example =
    catch_up_stuck 1000 (u32_mod + 10) 10 100 (omega arith) (omega arith) (omega arith)

task-IsTimely : IsTimely 125 50 task
task-IsTimely = record { period = omega arith; past = inl (omega arith); small = omega arith }

run_task_lem_example :
    (k last : ℕ) × (w' : World ℕ) × (run_task 126 125 50 task fine
      ≡ some (record task { last_run_ms = last }, w'))
    × (last ≡ 100 + k * 10)
    × IsTimely 125 50 (record task { last_run_ms = last })
    × (w'
        ≡ (if is_due 125 50 task && allow_run ok only_when_ok then call_fn task.fn fine else fine))
    × (50 + 3 ≤ 125 → (last ≤ 125) × (125 < last + 10))
run_task_lem_example = run_task_lem 126 125 50 task fine task-IsTimely (omega arith)

taken-AllTimely : AllTimely 125 50 (drain_pending sched).tasks
unfolding drain_pending drain_from pending_at take_pending add_task_internal
taken-AllTimely =
    Ends.next (record task { last_run_ms = 0 }) []
      (record { period = omega arith; past = inl (omega arith); small = omega arith }) Ends.nothing

cycle_total_example :
    (ts : List (PlcTask ℕ)) × (w' : World ℕ) × (cycle 126 125 50 sched 120 7
      ≡ some (
        record (drain_pending sched) {
          tasks = ts;
          health_level = (end_hooks (drain_pending sched) w').health;
        },
        next_tick (drain_pending sched).base_cycle_ms 125 120,
        (end_hooks (drain_pending sched) w').outside,
      ))
    × AllTimely 130 50 ts
cycle_total_example =
    cycle_total 126 125 130 50 120 sched 7 taken-AllTimely (omega arith) (omega arith) (omega arith)

sched-IsReady : IsReady sched
sched-IsReady = record { few = omega arith; runnable = Setup.nothing }
