-- ===== src/Scheduler/Cycle/Policy.antt =====
-- Which tasks one pass runs, and what it leaves in their records.
use plcmaster.Prelude.{
  ℕ, ◌+◌, ◌*◌, ◌≤◌, ◌<◌, ◌≡◌, ◌≢◌, ◌↔◌, refl, true, false, Bool-cases, ◌⊎◌, inl, inr, ◌&&◌, some,
  if◌then◌else◌, arith,
}
use plcmaster.Runtime.{PlcHealthLevel, ok, warn, fault}
use plcmaster.Scheduler.{
  PlcTaskPolicy, always_run, skip_on_fault, only_when_ok, World, PlcTask, u32_mod,
}
use plcmaster.Scheduler.Cycle.{allow_run, is_due, call_fn, run_task, set_phase}
use plcmaster.Scheduler.Cycle.CatchUp.{catch_up_total}

-- A task that is due is allowed to run exactly where the health level is no fault or its policy is to run
-- always; so a task that is to run only when all is well also runs at the level WARN.
pub allow_run_iff :
    (health : PlcHealthLevel) (policy : PlcTaskPolicy)
    → (allow_run health policy ≡ true) ↔ ((health ≢ fault) ⊎ (policy ≡ always_run))
unfolding allow_run
allow_run_iff ok p = (λ h. inl (λ e. cc), λ h. refl)
allow_run_iff warn p = (λ h. inl (λ e. cc), λ h. refl)
allow_run_iff fault always_run = (λ h. inr refl, λ h. refl)
allow_run_iff fault skip_on_fault = (λ h. cc, λ h. elim h [ inl n ↦ absurd (n refl) | inr e ↦ cc ])
allow_run_iff fault only_when_ok = (λ h. cc, λ h. elim h [ inl n ↦ absurd (n refl) | inr e ↦ cc ])

module _ {W : Type 0} where
  -- What the loop over the tasks relies on at a time `now`, when the thread began at `start`: the time is
  -- below 2^32 ms, the period is not 0, and the last run is not after `now` or not after the task's phase.
  pub record IsTimely (now start : ℕ) (task : PlcTask W) : Type 0 where
    pub period : 0 < task.period_ms
    pub past : (task.last_run_ms ≤ now) ⊎ (task.last_run_ms ≤ start + task.phase_ms)
    pub small : now < u32_mod

  last_past :
      {now start : ℕ} {task : PlcTask W}
      → IsTimely now start task
      → start + task.phase_ms ≤ now
      → task.last_run_ms ≤ now
  last_past t n = elim t.past [ inl p ↦ p | inr p ↦ omega arith ]

  pub IsTimely-later :
      {now start : ℕ} {task : PlcTask W} (later : ℕ)
      → now ≤ later
      → later < u32_mod
      → IsTimely now start task
      → IsTimely later start task
  IsTimely-later later le top t = record {
    period = t.period;
    past = elim t.past [ inl p ↦ inl (omega arith) | inr p ↦ inr p ];
    small = top;
  }

  due_phase :
      (now start : ℕ) (task : PlcTask W)
      → is_due now start task ≡ true
      → start + task.phase_ms ≤ now
  unfolding is_due
  due_phase now start task h = ground arith

  not_due_near :
      (now start : ℕ) (task : PlcTask W)
      → IsTimely now start task
      → start + task.phase_ms ≤ now
      → is_due now start task ≡ false
      → now < task.last_run_ms + task.period_ms
  unfolding is_due
  not_due_near now start task h n off = let p = last_past h n in ground (arith, h.small, h.period)

  -- Below 2^32 ms of monotonic time one round for a task ends. It moves the task's last run on by whole
  -- periods and keeps it where the loop relies on it; once the task's phase has come, the last run is not
  -- after `now` and less than a period before. The task's function is called once if the task is due and the health level that
  -- is loaded for the task permits, else not.
  pub run_task_lem :
      (fuel now start : ℕ) (task : PlcTask W) (w : World W)
      → IsTimely now start task
      → now < fuel
      → (k last : ℕ) × (w' : World W) × (run_task fuel now start task w
          ≡ some (record task { last_run_ms = last }, w'))
        × (last ≡ task.last_run_ms + k * task.period_ms)
        × IsTimely now start (record task { last_run_ms = last })
        × (w' ≡ (
            if is_due now start task && allow_run w.health task.policy
            then call_fn task.fn w
            else w))
        × (start + task.phase_ms ≤ now → (last ≤ now) × (now < last + task.period_ms))
  unfolding run_task
  run_task_lem fuel now start task w t f = elim (Bool-cases (is_due now start task)) [
    | inl due ↦
        let (k, e, lo, hi) =
          catch_up_total fuel now task.period_ms task.last_run_ms t.period
            (last_past t (due_phase now start task due)) t.small (omega arith) in
        (
          k,
          task.last_run_ms + k * task.period_ms,
          (if allow_run w.health task.policy then call_fn task.fn w else w),
          ground (arith, e),
          refl,
          record { period = t.period; past = inl lo; small = t.small },
          ground arith,
          λ h. (lo, hi),
        )
    | inr not_due ↦ (
      0,
      task.last_run_ms,
      w,
      ground arith,
      omega arith,
      t,
      ground arith,
      λ h. (last_past t h, not_due_near now start task t h not_due),
    )
  ]

  -- After `plc_scheduler_thread` has set the phases at `start`, a task with a period is due, until its
  -- last run is moved, exactly from the time on at which both `start + phase_ms` has come and the clock
  -- shows at least one period.
  pub first_due :
      (start now : ℕ) (task : PlcTask W)
      → 0 < task.period_ms
      → start + task.phase_ms < u32_mod
      → now < u32_mod
      → (is_due now start (set_phase start task) ≡ true)
        ↔ ((start + task.phase_ms ≤ now) × (task.period_ms ≤ now))
  unfolding is_due set_phase
  first_due start now task pos small top =
      (λ h. (ground arith, ground arith), λ h. let p = h.0 in let q = h.1 in ground arith)
