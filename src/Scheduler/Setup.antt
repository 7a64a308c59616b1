-- ===== src/Scheduler/Setup.antt =====
-- The set-up calls of the scheduler: the guard on a running scheduler, the bound on its tasks and the
-- hooks that a cycle calls.
use mathlib.Core.Path.{subst}
use plcmaster.Prelude.{
  ◌≢◌, sym, ◌⊎◌, ℕ, ◌≤◌, ◌<◌, ◌≡◌, Bool, true, false, Bool-cases, inl, inr, ◌==◌, Option, none,
  some, List, [], ◌∷◌, ◌++◌, length, length-append, leb, arith,
}
use plcmaster.Scheduler.{
  World, PlcTask, Hook, PlcScheduler, has_fn, max_tasks, add_task_internal, add_task,
  set_backend_hooks, set_callbacks, start,
}
use plcmaster.Scheduler.Cycle.{begin_hooks, end_hooks}

module _ {W : Type 0} where
  -- What the thread relies on for the tasks in the array: there are at most 32, each has a function
  -- and a period.
  pub data AllRunnable : List (PlcTask W) → Type 0 where
    nothing : AllRunnable []
    next :
        (t : PlcTask W) (ts : List (PlcTask W))
        → has_fn t ≡ true
        → 0 < t.period_ms
        → AllRunnable ts
        → AllRunnable (t ∷ ts)

  pub record IsReady (s : PlcScheduler W) : Type 0 where
    pub few : length s.tasks ≤ max_tasks
    pub runnable : AllRunnable s.tasks

  AllRunnable-snoc :
      (t : PlcTask W) (ts : List (PlcTask W))
      → has_fn t ≡ true
      → 0 < t.period_ms
      → AllRunnable ts
      → AllRunnable (ts ++ t ∷ [])
  AllRunnable-snoc t [] f p nothing = next t [] f p nothing
  AllRunnable-snoc t (d ∷ ts) f p (next _ _ g q rest) =
      next d (ts ++ t ∷ []) g q (AllRunnable-snoc t ts f p rest)

  decide :
      (s : PlcScheduler W) (t : PlcTask W)
      → (add_task_internal s t ≡ (s, false))
        ⊎ ((has_fn t ≡ true)
            × (0 < t.period_ms)
            × (length s.tasks < max_tasks)
            × (add_task_internal s t
                ≡ (record s { tasks = s.tasks ++ record t { last_run_ms = 0 } ∷ [] }, true)))
  unfolding add_task_internal
  decide s t = elim (Bool-cases (has_fn t)) [
    | inl f ↦ elim (Bool-cases (t.period_ms == 0)) [
      | inl z ↦ inl (ground arith)
      | inr z ↦ elim (Bool-cases (leb max_tasks (length s.tasks))) [
        | inl full ↦ inl (ground arith)
        | inr room ↦ inr (f, ground arith, ground arith, ground arith)
      ]
    ]
    | inr f ↦ inl (ground arith)
  ]

  -- Any call of `plc_scheduler_add_task_internal` keeps the tasks within the 32 places of the array, each with
  -- a function and a period.
  pub add_task_internal-IsReady :
      (s : PlcScheduler W) (t : PlcTask W) → IsReady s → IsReady (add_task_internal s t).0
  unfolding add_task_internal
  add_task_internal-IsReady s t h = elim (decide s t) [
    | inl e ↦ subst (λ r. IsReady r.0) (sym e) h
    | inr (f, p, room, e) ↦
        subst (λ r. IsReady r.0) (sym e)
          (record {
            few = omega (arith, length-append s.tasks (record t { last_run_ms = 0 } ∷ []));
            runnable = AllRunnable-snoc (record t { last_run_ms = 0 }) s.tasks f p h.runnable;
          })
  ]

  -- A running scheduler refuses a task, hooks, callbacks and a second start, and stays as it is.
  pub running_refuses :
      (s : PlcScheduler W) (t : PlcTask W) (b e : Option (Hook W)) (u : ℕ) (created : Bool)
      → s.running ≡ true
      → (add_task s t ≡ (s, false))
        × (set_backend_hooks s b e u ≡ (s, false))
        × (set_callbacks s b e u ≡ (s, false))
        × (start s created ≡ (s, false))
  unfolding add_task set_backend_hooks set_callbacks start
  running_refuses s t b e u created run = (ground arith, ground arith, ground arith, ground arith)

  -- Callbacks set on a stopped scheduler without backend hooks are called once in a cycle, although
  -- they also become the backend hooks.
  pub callbacks_once :
      (s : PlcScheduler W) (b e : Hook W) (u : ℕ) (w : World W)
      → s.running ≡ false
      → s.backend_cycle_begin ≡ none
      → s.backend_cycle_end ≡ none
      → (begin_hooks (set_callbacks s (some b) (some e) u).0 w ≡ b.run u w)
        × (end_hooks (set_callbacks s (some b) (some e) u).0 w ≡ e.run u w)
  unfolding set_callbacks begin_hooks end_hooks
  callbacks_once s b e u w stopped nb ne = (ground arith, ground arith)

  -- If only a begin hook was set for the backend, `plc_scheduler_set_callbacks` replaces the user
  -- pointer that hook is called with by that of the callbacks.
  pub callbacks_take_user :
      (s : PlcScheduler W) (g b e : Hook W) (u v : ℕ) (w : World W)
      → s.running ≡ false
      → b.pointer ≢ g.pointer
      → begin_hooks (set_callbacks (set_backend_hooks s (some g) none u).0 (some b) (some e) v).0 w
        ≡ b.run v (g.run v w)
  unfolding set_backend_hooks set_callbacks begin_hooks
  callbacks_take_user s g b e u v w stopped ne = ground arith
