-- ===== src/Scheduler/Pending.antt =====
-- Tasks that are added while the scheduler runs: queued by `plc_scheduler_queue_task`, taken over by
-- `plc_scheduler_drain_pending`.
pub mod Queue
use mathlib.Core.Path.{subst}
use plcmaster.Prelude.{
  ℕ, zero, suc, ◌+◌, ◌-◌, ◌%◌, ◌≤◌, ◌<◌, ◌≡◌, ◌≢◌, refl, sym, ap, ap₂, ◌∙◌, true, false, ◌||◌, not,
  some, List, [], ◌∷◌, ◌++◌, length, length-append, length-set, get_elem?, get_elem?-set_self,
  get_elem?-set_ne, set, leb, ◌==◌, if◌then◌else◌, arith,
}
use plcmaster.Scheduler.{
  PlcTask, PlcScheduler, has_fn, pending_at, take_pending, max_tasks, max_pending, u32_mod,
  add_task_internal, queue_task, drain_from, drain_pending,
}

module _ {W : Type 0} where
  -- The tasks after `plc_scheduler_add_task_internal`.
  accept : List (PlcTask W) → PlcTask W → List (PlcTask W)
  accept have t =
      if not (has_fn t) || t.period_ms == 0
      then have
      else if leb max_tasks (length have)
      then have
      else have ++ record t { last_run_ms = 0 } ∷ []

  add_task_internal-tasks :
      (s : PlcScheduler W) (t : PlcTask W)
      → (add_task_internal s t).0 ≡ record s { tasks = accept s.tasks t }
  unfolding add_task_internal accept
  add_task_internal-tasks s t = ground arith

  take_pending_lem :
      (s : PlcScheduler W) (r : ℕ) (t : PlcTask W)
      → take_pending s r t ≡ record s {
        pending_ready = set s.pending_ready (r % max_pending) false;
        pending_read = (r + 1) % u32_mod;
        tasks = accept s.tasks t;
      }
  unfolding take_pending
  take_pending_lem s r t = add_task_internal-tasks _ t

  -- Adding each task of a list in order: those without a function or a period are left out, and
  -- those for which there is no place.
  pub add_all : List (PlcTask W) → List (PlcTask W) → List (PlcTask W)
  add_all have [] = have
  add_all have (t ∷ ts) = add_all (accept have t) ts

  -- The pending tasks from the index `r` on, oldest first, are in their slots and marked ready.
  pub data Window (s : PlcScheduler W) : ℕ → List (PlcTask W) → Type 0 where
    nothing : {r : ℕ} → Window s r []
    next :
        {r : ℕ} {ts : List (PlcTask W)} (t : PlcTask W)
        → get_elem? s.pending_ready (r % max_pending) ≡ some true
        → get_elem? s.pending_tasks (r % max_pending) ≡ some t
        → Window s (suc r) ts
        → Window s r (t ∷ ts)

  -- The pending tasks of a scheduler whose 32-bit indices have not wrapped.
  pub record IsPending (s : PlcScheduler W) (ts : List (PlcTask W)) : Type 0 where
    pub window : Window s s.pending_read ts
    pub count : s.pending_write ≡ s.pending_read + length ts
    pub few : length ts ≤ max_pending
    pub top : s.pending_write < u32_mod
    pub ready_size : length s.pending_ready ≡ max_pending
    pub tasks_size : length s.pending_tasks ≡ max_pending

  -- Giving back the slot of `r` does not touch the slots of the later indices.
  Window-take :
      (s : PlcScheduler W) (r i : ℕ) (d : PlcTask W) (ts : List (PlcTask W))
      → r < i
      → i + length ts ≤ r + max_pending
      → Window s i ts
      → Window (take_pending s r d) i ts
  Window-take s r i d [] lt fits nothing = nothing
  Window-take s r i d (t ∷ ts) lt fits (next _ ready at rest) =
      let lem = take_pending_lem s r d in
      let apart : i % max_pending ≢ r % max_pending = omega arith in
      next t
        (ap (λ u. get_elem? u.pending_ready (i % max_pending)) lem
          ∙ get_elem?-set_ne s.pending_ready (r % max_pending) (i % max_pending) false
              (λ e. apart (sym e))
          ∙ ready)
        (ap (λ u. get_elem? u.pending_tasks (i % max_pending)) lem ∙ at)
        (Window-take s r (suc i) d ts (omega arith) (omega arith) rest)

  IsPending-take :
      {s : PlcScheduler W} (t : PlcTask W) (ts : List (PlcTask W))
      → IsPending s (t ∷ ts)
      → Window s (suc s.pending_read) ts
      → IsPending (take_pending s s.pending_read t) ts
  IsPending-take {s} t ts p rest =
      let r = s.pending_read in
      let lem = take_pending_lem s r t in
      let read' : (take_pending s r t).pending_read ≡ suc r =
        ap (λ u. u.pending_read) lem ∙ omega arith in
      let write' : (take_pending s r t).pending_write ≡ s.pending_write =
        ap (λ u. u.pending_write) lem in
      record {
        window =
            subst (λ i. Window (take_pending s r t) i ts) (sym read')
              (Window-take s r (suc r) t ts (omega arith) (omega arith) rest);
        count = omega arith;
        few = omega arith;
        top = omega arith;
        ready_size =
            ap (λ u. length u.pending_ready) lem
            ∙ length-set s.pending_ready _ false
            ∙ p.ready_size;
        tasks_size = ap (λ u. length u.pending_tasks) lem ∙ p.tasks_size;
      }

  Window-head :
      {s : PlcScheduler W} {r : ℕ} {t : PlcTask W} {ts : List (PlcTask W)}
      → Window s r (t ∷ ts)
      → (get_elem? s.pending_ready (r % max_pending) ≡ some true)
        × (get_elem? s.pending_tasks (r % max_pending) ≡ some t)
        × Window s (suc r) ts
  Window-head (next t ready at rest) = (ready, at, rest)

  pub drain_empty : (fuel r w : ℕ) (s : PlcScheduler W) → w ≤ r → drain_from (suc fuel) r w s ≡ s
  unfolding drain_from pending_at
  drain_empty fuel r w s le = ground arith

  drain_step :
      (fuel : ℕ) (s : PlcScheduler W) (t : PlcTask W)
      → s.pending_read < s.pending_write
      → get_elem? s.pending_ready (s.pending_read % max_pending) ≡ some true
      → get_elem? s.pending_tasks (s.pending_read % max_pending) ≡ some t
      → (let s' = take_pending s s.pending_read t in
          drain_from (suc fuel) s.pending_read s.pending_write s
          ≡ drain_from fuel s'.pending_read s'.pending_write s')
  unfolding drain_from pending_at
  drain_step fuel s t lt ready at =
      let lem = take_pending_lem s s.pending_read t in
      let found : pending_at s s.pending_read s.pending_write ≡ some t = ground arith in
      let step : drain_from (suc fuel) s.pending_read s.pending_write s
          ≡ drain_from fuel ((s.pending_read + 1) % u32_mod) s.pending_write
              (take_pending s s.pending_read t) =
        ground (arith, found) in
      step
      ∙ ap₂ (λ r w. drain_from fuel r w (take_pending s s.pending_read t))
          (sym (ap (λ u. u.pending_read) lem)) (sym (ap (λ u. u.pending_write) lem))

  drain_from-Window :
      (fuel : ℕ) (s : PlcScheduler W) (ts : List (PlcTask W))
      → length ts < fuel
      → IsPending s ts
      → ((drain_from fuel s.pending_read s.pending_write s).tasks ≡ add_all s.tasks ts)
        × IsPending (drain_from fuel s.pending_read s.pending_write s) []
  unfolding add_all
  drain_from-Window zero s ts lt p = elim lt [ ]
  drain_from-Window (suc fuel) s [] lt p =
      let e = drain_empty fuel s.pending_read s.pending_write s (omega arith) in
      (ap (λ u. u.tasks) e, subst (λ u. IsPending u []) (sym e) p)
  drain_from-Window (suc fuel) s (t ∷ ts) lt p =
      let (ready, at, rest) = Window-head p.window in
      let e = drain_step fuel s t (omega arith) ready at in
      let (tasks, empty) =
        drain_from-Window fuel (take_pending s s.pending_read t) ts (omega arith)
          (IsPending-take t ts p rest) in
      (
        ap (λ u. u.tasks) e
            ∙ tasks
            ∙ ap (λ u. add_all u.tasks ts) (take_pending_lem s s.pending_read t),
        subst (λ u. IsPending u []) (sym e) empty,
      )

  -- While the indices have not wrapped, `plc_scheduler_drain_pending` adds all pending tasks in the order
  -- in which they were queued, and leaves none pending; a task for which there is no place
  -- in the array is dropped.
  pub drain_pending_lem :
      (s : PlcScheduler W) (ts : List (PlcTask W))
      → IsPending s ts
      → ((drain_pending s).tasks ≡ add_all s.tasks ts) × IsPending (drain_pending s) []
  unfolding drain_pending
  drain_pending_lem s ts p = drain_from-Window (suc s.pending_write) s ts (omega arith) p
