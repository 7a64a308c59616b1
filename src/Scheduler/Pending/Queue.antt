-- ===== src/Scheduler/Pending/Queue.antt =====
-- `plc_scheduler_queue_task`, and what its index does to `plc_scheduler_drain_pending`.
use mathlib.Core.Path.{subst}
use plcmaster.Prelude.{
  ℕ, suc, ◌+◌, ◌-◌, ◌%◌, ◌≤◌, ◌<◌, ◌≡◌, ◌≢◌, refl, sym, ap, ap₂, ◌∙◌, true, false, List, [], ◌∷◌,
  ◌++◌, length, length-append, length-set, get_elem?, get_elem?-set_self, get_elem?-set_ne, set,
  arith,
}
use plcmaster.Scheduler.{PlcTask, PlcScheduler, max_pending, u32_mod, queue_task, drain_pending}
use plcmaster.Scheduler.Pending.{Window, nothing, next, IsPending, drain_empty}

module _ {W : Type 0} where
  Window-snoc :
      (s s' : PlcScheduler W) (i w : ℕ) (t : PlcTask W) (ts : List (PlcTask W))
      → s'.pending_ready ≡ set s.pending_ready (w % max_pending) true
      → s'.pending_tasks ≡ set s.pending_tasks (w % max_pending) t
      → length s.pending_ready ≡ max_pending
      → length s.pending_tasks ≡ max_pending
      → w ≡ i + length ts
      → length ts < max_pending
      → Window s i ts
      → Window s' i (ts ++ t ∷ [])
  Window-snoc s s' i w t [] er et nr nt e room nothing =
      let here : i % max_pending ≡ w % max_pending = omega arith in
      next t
        (ap₂ (λ rs j. get_elem? rs j) er here
          ∙ get_elem?-set_self s.pending_ready (w % max_pending) true (omega arith))
        (ap₂ (λ rs j. get_elem? rs j) et here
          ∙ get_elem?-set_self s.pending_tasks (w % max_pending) t (omega arith))
        nothing
  Window-snoc s s' i w t (d ∷ ts) er et nr nt e room (next _ ready at rest) =
      let apart : w % max_pending ≢ i % max_pending = omega arith in
      next d
        (ap (λ rs. get_elem? rs (i % max_pending)) er
          ∙ get_elem?-set_ne s.pending_ready (w % max_pending) (i % max_pending) true apart
          ∙ ready)
        (ap (λ rs. get_elem? rs (i % max_pending)) et
          ∙ get_elem?-set_ne s.pending_tasks (w % max_pending) (i % max_pending) t apart
          ∙ at)
        (Window-snoc s s' (suc i) w t ts er et nr nt (omega arith) (omega arith) rest)

  -- The scheduler after a task was queued.
  queued : PlcScheduler W → PlcTask W → PlcScheduler W
  queued s t = record s {
    pending_write = (s.pending_write + 1) % u32_mod;
    pending_tasks = set s.pending_tasks (s.pending_write % max_pending) t;
    pending_ready = set s.pending_ready (s.pending_write % max_pending) true;
  }

  IsPending-queued :
      (s : PlcScheduler W) (t : PlcTask W) (ts : List (PlcTask W))
      → IsPending s ts
      → length ts < max_pending
      → s.pending_write + 1 < u32_mod
      → IsPending (queued s t) (ts ++ t ∷ [])
  unfolding queued
  IsPending-queued s t ts p room low =
      let more : length (ts ++ t ∷ []) ≡ length ts + 1 = length-append ts (t ∷ []) in
      record {
        window =
            Window-snoc s (queued s t) s.pending_read s.pending_write t ts refl refl p.ready_size
              p.tasks_size p.count room p.window;
        count = omega arith;
        few = omega arith;
        top = omega arith;
        ready_size = length-set s.pending_ready _ true ∙ p.ready_size;
        tasks_size = length-set s.pending_tasks _ t ∙ p.tasks_size;
      }

  -- While the indices have not wrapped and do not wrap now, `plc_scheduler_queue_task` puts the task
  -- behind the pending ones and succeeds if fewer than 32 are pending, else it fails and changes
  -- nothing.
  pub queue_task_lem :
      (s : PlcScheduler W) (t : PlcTask W) (ts : List (PlcTask W))
      → IsPending s ts
      → s.pending_write + 1 < u32_mod
      → (length ts < max_pending
          → ((queue_task s t).1 ≡ true) × IsPending (queue_task s t).0 (ts ++ t ∷ []))
        × (max_pending ≤ length ts → queue_task s t ≡ (s, false))
  unfolding queue_task queued
  queue_task_lem s t ts p low = (
    λ room.
        let e : queue_task s t ≡ (queued s t, true) = ground arith in
        (
          ap (λ r. r.1) e,
          subst (λ r. IsPending r.0 (ts ++ t ∷ [])) (sym e) (IsPending-queued s t ts p room low),
        ),
    λ full. ground arith,
  )

  -- When the write index wraps to 0, `plc_scheduler_queue_task` reports success, but
  -- `plc_scheduler_drain_pending` then does nothing: it compares the wrapped index with the read index.
  pub drain_pending_wrap :
      (s : PlcScheduler W) (t : PlcTask W)
      → s.pending_write ≡ u32_mod - 1
      → s.pending_write - s.pending_read < max_pending
      → s.pending_read ≤ s.pending_write
      → ((queue_task s t).1 ≡ true) × (drain_pending (queue_task s t).0 ≡ (queue_task s t).0)
  unfolding queue_task queued drain_pending
  drain_pending_wrap s t top few le =
      let e : queue_task s t ≡ (queued s t, true) = ground arith in
      let low : (queued s t).pending_write ≤ (queued s t).pending_read = omega arith in
      (
        ap (λ r. r.1) e,
        ap (λ r. drain_pending r.0) e
            ∙ drain_empty (queued s t).pending_write (queued s t).pending_read
                (queued s t).pending_write (queued s t) low
            ∙ sym (ap (λ r. r.0) e),
      )
