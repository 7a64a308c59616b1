-- ===== src/Runtime/Start/Leaves.antt =====
-- `runtime_backends_start` with a slot that has nothing to start.
use mathlib.Core.Path.{subst}
use plcmaster.Prelude.{
  ℕ, zero, suc, ◌<◌, ◌≡◌, sym, ◌∙◌, true, false, Option, none, some, List, get_elem?, arith,
}
use plcmaster.Backend.{BackendDriver}
use plcmaster.Runtime.{Runtime, op_at, rollback, start_from, backends_start}
use plcmaster.Runtime.Start.{
  Starts, after, turned, turned_self, turned_ne, start_step, start_skip, start_fail, rollback_at,
}

module _ {Impl : Type 0} where
  start_leaves :
      (count : ℕ) (drvs : List (Option (BackendDriver Impl)))
      → 2 < count
      → op_at (λ o. o.start) drvs 0 ≡ none
      → Starts (get_elem? drvs 1) true
      → Starts (get_elem? drvs 2) false
      → start_from count 0 0 drvs
        ≡ (rollback 1 (turned (λ o. o.start) (turned (λ o. o.start) drvs 1) 2), false)
  start_leaves zero drvs lt absent starts fails = elim lt [ ]
  start_leaves (suc zero) drvs lt absent starts fails = ground arith
  start_leaves (suc (suc zero)) drvs lt absent starts fails = ground arith
  start_leaves (suc (suc (suc left))) drvs lt absent starts fails =
      start_skip (suc (suc left)) 0 0 drvs absent
      ∙ start_step (suc left) 1 0 drvs starts
      ∙ start_fail left 2 1 (turned (λ o. o.start) drvs 1) (
          subst (λ v. Starts v false) (sym (turned_ne (λ o. o.start) drvs 1 2 (omega arith))) fails)

  -- The number of started drivers is used as the index where stopping begins: with a slot without a
  -- `start` operation in front, a driver that was started stays started.
  pub backends_start_leaves :
      (rt : Runtime Impl) (drvs : List (Option (BackendDriver Impl)))
      → rt.backends ≡ some drvs
      → 2 < rt.backend_count
      → op_at (λ o. o.start) drvs 0 ≡ none
      → Starts (get_elem? drvs 1) true
      → Starts (get_elem? drvs 2) false
      → (drvs' : List (Option (BackendDriver Impl))) × (backends_start rt
          ≡ (record rt { backends = some drvs' }, false))
        × (get_elem? drvs' 1 ≡ after (λ o. o.start) (get_elem? drvs 1))
  unfolding backends_start
  backends_start_leaves rt drvs e many absent starts fails =
      let run = start_leaves rt.backend_count drvs many absent starts fails in
      let twice = turned (λ o. o.start) (turned (λ o. o.start) drvs 1) 2 in
      (
        rollback 1 twice,
        ground (arith, e, run),
        rollback_at 1 twice 1
            ∙ turned_ne (λ o. o.start) (turned (λ o. o.start) drvs 1) 2 1 (omega arith)
            ∙ turned_self (λ o. o.start) drvs 1,
      )
