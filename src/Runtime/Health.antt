-- ===== src/Runtime/Health.antt =====
-- `runtime_get_health_level` against what the drivers report.
use plcmaster.Prelude.{
  ℕ, zero, suc, ◌+◌, ◌<◌, ◌≡◌, ◌≢◌, refl, ap₂, Bool, false, Option-cases, inl, inr, ◌||◌, not,
  Option, none, some, List, if◌then◌else◌, get_elem?-set_ne, arith,
}
use plcmaster.Backend.{BackendStatus, BackendDriver}
use plcmaster.Runtime.{
  Runtime, PlcHealthLevel, ok, warn, fault, driver_at, driver_op, op_at, put_impl, ask, health_from,
  get_health_level,
}

abbrev pub worst : Bool → Bool → PlcHealthLevel → PlcHealthLevel
worst f d level = if f then fault else if d then warn else level

module _ {Impl : Type 0} where
  -- What a driver answers to `get_status`, `none` for a driver without it.
  abbrev pub report : Option (BackendDriver Impl) → Option BackendStatus
  report d = elim (driver_op (λ o. o.get_status) d) [ none ↦ none | some op ↦ some (ask op).1 ]

  abbrev pub faulty : Option (BackendDriver Impl) → Bool
  faulty d = elim (report d) [ none ↦ false | some s ↦ s.fault_latched ]

  abbrev pub down : Option (BackendDriver Impl) → Bool
  down d = elim (report d) [ none ↦ false | some s ↦ not s.in_op ]

  -- Whether one of the `n` drivers from slot `i` on has a property.
  pub some_driver :
      (Option (BackendDriver Impl) → Bool) → List (Option (BackendDriver Impl)) → ℕ → ℕ → Bool
  some_driver p drvs i zero = false
  some_driver p drvs i (suc n) = p (driver_at drvs i) || some_driver p drvs (i + 1) n

  some_driver-put_impl :
      (p : Option (BackendDriver Impl) → Bool) (drvs : List (Option (BackendDriver Impl)))
      (k i n : ℕ) (impl : Impl)
      → k < i
      → some_driver p (put_impl drvs k impl) i n ≡ some_driver p drvs i n
  unfolding some_driver
  some_driver-put_impl p drvs k i zero impl lt = refl
  some_driver-put_impl p drvs k i (suc n) impl lt =
      let apart : k ≢ i = λ e. omega arith in
      ap₂ (λ o b. p (elim o [ none ↦ none | some slot ↦ slot ]) || b)
        (get_elem?-set_ne drvs k i _ apart)
        (some_driver-put_impl p drvs k (i + 1) n impl (omega arith))

  health_from-level :
      (n i : ℕ) (level : PlcHealthLevel) (drvs : List (Option (BackendDriver Impl)))
      → (health_from n i level drvs).1
        ≡ worst (some_driver faulty drvs i n) (some_driver down drvs i n) level
  unfolding health_from some_driver
  health_from-level zero i level drvs = refl
  health_from-level (suc n) i level drvs = elim (Option-cases (op_at (λ o. o.get_status) drvs i)) [
    | inl null ↦ ground (arith, null, health_from-level n (i + 1) level drvs)
    | inr (op, e) ↦
        let impl = (ask op).0 in
        let rest =
          health_from-level n (i + 1) (if (ask op).1.in_op then level else warn)
            (put_impl drvs i impl) in
        ground (
          arith,
          e,
          rest,
          some_driver-put_impl faulty drvs i (i + 1) n impl (omega arith),
          some_driver-put_impl down drvs i (i + 1) n impl (omega arith),
        )
  ]

  -- The health level is FAULT if one of the drivers reports a latched fault, else WARN if one of them
  -- reports that it does not operate, else OK. Drivers that report nothing do not count.
  pub get_health_level_lem :
      (rt : Runtime Impl) (drvs : List (Option (BackendDriver Impl)))
      → rt.backends ≡ some drvs
      → (get_health_level rt).1
        ≡ worst
            (some_driver faulty drvs 0 rt.backend_count)
            (some_driver down drvs 0 rt.backend_count)
            ok
  unfolding get_health_level
  get_health_level_lem rt drvs e = ground (arith, e, health_from-level rt.backend_count 0 ok drvs)
