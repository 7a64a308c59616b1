-- ===== src/Runtime/Start.antt =====
-- `runtime_backends_start`: what a driver that fails to start leaves behind.
pub mod Leaves
use mathlib.Core.Path.{subst}
use plcmaster.Prelude.{
  ℕ, zero, suc, ◌+◌, ◌≤◌, ◌<◌, ◌≡◌, ◌≢◌, sym, ap, ◌∙◌, Bool, true, false, Bool-cases, Option-cases,
  inl, inr, Option, none, some, List, get_elem?, get_elem?-set_self, get_elem?-set_ne, get_elem?-lt,
  ltb, ◌==◌, if◌then◌else◌, arith,
}
use plcmaster.Backend.{BackendOps, BackendDriver}
use plcmaster.Runtime.{
  Runtime, driver_op, op_at, put_impl, with_impl, call, rollback, start_from, backends_start,
}

abbrev pub Slot : Type 0 → Type 0
Slot Impl = Option (Option (BackendDriver Impl))

abbrev pub Op : Type 0 → Type 0
Op Impl = Impl → Impl × Bool

module _ {Impl : Type 0} where
  abbrev flat : Slot Impl → Option (BackendDriver Impl)
  flat s = elim s [ none ↦ none | some d ↦ d ]

  abbrev called : Slot Impl → Option (Impl × Op Impl) → Slot Impl
  called s none = s
  called s (some op) = some (with_impl (call op).0 (flat s))

  -- A slot after the driver in it, if it has the operation, carried it out.
  pub after : (BackendOps Impl → Option (Op Impl)) → Slot Impl → Slot Impl
  after field s = called s (driver_op field (flat s))

  -- The `start` operation of the driver in a slot returns 0 (`true`) or not.
  pub record Starts (s : Slot Impl) (done : Bool) : Type 0 where
    pub op : Impl × Op Impl
    pub found : driver_op (λ o. o.start) (flat s) ≡ some op
    pub result : (call op).1 ≡ done

  put_self :
      (field : BackendOps Impl → Option (Op Impl)) (drvs : List (Option (BackendDriver Impl)))
      (k : ℕ) (op : Impl × Op Impl)
      → op_at field drvs k ≡ some op
      → get_elem? (put_impl drvs k (call op).0) k ≡ after field (get_elem? drvs k)
  unfolding after
  put_self field drvs k op e = elim (Option-cases (get_elem? drvs k)) [
    | inl null ↦ ground arith
    | inr (d, here) ↦
        get_elem?-set_self drvs k _ (get_elem?-lt drvs k d here)
        ∙ sym (ap (called (get_elem? drvs k)) e)
  ]

  put_ne :
      (drvs : List (Option (BackendDriver Impl))) (k j : ℕ) (impl : Impl)
      → k ≢ j
      → get_elem? (put_impl drvs k impl) j ≡ get_elem? drvs j
  put_ne drvs k j impl h = get_elem?-set_ne drvs k j _ h

  -- The drivers after the one in slot `k`, if it has the operation, carried it out.
  abbrev pub turned :
      (BackendOps Impl → Option (Op Impl))
      → List (Option (BackendDriver Impl))
      → ℕ
      → List (Option (BackendDriver Impl))
  turned field drvs k = elim (op_at field drvs k) [
    | none ↦ drvs
    | some op ↦ put_impl drvs k (call op).0
  ]

  pub turned_self :
      (field : BackendOps Impl → Option (Op Impl)) (drvs : List (Option (BackendDriver Impl)))
      (k : ℕ)
      → get_elem? (turned field drvs k) k ≡ after field (get_elem? drvs k)
  unfolding after
  turned_self field drvs k = elim (Option-cases (op_at field drvs k)) [
    | inl null ↦ ground (arith, null)
    | inr (op, e) ↦ ground (arith, e, put_self field drvs k op e)
  ]

  pub turned_ne :
      (field : BackendOps Impl → Option (Op Impl)) (drvs : List (Option (BackendDriver Impl)))
      (k j : ℕ)
      → k ≢ j
      → get_elem? (turned field drvs k) j ≡ get_elem? drvs j
  turned_ne field drvs k j h = elim (Option-cases (op_at field drvs k)) [
    | inl null ↦ ground (arith, null)
    | inr (op, e) ↦ ground (arith, e, put_ne drvs k j (call op).0 h)
  ]

  -- The loop that stops the drivers reaches exactly the slots below its bound.
  pub rollback_at :
      (k : ℕ) (drvs : List (Option (BackendDriver Impl))) (j : ℕ)
      → get_elem? (rollback k drvs) j
        ≡ (if ltb j k then after (λ o. o.stop) (get_elem? drvs j) else get_elem? drvs j)
  unfolding rollback
  rollback_at zero drvs j = ground arith
  rollback_at (suc k) drvs j =
      let rest = rollback_at k (turned (λ o. o.stop) drvs k) j in
      elim (Bool-cases (j == k)) [
        | inl same ↦ ground (arith, rest, turned_self (λ o. o.stop) drvs k)
        | inr other ↦ ground (arith, rest, turned_ne (λ o. o.stop) drvs k j (ground arith))
      ]

  pub start_step :
      (left i started : ℕ) (drvs : List (Option (BackendDriver Impl)))
      (h : Starts (get_elem? drvs i) true)
      → start_from (suc left) i started drvs
        ≡ start_from left (i + 1) (started + 1) (turned (λ o. o.start) drvs i)
  unfolding start_from
  start_step left i started drvs h = ground (arith, h.found, h.result)

  pub start_skip :
      (left i started : ℕ) (drvs : List (Option (BackendDriver Impl)))
      → op_at (λ o. o.start) drvs i ≡ none
      → start_from (suc left) i started drvs ≡ start_from left (i + 1) started drvs
  unfolding start_from
  start_skip left i started drvs h = ground (arith, h)

  pub start_fail :
      (left i started : ℕ) (drvs : List (Option (BackendDriver Impl)))
      (h : Starts (get_elem? drvs i) false)
      → start_from (suc left) i started drvs
        ≡ (rollback started (turned (λ o. o.start) drvs i), false)
  unfolding start_from
  start_fail left i started drvs h = ground (arith, h.found, h.result)

  -- What slot `j` holds after the driver in slot `n` was the first that did not start, when those
  -- below `i` had been started before.
  pub left_behind : ℕ → ℕ → ℕ → Slot Impl → Slot Impl
  left_behind i n j s =
      if ltb j i
      then after (λ o. o.stop) s
      else if ltb j n
      then after (λ o. o.stop) (after (λ o. o.start) s)
      else if j == n
      then after (λ o. o.start) s
      else s

  fail_at :
      (i n : ℕ) (drvs : List (Option (BackendDriver Impl)))
      → i ≡ n
      → (j : ℕ)
      → (if ltb j i
          then after (λ o. o.stop) (get_elem? (turned (λ o. o.start) drvs i) j)
          else get_elem? (turned (λ o. o.start) drvs i) j)
        ≡ left_behind i n j (get_elem? drvs j)
  unfolding left_behind
  fail_at i n drvs here j = elim (Bool-cases (j == i)) [
    | inl same ↦ ground (arith, turned_self (λ o. o.start) drvs i)
    | inr other ↦ ground (arith, turned_ne (λ o. o.start) drvs i j (ground arith))
  ]

  step_at :
      (i n : ℕ) (drvs : List (Option (BackendDriver Impl)))
      → i < n
      → (j : ℕ)
      → left_behind (i + 1) n j (get_elem? (turned (λ o. o.start) drvs i) j)
        ≡ left_behind i n j (get_elem? drvs j)
  unfolding left_behind
  step_at i n drvs here j = elim (Bool-cases (j == i)) [
    | inl same ↦ ground (arith, turned_self (λ o. o.start) drvs i)
    | inr other ↦ ground (arith, turned_ne (λ o. o.start) drvs i j (ground arith))
  ]

  start_from_fails :
      (left i n : ℕ) (drvs : List (Option (BackendDriver Impl)))
      → i ≤ n
      → n < i + left
      → ((j : ℕ) → i ≤ j → j < n → Starts (get_elem? drvs j) true)
      → Starts (get_elem? drvs n) false
      → ((start_from left i i drvs).1 ≡ false)
        × ((j : ℕ)
            → get_elem? (start_from left i i drvs).0 j ≡ left_behind i n j (get_elem? drvs j))
  unfolding left_behind
  start_from_fails zero i n drvs le lt before fails = (ground arith, λ j. ground arith)
  start_from_fails (suc left) i n drvs le lt before fails = elim (Bool-cases (i == n)) [
    | inl same ↦
        let here : i ≡ n = ground arith in
        let stops : Starts (get_elem? drvs i) false =
          subst (λ m. Starts (get_elem? drvs m) false) (sym here) fails in
        let e = start_fail left i i drvs stops in
        (
          ap (λ r. r.1) e,
          λ j.
              ap (λ r. get_elem? r.0 j) e
              ∙ rollback_at i (turned (λ o. o.start) drvs i) j
              ∙ fail_at i n drvs here j,
        )
    | inr other ↦
        let here : i < n = ground arith in
        let e = start_step left i i drvs (before i (omega arith) here) in
        let drvs' = turned (λ o. o.start) drvs i in
        let (result, slots) =
          start_from_fails left (i + 1) n drvs' (omega arith) (omega arith)
            (λ j ge small.
              subst (λ v. Starts v true) (sym (turned_ne (λ o. o.start) drvs i j (omega arith)))
                (before j (omega arith) small))
            (subst (λ v. Starts v false) (sym (turned_ne (λ o. o.start) drvs i n (omega arith)))
              fails) in
        (
          ap (λ r. r.1) e ∙ result,
          λ j. ap (λ r. get_elem? r.0 j) e ∙ slots j ∙ step_at i n drvs here j,
        )
  ]

  -- When a driver does not start, all drivers before it, which did, are stopped again; it keeps the
  -- state that its failing call left, and the drivers after it are not touched.
  pub backends_start_fails :
      (rt : Runtime Impl) (drvs : List (Option (BackendDriver Impl))) (n : ℕ)
      → rt.backends ≡ some drvs
      → n < rt.backend_count
      → ((j : ℕ) → j < n → Starts (get_elem? drvs j) true)
      → Starts (get_elem? drvs n) false
      → (drvs' : List (Option (BackendDriver Impl))) × (backends_start rt
          ≡ (record rt { backends = some drvs' }, false))
        × ((j : ℕ) → get_elem? drvs' j ≡ left_behind 0 n j (get_elem? drvs j))
  unfolding backends_start
  backends_start_fails rt drvs n e lt before fails =
      let (result, slots) =
        start_from_fails rt.backend_count 0 n drvs (omega arith) (omega arith)
          (λ j ge small. before j small) fails in
      ((start_from rt.backend_count 0 0 drvs).0, ground (arith, e, result), slots)
