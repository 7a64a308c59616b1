-- ===== src/Runtime/Slots.antt =====
-- Looking up and updating the driver in one slot of the backend array.
use plcmaster.Prelude.{
  ℕ, ◌≡◌, ◌≢◌, inl, inr, refl, Option-cases, Option, none, some, List, get_elem?,
  get_elem?-set_self, get_elem?-set_ne, get_elem?-lt, arith,
}
use plcmaster.Backend.{BackendOps, BackendDriver}
use plcmaster.Runtime.{driver_at, driver_op, op_at, put_impl}

module _ {Impl : Type 0} where
  -- Slot `i` holds the driver `d` with the table `o`.
  pub record Holds (drvs : List (Option (BackendDriver Impl))) (i : ℕ) (d : BackendDriver Impl)
      (o : BackendOps Impl) : Type 0 where
    pub slot : get_elem? drvs i ≡ some (some d)
    pub table : d.ops ≡ some o

  pub driver_at-slot :
      (drvs : List (Option (BackendDriver Impl))) (i : ℕ) (d : BackendDriver Impl)
      → driver_at drvs i ≡ some d
      → get_elem? drvs i ≡ some (some d)
  driver_at-slot drvs i d h = ground arith

  driver_op_inv :
      {F : Type 0} (field : BackendOps Impl → Option F) (d : Option (BackendDriver Impl))
      (op : Impl × F)
      → driver_op field d ≡ some op
      → (drv : BackendDriver Impl) × (o : BackendOps Impl) × (d ≡ some drv)
        × (drv.ops ≡ some o)
        × (field o ≡ some op.1)
        × (drv.impl ≡ op.0)
  driver_op_inv field none op h = cc
  driver_op_inv field (some drv) op h = elim (Option-cases drv.ops) [
    | inl null ↦ ground arith
    | inr (o, eo) ↦ elim (Option-cases (field o)) [
      | inl null ↦ ground arith
      | inr (f, ef) ↦
          let same : some op ≡ some (drv.impl, f) = ground arith in
          (drv, o, refl, eo, ground arith, ground arith)
    ]
  ]

  -- An operation that is found belongs to the driver in the slot.
  pub op_at_inv :
      {F : Type 0} (field : BackendOps Impl → Option F) (drvs : List (Option (BackendDriver Impl)))
      (i : ℕ) (op : Impl × F)
      → op_at field drvs i ≡ some op
      → (drv : BackendDriver Impl) × (o : BackendOps Impl) × Holds drvs i drv o
        × (field o ≡ some op.1)
        × (drv.impl ≡ op.0)
  op_at_inv field drvs i op h =
      let (drv, o, at, table, f, impl) = driver_op_inv field (driver_at drvs i) op h in
      (drv, o, record { slot = driver_at-slot drvs i drv at; table = table }, f, impl)

  pub op_at-Holds :
      {F : Type 0} (field : BackendOps Impl → Option F) (drvs : List (Option (BackendDriver Impl)))
      (i : ℕ) {d : BackendDriver Impl} {o : BackendOps Impl} {f : F}
      → Holds drvs i d o
      → field o ≡ some f
      → op_at field drvs i ≡ some (d.impl, f)
  op_at-Holds field drvs i {d} {o} {f} h e = ground (arith, h.slot, h.table, e)

  pub put_impl-Holds :
      (drvs : List (Option (BackendDriver Impl))) (i : ℕ) {d : BackendDriver Impl}
      {o : BackendOps Impl} (impl : Impl)
      → Holds drvs i d o
      → Holds (put_impl drvs i impl) i (record d { impl = impl }) o
  put_impl-Holds drvs i {d} impl h = record {
    slot = ground (
      arith,
      h.slot,
      get_elem?-set_self drvs i (some (record d { impl = impl })) (get_elem?-lt drvs i _ h.slot),
    );
    table = h.table;
  }

  -- The other slots are as they were.
  pub get_elem?-put_impl_ne :
      (drvs : List (Option (BackendDriver Impl))) (i j : ℕ) (impl : Impl)
      → i ≢ j
      → get_elem? (put_impl drvs i impl) j ≡ get_elem? drvs j
  get_elem?-put_impl_ne drvs i j impl h = get_elem?-set_ne drvs i j _ h
