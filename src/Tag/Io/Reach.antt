-- ===== src/Tag/Io/Reach.antt =====
-- The data operation that a tag reaches through the driver array of the runtime.
use plcmaster.Prelude.{ℕ, ◌<◌, ◌≡◌, inl, inr, refl, Option-cases, Option, some, List, arith}
use plcmaster.Tag.{TagIoRef}
use plcmaster.Tag.Io.{io_base, store_through}
use plcmaster.Backend.{BackendOps, BackendDriver}
use plcmaster.Runtime.{Runtime, op_at, put_impl}
use plcmaster.Runtime.Slots.{Holds, op_at_inv, op_at-Holds}

abbrev pub Slots : Type 0 → Type 0
Slots Impl = List (Option (BackendDriver Impl))

abbrev pub DataOp : Type 0 → Type 0
DataOp Impl = Impl → ℕ → Impl × Option (List ℕ)

module _ {Impl : Type 0} where
  -- A data operation `f` of the driver that a tag refers to.
  pub record Reaches (field : BackendOps Impl → Option (DataOp Impl)) (rt : Runtime Impl)
      (ref : TagIoRef) (drvs : Slots Impl) (d : BackendDriver Impl) (o : BackendOps Impl)
      (f : DataOp Impl) : Type 0 where
    pub array : rt.backends ≡ some drvs
    pub index : ref.backend_index < rt.backend_count
    pub holds : Holds drvs ref.backend_index d o
    pub member : field o ≡ some f

  abbrev pub after_op : Runtime Impl → TagIoRef → Slots Impl → Impl → Runtime Impl
  after_op rt ref drvs impl = record rt { backends = some (put_impl drvs ref.backend_index impl) }

  pub io_base-Reaches :
      {field : BackendOps Impl → Option (DataOp Impl)} {rt : Runtime Impl} {ref : TagIoRef}
      {drvs : Slots Impl} {d : BackendDriver Impl} {o : BackendOps Impl} {f : DataOp Impl}
      → Reaches field rt ref drvs d o f
      → io_base field rt ref
        ≡ (after_op rt ref drvs (f d.impl ref.device_index).0, (f d.impl ref.device_index).1)
  unfolding io_base
  io_base-Reaches {field} {rt} {ref} {drvs} {d} {o} {f} r =
      ground (arith, r.array, r.index, op_at-Holds field drvs ref.backend_index r.holds r.member)

  pub io_base_inv :
      (field : BackendOps Impl → Option (DataOp Impl)) (rt : Runtime Impl) (ref : TagIoRef)
      (bytes : List ℕ)
      → (io_base field rt ref).1 ≡ some bytes
      → (drvs : Slots Impl) × (d : BackendDriver Impl) × (o : BackendOps Impl) × (f : DataOp Impl)
        × Reaches field rt ref drvs d o f
  unfolding io_base
  io_base_inv field rt ref bytes h = elim (Option-cases rt.backends) [
    | inl null ↦ ground arith
    | inr (drvs, e) ↦ elim (Option-cases (op_at field drvs ref.backend_index)) [
      | inl null ↦ ground arith
      | inr (op, at) ↦
          let (d, o, holds, member, impl) = op_at_inv field drvs ref.backend_index op at in
          (
            drvs,
            d,
            o,
            op.1,
            record { array = e; index = ground arith; holds = holds; member = member },
          )
    ]
  ]

  pub store_through-Holds :
      (rt : Runtime Impl) (ref : TagIoRef) (new : List ℕ) {drvs : Slots Impl}
      {d : BackendDriver Impl} {o : BackendOps Impl}
      → rt.backends ≡ some drvs
      → Holds drvs ref.backend_index d o
      → store_through rt ref new ≡ after_op rt ref drvs (o.store_output d.impl ref.device_index new)
  unfolding store_through
  store_through-Holds rt ref new {drvs} {d} {o} e h = ground (
    arith,
    op_at-Holds (λ (t : BackendOps Impl). some t.store_output) drvs ref.backend_index h refl,
  )
