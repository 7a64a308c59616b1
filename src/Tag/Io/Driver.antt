-- ===== src/Tag/Io/Driver.antt =====
-- Access to the data of a device through its driver.
use plcmaster.Prelude.{
  ℕ, ◌≡◌, ◌≢◌, ◌⊎◌, inl, inr, refl, sym, ◌∙◌, ap, Option-cases, Option, some, List, length, arith,
}
use plcmaster.Prelude.Bits.{IsBytes}
use plcmaster.Status.{Status, success}
use plcmaster.Tag.{TagType, TagDir, input, output, other, TagIoRef}
use plcmaster.Tag.Io.{
  io_base, get_io_read_base, get_io_write_base, store_through, read_bytes, write_bytes,
  read_io_value, write_io_value,
}
use plcmaster.Tag.Io.Reach.{
  Slots, DataOp, Reaches, after_op, io_base-Reaches, io_base_inv, store_through-Holds,
}
use plcmaster.Tag.Io.Laws.{IsValue, read_bytes-write_bytes, write_bytes-IsBytes}
use plcmaster.Backend.{BackendOps, BackendDriver, IsStaging}
use plcmaster.Runtime.{Runtime, put_impl}
use plcmaster.Runtime.Slots.{Holds, put_impl-Holds}

write_bytes_error :
    (ref : TagIoRef) (type : TagType) (v bytes : List ℕ) (status : Status)
    → write_bytes ref type v bytes ≡ inl status
    → status ≢ success
unfolding write_bytes
write_bytes_error ref type v bytes status h = ground arith

module _ {Impl : Type 0} where
  -- The drivers of the runtime keep what the interface promises of output data.
  pub record IsStaged (rt : Runtime Impl) : Type 0 where
    pub each :
        (drvs : List (Option (BackendDriver Impl))) (i : ℕ) (d : BackendDriver Impl)
        (o : BackendOps Impl)
        → rt.backends ≡ some drvs
        → Holds drvs i d o
        → IsStaging o d.impl

  out_base : Runtime Impl → TagIoRef → Runtime Impl × Option (List ℕ)
  out_base rt ref = io_base (λ o. o.get_output_data) rt ref

  write_base_output :
      (rt : Runtime Impl) (ref : TagIoRef)
      → ref.dir ≡ output
      → get_io_write_base rt ref ≡ out_base rt ref
  unfolding get_io_write_base out_base
  write_base_output rt ref e = rw e

  read_base_output :
      (rt : Runtime Impl) (ref : TagIoRef)
      → ref.dir ≡ output
      → get_io_read_base rt ref ≡ out_base rt ref
  unfolding get_io_read_base out_base
  read_base_output rt ref e = rw e

  write_base_dir :
      (rt : Runtime Impl) (ref : TagIoRef) (d : TagDir) (bytes : List ℕ)
      → ref.dir ≡ d
      → (get_io_write_base rt ref).1 ≡ some bytes
      → ref.dir ≡ output
  unfolding get_io_write_base
  write_base_dir rt ref output bytes e h = e
  write_base_dir rt ref input bytes e h = ground arith
  write_base_dir rt ref (other n) bytes e h = ground arith

  -- What a successful `write_io_value` went through.
  write_inv :
      (rt : Runtime Impl) (ref : TagIoRef) (type : TagType) (v : List ℕ) (rt' : Runtime Impl)
      → write_io_value rt ref type v ≡ (rt', success)
      → (bytes new : List ℕ) × ((get_io_write_base rt ref).1 ≡ some bytes)
        × (write_bytes ref type v bytes ≡ inr new)
        × (rt' ≡ store_through (get_io_write_base rt ref).0 ref new)
  unfolding write_io_value
  write_inv rt ref type v rt' h = elim (Option-cases (get_io_write_base rt ref).1) [
    | inl null ↦ ground arith
    | inr (bytes, e) ↦ go bytes e (write_bytes ref type v bytes) refl
  ]
    where
      go :
          (bytes : List ℕ)
          → (get_io_write_base rt ref).1 ≡ some bytes
          → (r : Status ⊎ List ℕ) → write_bytes ref type v bytes ≡ r
          → (bytes new : List ℕ) × ((get_io_write_base rt ref).1 ≡ some bytes)
            × (write_bytes ref type v bytes ≡ inr new)
            × (rt' ≡ store_through (get_io_write_base rt ref).0 ref new)
      go bytes e (inl status) w =
          let error : status ≢ success = write_bytes_error ref type v bytes status w in ground arith
      go bytes e (inr new) w = (bytes, new, e, w, ground arith)

  read_at :
      (rt : Runtime Impl) (ref : TagIoRef) (type : TagType) (bytes : List ℕ)
      → (get_io_read_base rt ref).1 ≡ some bytes
      → (read_io_value rt ref type).1 ≡ read_bytes ref type bytes
  unfolding read_io_value
  read_at rt ref type bytes e = ground arith

  out_base_inv :
      (rt : Runtime Impl) (ref : TagIoRef) (bytes : List ℕ)
      → (out_base rt ref).1 ≡ some bytes
      → (drvs : Slots Impl) × (d : BackendDriver Impl) × (o : BackendOps Impl) × (f : DataOp Impl)
        × Reaches (λ o. o.get_output_data) rt ref drvs d o f
  unfolding out_base
  out_base_inv = io_base_inv (λ o. o.get_output_data)

  -- What the write leaves is what a read of the same place finds.
  module _ (rt : Runtime Impl) (ref : TagIoRef) {drvs : Slots Impl} {d : BackendDriver Impl}
      {o : BackendOps Impl} {f : DataOp Impl}
      (r : Reaches (λ o. o.get_output_data) rt ref drvs d o f) where
    abbrev opened : Impl
    opened = (f d.impl ref.device_index).0

    out_base-reach : out_base rt ref ≡ (after_op rt ref drvs opened, (f d.impl ref.device_index).1)
    unfolding out_base
    out_base-reach = io_base-Reaches r

    -- The runtime after the store of `new`.
    abbrev written : List ℕ → Runtime Impl
    written new =
        after_op rt ref (put_impl drvs ref.backend_index opened)
          (o.store_output opened ref.device_index new)

    store-written : (new : List ℕ) → store_through (out_base rt ref).0 ref new ≡ written new
    store-written new =
        ap (λ p. store_through p.0 ref new) out_base-reach
        ∙ store_through-Holds (after_op rt ref drvs opened) ref new refl
            (put_impl-Holds drvs ref.backend_index opened r.holds)

    written-Reaches :
        (new : List ℕ)
        → Reaches
            (λ o. o.get_output_data)
            (written new)
            ref
            (put_impl
              (put_impl drvs ref.backend_index opened)
              ref.backend_index
              (o.store_output opened ref.device_index new))
            (record d { impl = o.store_output opened ref.device_index new })
            o
            f
    written-Reaches new = record {
      array = refl;
      index = r.index;
      holds =
          put_impl-Holds (put_impl drvs ref.backend_index opened) ref.backend_index _
            (put_impl-Holds drvs ref.backend_index opened r.holds);
      member = r.member;
    }

    staging-IsBytes :
        (old : List ℕ) → IsStaging o d.impl → (out_base rt ref).1 ≡ some old → IsBytes old
    staging-IsBytes old st shown =
        st.bytes f ref.device_index old r.member (sym (ap (λ p. p.1) out_base-reach) ∙ shown)

    written-shows :
        (old new : List ℕ)
        → IsStaging o d.impl
        → (out_base rt ref).1 ≡ some old
        → length new ≡ length old
        → IsBytes new
        → (out_base (written new) ref).1 ≡ some new
    unfolding out_base
    written-shows old new st shown len fine =
        ap (λ p. p.1) (io_base-Reaches (written-Reaches new))
        ∙ st.stored f ref.device_index old new r.member (sym (ap (λ p. p.1) out_base-reach) ∙ shown)
            len fine

  -- A value that `write_io_value` stores with success is the one that `read_io_value` then reads from the
  -- same place, where the drivers keep what is written to their output data.
  pub read_io_value-write_io_value :
      (rt rt' : Runtime Impl) (ref : TagIoRef) (type : TagType) (v : List ℕ)
      → IsStaged rt
      → IsValue type v
      → IsBytes v
      → write_io_value rt ref type v ≡ (rt', success)
      → (read_io_value rt' ref type).1 ≡ (success, v)
  read_io_value-write_io_value rt rt' ref type v staged ok fine h =
      let (bytes, new, shown, put, left) = write_inv rt ref type v rt' h in
      let out = write_base_dir rt ref ref.dir bytes refl shown in
      let base = write_base_output rt ref out in
      let shown' = sym (ap (λ p. p.1) base) ∙ shown in
      let (drvs, d, o, f, r) = out_base_inv rt ref bytes shown' in
      let staging = staged.each drvs ref.backend_index d o r.array r.holds in
      let bytes_ok = staging-IsBytes rt ref r bytes staging shown' in
      let (same, len) = read_bytes-write_bytes ref type v bytes new ok bytes_ok put in
      let after : rt' ≡ written rt ref r new =
        left ∙ ap (λ p. store_through p.0 ref new) base ∙ store-written rt ref r new in
      let again =
        written-shows rt ref r bytes new staging shown' len
          (write_bytes-IsBytes ref type v bytes new fine bytes_ok put) in
      ap (λ t. (read_io_value t ref type).1) after
      ∙ read_at (written rt ref r new) ref type new
          (ap (λ p. p.1) (read_base_output (written rt ref r new) ref out) ∙ again)
      ∙ same
