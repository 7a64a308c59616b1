-- ===== src/Tag/Io/Frame.antt =====
-- Access to device data changes the drivers' states and nothing else of the runtime.
use plcmaster.Prelude.{ℕ, ◌≡◌, ◌⊎◌, inl, inr, refl, ◌∙◌, Option-cases, some, List, arith}
use plcmaster.Status.{Status}
use plcmaster.Tag.{TagType, TagIoRef}
use plcmaster.Tag.Io.{
  io_base, get_io_read_base, get_io_write_base, store_through, write_bytes, read_io_value,
  write_io_value,
}
use plcmaster.Runtime.{Runtime}

module _ {Impl : Type 0} where
  -- The tag table, the two stores and the number of drivers are the same.
  pub record SameData (rt rt' : Runtime Impl) : Type 0 where
    pub table : rt'.tag_table ≡ rt.tag_table
    pub procs : rt'.proc_store ≡ rt.proc_store
    pub hmis : rt'.hmi_store ≡ rt.hmi_store
    pub drivers : rt'.backend_count ≡ rt.backend_count

  pub SameData-refl : (rt : Runtime Impl) → SameData rt rt
  SameData-refl rt = record { table = refl; procs = refl; hmis = refl; drivers = refl }

  store_through-SameData :
      (rt : Runtime Impl) (ref : TagIoRef) (bytes : List ℕ)
      → SameData rt (store_through rt ref bytes)
  unfolding store_through
  store_through-SameData rt ref bytes = ground arith

  SameData-trans : {a b c : Runtime Impl} → SameData a b → SameData b c → SameData a c
  SameData-trans p q = record {
    table = q.table ∙ p.table;
    procs = q.procs ∙ p.procs;
    hmis = q.hmis ∙ p.hmis;
    drivers = q.drivers ∙ p.drivers;
  }

  read_base-SameData :
      (rt : Runtime Impl) (ref : TagIoRef) → SameData rt (get_io_read_base rt ref).0
  unfolding get_io_read_base io_base
  read_base-SameData rt ref = ground arith

  write_base-SameData :
      (rt : Runtime Impl) (ref : TagIoRef) → SameData rt (get_io_write_base rt ref).0
  unfolding get_io_write_base io_base
  write_base-SameData rt ref = ground arith

  pub read_io_value-SameData :
      (rt : Runtime Impl) (ref : TagIoRef) (type : TagType)
      → SameData rt (read_io_value rt ref type).0
  unfolding read_io_value
  read_io_value-SameData rt ref type = ground (arith, read_base-SameData rt ref)

  pub write_io_value-SameData :
      (rt : Runtime Impl) (ref : TagIoRef) (type : TagType) (v : List ℕ)
      → SameData rt (write_io_value rt ref type v).0
  unfolding write_io_value
  write_io_value-SameData rt ref type v = elim (Option-cases (get_io_write_base rt ref).1) [
    | inl null ↦ ground (arith, write_base-SameData rt ref)
    | inr (bytes, e) ↦ go bytes e (write_bytes ref type v bytes) refl
  ]
    where
      go :
          (bytes : List ℕ)
          → (get_io_write_base rt ref).1 ≡ some bytes
          → (r : Status ⊎ List ℕ) → write_bytes ref type v bytes ≡ r
          → SameData rt (write_io_value rt ref type v).0
      go bytes e (inl status) w = ground (arith, write_base-SameData rt ref)
      go bytes e (inr new) w = ground (
        arith,
        SameData-trans (write_base-SameData rt ref)
            (store_through-SameData (get_io_write_base rt ref).0 ref new),
      )
