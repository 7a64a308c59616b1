-- ===== src/Tag/Io.antt =====
-- core/tag/tag_api.c: tags in the data of a fieldbus device.
pub mod Laws
pub mod Driver
pub mod Frame
pub mod Reach
use plcmaster.Prelude.{
  ℕ, ◌+◌, Bool, true, false, ◌||◌, not, ◌⊎◌, inl, inr, Option, none, some, List, [], ◌∷◌,
  if◌then◌else◌, ltb, leb, ◌==◌, length, get_elem?, set, slice, blit,
}
use plcmaster.Prelude.Bits.{test_bit, set_bit, clear_bit, write_bit}
use plcmaster.Status.{Status, success, einval, erange}
use plcmaster.Tag.{TagType, bool, unknown, input, output, TagIoRef}
use plcmaster.Tag.Value.{tag_type_size}
use plcmaster.Backend.{BackendOps}
use plcmaster.Runtime.{Runtime, op_at, put_impl}

-- A result beside the runtime after the call.
abbrev pub Reply : Type 0 → Type 0 → Type 0
Reply Impl A = Runtime Impl × A

module _ {Impl : Type 0} where
  -- The data pointer that one of the two data operations of a tag's driver gives, as the bytes that
  -- it points at: the common part of `get_io_read_base` and `get_io_write_base`.
  unfoldable pub io_base :
      (BackendOps Impl → Option (Impl → ℕ → Impl × Option (List ℕ)))
      → Runtime Impl
      → TagIoRef
      → Reply Impl (Option (List ℕ))
  io_base field rt ref = elim rt.backends [
    | none ↦ (rt, none)
    | some drvs ↦
        if leb rt.backend_count ref.backend_index
        then (rt, none)
        else elim (op_at field drvs ref.backend_index) [
          | none ↦ (rt, none)
          | some op ↦
              let (impl, bytes) = op.1 op.0 ref.device_index in
              (record rt { backends = some (put_impl drvs ref.backend_index impl) }, bytes)
        ]
  ]

  unfoldable pub get_io_read_base : Runtime Impl → TagIoRef → Reply Impl (Option (List ℕ))
  get_io_read_base rt ref = elim ref.dir [
    | input ↦ io_base (λ o. o.get_input_data) rt ref
    | _ ↦ io_base (λ o. o.get_output_data) rt ref
  ]

  unfoldable pub get_io_write_base : Runtime Impl → TagIoRef → Reply Impl (Option (List ℕ))
  get_io_write_base rt ref = elim ref.dir [
    | output ↦ io_base (λ o. o.get_output_data) rt ref
    | _ ↦ (rt, none)
  ]

  -- The effect of stores through the pointer that `get_io_write_base` gave.
  unfoldable pub store_through : Runtime Impl → TagIoRef → List ℕ → Runtime Impl
  store_through rt ref bytes = elim rt.backends [
    | none ↦ rt
    | some drvs ↦ elim (op_at (λ o. some o.store_output) drvs ref.backend_index) [
      | none ↦ rt
      | some op ↦ record rt {
        backends = some (put_impl drvs ref.backend_index (op.1 op.0 ref.device_index bytes));
      }
    ]
  ]

-- The tests of `read_io_value` and `write_io_value` against the size of the data. `byte_offset` has
-- 32 bits and `size_t` has 64, so that the sum does not wrap.
unfoldable pub io_in_range : TagIoRef → TagType → ℕ → Bool
unfolding tag_type_size
io_in_range ref bool size = not (leb 8 ref.bit || leb size ref.byte_offset)
io_in_range ref type size = not (ltb size (ref.byte_offset + tag_type_size type))

-- What `read_io_value` copies out of the data, for an access in range.
unfoldable pub io_fetch : TagIoRef → TagType → List ℕ → List ℕ
unfolding tag_type_size test_bit
io_fetch ref bool base = elim (get_elem? base ref.byte_offset) [
  | none ↦ []
  | some byte ↦ (if test_bit byte ref.bit then 1 else 0) ∷ []
]
io_fetch ref type base = slice base ref.byte_offset (tag_type_size type)

-- `value.b`, of which the stored byte is read.
unfoldable pub as_bool : List ℕ → Bool
as_bool [] = false
as_bool (b ∷ bytes) = not (b == 0)

-- The data after the store of `write_io_value`, for an access in range.
unfoldable pub io_put : TagIoRef → TagType → List ℕ → List ℕ → List ℕ
unfolding as_bool set_bit clear_bit
io_put ref bool value base = elim (get_elem? base ref.byte_offset) [
  | none ↦ base
  | some byte ↦ set base ref.byte_offset (write_bit byte ref.bit (as_bool value))
]
io_put ref type value base = blit base ref.byte_offset value

-- Whether the final `default:` of a switch on the type is taken.
unfoldable pub known : TagType → Bool
known (unknown n) = false
known type = true

-- `read_io_value` once the data pointer is known: the status, and the bytes of `*out_value`.
unfoldable pub read_bytes : TagIoRef → TagType → List ℕ → Status × List ℕ
read_bytes ref type bytes =
    if not (known type)
    then (einval, [])
    else if io_in_range ref type (length bytes)
    then (success, io_fetch ref type bytes)
    else (erange, [])

-- `write_io_value` once the data pointer is known: an error, or the data after the store.
unfoldable pub write_bytes : TagIoRef → TagType → List ℕ → List ℕ → Status ⊎ List ℕ
write_bytes ref type value bytes =
    if not (known type)
    then inl einval
    else if io_in_range ref type (length bytes)
    then inr (io_put ref type value bytes)
    else inl erange

module _ {Impl : Type 0} where
  unfoldable pub read_io_value : Runtime Impl → TagIoRef → TagType → Reply Impl (Status × List ℕ)
  read_io_value rt ref type =
      let (rt', base) = get_io_read_base rt ref in
      elim base [ none ↦ (rt', (einval, [])) | some bytes ↦ (rt', read_bytes ref type bytes) ]

  unfoldable pub write_io_value : Runtime Impl → TagIoRef → TagType → List ℕ → Reply Impl Status
  write_io_value rt ref type value =
      let (rt', base) = get_io_write_base rt ref in
      elim base [
        | none ↦ (rt', einval)
        | some bytes ↦ elim (write_bytes ref type value bytes) [
          | inl status ↦ (rt', status)
          | inr bytes' ↦ (store_through rt' ref bytes', success)
        ]
      ]
