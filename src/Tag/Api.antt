-- ===== src/Tag/Api.antt =====
-- core/tag/tag_api.c: `tag_read`, `tag_write` and their typed forms.
pub mod Laws
pub mod Typed
use plcmaster.Prelude.{
  ℕ, Bool, true, false, not, Option, none, some, List, [], if◌then◌else◌, ltb, ◌==◌, length, take,
  blit,
}
use plcmaster.Prelude.Bits.{le_bytes, le_value}
use plcmaster.Status.{Status, success, einval, erange}
use plcmaster.Tag.{TagType, TagRef, invalid, io, proc, hmi_alias, hmi_var}
use plcmaster.Tag.Value.{tag_type_size, get_value, put_value}
use plcmaster.Tag.Resolve.{resolve_entry}
use plcmaster.Tag.Io.{Reply, read_io_value, write_io_value}
use plcmaster.Runtime.{Runtime, Value}

module _ {Impl : Type 0} where
  -- The bytes of a stored value that go to the caller.
  abbrev read_store : Runtime Impl → Option Value → ℕ → Reply Impl (Status × List ℕ)
  read_store rt none size = (rt, (einval, []))
  read_store rt (some value) size = (rt, (success, take size value.v))

  -- The switch of `tag_read` on the kind of the resolved entry.
  unfoldable pub read_ref : Runtime Impl → TagRef → TagType → ℕ → Reply Impl (Status × List ℕ)
  read_ref rt (proc p) type size = read_store rt (get_value rt.proc_store p.index type) size
  read_ref rt (hmi_var h) type size = read_store rt (get_value rt.hmi_store h.index type) size
  read_ref rt (io ref) type size = read_io_value rt ref type
  read_ref rt (hmi_alias a) type size = (rt, (einval, []))
  read_ref rt invalid type size = (rt, (einval, []))

  -- `tag_read`: the status and the bytes that were copied to `out`. `out_size` is `none` for an `out`
  -- that is NULL.
  unfoldable pub tag_read : Runtime Impl → ℕ → Option ℕ → Reply Impl (Status × List ℕ)
  tag_read rt id none = (rt, (einval, []))
  tag_read rt id (some out_size) = elim (resolve_entry rt.tag_table id false) [
    | none ↦ (rt, (einval, []))
    | some entry ↦
        if tag_type_size entry.type == 0
        then (rt, (einval, []))
        else if ltb out_size (tag_type_size entry.type)
        then (rt, (erange, []))
        else read_ref rt entry.ref entry.type (tag_type_size entry.type)
  ]

  -- The switch of `tag_write` on the kind of the resolved entry.
  unfoldable pub write_ref : Runtime Impl → TagRef → TagType → List ℕ → Reply Impl Status
  write_ref rt (proc p) type value = elim (get_value rt.proc_store p.index type) [
    | none ↦ (rt, einval)
    | some old ↦ (record rt { proc_store = put_value rt.proc_store p.index value }, success)
  ]
  write_ref rt (hmi_var h) type value = elim (get_value rt.hmi_store h.index type) [
    | none ↦ (rt, einval)
    | some old ↦ (record rt { hmi_store = put_value rt.hmi_store h.index value }, success)
  ]
  write_ref rt (io ref) type value = write_io_value rt ref type value
  write_ref rt (hmi_alias a) type value = (rt, einval)
  write_ref rt invalid type value = (rt, einval)

  -- `tag_write` of the bytes at `in`, as many as `in_sz` says; `none` is an `in` that is NULL.
  unfoldable pub tag_write : Runtime Impl → ℕ → Option (List ℕ) → Reply Impl Status
  tag_write rt id none = (rt, einval)
  tag_write rt id (some bytes) = elim (resolve_entry rt.tag_table id true) [
    | none ↦ (rt, einval)
    | some entry ↦
        if tag_type_size entry.type == 0
        then (rt, einval)
        else if ltb (length bytes) (tag_type_size entry.type)
        then (rt, erange)
        else write_ref rt entry.ref entry.type (take (tag_type_size entry.type) bytes)
  ]

  -- The typed readers hand `tag_read` the address of a variable of `n` bytes, here with the value
  -- `old`; the host is little-endian. A `float` is its bit pattern.
  unfoldable pub read_uint : ℕ → Runtime Impl → ℕ → ℕ → Reply Impl (Status × ℕ)
  read_uint n rt id old =
      let (rt', (status, out)) = tag_read rt id (some n) in
      (rt', (status, le_value (blit (le_bytes n old) 0 out)))

  unfoldable pub write_uint : ℕ → Runtime Impl → ℕ → ℕ → Reply Impl Status
  write_uint n rt id v = tag_write rt id (some (le_bytes n v))

  abbrev pub tag_read_u8 : Runtime Impl → ℕ → ℕ → Reply Impl (Status × ℕ)
  tag_read_u8 = read_uint 1

  abbrev pub tag_read_u16 : Runtime Impl → ℕ → ℕ → Reply Impl (Status × ℕ)
  tag_read_u16 = read_uint 2

  abbrev pub tag_read_u32 : Runtime Impl → ℕ → ℕ → Reply Impl (Status × ℕ)
  tag_read_u32 = read_uint 4

  abbrev pub tag_read_real : Runtime Impl → ℕ → ℕ → Reply Impl (Status × ℕ)
  tag_read_real = read_uint 4

  abbrev pub tag_write_u8 : Runtime Impl → ℕ → ℕ → Reply Impl Status
  tag_write_u8 = write_uint 1

  abbrev pub tag_write_u16 : Runtime Impl → ℕ → ℕ → Reply Impl Status
  tag_write_u16 = write_uint 2

  abbrev pub tag_write_u32 : Runtime Impl → ℕ → ℕ → Reply Impl Status
  tag_write_u32 = write_uint 4

  abbrev pub tag_write_real : Runtime Impl → ℕ → ℕ → Reply Impl Status
  tag_write_real = write_uint 4

  -- A `bool` is one byte, 0 or 1.
  unfoldable pub tag_read_bool : Runtime Impl → ℕ → Bool → Reply Impl (Status × Bool)
  tag_read_bool rt id old =
      let (rt', (status, v)) = read_uint 1 rt id (if old then 1 else 0) in
      (rt', (status, not (v == 0)))

  unfoldable pub tag_write_bool : Runtime Impl → ℕ → Bool → Reply Impl Status
  tag_write_bool rt id v = write_uint 1 rt id (if v then 1 else 0)
