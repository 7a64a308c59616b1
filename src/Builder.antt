-- ===== src/Builder.antt =====
-- system/builder/system_builder.c: the runtime is built from the configuration.
--
-- The configuration, the helpers on it, and the tags of the devices.
pub mod Registry
pub mod Drivers
pub mod Stores
pub mod System
pub mod Validate
pub mod Position
pub mod Bound
use plcmaster.Prelude.{
  ℕ, ◌+◌, ◌%◌, ◌^◌, Bool, true, false, ◌&&◌, ◌||◌, not, Option, none, some, List, [], ◌∷◌, ◌++◌,
  if◌then◌else◌, ltb, leb, ◌==◌, length, CString, codes,
}
use plcmaster.Status.{success, failed, einval, erange, enoent}
use plcmaster.Tag.{
  TagType, bool, u8, u16, u32, real, unknown, TagDir, input, output, other, TagEntry, TagIoRef, io,
}
use plcmaster.Tag.Table
use plcmaster.Tag.Table.{TagTable, name_size}
use plcmaster.Device.{TagDesc, DeviceDesc, DeviceConfig}
use plcmaster.Backend.{BackendConfig}
use plcmaster.StoreInit.{ProcessVarDesc, HmiTagDesc}
use plcmaster.Builder.Registry.{is_text}

-- `SystemConfig_t`. An array is `none` for NULL, else it has as many elements as its count says; a NULL
-- array may have any count.
pub record SystemConfig : Type 0 where
  pub backends : Option (List BackendConfig)
  pub devices : Option (List DeviceConfig)
  pub process_vars : Option (List ProcessVarDesc)
  pub process_var_count : ℕ
  pub hmi_tags : Option (List HmiTagDesc)
  pub hmi_tag_count : ℕ
  pub plc_scheduler_base_cycle_ms : ℕ

-- The loop of `find_backend_index`, at index `i`; `none` is the return value -1.
unfoldable pub find_backend_from : ℕ → List BackendConfig → CString → Option ℕ
find_backend_from i [] name = none
find_backend_from i (cfg ∷ cfgs) name =
    let rest = find_backend_from (i + 1) cfgs name in
    if is_text cfg.name name then some (i % 2 ^ 16) else rest

unfoldable pub find_backend_index : List BackendConfig → Option CString → Option ℕ
unfolding find_backend_from
find_backend_index cfgs none = none
find_backend_index cfgs (some name) = find_backend_from 0 cfgs name

-- The loop of `find_backend_device_index`, at index `i` after `count` devices of the backend.
unfoldable pub find_device_from : ℕ → ℕ → List DeviceConfig → ℕ → CString → Option ℕ
find_device_from i count [] device_index name = none
find_device_from i count (cfg ∷ cfgs) device_index name =
    let next = find_device_from (i + 1) ((count + 1) % 2 ^ 16) cfgs device_index name in
    let skip = find_device_from (i + 1) count cfgs device_index name in
    if is_text cfg.backend name then if i == device_index then some count else next else skip

unfoldable pub find_backend_device_index : List DeviceConfig → ℕ → Option CString → Option ℕ
unfolding find_device_from
find_backend_device_index cfgs device_index none = none
find_backend_device_index cfgs device_index (some name) =
    find_device_from 0 0 cfgs device_index name

-- `tag_type_size` of system_builder.c
unfoldable pub tag_type_size : TagType → ℕ
tag_type_size bool = 0
tag_type_size u8 = 1
tag_type_size u16 = 2
tag_type_size u32 = 4
tag_type_size real = 4
tag_type_size (unknown n) = 0

-- The size of the data that a tag's direction selects, `none` for a direction outside the enumeration.
abbrev pub io_size_of : TagDir → DeviceDesc → Option ℕ
io_size_of input desc = some desc.tx_bytes
io_size_of output desc = some desc.rx_bytes
io_size_of (other n) desc = none

-- `validate_tag_desc` from the test of the size on; `true` is the return value 0. The sum has 32 bits.
unfoldable pub validate_at : TagDesc → ℕ → Bool
unfolding tag_type_size
validate_at tag io_size = elim tag.type [
  | bool ↦ not (io_size == 0) && not (leb 8 tag.bit_index) && not (leb io_size tag.offset_byte)
  | _ ↦
      let size = tag_type_size tag.type in
      not (io_size == 0)
      && tag.bit_index == 0
      && not (size == 0)
      && not (ltb io_size ((tag.offset_byte + size) % 2 ^ 32))
]

unfoldable pub validate_tag_desc : TagDesc → DeviceDesc → Bool
unfolding validate_at
validate_tag_desc tag desc = elim tag.name [
  | none ↦ false
  | some name ↦ elim (io_size_of tag.dir desc) [
    | none ↦ false
    | some io_size ↦ validate_at tag io_size
  ]
]

-- `snprintf(storage, sizeof(storage), "%s%s", prefix, name)`: the text, `none` where it does not fit.
unfoldable pub print_name : CString → CString → Option CString
print_name prefix name =
    if leb name_size (length (prefix ++ name)) then none else some (prefix ++ name)

-- `entry.ref.io` of a device's tag.
abbrev pub io_ref : ℕ → ℕ → TagDesc → TagIoRef
io_ref backend_index device_index tag = record {
  device_index = device_index;
  backend_index = backend_index;
  dir = tag.dir;
  byte_offset = tag.offset_byte;
  bit = tag.bit_index;
}

-- `tag_table_add(...) != 0` is an error.
abbrev pub add_tag : TagTable → TagEntry → TagTable × Bool
add_tag t e = elim (Table.add t e).1 [
  | success ↦ ((Table.add t e).0, true)
  | failed ↦ ((Table.add t e).0, false)
  | einval ↦ ((Table.add t e).0, false)
  | erange ↦ ((Table.add t e).0, false)
  | enoent ↦ ((Table.add t e).0, false)
]

-- The turn of `system_build_tags_for_device` for one tag of the device `name`.
unfoldable pub build_tag : CString → ℕ → ℕ → DeviceDesc → TagDesc → TagTable → TagTable × Bool
unfolding validate_tag_desc print_name Table.add
build_tag device backend_index device_index desc tag t =
    if not (validate_tag_desc tag desc) then (t, false) else elim tag.name [
      | none ↦ (t, false)
      | some name ↦ elim (print_name (device ++ codes ".") name) [
        | none ↦ (t, false)
        | some full ↦ add_tag t (record {
          full_name = some full;
          type = tag.type;
          ref = io (io_ref backend_index device_index tag);
        })
      ]
    ]

-- A loop that adds to the table and ends at the first error.
unfoldable pub add_each :
    {A : Type 0} → (A → TagTable → TagTable × Bool) → List A → TagTable → TagTable × Bool
add_each turn [] t = (t, true)
add_each turn (x ∷ xs) t =
    let (t', done) = turn x t in
    let rest = add_each turn xs t' in if done then rest else (t', false)

-- `system_build_tags_for_device` for a device of the configuration.
unfoldable pub tags_for_device : DeviceConfig → ℕ → ℕ → DeviceDesc → TagTable → TagTable × Bool
unfolding build_tag add_each
tags_for_device cfg backend_index device_index desc t = elim cfg.name [
  | none ↦ (t, false)
  | some name ↦ add_each (build_tag name backend_index device_index desc) desc.tags t
]
