-- ===== src/Tests/Tag.antt =====
-- Tags of each kind, read and written.
use plcmaster.Prelude.{ℕ, ◌≡◌, inl, refl, ap, true, some, List, [], ◌∷◌, length}
use plcmaster.Prelude.Bits.{IsBytes, le_bytes, le_bytes-IsBytes}
use plcmaster.Status.{success, erange}
use plcmaster.Tag.{bool}
use plcmaster.Tag.Value.{tag_type_size, same_type, get_value}
use plcmaster.Tag.Table
use plcmaster.Tag.Resolve.{resolve_left, resolve_entry}
use plcmaster.Tag.Io.{
  io_base, get_io_write_base, store_through, io_in_range, known, write_bytes, read_io_value,
  write_io_value,
}
use plcmaster.Tag.Io.Driver.{read_io_value-write_io_value}
use plcmaster.Tag.Api.{tag_read, tag_write, write_ref, write_uint, tag_write_bool}
use plcmaster.Tag.Api.Laws.{tag_read-tag_write}
use plcmaster.Runtime.{Runtime}
use plcmaster.Tests.Data.{shown, rt, rt-IsStaged, speed_entry, lamp_entry, lamp_ref}

-- Through the alias "hmi.speed".
speed_found : resolve_entry rt.tag_table 2 true ≡ some speed_entry
unfolding resolve_entry resolve_left Table.get
speed_found = refl

lamp_found : resolve_entry rt.tag_table 4 true ≡ some lamp_entry
unfolding resolve_entry resolve_left Table.get
lamp_found = refl

abbrev bytes_500 : List ℕ
bytes_500 = 244 ∷ 1 ∷ []

bytes_500-IsBytes : IsBytes bytes_500
unfolding le_bytes
bytes_500-IsBytes = le_bytes-IsBytes 2 500

speed_status : (tag_write rt 2 (some bytes_500)).1 ≡ success
unfolding tag_write resolve_entry resolve_left Table.get tag_type_size write_ref get_value same_type
speed_status = refl

abbrev rt_speed : Runtime (List ℕ)
rt_speed = (tag_write rt 2 (some bytes_500)).0

tag_read-tag_write_example : (tag_read rt_speed 2 (some 2)).1 ≡ (success, bytes_500)
tag_read-tag_write_example =
    tag_read-tag_write rt rt_speed 2 speed_entry bytes_500 rt-IsStaged speed_found refl
      bytes_500-IsBytes (ap (λ s. (rt_speed, s)) speed_status)

abbrev rt_number : Runtime (List ℕ)
rt_number = (write_uint 2 rt 2 500).0

number_status : (write_uint 2 rt 2 500).1 ≡ success
unfolding write_uint le_bytes tag_write resolve_entry resolve_left Table.get tag_type_size write_ref
    get_value same_type
number_status = refl

abbrev rt_lamp : Runtime (List ℕ)
rt_lamp = (tag_write_bool rt 4 true).0

lamp_status : (tag_write_bool rt 4 true).1 ≡ success
unfolding tag_write_bool write_uint le_bytes tag_write resolve_entry resolve_left Table.get
    tag_type_size write_ref write_io_value get_io_write_base io_base write_bytes known io_in_range
    store_through shown
lamp_status = refl

-- One byte is too few for "speed".
short_refused : tag_write rt 2 (some (1 ∷ [])) ≡ (rt, erange)
unfolding tag_write resolve_entry resolve_left Table.get tag_type_size
short_refused = refl

abbrev base : List ℕ
base = 0 ∷ 255 ∷ 7 ∷ 9 ∷ []

base-IsBytes : IsBytes base
unfolding le_bytes
base-IsBytes = le_bytes-IsBytes 4 151518976

lamp_in_range : io_in_range lamp_ref bool (length base) ≡ true
unfolding io_in_range
lamp_in_range = refl

abbrev rt_off : Runtime (List ℕ)
rt_off = (write_io_value rt lamp_ref bool (0 ∷ [])).0

off_status : (write_io_value rt lamp_ref bool (0 ∷ [])).1 ≡ success
unfolding write_io_value get_io_write_base io_base write_bytes known io_in_range store_through shown
off_status = refl

zero_byte-IsBytes : IsBytes (0 ∷ [])
unfolding le_bytes
zero_byte-IsBytes = le_bytes-IsBytes 1 0

read_io_value-write_io_value_example : (read_io_value rt_off lamp_ref bool).1 ≡ (success, 0 ∷ [])
read_io_value-write_io_value_example =
    read_io_value-write_io_value rt rt_off lamp_ref bool (0 ∷ []) rt-IsStaged (inl refl)
      zero_byte-IsBytes (ap (λ s. (rt_off, s)) off_status)
