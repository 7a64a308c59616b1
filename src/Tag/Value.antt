-- ===== src/Tag/Value.antt =====
-- core/tag/tag_api.c: sizes of tag types, and the slots of the two value stores.
use plcmaster.Prelude.{
  ℕ, Bool, true, false, Option, none, some, List, if◌then◌else◌, leb, ◌==◌, get_elem?, set,
}
use plcmaster.Tag.{TagType, bool, u8, u16, u32, real, unknown}
use plcmaster.Runtime.{Value, ValueStore}

-- `tag_type_size` in bytes; `sizeof(bool)` is 1.
unfoldable pub tag_type_size : TagType → ℕ
tag_type_size bool = 1
tag_type_size u8 = 1
tag_type_size u16 = 2
tag_type_size u32 = 4
tag_type_size real = 4
tag_type_size (unknown n) = 0

-- `TagType_t` values are compared as numbers.
unfoldable pub same_type : TagType → TagType → Bool
same_type bool bool = true
same_type u8 u8 = true
same_type u16 u16 = true
same_type u32 u32 = true
same_type real real = true
same_type (unknown m) (unknown n) = m == n
same_type _ _ = false

-- `get_proc_value` and `get_hmi_value`: the slot at an index below the count whose type is the tag's.
unfoldable pub get_value : ValueStore → ℕ → TagType → Option Value
unfolding same_type
get_value store index type =
    if leb store.count index then none else elim (get_elem? store.values index) [
      | none ↦ none
      | some value ↦ if same_type value.type type then some value else none
    ]

-- The store after `value->v = bytes` at an index.
unfoldable pub put_value : ValueStore → ℕ → List ℕ → ValueStore
put_value store index bytes = elim (get_elem? store.values index) [
  | none ↦ store
  | some value ↦ record store { values = set store.values index (record value { v = bytes }) }
]
