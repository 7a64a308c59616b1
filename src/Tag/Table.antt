-- ===== src/Tag/Table.antt =====
-- core/tag/tag_table.c: the table that maps names to ids and ids to entries.
pub mod Laws
pub mod Lookup
use plcmaster.Prelude.{
  ℕ, zero, suc, ◌+◌, ◌-◌, Bool, true, false, ◌||◌, ◌&&◌, Option, none, some, List, [], ◌∷◌, ◌++◌,
  ltb, leb, ◌==◌, if◌then◌else◌, length, get_elem?, CString, str_eq,
}
use plcmaster.Status.{Status, success, failed}
use plcmaster.Tag.{TagEntry}

-- `MAX_TAGS`
abbrev pub max_tags : ℕ
max_tags = 256

-- `sizeof(full_name_storage)`
abbrev pub name_size : ℕ
name_size = 128

-- `TagTable_t`: `entries[0]` to `entries[count - 1]`. The entries behind `count` are zero until
-- `tag_table_add` fills them, and no function reads them.
pub record TagTable : Type 0 where
  pub entries : List TagEntry

-- `tag_table_init` and `tag_table_deinit` clear the table.
unfoldable pub init : TagTable
init = record { entries = [] }

unfoldable pub deinit : TagTable → TagTable
deinit t = record { entries = [] }

unfoldable pub count : TagTable → ℕ
count t = length t.entries

-- `entry.full_name != NULL && strcmp(entry.full_name, name) == 0`
abbrev pub named : CString → TagEntry → Bool
named name e = elim e.full_name [ none ↦ false | some n ↦ str_eq n name ]

-- Whether the loop of `tag_table_add` meets the name.
unfoldable pub contains : CString → List TagEntry → Bool
contains name [] = false
contains name (e ∷ es) = named name e || contains name es

-- `tag_table_add` once the name is known to be neither NULL nor empty.
unfoldable pub add_named : TagTable → CString → TagEntry → TagTable × Status
add_named t name e =
    if contains name t.entries
    then (t, failed)
    else if leb max_tags (length t.entries)
    then (t, failed)
    else if leb name_size (length name)
    then (t, failed)
    else (record { entries = t.entries ++ record e { full_name = some name } ∷ [] }, success)

unfoldable pub add : TagTable → TagEntry → TagTable × Status
unfolding contains add_named
add t e = elim e.full_name [
  | none ↦ (t, failed)
  | some name ↦ elim name [ [] ↦ (t, failed) | c ∷ cs ↦ add_named t (c ∷ cs) e ]
]

-- The loop of `tag_table_find_id`, at index `i`.
unfoldable pub find_from : CString → ℕ → List TagEntry → ℕ
find_from name i [] = 0
find_from name i (e ∷ es) = if named name e then i + 1 else find_from name (i + 1) es

unfoldable pub find_id : TagTable → CString → ℕ
unfolding find_from
find_id t name = find_from name 0 t.entries

-- `tag_table_get`; `none` is NULL.
unfoldable pub get : TagTable → ℕ → Option TagEntry
get t id = if id == 0 || ltb (length t.entries) id then none else get_elem? t.entries (id - 1)
