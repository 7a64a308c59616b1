-- ===== src/Tests/Table.antt =====
-- The tag table of five tags.
use plcmaster.Prelude.{ℕ, ◌≡◌, ◌≤◌, ◌↔◌, refl, true, some, codes, str_eq, arith}
use plcmaster.Tag.{TagEntry, u8, proc}
use plcmaster.Tag.Table.{contains, add, find_id, get}
use plcmaster.Tag.Table.Laws.{IsValid, Admits}
use plcmaster.Tag.Table.Lookup.{find_id_iff, add-IsValid}
use plcmaster.Tag.Resolve.{resolve_entry}
use plcmaster.Tag.Resolve.Laws.{Resolves, resolve_entry_iff}
use plcmaster.Tests.Data.{table, table-IsValid, speed_entry}

abbrev level_entry : TagEntry
level_entry = record {
  full_name = some (codes "level");
  type = u8;
  ref = proc (record { index = 0 });
}

level-Admits : Admits table (codes "level")
unfolding contains str_eq
level-Admits = record {
  new = refl;
  room = omega arith;
  not_empty = omega arith;
  short = omega arith;
}

find_id_iff_example :
    (find_id table (codes "proc.speed") ≡ 1)
    ↔ ((e : TagEntry) × (get table 1 ≡ some e) × (e.full_name ≡ some (codes "proc.speed")))
find_id_iff_example = find_id_iff table (codes "proc.speed") 1 table-IsValid (λ e. omega arith)

add-IsValid_example : IsValid (add table level_entry).0
add-IsValid_example = add-IsValid table level_entry table-IsValid

resolve_entry_iff_example :
    (resolve_entry table 2 true ≡ some speed_entry)
    ↔ ((n : ℕ) × (n ≤ 4) × Resolves table true 2 n speed_entry)
resolve_entry_iff_example = resolve_entry_iff table 2 true speed_entry
