-- ===== src/Tag/Resolve.antt =====
-- core/tag/tag_api.c: `resolve_entry`, which follows aliases to the tag that they stand for.
pub mod Laws
use plcmaster.Prelude.{ℕ, zero, suc, Bool, ◌&&◌, Option, none, some, if◌then◌else◌, ◌==◌}
use plcmaster.Tag.{hmi_alias, hmi_var, TagEntry}
use plcmaster.Tag.Table
use plcmaster.Tag.Table.{TagTable}

-- `resolve_entry` where `left` is `5 - depth`: at `depth > 4` nothing is left.
unfoldable pub resolve_left : ℕ → TagTable → ℕ → Bool → Option TagEntry
resolve_left zero t id for_write = none
resolve_left (suc left) t id for_write = elim (Table.get t id) [
  | none ↦ none
  | some entry ↦ elim entry.ref [
    | hmi_alias a ↦
        let next = resolve_left left t a.target for_write in
        if for_write && a.access == 0 then none else if a.target == 0 then none else next
    | hmi_var h ↦ if for_write && h.access == 0 then none else some entry
    | _ ↦ some entry
  ]
]

-- `resolve_entry(rt, id, for_write, 0)`
unfoldable pub resolve_entry : TagTable → ℕ → Bool → Option TagEntry
unfolding resolve_left
resolve_entry t id for_write = resolve_left 5 t id for_write
