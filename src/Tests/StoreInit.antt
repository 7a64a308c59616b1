-- ===== src/Tests/StoreInit.antt =====
-- Initial values of a process and an HMI variable.
use plcmaster.Prelude.{◌<◌, ◌≡◌, refl, false, some, [], ◌∷◌, codes, str_eq, take, arith}
use plcmaster.Status.{success}
use plcmaster.Tag.{u16, u32}
use plcmaster.Tag.Value.{tag_type_size}
use plcmaster.Tag.Table
use plcmaster.Tag.Api.{tag_read}
use plcmaster.Tag.Table.{name_size}
use plcmaster.StoreInit.{
  ProcessVarDesc, HmiTagDesc, start_cold, start_factory, var, alias, proc_init, hmi_init,
}
use plcmaster.StoreInit.Loop.{nothing}
use plcmaster.StoreInit.Read.{tag_read-proc_init, tag_read-hmi_init}
use plcmaster.Tests.Data.{rt, speed_entry, total_entry}

abbrev speed_desc : ProcessVarDesc
speed_desc = record {
  name = codes "speed";
  type = u16;
  initial = 44 ∷ 1 ∷ 0 ∷ 0 ∷ [];
  retain = false;
}

abbrev unknown_desc : ProcessVarDesc
unknown_desc = record {
  name = codes "flow";
  type = u16;
  initial = 1 ∷ 1 ∷ 0 ∷ 0 ∷ [];
  retain = false;
}

speed_id : Table.find_id rt.tag_table (codes "proc.speed") ≡ 1
unfolding Table.find_id Table.find_from str_eq
speed_id = refl

speed_got : Table.get rt.tag_table 1 ≡ some speed_entry
unfolding Table.get
speed_got = refl

two_bytes : 0 < tag_type_size u16
unfolding tag_type_size
two_bytes = omega arith

tag_read-proc_init_example :
    (tag_read
      (proc_init rt (unknown_desc ∷ speed_desc ∷ []) start_cold)
      1
      (some (tag_type_size u16))).1
    ≡ (success, take (tag_type_size u16) (44 ∷ 1 ∷ 0 ∷ 0 ∷ []))
tag_read-proc_init_example =
    tag_read-proc_init rt (unknown_desc ∷ []) speed_desc [] start_cold 1 speed_entry _ (λ e. cc)
      (omega arith) speed_id speed_got refl refl two_bytes (omega arith) (omega arith) nothing

abbrev total_desc : HmiTagDesc
total_desc = record { name = codes "total"; access = 1; body = var u32 (1 ∷ 2 ∷ 3 ∷ 4 ∷ []) false }

abbrev alias_desc : HmiTagDesc
alias_desc = record { name = codes "speed"; access = 1; body = alias (some (codes "proc.speed")) }

total_id : Table.find_id rt.tag_table (codes "hmi.total") ≡ 5
unfolding Table.find_id Table.find_from str_eq
total_id = refl

total_got : Table.get rt.tag_table 5 ≡ some total_entry
unfolding Table.get
total_got = refl

four_bytes : 0 < tag_type_size u32
unfolding tag_type_size
four_bytes = omega arith

tag_read-hmi_init_example :
    (tag_read
      (hmi_init rt (alias_desc ∷ total_desc ∷ []) start_factory)
      5
      (some (tag_type_size u32))).1
    ≡ (success, take (tag_type_size u32) (1 ∷ 2 ∷ 3 ∷ 4 ∷ []))
tag_read-hmi_init_example =
    tag_read-hmi_init rt (alias_desc ∷ []) total_desc [] start_factory 5 total_entry _
      (1 ∷ 2 ∷ 3 ∷ 4 ∷ []) false (λ e. cc) refl (omega arith) total_id total_got refl four_bytes
      (omega arith) (omega arith) nothing
