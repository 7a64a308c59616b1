-- ===== src/Tests/Data.antt =====
-- A runtime with a driver that keeps the output data of its one device in a list of bytes.
use mathlib.Core.Path.{subst}
use plcmaster.Prelude.{
  ℕ, zero, suc, ◌%◌, ◌<◌, ◌≡◌, refl, sym, ◌∙◌, ap, Option, none, some, List, [], ◌∷◌, get_elem?,
  codes, str_eq, arith,
}
use plcmaster.Prelude.Bits.{IsBytes}
use plcmaster.Tag.{TagEntry, TagIoRef, bool, u16, u32, output, io, proc, hmi_alias, hmi_var}
use plcmaster.Tag.Table.{TagTable, init, contains, add_named, add}
use plcmaster.Tag.Table.Laws.{IsValid}
use plcmaster.Tag.Table.Lookup.{add-IsValid}
use plcmaster.Tag.Io.Driver.{IsStaged}
use plcmaster.Backend.{BackendOps, BackendDriver, IsStaging}
use plcmaster.Runtime.{Runtime}
use plcmaster.Runtime.Slots.{Holds}

-- The bytes that the driver shows.
unfoldable pub shown : List ℕ → List ℕ
shown [] = []
shown (x ∷ xs) = x % 256 ∷ shown xs

shown_same : (xs : List ℕ) → IsBytes xs → shown xs ≡ xs
unfolding shown
shown_same [] h = refl
shown_same (x ∷ xs) h =
    let lt : x < 256 = h.byte 0 x refl in
    ground (arith, shown_same xs (record { byte = λ k b at. h.byte (suc k) b at }))

shown_byte : (xs : List ℕ) (k b : ℕ) → get_elem? (shown xs) k ≡ some b → b < 256
unfolding shown
shown_byte [] k b at = cc
shown_byte (x ∷ xs) zero b at = let e : x % 256 ≡ b = cc in omega arith
shown_byte (x ∷ xs) (suc k) b at = shown_byte xs k b at

abbrev pub get_data : List ℕ → ℕ → List ℕ × Option (List ℕ)
get_data impl device = (impl, some (shown impl))

abbrev pub ops : BackendOps (List ℕ)
ops = record {
  init = none;
  bind = none;
  finalize = none;
  start = none;
  process = none;
  stop = none;
  get_status = none;
  cycle_begin = none;
  cycle_end = none;
  get_input_data = some get_data;
  get_output_data = some get_data;
  store_output = λ impl device new. new;
}

get_same :
    (get : List ℕ → ℕ → List ℕ × Option (List ℕ)) → ops.get_output_data ≡ some get → get_data ≡ get
get_same get member = ap (λ o. elim o [ none ↦ get_data | some f ↦ f ]) member

ops-IsStaging : (i : List ℕ) → IsStaging ops i
ops-IsStaging i = record {
  stored = λ get device old new member at len fine.
      ap (λ f. (f new device).1) (sym (get_same get member)) ∙ ap some (shown_same new fine);
  bytes = λ get device old member at.
      let same : some (shown i) ≡ some old = ap (λ f. (f i device).1) (get_same get member) ∙ at in
      let e : shown i ≡ old = cc in
      record { byte = λ k b got. shown_byte i k b (ap (λ l. get_elem? l k) e ∙ got) };
}

abbrev pub driver : BackendDriver (List ℕ)
driver = record { ops = some ops; impl = 0 ∷ 255 ∷ 7 ∷ 9 ∷ [] }

abbrev pub speed_entry : TagEntry
speed_entry = record {
  full_name = some (codes "proc.speed");
  type = u16;
  ref = proc (record { index = 1 });
}

abbrev pub hmi_entry : TagEntry
hmi_entry = record {
  full_name = some (codes "hmi.speed");
  type = u16;
  ref = hmi_alias (record { target = 1; access = 1 });
}

abbrev pub shown_entry : TagEntry
shown_entry = record {
  full_name = some (codes "hmi.shown");
  type = u16;
  ref = hmi_alias (record { target = 1; access = 0 });
}

abbrev pub lamp_ref : TagIoRef
lamp_ref = record { device_index = 0; backend_index = 0; dir = output; byte_offset = 1; bit = 3 }

abbrev pub lamp_entry : TagEntry
lamp_entry = record { full_name = some (codes "lamp"); type = bool; ref = io lamp_ref }

abbrev pub total_entry : TagEntry
total_entry = record {
  full_name = some (codes "hmi.total");
  type = u32;
  ref = hmi_var (record { index = 0; access = 1 });
}

abbrev pub table : TagTable
table = record { entries = speed_entry ∷ hmi_entry ∷ shown_entry ∷ lamp_entry ∷ total_entry ∷ [] }

pub init-IsValid : IsValid init
unfolding init
init-IsValid = record { fits = omega arith; names = λ k e at. cc; unique = λ j k d e n at. cc }

abbrev added : TagTable → TagEntry → TagTable
added t e = (add t e).0

pub table-IsValid : IsValid table
unfolding add contains add_named init str_eq
table-IsValid =
    add-IsValid (added (added (added (added init speed_entry) hmi_entry) shown_entry) lamp_entry)
      total_entry
      (add-IsValid (added (added (added init speed_entry) hmi_entry) shown_entry) lamp_entry (
        add-IsValid (added (added init speed_entry) hmi_entry) shown_entry (
          add-IsValid (added init speed_entry) hmi_entry
            (add-IsValid init speed_entry init-IsValid))))

-- The process values have two slots, the HMI values one.
abbrev pub rt : Runtime (List ℕ)
rt = record {
  tag_table = table;
  proc_store = record {
    values =
        record { type = bool; v = 0 ∷ 0 ∷ 0 ∷ 0 ∷ [] }
        ∷ record { type = u16; v = 0 ∷ 0 ∷ 0 ∷ 0 ∷ [] }
        ∷ [];
    count = 2;
  };
  hmi_store = record { values = record { type = u32; v = 0 ∷ 0 ∷ 0 ∷ 0 ∷ [] } ∷ []; count = 1 };
  backends = some (some driver ∷ []);
  backend_count = 1;
}

pub rt-IsStaged : IsStaged rt
rt-IsStaged = record { each = λ drvs i d o array holds. go drvs i d o array holds }
  where
    only :
        (i : ℕ) (d : BackendDriver (List ℕ)) (o : BackendOps (List ℕ))
        → Holds (some driver ∷ []) i d o
        → IsStaging o d.impl
    only zero d o holds =
        let here : driver ≡ d =
          ap (λ s. elim s [ none ↦ driver | some t ↦ elim t [ none ↦ driver | some x ↦ x ] ])
            holds.slot in
        let same : ops ≡ o =
          ap (λ s. elim s [ none ↦ ops | some x ↦ x ]) (ap (λ x. x.ops) here ∙ holds.table) in
        subst (λ t. IsStaging t d.impl) same (ops-IsStaging d.impl)
    only (suc i) d o holds = let no = holds.slot in cc

    go :
        (drvs : List (Option (BackendDriver (List ℕ)))) (i : ℕ) (d : BackendDriver (List ℕ))
        (o : BackendOps (List ℕ))
        → rt.backends ≡ some drvs
        → Holds drvs i d o
        → IsStaging o d.impl
    go drvs i d o array holds =
        let same : drvs ≡ some driver ∷ [] =
          sym (ap (λ s. elim s [ none ↦ some driver ∷ [] | some x ↦ x ]) array) in
        only i d o (subst (λ l. Holds l i d o) same holds)
