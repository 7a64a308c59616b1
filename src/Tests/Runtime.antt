-- ===== src/Tests/Runtime.antt =====
-- Three drivers, the last of which does not start.
use plcmaster.Prelude.{
  ℕ, zero, suc, ◌+◌, ◌<◌, ◌≡◌, refl, Bool, true, false, Option, none, some, List, [], ◌∷◌,
  get_elem?, arith,
}
use plcmaster.Backend.{BackendOps, BackendDriver}
use plcmaster.Runtime.{Runtime, ok, backends_start, get_health_level}
use plcmaster.Runtime.Start.{Starts, after, left_behind, backends_start_fails}
use plcmaster.Runtime.Start.Leaves.{backends_start_leaves}
use plcmaster.Runtime.Health.{worst, some_driver, faulty, down, get_health_level_lem}
use plcmaster.Tests.Data

-- A driver counts: a start adds 1, a stop adds 10.
abbrev counting : Bool → BackendOps ℕ
counting works = record {
  init = none;
  bind = none;
  finalize = none;
  start = some (λ i. (i + 1, works));
  process = none;
  stop = some (λ i. (i + 10, true));
  get_status = none;
  cycle_begin = none;
  cycle_end = none;
  get_input_data = none;
  get_output_data = none;
  store_output = λ i device new. i;
}

abbrev works : Option (BackendDriver ℕ)
works = some (record { ops = some (counting true); impl = 0 })

abbrev broken : Option (BackendDriver ℕ)
broken = some (record { ops = some (counting false); impl = 0 })

abbrev of : List (Option (BackendDriver ℕ)) → Runtime ℕ
of drvs = record {
  tag_table = Data.rt.tag_table;
  proc_store = Data.rt.proc_store;
  hmi_store = Data.rt.hmi_store;
  backends = some drvs;
  backend_count = 3;
}

works-Starts : Starts (some works) true
works-Starts = record { op = (0, λ i. (i + 1, true)); found = refl; result = refl }

broken-Starts : Starts (some broken) false
broken-Starts = record { op = (0, λ i. (i + 1, false)); found = refl; result = refl }

abbrev full : List (Option (BackendDriver ℕ))
full = works ∷ works ∷ broken ∷ []

full-Starts : (j : ℕ) → j < 2 → Starts (get_elem? full j) true
full-Starts zero lt = works-Starts
full-Starts (suc zero) lt = works-Starts
full-Starts (suc (suc j)) lt = absurd (omega arith)

backends_start_fails_example :
    (drvs' : List (Option (BackendDriver ℕ))) × (backends_start (of full)
      ≡ (record (of full) { backends = some drvs' }, false))
    × ((j : ℕ) → get_elem? drvs' j ≡ left_behind 0 2 j (get_elem? full j))
backends_start_fails_example =
    backends_start_fails (of full) full 2 refl (omega arith) full-Starts broken-Starts

abbrev gap : List (Option (BackendDriver ℕ))
gap = none ∷ works ∷ broken ∷ []

backends_start_leaves_example :
    (drvs' : List (Option (BackendDriver ℕ))) × (backends_start (of gap)
      ≡ (record (of gap) { backends = some drvs' }, false))
    × (get_elem? drvs' 1 ≡ after (λ o. o.start) (some works))
backends_start_leaves_example =
    backends_start_leaves (of gap) gap refl (omega arith) refl works-Starts broken-Starts

-- The first driver operates, the second does not.
abbrev reporting : Bool → Option (BackendDriver ℕ)
reporting in_op = some (record {
  ops = some (record (counting true) {
    get_status = some (λ i status. (i, record status { in_op = in_op }));
  });
  impl = 0;
})

abbrev mixed : List (Option (BackendDriver ℕ))
mixed = reporting true ∷ reporting false ∷ works ∷ []

get_health_level_lem_example :
    (get_health_level (of mixed)).1
    ≡ worst (some_driver faulty mixed 0 3) (some_driver down mixed 0 3) ok
get_health_level_lem_example = get_health_level_lem (of mixed) mixed refl
