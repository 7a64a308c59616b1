-- ===== src/Tests/Ring.antt =====
-- The ring at an index that wraps.
use plcmaster.Prelude.{ℕ, ◌-◌, ◌≡◌, refl, some, List, [], ◌∷◌, arith}
use plcmaster.Ring.{SpscRing, u32_mod, init, push, pop}
use plcmaster.Ring.Inv.{IsValid}
use plcmaster.Ring.Refine.{contents, push_refines, pop_refines}
use plcmaster.Ring.Queue

abbrev places : List ℕ
places = 10 ∷ 20 ∷ 30 ∷ 40 ∷ []

-- Two elements, 40 and 10: the read index is the last before the wrap.
abbrev wrapped : SpscRing ℕ
wrapped = record { storage = places; capacity = 4; read_index = u32_mod - 1; write_index = 1 }

wrapped-IsValid : IsValid wrapped
wrapped-IsValid = record {
  positive = omega arith;
  cap_fits = omega arith;
  divides = omega arith;
  stored = omega arith;
  read_fits = omega arith;
  write_fits = omega arith;
  bounded = omega arith;
}

abbrev fresh : SpscRing ℕ
fresh = record { storage = places; capacity = 4; read_index = 0; write_index = 0 }

fresh_made : init (some places) 8 4 ≡ some fresh
unfolding init
fresh_made = refl

push_refines_example :
    let (q', done) = push wrapped (some 50) in
    ((contents q', done) ≡ Queue.push 4 (contents wrapped) 50) × IsValid q' × (q'.capacity ≡ 4)
push_refines_example = push_refines 50 wrapped-IsValid

pop_refines_example :
    let (q', out) = pop wrapped in
    ((contents q', out) ≡ Queue.pop (contents wrapped)) × IsValid q' × (q'.capacity ≡ 4)
pop_refines_example = pop_refines wrapped-IsValid
