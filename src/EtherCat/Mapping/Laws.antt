-- ===== src/EtherCat/Mapping/Laws.antt =====
-- What a successful mapping of an EtherCAT driver's devices gives.
use mathlib.Core.Path.{subst}
use plcmaster.Prelude.{
  ℕ, zero, suc, ◌+◌, ◌≤◌, ◌≡◌, ◌≢◌, ◌⊎◌, refl, sym, ◌∙◌, ap, ap₂, some, some_inj, List, [], ◌∷◌,
  length, get_elem?, replicate, length-replicate, Bool, true, false, if◌then◌else◌, ◌&&◌, ◌||◌, not,
  ltb, ◌==◌, arith,
}
use plcmaster.EtherCat.{EthercatDevice}
use plcmaster.EtherCat.Soem.{Soem, Slave, is_negative}
use plcmaster.EtherCat.Setup.{Host}
use plcmaster.EtherCat.Mapping.{new_buffers, matches, map_device, map_from}
use plcmaster.EtherCat.Layout.{AreSized, IsLaid}
use plcmaster.EtherCat.Setup.Laws.{AreDistinct}

-- The process data of the slaves are in an image of `room` bytes, each slave's in a part of its own. The
-- entry 0 is the master's, which spans all of them.
pub record Placed {Ctx : Type 0} (soem : Soem Ctx) (ctx : Ctx) (room : ℕ) : Type 0 where
  pub outputs_inside :
      (i at : ℕ)
      → i ≢ 0
      → (soem.slave ctx i).outputs ≡ some at
      → at + (soem.slave ctx i).output_bytes ≤ room
  pub inputs_inside :
      (i at : ℕ)
      → i ≢ 0
      → (soem.slave ctx i).inputs ≡ some at
      → at + (soem.slave ctx i).input_bytes ≤ room
  pub outputs_apart :
      (i j at at' : ℕ)
      → i ≢ j
      → i ≢ 0
      → j ≢ 0
      → (soem.slave ctx i).outputs ≡ some at
      → (soem.slave ctx j).outputs ≡ some at'
      → (at + (soem.slave ctx i).output_bytes ≤ at') ⊎ (at' + (soem.slave ctx j).output_bytes ≤ at)

-- What `ecx_config_map_group` does, where the bytes that it says it used are within the image.
pub record LaysOut {Ctx : Type 0} (soem : Soem Ctx) : Type 0 where
  pub keeps :
      (ctx : Ctx) (image : List ℕ) → length (soem.config_map_group ctx image).1.0 ≡ length image
  pub places :
      (ctx : Ctx) (image : List ℕ)
      → (soem.config_map_group ctx image).1.1 ≤ length image
      → Placed soem (soem.config_map_group ctx image).0 (length image)

-- The result of mapping one device, and of mapping a list, by the tests on the way.
abbrev one_mapped :
    Bool → Bool → Bool → EthercatDevice → EthercatDevice → EthercatDevice → EthercatDevice × Bool
one_mapped c₁ c₂ m dev placed sized =
    if c₁ then (dev, false) else if not c₂ then (placed, false) else (sized, m)

branches :
    (c₁ c₂ m : Bool) (dev placed sized y : EthercatDevice)
    → one_mapped c₁ c₂ m dev placed sized ≡ (y, true)
    → (c₁ ≡ false) × (c₂ ≡ true) × (m ≡ true) × (sized ≡ y)
branches true c₂ m dev placed sized y h = let e = ap (λ p. p.1) h in cc
branches false true m dev placed sized y h = (refl, refl, ap (λ p. p.1) h, ap (λ p. p.0) h)
branches false false m dev placed sized y h = let e = ap (λ p. p.1) h in cc

abbrev more_mapped :
    EthercatDevice × Bool
    → List EthercatDevice × Bool
    → List EthercatDevice
    → List EthercatDevice × Bool
more_mapped (dev, done) (devs', rest) devs =
    if done then (dev ∷ devs', rest) else (dev ∷ devs, false)

more_branches :
    (p : EthercatDevice × Bool) (q : List EthercatDevice × Bool) (devs all : List EthercatDevice)
    → more_mapped p q devs ≡ (all, true)
    → (p.1 ≡ true) × (q.1 ≡ true) × (p.0 ∷ q.0 ≡ all)
more_branches (dev, true) (devs', rest) devs all h = (refl, ap (λ p. p.1) h, ap (λ p. p.0) h)
more_branches (dev, false) (devs', rest) devs all h = let e = ap (λ p. p.1) h in cc

all_four :
    (a b c d : Bool) → (a && b && c && d) ≡ true → (a ≡ true) × (b ≡ true) × (c ≡ true) × (d ≡ true)
all_four a b c d h = ground arith

fits :
    (dev : EthercatDevice) (sl : Slave)
    → matches dev sl ≡ true
    → (dev.desc.tx_bytes ≤ sl.input_bytes) × (dev.desc.rx_bytes ≤ sl.output_bytes)
unfolding matches
fits dev sl h = (ground arith, ground arith)

module _ {Ctx : Type 0} (soem : Soem Ctx) (host : Host) (ctx : Ctx) where
  -- A device after its mapping.
  record Maps (x y : EthercatDevice) : Type 0 where
    real : x.slave_index ≢ 0
    same : y.slave_index ≡ x.slave_index
    inputs : y.soem_inputs ≡ (soem.slave ctx x.slave_index).inputs
    outputs : y.soem_outputs ≡ (soem.slave ctx x.slave_index).outputs
    in_fits : y.in_size ≤ (soem.slave ctx x.slave_index).input_bytes
    out_fits : y.out_size ≤ (soem.slave ctx x.slave_index).output_bytes
    ins : AreSized y.in_buffers y.in_size
    outs : AreSized y.out_buffers y.out_size

  fresh-AreSized :
      (k size : ℕ)
      → host.memory k ≡ true
      → host.memory (k + 1) ≡ true
      → AreSized (new_buffers host k size) size
  unfolding new_buffers
  fresh-AreSized k size m m' = record {
    first = record {
      bytes = replicate size 0;
      here = ground arith;
      size = length-replicate size 0;
    };
    second = record {
      bytes = replicate size 0;
      here = ground arith;
      size = length-replicate size 0;
    };
  }

  map_device-Maps :
      (k : ℕ) (x y : EthercatDevice) → map_device soem host ctx k x ≡ (y, true) → Maps x y
  unfolding map_device
  map_device-Maps k x y h =
      let sl = soem.slave ctx x.slave_index in
      let placed = record x { soem_inputs = sl.inputs; soem_outputs = sl.outputs } in
      let sized = record placed {
        in_size = x.desc.tx_bytes;
        out_size = x.desc.rx_bytes;
        in_buffers = new_buffers host k x.desc.tx_bytes;
        out_buffers = new_buffers host (k + 2) x.desc.rx_bytes;
      } in
      let found = soem.slavecount ctx in
      let (sound, ok, memory, is) =
        branches (x.slave_index == 0 || is_negative found || ltb found x.slave_index) (matches x sl)
          (host.memory k && host.memory (k + 1) && host.memory (k + 2) && host.memory (k + 3)) x
          placed sized y h in
      let (in_fits, out_fits) = fits x (soem.slave ctx x.slave_index) ok in
      let (a, b, c, d) =
        all_four (host.memory k) (host.memory (k + 1)) (host.memory (k + 2)) (host.memory (k + 3))
          memory in
      subst (Maps x) is (record {
        real = λ z. ground (arith, sound);
        same = refl;
        inputs = refl;
        outputs = refl;
        in_fits = in_fits;
        out_fits = out_fits;
        ins = fresh-AreSized k x.desc.tx_bytes a b;
        outs =
            fresh-AreSized (k + 2) x.desc.rx_bytes c
              (subst (λ n. host.memory n ≡ true) (three k) d);
      })
    where
      three : (k : ℕ) → k + 3 ≡ k + 2 + 1
      three k = omega arith

  map_from-Maps :
      (k : ℕ) (devs devs' : List EthercatDevice) (j : ℕ) (y : EthercatDevice)
      → map_from soem host ctx k devs ≡ (devs', true)
      → get_elem? devs' j ≡ some y
      → (x : EthercatDevice) × (get_elem? devs j ≡ some x) × Maps x y
  unfolding map_from
  map_from-Maps k [] devs' j y h e =
      let is : [] ≡ devs' = ap (λ p. p.0) h in
      let nothing : get_elem? {A = EthercatDevice} [] j ≡ some y = ap (λ l. get_elem? l j) is ∙ e in
      cc
  map_from-Maps k (dev ∷ devs) devs' j y h e =
      let (done, rest, all) =
        more_branches (map_device soem host ctx k dev) (map_from soem host ctx (k + 4) devs) devs
          devs' h in
      go j (ap (λ l. get_elem? l j) all ∙ e) done (λ i at.
        map_from-Maps (k + 4) devs (map_from soem host ctx (k + 4) devs).0 i y
          (ap (λ b. ((map_from soem host ctx (k + 4) devs).0, b)) rest) at)
    where
      go :
          (i : ℕ)
          → get_elem?
              ((map_device soem host ctx k dev).0 ∷ (map_from soem host ctx (k + 4) devs).0)
              i
            ≡ some y
          → (map_device soem host ctx k dev).1 ≡ true
          → ((i' : ℕ)
              → get_elem? (map_from soem host ctx (k + 4) devs).0 i' ≡ some y
              → (x : EthercatDevice) × (get_elem? devs i' ≡ some x) × Maps x y)
          → (x : EthercatDevice) × (get_elem? (dev ∷ devs) i ≡ some x) × Maps x y
      go zero at done again =
          (dev, refl, map_device-Maps k dev y (ap₂ (λ a b. (a, b)) (some_inj at) done))
      go (suc i) at done again = again i at

  pub map_from-IsLaid :
      (room k : ℕ) (devs devs' : List EthercatDevice)
      → Placed soem ctx room
      → AreDistinct devs
      → map_from soem host ctx k devs ≡ (devs', true)
      → IsLaid devs' room
  map_from-IsLaid room k devs devs' p ne h = record {
    each = λ j y at.
        let (x, there, m) = map_from-Maps k devs devs' j y h at in
        let fits_in = m.in_fits in
        let fits_out = m.out_fits in
        record {
          ins = m.ins;
          outs = m.outs;
          inside_out = λ i o.
              let inside = p.outputs_inside x.slave_index i m.real (sym m.outputs ∙ o) in
              omega arith;
          inside_in = λ i o.
              let inside = p.inputs_inside x.slave_index i m.real (sym m.inputs ∙ o) in omega arith;
        };
    apart = λ j j' y y' i at differ here here' o o'.
        let (x, there, m) = map_from-Maps k devs devs' j y h here in
        let (x', there', m') = map_from-Maps k devs devs' j' y' h here' in
        let fits_out = m.out_fits in
        let fits_out' = m'.out_fits in
        let apart =
          p.outputs_apart x.slave_index x'.slave_index i at (ne.apart j j' x x' differ there there')
            m.real m'.real (sym m.outputs ∙ o) (sym m'.outputs ∙ o') in
        omega arith;
  }
