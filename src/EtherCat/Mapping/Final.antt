-- ===== src/EtherCat/Mapping/Final.antt =====
-- The EtherCAT driver after its mapping.
use mathlib.Core.Path.{subst}
use plcmaster.Prelude.{
  ℕ, ◌≤◌, ◌≤◌, ◌≡◌, refl, sym, ◌∙◌, ap, Option, none, some, List, length, Bool, true, false,
  if◌then◌else◌, not, arith,
}
use plcmaster.EtherCat.{EthercatDriver}
use plcmaster.EtherCat.Soem.{Soem, state_safe_op, configure_iomap_group0, request_safe_op}
use plcmaster.EtherCat.Setup.{Host}
use plcmaster.EtherCat.Mapping.{map_from, map_devices, reset, give_up, ethercat_finalize_mapping}
use plcmaster.EtherCat.Indices.{IsSwapped}
use plcmaster.EtherCat.Ready.{IsReady}
use plcmaster.EtherCat.Setup.Laws.{AreDistinct}
use plcmaster.EtherCat.Mapping.Laws.{Placed, LaysOut, map_from-IsLaid}

module _ {Ctx : Type 0} where
  ended_well :
      (done safe : Bool) (mapped failed ready d' : EthercatDriver Ctx)
      → (if not done then give_up mapped else if safe then (ready, true) else give_up failed)
        ≡ (d', true)
      → (done ≡ true) × (ready ≡ d')
  unfolding give_up
  ended_well true true mapped failed ready d' h = (refl, ap (λ p. p.0) h)
  ended_well true false mapped failed ready d' h = let e = ap (λ p. p.1) h in cc
  ended_well false safe mapped failed ready d' h = let e = ap (λ p. p.1) h in cc

  -- A driver as `ethercat_finalize_mapping` leaves it.
  pub record IsFinal (room : ℕ) (d : EthercatDriver Ctx) : Type 0 where
    pub ready : IsReady room d
    pub swapped : IsSwapped d
    pub no_fault : d.fault_latched ≡ 0

module _ {Ctx : Type 0} (soem : Soem Ctx) (host : Host) where
  map_devices-IsFinal :
      (d d' : EthercatDriver Ctx) (image : List ℕ)
      → d.iomap ≡ some image
      → Placed soem d.ctx (length image)
      → AreDistinct d.devices
      → map_devices soem host d ≡ (d', true)
      → IsFinal (length image) d'
  unfolding map_devices reset
  map_devices-IsFinal d d' image held p ne h =
      let result = map_from soem host d.ctx 0 d.devices in
      let mapped = record d { devices = result.0 } in
      let (ctx, safe) =
        request_safe_op soem (if d.settings.dc_clock then soem.configdc d.ctx else d.ctx) in
      let ready = record (reset mapped) { ctx = ctx } in
      let (done, is) =
        ended_well result.1 safe mapped ready (record ready { ec_state = state_safe_op }) d' h in
      subst (IsFinal (length image)) is (record {
        ready = record {
          image = image;
          held = held;
          size = refl;
          laid =
              map_from-IsLaid soem host d.ctx (length image) 0 d.devices result.0 p ne
                (ap (λ b. (result.0, b)) done);
        };
        swapped = record { swapped = refl; active_in = omega arith; plc_in = omega arith };
        no_fault = refl;
      })

  configured :
      (ctx : Ctx) (image : List ℕ) (size expected : ℕ)
      → (configure_iomap_group0 soem ctx image size).1.1 ≡ some expected
      → ((configure_iomap_group0 soem ctx image size).0 ≡ (soem.config_map_group ctx image).0)
        × ((configure_iomap_group0 soem ctx image size).1.0 ≡ (soem.config_map_group ctx image).1.0)
        × ((soem.config_map_group ctx image).1.1 ≤ size)
  unfolding configure_iomap_group0
  configured ctx image size expected h = (ground arith, ground arith, ground arith)

  -- The driver after the library placed the slaves.
  abbrev asked : EthercatDriver Ctx → List ℕ → EthercatDriver Ctx
  asked d image = record d {
    ctx = (configure_iomap_group0 soem d.ctx image d.iomap_size).0;
    iomap = some (configure_iomap_group0 soem d.ctx image d.iomap_size).1.0;
  }

  abbrev after_asking : EthercatDriver Ctx → List ℕ → Option ℕ → EthercatDriver Ctx × Bool
  after_asking d image w = elim w [
    | none ↦ (asked d image, false)
    | some expected ↦ map_devices soem host (record (asked d image) { expected_wkc = expected })
  ]

  finalize_at :
      (d : EthercatDriver Ctx) (image : List ℕ)
      → d.iomap ≡ some image
      → ethercat_finalize_mapping soem host d
        ≡ after_asking d image (configure_iomap_group0 soem d.ctx image d.iomap_size).1.1
  unfolding ethercat_finalize_mapping
  finalize_at d image held =
      ap
        (λ o. elim o as (λ t. EthercatDriver Ctx × Bool) [
          | none ↦ (d, false)
          | some i ↦ after_asking d i (configure_iomap_group0 soem d.ctx i d.iomap_size).1.1
        ])
        held

  pub ethercat_finalize_mapping-IsFinal :
      (d d' : EthercatDriver Ctx) (image : List ℕ)
      → LaysOut soem
      → d.iomap ≡ some image
      → d.iomap_size ≡ length image
      → AreDistinct d.devices
      → ethercat_finalize_mapping soem host d ≡ (d', true)
      → IsFinal (length image) d'
  ethercat_finalize_mapping-IsFinal d d' image lays held size ne h =
      go (configure_iomap_group0 soem d.ctx image d.iomap_size).1.1 refl
        (sym (finalize_at d image held) ∙ h)
    where
      go :
          (w : Option ℕ)
          → (configure_iomap_group0 soem d.ctx image d.iomap_size).1.1 ≡ w
          → after_asking d image w ≡ (d', true)
          → IsFinal (length image) d'
      go none e bad = let f = ap (λ p. p.1) bad in cc
      go (some expected) e good =
          let (ctx, got, used) = configured d.ctx image d.iomap_size expected e in
          let len : length (configure_iomap_group0 soem d.ctx image d.iomap_size).1.0
              ≡ length image =
            ap length got ∙ lays.keeps d.ctx image in
          subst (λ n. IsFinal n d') len
            (map_devices-IsFinal (record (asked d image) { expected_wkc = expected }) d'
              (configure_iomap_group0 soem d.ctx image d.iomap_size).1.0 refl
              (subst (Placed soem (configure_iomap_group0 soem d.ctx image d.iomap_size).0)
                (sym len)
                (subst (λ c. Placed soem c (length image)) (sym ctx)
                  (lays.places d.ctx image (omega arith))))
              ne good)
