-- ===== src/EtherCat/Setup/Laws.antt =====
-- Binding devices to an EtherCAT driver.
use mathlib.Core.Path.{subst}
use plcmaster.Prelude.{
  ℕ, zero, suc, ◌≤◌, ◌<◌, ◌≡◌, ◌≢◌, ◌⊎◌, refl, sym, ◌∙◌, ap, inl, inr, some, some_inj, List, [],
  ◌∷◌, ◌++◌, length, length-append, get_elem?, get_elem?-snoc, Bool, true, false, if◌then◌else◌,
  ◌||◌, leb, ◌==◌, arith,
}
use plcmaster.Device.{DeviceConfig, DeviceDesc}
use plcmaster.EtherCat.{EthercatDevice, EthercatDriver}
use plcmaster.EtherCat.Soem.{Soem}
use plcmaster.EtherCat.Setup.{is_bound, new_device, beyond, ethercat_bind_device}

-- No two devices are bound at one position.
pub record AreDistinct (devs : List EthercatDevice) : Type 0 where
  pub apart :
      (j k : ℕ) (dev dev' : EthercatDevice)
      → j ≢ k
      → get_elem? devs j ≡ some dev
      → get_elem? devs k ≡ some dev'
      → dev.slave_index ≢ dev'.slave_index

-- What binding keeps: no more devices than the driver has room for, at distinct positions that are not 0.
pub record IsBound {Ctx : Type 0} (d : EthercatDriver Ctx) : Type 0 where
  pub capacity : length d.devices ≤ d.settings.device_capacity
  pub distinct : AreDistinct d.devices
  pub positive :
      (k : ℕ) (dev : EthercatDevice) → get_elem? d.devices k ≡ some dev → dev.slave_index ≢ 0

is_bound_sound :
    (pos : ℕ) (devs : List EthercatDevice) (k : ℕ) (dev : EthercatDevice)
    → is_bound pos devs ≡ false
    → get_elem? devs k ≡ some dev
    → dev.slave_index ≢ pos
unfolding is_bound
is_bound_sound pos [] k dev h e i = cc
is_bound_sound pos (x ∷ devs) zero dev h e i =
    let same : x ≡ dev = some_inj e in
    let is : x.slave_index ≡ pos = ap (λ t. t.slave_index) same ∙ i in ground arith
is_bound_sound pos (x ∷ devs) (suc k) dev h e i = is_bound_sound pos devs k dev (ground arith) e i

abbrev guarded : {A : Type 0} → Bool → Bool → Bool → A → A → A
guarded c₁ c₂ c₃ x y = if c₁ then x else if c₂ then x else if c₃ then x else y

guarded_cases :
    {A : Type 0} (c₁ c₂ c₃ : Bool) (x y : A)
    → (guarded c₁ c₂ c₃ x y ≡ x)
      ⊎ ((c₁ ≡ false) × (c₂ ≡ false) × (c₃ ≡ false) × (guarded c₁ c₂ c₃ x y ≡ y))
guarded_cases true c₂ c₃ x y = inl refl
guarded_cases false true c₃ x y = inl refl
guarded_cases false false true x y = inl refl
guarded_cases false false false x y = inr (refl, refl, refl, refl)

module _ {Ctx : Type 0} (soem : Soem Ctx) where
  -- A device that is refused leaves the driver as it was; one that is accepted is added at its end.
  pub bind_cases :
      (d : EthercatDriver Ctx) (cfg : DeviceConfig) (desc : DeviceDesc)
      → (ethercat_bind_device soem d cfg desc ≡ (d, false))
        ⊎ ((length d.devices < d.settings.device_capacity)
            × (cfg.expected_position ≢ 0)
            × (is_bound cfg.expected_position d.devices ≡ false)
            × (ethercat_bind_device soem d cfg desc ≡ (
              record d {
                devices = d.devices ++ new_device cfg desc cfg.expected_position ∷ [];
                ctx = soem.set_hook d.ctx cfg.expected_position desc.hooks.on_init;
              },
              true,
            )))
  unfolding ethercat_bind_device
  bind_cases d cfg desc =
      let pos = cfg.expected_position in
      elim (guarded_cases {A = EthercatDriver Ctx × Bool}
        (leb d.settings.device_capacity (length d.devices)) (pos == 0 || beyond soem d.ctx pos)
        (is_bound pos d.devices) (d, false)
        (
          record d {
            devices = d.devices ++ new_device cfg desc pos ∷ [];
            ctx = soem.set_hook d.ctx pos desc.hooks.on_init;
          },
          true,
        )) [ inl e ↦ inl e | inr (a, b, c, e) ↦ inr (ground arith, λ i. ground arith, c, e) ]

  new-AreDistinct :
      (devs : List EthercatDevice) (dev : EthercatDevice)
      → AreDistinct devs
      → is_bound dev.slave_index devs ≡ false
      → AreDistinct (devs ++ dev ∷ [])
  new-AreDistinct devs dev h free = record { apart = go }
    where
      go :
          (j k : ℕ) (x y : EthercatDevice)
          → j ≢ k
          → get_elem? (devs ++ dev ∷ []) j ≡ some x
          → get_elem? (devs ++ dev ∷ []) k ≡ some y
          → x.slave_index ≢ y.slave_index
      go j k x y ne e e' = elim (get_elem?-snoc devs dev j x e) [
        | inl at ↦ elim (get_elem?-snoc devs dev k y e') [
          | inl at' ↦ h.apart j k x y ne at at'
          | inr (i, is) ↦ λ same.
              is_bound_sound dev.slave_index devs j x free at (same ∙ ap (λ t. t.slave_index) is)
        ]
        | inr (i, is) ↦ elim (get_elem?-snoc devs dev k y e') [
          | inl at' ↦ λ same.
              is_bound_sound dev.slave_index devs k y free at'
                (sym same ∙ ap (λ t. t.slave_index) is)
          | inr (i', is') ↦ absurd (ne (i ∙ sym i'))
        ]
      ]

  -- Binding a device, whether it succeeds or not, keeps the devices at distinct positions that are not 0
  -- and within the capacity that the driver was created with.
  pub ethercat_bind_device-IsBound :
      (d : EthercatDriver Ctx) (cfg : DeviceConfig) (desc : DeviceDesc)
      → IsBound d
      → IsBound (ethercat_bind_device soem d cfg desc).0
  ethercat_bind_device-IsBound d cfg desc h = elim (bind_cases d cfg desc) [
    | inl e ↦ subst (λ p. IsBound p.0) (sym e) h
    | inr (room, pos, free, e) ↦
        subst (λ p. IsBound p.0) (sym e)
          (record {
            capacity =
                let len =
                  length-append d.devices (new_device cfg desc cfg.expected_position ∷ []) in
                omega arith;
            distinct =
                new-AreDistinct d.devices (new_device cfg desc cfg.expected_position) h.distinct
                  free;
            positive = λ k dev at. elim (get_elem?-snoc d.devices _ k dev at) [
              | inl there ↦ h.positive k dev there
              | inr (i, is) ↦ λ z. pos (sym (ap (λ t. t.slave_index) is) ∙ z)
            ];
          })
  ]
