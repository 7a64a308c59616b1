-- ===== src/Builder/Bound.antt =====
-- The devices that the builder binds to an EtherCAT driver, and the indices that it gives to them.
use plcmaster.Prelude.{
  ℕ, ◌^◌, ◌<◌, ◌≡◌, refl, sym, ◌∙◌, ap, Option-cases, Bool-cases, inl, inr, Bool, true, false,
  Option, none, some, List, [], ◌∷◌, ◌++◌, map, append_assoc, append-nil, if◌then◌else◌, length,
  get_elem?, get_elem?-some, get_elem?-map, CString,
}
use plcmaster.Device.{DeviceConfig, DeviceDesc}
use plcmaster.EtherCat.{EthercatDevice, EthercatDriver}
use plcmaster.EtherCat.Soem.{Soem}
use plcmaster.EtherCat.Setup.{new_device, ethercat_bind_device}
use plcmaster.EtherCat.Setup.Laws.{bind_cases}
use plcmaster.Builder.{find_backend_device_index}
use plcmaster.Builder.Registry.{is_text, device_registry_find, BackendFactoryEntry}
use plcmaster.Builder.Drivers.{bind_devices}
use plcmaster.Builder.Position.{on_backend, find_backend_device_index_lem}

-- The configurations of the bound devices.
abbrev pub cfgs_of : {Ctx : Type 0} → EthercatDriver Ctx → List DeviceConfig
cfgs_of d = map (λ dev. dev.cfg) d.devices

map-append : {A B : Type 0} (f : A → B) (xs ys : List A) → map f (xs ++ ys) ≡ map f xs ++ map f ys
map-append f [] ys = refl
map-append f (x ∷ xs) ys = ap (λ t. f x ∷ t) (map-append f xs ys)

module _ {Ctx : Type 0} (soem : Soem Ctx) where
  bind-cfgs :
      (d d' : EthercatDriver Ctx) (cfg : DeviceConfig) (desc : DeviceDesc)
      → ethercat_bind_device soem d cfg desc ≡ (d', true)
      → cfgs_of d' ≡ cfgs_of d ++ cfg ∷ []
  bind-cfgs d d' cfg desc h = elim (bind_cases soem d cfg desc) [
    | inl e ↦ let bad = ap (λ p. p.1) (sym e ∙ h) in cc
    | inr (room, pos, free, e) ↦
        sym (ap (λ p. cfgs_of p.0) (sym e ∙ h))
        ∙ map-append (λ dev. dev.cfg) d.devices (new_device cfg desc cfg.expected_position ∷ [])
  ]

  module _ (descs : List (Option DeviceDesc))
      (factories : List (BackendFactoryEntry (EthercatDriver Ctx))) where
    bind_devices-cfgs :
        (name : CString) (devices : List DeviceConfig) (d d' : EthercatDriver Ctx)
        → bind_devices descs factories (ethercat_bind_device soem) name devices d ≡ (d', true)
        → cfgs_of d' ≡ cfgs_of d ++ on_backend name devices
    unfolding bind_devices on_backend
    bind_devices-cfgs name [] d d' h = sym (ap (λ p. cfgs_of p.0) h) ∙ sym (append-nil (cfgs_of d))
    bind_devices-cfgs name (cfg ∷ devices) d d' h =
        elim (Option-cases (device_registry_find descs cfg.model)) [
          | inl e ↦ let bad : false ≡ true = ap (λ p. p.1) (sym (none_known e) ∙ h) in cc
          | inr (desc, e) ↦
              let made = ethercat_bind_device soem d cfg desc in
              elim (Bool-cases (is_text cfg.backend name)) [
                | inl t ↦ elim (Bool-cases made.1) [
                  | inl done ↦
                      let next : go made.0 ≡ (d', true) =
                        sym (ap (λ b. if b then go made.0 else (made.0, false)) done)
                        ∙ sym (
                            ap
                              (λ b.
                                if b then if made.1 then go made.0 else (made.0, false) else go d)
                              t)
                        ∙ sym (turn desc e)
                        ∙ h in
                      bind_devices-cfgs name devices made.0 d' next
                      ∙ ap (λ l. l ++ on_backend name devices)
                          (bind-cfgs d made.0 cfg desc (ap (λ b. (made.0, b)) done))
                      ∙ append_assoc (cfgs_of d) (cfg ∷ []) (on_backend name devices)
                      ∙ ap
                          (λ b.
                            cfgs_of d
                            ++ (if b
                                then cfg ∷ on_backend name devices
                                else on_backend name devices))
                          (sym t)
                  | inr undone ↦
                      let bad : false ≡ true =
                        ap (λ p. p.1)
                          (sym (ap (λ b. if b then go made.0 else (made.0, false)) undone)
                            ∙ sym (
                                ap
                                  (λ b.
                                    if b
                                    then if made.1 then go made.0 else (made.0, false)
                                    else go d)
                                  t)
                            ∙ sym (turn desc e)
                            ∙ h) in
                      cc
                ]
                | inr f ↦
                    let next : go d ≡ (d', true) =
                      sym (
                        ap (λ b. if b then if made.1 then go made.0 else (made.0, false) else go d)
                          f)
                      ∙ sym (turn desc e)
                      ∙ h in
                    bind_devices-cfgs name devices d d' next
                    ∙ ap
                        (λ b.
                          cfgs_of d
                          ++ (if b then cfg ∷ on_backend name devices else on_backend name devices))
                        (sym f)
              ]
        ]
      where
        go : EthercatDriver Ctx → EthercatDriver Ctx × Bool
        go x = bind_devices descs factories (ethercat_bind_device soem) name devices x

        none_known :
            device_registry_find descs cfg.model ≡ none
            → bind_devices descs factories (ethercat_bind_device soem) name (cfg ∷ devices) d
              ≡ (d, false)
        none_known e =
            ap
              (λ o. elim o as (λ t. EthercatDriver Ctx × Bool) [
                | none ↦ (d, false)
                | some desc ↦
                    if is_text cfg.backend name
                    then if (ethercat_bind_device soem d cfg desc).1
                      then go (ethercat_bind_device soem d cfg desc).0
                      else ((ethercat_bind_device soem d cfg desc).0, false)
                    else go d
              ])
              e

        turn :
            (desc : DeviceDesc)
            → device_registry_find descs cfg.model ≡ some desc
            → bind_devices descs factories (ethercat_bind_device soem) name (cfg ∷ devices) d ≡ (
                if is_text cfg.backend name
                then if (ethercat_bind_device soem d cfg desc).1
                  then go (ethercat_bind_device soem d cfg desc).0
                  else ((ethercat_bind_device soem d cfg desc).0, false)
                else go d)
        turn desc e =
            ap
              (λ o. elim o as (λ t. EthercatDriver Ctx × Bool) [
                | none ↦ (d, false)
                | some x ↦
                    if is_text cfg.backend name
                    then if (ethercat_bind_device soem d cfg x).1
                      then go (ethercat_bind_device soem d cfg x).0
                      else ((ethercat_bind_device soem d cfg x).0, false)
                    else go d
              ])
              e

    -- A device's index in its tags is its place in the driver: if the builder has bound the devices of a
    -- backend to a driver that had none, then the device of the driver at the index that
    -- `find_backend_device_index` gives is the one of that configuration.
    pub bind_devices-index :
        (name : CString) (devices : List DeviceConfig) (d d' : EthercatDriver Ctx)
        (target found : ℕ)
        → d.devices ≡ []
        → length devices < 2 ^ 16
        → bind_devices descs factories (ethercat_bind_device soem) name devices d ≡ (d', true)
        → find_backend_device_index devices target (some name) ≡ some found
        → (dev : EthercatDevice) × (get_elem? d'.devices found ≡ some dev)
          × (get_elem? devices target ≡ some dev.cfg)
    bind_devices-index name devices d d' target found fresh small h at =
        let (same, lt) = find_backend_device_index_lem devices name target found small at in
        let (cfg, here) = get_elem?-some devices target lt in
        let cfgs = bind_devices-cfgs name devices d d' h in
        let listed : get_elem? (cfgs_of d') found ≡ some cfg =
          ap (λ l. get_elem? l found)
            (cfgs ∙ ap (λ l. map (λ dev. dev.cfg) l ++ on_backend name devices) fresh)
          ∙ same
          ∙ here in
        let (dev, there, is) =
          get_elem?-map (λ (t : EthercatDevice). t.cfg) d'.devices found cfg listed in
        (dev, there, here ∙ ap some (sym is))
