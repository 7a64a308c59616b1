-- ===== src/Builder/Position.antt =====
-- The index of a device among those of its backend.
use plcmaster.Prelude.{
  ℕ, ◌+◌, ◌%◌, ◌^◌, ◌<◌, ◌≡◌, sym, ◌∙◌, ap, Bool-cases, inl, inr, some, List, [], ◌∷◌,
  if◌then◌else◌, ◌==◌, length, get_elem?, CString, arith,
}
use plcmaster.Device.{DeviceConfig}
use plcmaster.Builder.{find_device_from, find_backend_device_index}
use plcmaster.Builder.Registry.{is_text}

-- The devices that are bound to the driver of a backend, in the order in which they are.
unfoldable pub on_backend : CString → List DeviceConfig → List DeviceConfig
on_backend name [] = []
on_backend name (cfg ∷ cfgs) =
    let rest = on_backend name cfgs in if is_text cfg.backend name then cfg ∷ rest else rest

-- Position `p` of the device `k` steps on among the ones left.
find_device_from_lem :
    (cfgs : List DeviceConfig) (name : CString) (i count target : ℕ) (found : ℕ)
    → count + length cfgs < 2 ^ 16
    → find_device_from i count cfgs target name ≡ some found
    → (p k : ℕ) × (found ≡ count + p)
      × (target ≡ i + k)
      × (get_elem? (on_backend name cfgs) p ≡ get_elem? cfgs k)
      × (k < length cfgs)
unfolding find_device_from on_backend
find_device_from_lem [] name i count target found small h = cc
find_device_from_lem (cfg ∷ cfgs) name i count target found small h =
    elim (Bool-cases (is_text cfg.backend name)) [
      | inl e ↦ elim (Bool-cases (i == target)) [
        | inl e' ↦ (0, 0, ground arith, ground arith, ground arith, omega arith)
        | inr e' ↦
            let next : find_device_from (i + 1) ((count + 1) % 2 ^ 16) cfgs target name
                ≡ some found =
              ground arith in
            let (p, k, is, at, same, lt) =
              find_device_from_lem cfgs name (i + 1) ((count + 1) % 2 ^ 16) target found
                (omega arith) next in
            (p + 1, k + 1, omega arith, omega arith, ground arith, omega arith)
      ]
      | inr e ↦
          let next : find_device_from (i + 1) count cfgs target name ≡ some found = ground arith in
          let (p, k, is, at, same, lt) =
            find_device_from_lem cfgs name (i + 1) count target found (omega arith) next in
          (p, k + 1, is, omega arith, ground arith, omega arith)
    ]

-- The index that the builder gives to a device is its position among the devices that are bound to the
-- driver of its backend, with fewer than 2^16 devices.
pub find_backend_device_index_lem :
    (cfgs : List DeviceConfig) (name : CString) (target found : ℕ)
    → length cfgs < 2 ^ 16
    → find_backend_device_index cfgs target (some name) ≡ some found
    → (get_elem? (on_backend name cfgs) found ≡ get_elem? cfgs target) × (target < length cfgs)
unfolding find_backend_device_index
find_backend_device_index_lem cfgs name target found small h =
    let (p, k, is, at, same, lt) =
      find_device_from_lem cfgs name 0 0 target found (omega arith) h in
    let is' : found ≡ p = omega arith in
    let at' : target ≡ k = omega arith in
    (ap (get_elem? (on_backend name cfgs)) is' ∙ same ∙ ap (get_elem? cfgs) (sym at'), omega arith)
