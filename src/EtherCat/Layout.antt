-- ===== src/EtherCat/Layout.antt =====
-- The devices of a mapped EtherCAT driver: buffers of the right sizes, and places in the process image
-- that do not meet.
pub mod Keeps
use mathlib.Core.Path.{subst}
use plcmaster.Prelude.{
  some_inj, ℕ, ◌+◌, ◌≤◌, ◌≡◌, ◌≢◌, ◌⊎◌, refl, sym, ◌∙◌, ap, inl, inr, Option, none, some, List, [],
  ◌∷◌, map, length, get_elem?, set, blit, length-blit, get_elem?-map, get_elem?-set_self,
  get_elem?-set_ne, get_elem?-lt, Bool, true, false, Bool-cases, if◌then◌else◌, ◌==◌, arith,
}
use plcmaster.EtherCat.{
  Buffers, EthercatDevice, EthercatDriver, buffer, put_buffer, copy_to, clear_at, take_inputs,
  keep_outputs, zero_outputs_of,
}
use plcmaster.EtherCat.Ops.{store_in}

-- A buffer that was allocated, of `n` bytes.
pub record IsSized (o : Option (List ℕ)) (n : ℕ) : Type 0 where
  pub bytes : List ℕ
  pub here : o ≡ some bytes
  pub size : length bytes ≡ n

pub record AreSized (b : Buffers) (n : ℕ) : Type 0 where
  pub first : IsSized b.first n
  pub second : IsSized b.second n

pub record IsMapped (dev : EthercatDevice) (room : ℕ) : Type 0 where
  pub ins : AreSized dev.in_buffers dev.in_size
  pub outs : AreSized dev.out_buffers dev.out_size
  pub inside_out : (at : ℕ) → dev.soem_outputs ≡ some at → at + dev.out_size ≤ room
  pub inside_in : (at : ℕ) → dev.soem_inputs ≡ some at → at + dev.in_size ≤ room

-- The parts of a device that stay from its mapping on.
pub record SamePlace (dev dev' : EthercatDevice) : Type 0 where
  pub inputs : dev'.soem_inputs ≡ dev.soem_inputs
  pub outputs : dev'.soem_outputs ≡ dev.soem_outputs
  pub in_size : dev'.in_size ≡ dev.in_size
  pub out_size : dev'.out_size ≡ dev.out_size

-- No device of a list has outputs in the `n` bytes from `at` on.
pub record IsFree (devs : List EthercatDevice) (at n : ℕ) : Type 0 where
  pub apart :
      (j : ℕ) (dev : EthercatDevice) (i : ℕ)
      → get_elem? devs j ≡ some dev
      → dev.soem_outputs ≡ some i
      → (i + dev.out_size ≤ at) ⊎ (at + n ≤ i)

pub record IsLaid (devs : List EthercatDevice) (room : ℕ) : Type 0 where
  pub each : (k : ℕ) (dev : EthercatDevice) → get_elem? devs k ≡ some dev → IsMapped dev room
  pub apart :
      (j k : ℕ) (dev dev' : EthercatDevice) (i at : ℕ)
      → j ≢ k
      → get_elem? devs j ≡ some dev
      → get_elem? devs k ≡ some dev'
      → dev.soem_outputs ≡ some i
      → dev'.soem_outputs ≡ some at
      → (i + dev.out_size ≤ at) ⊎ (at + dev'.out_size ≤ i)

pub buffer-IsSized : {b : Buffers} {n : ℕ} (idx : ℕ) → AreSized b n → IsSized (buffer b idx) n
buffer-IsSized {b} {n} idx h = pick (idx == 0)
  where
    pick : (c : Bool) → IsSized (if c then b.first else b.second) n
    pick true = h.first
    pick false = h.second

-- Bytes that are copied into a buffer leave its size.
pub put_buffer-AreSized :
    {b : Buffers} {n : ℕ} (idx i : ℕ) (bs old : List ℕ)
    → AreSized b n
    → buffer b idx ≡ some old
    → AreSized (put_buffer b idx (some (blit old i bs))) n
put_buffer-AreSized {b} {n} idx i bs old h e = pick (idx == 0)
  where
    held : IsSized (buffer b idx) n
    held = buffer-IsSized idx h

    same : held.bytes ≡ old
    same = let e' = held.here in cc

    now : IsSized (some (blit old i bs)) n
    now = record {
      bytes = blit old i bs;
      here = refl;
      size = length-blit old i bs ∙ ap length (sym same) ∙ held.size;
    }

    pick :
        (c : Bool)
        → AreSized
            (if c
              then record b { first = some (blit old i bs) }
              else record b { second = some (blit old i bs) })
            n
    pick true = record { first = now; second = h.second }
    pick false = record { first = h.first; second = now }

-- A list in which each device was changed in its buffers only.
pub over-IsLaid :
    {devs : List EthercatDevice} {room : ℕ} (devs' : List EthercatDevice)
    → ((j : ℕ) (y : EthercatDevice)
        → get_elem? devs' j ≡ some y
        → (x : EthercatDevice) × (get_elem? devs j ≡ some x) × SamePlace x y × IsMapped y room)
    → IsLaid devs room
    → IsLaid devs' room
over-IsLaid devs' view h = record {
  each = λ k dev at. (view k dev at).3;
  apart = λ j k dev dev' i at ne e e' o o'.
      let (x, there, s, m) = view j dev e in
      let (x', there', s', m') = view k dev' e' in
      let r = h.apart j k x x' i at ne there there' (sym s.outputs ∙ o) (sym s'.outputs ∙ o') in
      let z = s.out_size in let z' = s'.out_size in omega arith;
}

pub map-IsLaid :
    (f : EthercatDevice → EthercatDevice) (devs : List EthercatDevice) (room : ℕ)
    → ((dev : EthercatDevice) → IsMapped dev room → IsMapped (f dev) room)
    → ((dev : EthercatDevice) → SamePlace dev (f dev))
    → IsLaid devs room
    → IsLaid (map f devs) room
map-IsLaid f devs room keeps same h = over-IsLaid (map f devs) view h
  where
    view :
        (j : ℕ) (y : EthercatDevice)
        → get_elem? (map f devs) j ≡ some y
        → (x : EthercatDevice) × (get_elem? devs j ≡ some x) × SamePlace x y × IsMapped y room
    view j y at =
        let (x, there, is) = get_elem?-map f devs j y at in
        (
          x,
          there,
          subst (λ t. SamePlace x t) is (same x),
          subst (λ t. IsMapped t room) is (keeps x (h.each j x there)),
        )

pub set-IsLaid :
    (devs : List EthercatDevice) (room k : ℕ) (dev dev' : EthercatDevice)
    → get_elem? devs k ≡ some dev
    → SamePlace dev dev'
    → IsMapped dev' room
    → IsLaid devs room
    → IsLaid (set devs k dev') room
set-IsLaid devs room k dev dev' here same m h = over-IsLaid (set devs k dev') view h
  where
    view :
        (j : ℕ) (y : EthercatDevice)
        → get_elem? (set devs k dev') j ≡ some y
        → (x : EthercatDevice) × (get_elem? devs j ≡ some x) × SamePlace x y × IsMapped y room
    view j y at = elim (Bool-cases (k == j)) [
      | inl e ↦
          let i : k ≡ j = ground arith in
          let put : get_elem? (set devs k dev') k ≡ some dev' =
            get_elem?-set_self devs k dev' (get_elem?-lt devs k dev here) in
          let is : dev' ≡ y = some_inj (sym put ∙ ap (get_elem? (set devs k dev')) i ∙ at) in
          (
            dev,
            ap (get_elem? devs) (sym i) ∙ here,
            subst (λ t. SamePlace dev t) is same,
            subst (λ t. IsMapped t room) is m,
          )
      | inr e ↦
          let ne : k ≢ j = λ i. ground arith in
          let there = sym (get_elem?-set_ne devs k j dev' ne) ∙ at in
          (
            y,
            there,
            record { inputs = refl; outputs = refl; in_size = refl; out_size = refl },
            h.each j y there,
          )
    ]
