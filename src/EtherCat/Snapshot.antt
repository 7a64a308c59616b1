-- ===== src/EtherCat/Snapshot.antt =====
-- The inputs that the PLC sees during its cycle, while the real-time thread goes on.
use mathlib.Core.Path.{subst}
use plcmaster.Prelude.{
  ℕ, ◌+◌, ◌-◌, ◌≤◌, ◌≡◌, refl, sym, ◌∙◌, ap, ap₂, Option-cases, inl, inr, Option, none, some, List,
  [], ◌∷◌, map, length, get_elem?, slice, take, drop, take-all, blit-all, length-take, length-drop,
  get_elem?-map_at, Bool, true, false, if◌then◌else◌, leb, ◌&&◌, ◌==◌, arith,
}
use plcmaster.EtherCat.{
  Buffers, EthercatDevice, EthercatDriver, RtLocals, buffer, put_buffer, take_inputs,
  copy_iomap_to_in, zero_each, zero_outputs_of, zero_output_buffers, load_buffer_index, image_of,
  copy_to,
}
use plcmaster.EtherCat.Soem.{Soem}
use plcmaster.EtherCat.Rt.{
  rt_cycle, exchange, rt_send, rt_receive, watch_state, judge, latch, bad_cycle, next_bad,
}
use plcmaster.EtherCat.Ops.{cycle_begin, get_input_data}
use plcmaster.EtherCat.Indices.{IsSwapped, cycle_begin-IsSwapped, rt_cycle-IsSwapped}
use plcmaster.EtherCat.Layout.{IsMapped, buffer-IsSized}
use plcmaster.EtherCat.Ready.{IsReady, KeepsImage, rt_send-IsReady}
use plcmaster.EtherCat.Ready.Events.{exchange-IsReady, rt_cycle-IsReady, cycle_begin-IsReady}

-- The inputs of a device in one of its buffers.
abbrev pub in_bytes : EthercatDevice → ℕ → Option (List ℕ)
in_bytes dev idx = elim (buffer dev.in_buffers idx) [
  | none ↦ none
  | some b ↦ some (take dev.in_size b)
]

-- Two devices with the same inputs.
record SameInputs (dev dev' : EthercatDevice) : Type 0 where
  buffers : dev'.in_buffers ≡ dev.in_buffers
  size : dev'.in_size ≡ dev.in_size
  place : dev'.soem_inputs ≡ dev.soem_inputs

in_bytes-same :
    {dev dev' : EthercatDevice} (idx : ℕ)
    → SameInputs dev dev'
    → in_bytes dev' idx ≡ in_bytes dev idx
in_bytes-same idx h =
    ap₂
      (λ b n. elim (buffer b idx) as (λ t. Option (List ℕ)) [
        | none ↦ none
        | some x ↦ some (take n x)
      ])
      h.buffers h.size

buffer-put_other :
    (b : Buffers) (i j : ℕ) (o : Option (List ℕ))
    → i + j ≡ 1
    → buffer (put_buffer b j o) i ≡ buffer b i
buffer-put_other b i j o h = ground arith

buffer-put_same : (b : Buffers) (i : ℕ) (o : Option (List ℕ)) → buffer (put_buffer b i o) i ≡ o
buffer-put_same b i o = ground arith

-- The buffer that the thread does not write keeps its bytes.
take_inputs-other :
    (i next : ℕ) (image : List ℕ) (dev : EthercatDevice)
    → i + next ≡ 1
    → in_bytes (take_inputs next image dev) i ≡ in_bytes dev i
unfolding take_inputs
take_inputs-other i next image dev h = elim (Option-cases dev.soem_inputs) [
  | inl e ↦ ground arith
  | inr (at, e) ↦ elim (Option-cases (buffer dev.in_buffers next)) [
    | inl e' ↦ ground arith
    | inr (old, e') ↦ ground (
      arith,
      buffer-put_other dev.in_buffers i next
          (some (copy_to old 0 (slice image at dev.in_size) dev.in_size)) h,
    )
  ]
]

-- The one that it writes gets the device's part of the process image.
take_inputs-here :
    (next : ℕ) (image : List ℕ) (dev : EthercatDevice) (at : ℕ)
    → dev.soem_inputs ≡ some at
    → IsMapped dev (length image)
    → in_bytes (take_inputs next image dev) next ≡ some (slice image at dev.in_size)
unfolding take_inputs
take_inputs-here next image dev at e m =
    let b = buffer-IsSized next m.ins in
    let old : List ℕ = b.bytes in
    let here : buffer dev.in_buffers next ≡ some old = b.here in
    let size : length old ≡ dev.in_size = b.size in
    let inside : at + dev.in_size ≤ length image = m.inside_in at e in
    let got : length (slice image at dev.in_size) ≡ dev.in_size =
      omega (arith, length-take dev.in_size (drop at image), length-drop at image) in
    ground (
      arith,
      e,
      here,
      take-all dev.in_size (slice image at dev.in_size),
      blit-all old (slice image at dev.in_size),
      take-all dev.in_size old,
      buffer-put_same dev.in_buffers next
          (some (copy_to old 0 (slice image at dev.in_size) dev.in_size)),
      nothing old (slice image at dev.in_size),
    )
  where
    nothing : (xs ys : List ℕ) → length xs ≡ 0 → length ys ≡ 0 → xs ≡ ys
    nothing [] [] h h' = refl
    nothing [] (y ∷ ys) h h' = absurd (omega arith)
    nothing (x ∷ xs) ys h h' = absurd (omega arith)

module _ {Ctx : Type 0} (soem : Soem Ctx) where
  -- The process image after the exchange of a pass.
  abbrev pub received : EthercatDriver Ctx → List ℕ
  received d = image_of (exchange soem (rt_send d))

  abbrev next_in : EthercatDriver Ctx → ℕ
  next_in d = 1 - load_buffer_index d.active_in_buffer_idx 0

  zero_each-device :
      (devs : List EthercatDevice) (k : ℕ) (dev : EthercatDevice)
      → get_elem? devs k ≡ some dev
      → (x : EthercatDevice) × (get_elem? (zero_each devs) k ≡ some x) × SameInputs dev x
  unfolding zero_each zero_outputs_of
  zero_each-device devs k dev e = (
    zero_outputs_of dev,
    get_elem?-map_at zero_outputs_of devs k dev e,
    record { buffers = refl; size = refl; place = refl },
  )

  -- A device after one pass of the thread.
  rt_cycle-device :
      (now : ℕ) (l : RtLocals) (d : EthercatDriver Ctx) (k : ℕ) (dev : EthercatDevice)
      → get_elem? d.devices k ≡ some dev
      → (x : EthercatDevice) × (get_elem? (rt_cycle soem now l d).devices k ≡ some x)
        × SameInputs (take_inputs (next_in d) (received d) dev) x
  unfolding rt_cycle judge latch rt_receive watch_state exchange rt_send zero_output_buffers
      copy_iomap_to_in
  rt_cycle-device now l d k dev e = pick (
      leb l.wkc_fail_threshold (
        next_bad
          (bad_cycle l (watch_state soem (exchange soem (rt_send d))).last_wkc
            (watch_state soem (exchange soem (rt_send d))).ec_state d.settings.warmup_cycles)
          d.dowkccheck)
      && d.fault_latched == 0)
    where
      devs : List EthercatDevice
      devs = map (take_inputs (next_in d) (received d)) d.devices

      got : get_elem? devs k ≡ some (take_inputs (next_in d) (received d) dev)
      got = get_elem?-map_at (take_inputs (next_in d) (received d)) d.devices k dev e

      pick :
          (c : Bool)
          → (x : EthercatDevice) × (get_elem? (if c then zero_each devs else devs) k ≡ some x)
            × SameInputs (take_inputs (next_in d) (received d) dev) x
      pick true = zero_each-device devs k (take_inputs (next_in d) (received d) dev) got
      pick false = (
        take_inputs (next_in d) (received d) dev,
        got,
        record { buffers = refl; size = refl; place = refl },
      )

module _ {Ctx : Type 0} where
  shows :
      (d : EthercatDriver Ctx) (k : ℕ) (dev : EthercatDevice)
      → IsSwapped d
      → get_elem? d.devices k ≡ some dev
      → (get_input_data d k).1 ≡ in_bytes dev d.plc_in_buffer_idx
  unfolding get_input_data
  shows d k dev s e = let p = s.plc_in in ground (arith, e)

  latched_at :
      (d : EthercatDriver Ctx)
      → IsSwapped d
      → (cycle_begin d).plc_in_buffer_idx ≡ load_buffer_index (cycle_begin d).active_in_buffer_idx 0
  unfolding cycle_begin
  latched_at d s = let a = s.active_in in ground arith

module _ {Ctx : Type 0} (soem : Soem Ctx) where
  plc_in-rt_cycle :
      (now : ℕ) (l : RtLocals) (d : EthercatDriver Ctx)
      → (rt_cycle soem now l d).plc_in_buffer_idx ≡ d.plc_in_buffer_idx
  unfolding rt_cycle judge latch rt_receive watch_state exchange rt_send
  plc_in-rt_cycle now l d = refl

  active_in-rt_cycle :
      (now : ℕ) (l : RtLocals) (d : EthercatDriver Ctx)
      → (rt_cycle soem now l d).active_in_buffer_idx ≡ next_in soem d
  unfolding rt_cycle judge latch rt_receive watch_state exchange rt_send
  active_in-rt_cycle now l d = refl

  shows-rt_cycle :
      (now : ℕ) (l : RtLocals) (d : EthercatDriver Ctx) (k : ℕ) (dev : EthercatDevice)
      → IsSwapped d
      → get_elem? d.devices k ≡ some dev
      → (get_input_data (rt_cycle soem now l d) k).1
        ≡ in_bytes (take_inputs (next_in soem d) (received soem d) dev) d.plc_in_buffer_idx
  shows-rt_cycle now l d k dev s e =
      let (x, there, same) = rt_cycle-device soem now l d k dev e in
      shows (rt_cycle soem now l d) k x (rt_cycle-IsSwapped soem now l d s) there
      ∙ ap (in_bytes x) (plc_in-rt_cycle now l d)
      ∙ in_bytes-same d.plc_in_buffer_idx same

  -- The inputs that `cycle_begin` latched stay as they are while the real-time thread makes one pass.
  pub get_input_data-one_pass :
      (now : ℕ) (l : RtLocals) (d : EthercatDriver Ctx) (k : ℕ) (dev : EthercatDevice)
      → IsSwapped d
      → get_elem? (cycle_begin d).devices k ≡ some dev
      → (get_input_data (rt_cycle soem now l (cycle_begin d)) k).1
        ≡ (get_input_data (cycle_begin d) k).1
  get_input_data-one_pass now l d k dev s e =
      let b = cycle_begin d in
      let s' = cycle_begin-IsSwapped d s in
      let p = s'.plc_in in
      let latched = latched_at d s in
      shows-rt_cycle now l b k dev s' e
      ∙ take_inputs-other b.plc_in_buffer_idx (next_in soem b) (received soem b) dev (omega arith)
      ∙ sym (shows b k dev s' e)

  -- They do not stay while it makes two: the PLC then sees, in the middle of its cycle, what the second
  -- exchange received.
  pub get_input_data-two_passes :
      {room : ℕ} (now₁ now₂ : ℕ) (l₁ l₂ : RtLocals) (d : EthercatDriver Ctx) (k : ℕ)
      (dev : EthercatDevice) (at : ℕ)
      → KeepsImage soem
      → IsReady room d
      → IsSwapped d
      → get_elem? (cycle_begin d).devices k ≡ some dev
      → dev.soem_inputs ≡ some at
      → (get_input_data (rt_cycle soem now₂ l₂ (rt_cycle soem now₁ l₁ (cycle_begin d))) k).1
        ≡ some (slice (received soem (rt_cycle soem now₁ l₁ (cycle_begin d))) at dev.in_size)
  unfolding take_inputs
  get_input_data-two_passes {room} now₁ now₂ l₁ l₂ d k dev at ok h s e o =
      let b = cycle_begin d in
      let s' = cycle_begin-IsSwapped d s in
      let p = s'.plc_in in
      let latched = latched_at d s in
      let m = rt_cycle soem now₁ l₁ b in
      let (x, there, same) = rt_cycle-device soem now₁ l₁ b k dev e in
      let s₁ = rt_cycle-IsSwapped soem now₁ l₁ b s' in
      let h₁ : IsReady room m = rt_cycle-IsReady soem ok now₁ l₁ b (cycle_begin-IsReady d h) in
      let h₂ : IsReady room (exchange soem (rt_send m)) =
        exchange-IsReady soem ok (rt_send m) (rt_send-IsReady m h₁) in
      let plc : m.plc_in_buffer_idx ≡ b.plc_in_buffer_idx = plc_in-rt_cycle now₁ l₁ b in
      let act_in : m.active_in_buffer_idx ≡ next_in soem b = active_in-rt_cycle now₁ l₁ b in
      let again : m.plc_in_buffer_idx ≡ next_in soem m = ground arith in
      let len : length (received soem m) ≡ room =
        ap (λ t. length (elim t as (λ q. List ℕ) [ none ↦ [] | some i ↦ i ])) h₂.held ∙ h₂.size in
      shows-rt_cycle now₂ l₂ m k x s₁ there
      ∙ ap (in_bytes (take_inputs (next_in soem m) (received soem m) x)) again
      ∙ take_inputs-here (next_in soem m) (received soem m) x at (same.place ∙ o)
          (subst (IsMapped x) (sym len) (h₁.laid.each k x there))
      ∙ ap (λ n. some (slice (received soem m) at n)) same.size
