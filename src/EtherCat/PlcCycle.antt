-- ===== src/EtherCat/PlcCycle.antt =====
-- One cycle of the PLC thread on the EtherCAT driver: its begin, a store, its end.
use mathlib.Core.Path.{subst}
use plcmaster.Prelude.{
  some_inj, ℕ, ◌≡◌, ◌≢◌, refl, sym, ◌∙◌, ap, ap₂, Bool-cases, inl, inr, Option, none, some, List,
  [], ◌∷◌, length, get_elem?, set, blit, take-all, blit-all, get_elem?-set_self, get_elem?-set_ne,
  get_elem?-lt, get_elem?-map_at, Bool, true, false, if◌then◌else◌, ◌==◌, not, arith, map,
}
use plcmaster.EtherCat.{
  Buffers, EthercatDevice, EthercatDriver, buffer, put_buffer, copy_out_buffers, keep_outputs,
  load_buffer_index, image_of,
}
use plcmaster.EtherCat.Rt.{rt_send}
use plcmaster.EtherCat.Ops.{cycle_begin, cycle_end, store_output, store_in}
use plcmaster.EtherCat.Indices.{IsSwapped, cycle_begin-IsSwapped, store_output-IsSwapped}
use plcmaster.EtherCat.Layout.{AreSized, buffer-IsSized}
use plcmaster.EtherCat.Ready.{IsReady}
use plcmaster.EtherCat.Ready.Events.{cycle_begin-IsReady, store_output-IsReady, store_output_at}
use plcmaster.EtherCat.Outputs.{outputs_at, out_bytes, sent}
use plcmaster.EtherCat.Publish.{IsDevice, rt_send_lem, sent_next}

buffer-put_buffer :
    (b : Buffers) (idx : ℕ) (o : Option (List ℕ)) → buffer (put_buffer b idx o) idx ≡ o
buffer-put_buffer b idx o = pick (idx == 0)
  where
    pick :
        (c : Bool)
        → (if c
            then (if c then record b { first = o } else record b { second = o }).first
            else (if c then record b { first = o } else record b { second = o }).second)
          ≡ o
    pick true = refl
    pick false = refl

abbrev bytes_of : Option (List ℕ) → List ℕ
bytes_of o = elim o [ none ↦ [] | some b ↦ b ]

nothing : (xs ys : List ℕ) → length xs ≡ 0 → length ys ≡ 0 → xs ≡ ys
nothing [] [] h h' = refl
nothing [] (y ∷ ys) h h' = absurd (omega arith)
nothing (x ∷ xs) ys h h' = absurd (omega arith)

pub store_in-out_bytes :
    (dev : EthercatDevice) (idx : ℕ) (new : List ℕ)
    → AreSized dev.out_buffers dev.out_size
    → length new ≡ dev.out_size
    → out_bytes (store_in dev idx new) idx ≡ new
store_in-out_bytes dev idx new sized len =
    let m = buffer-IsSized idx sized in
    ap
      (λ o. bytes_of (
        buffer
          (elim o as (λ t. Buffers) [
            | none ↦ dev.out_buffers
            | some b ↦ put_buffer dev.out_buffers idx (some (blit b 0 new))
          ])
          idx))
      m.here
    ∙ ap bytes_of (buffer-put_buffer dev.out_buffers idx (some (blit m.bytes 0 new)))
    ∙ blit-all m.bytes new (len ∙ sym m.size)

keep_outputs-out_bytes :
    (dev : EthercatDevice) (src dst : ℕ)
    → AreSized dev.out_buffers dev.out_size
    → out_bytes (keep_outputs src dst dev) dst ≡ out_bytes dev src
unfolding keep_outputs
keep_outputs-out_bytes dev src dst sized =
    let m = buffer-IsSized dst sized in
    let f = buffer-IsSized src sized in
    let b : List ℕ = f.bytes in
    let old : List ℕ = m.bytes in
    let from : buffer dev.out_buffers src ≡ some b = f.here in
    let to : buffer dev.out_buffers dst ≡ some old = m.here in
    let size : length b ≡ dev.out_size = f.size in
    let size' : length old ≡ dev.out_size = m.size in
    let put = buffer-put_buffer dev.out_buffers dst (some (blit old 0 b)) in
    ground (arith, from, to, put, take-all dev.out_size b, blit-all old b, nothing old b)

module _ {Ctx : Type 0} where
  -- The devices after `cycle_begin`.
  begun :
      (d : EthercatDriver Ctx) (k : ℕ) (dev : EthercatDevice)
      → IsSwapped d
      → get_elem? d.devices k ≡ some dev
      → get_elem? (cycle_begin d).devices k
        ≡ some (keep_outputs d.rt_out_buffer_idx d.active_out_buffer_idx dev)
  unfolding cycle_begin copy_out_buffers
  begun d k dev s e =
      let r : load_buffer_index d.rt_out_buffer_idx 0 ≡ d.rt_out_buffer_idx =
        let swapped = s.swapped in ground arith in
      let a : load_buffer_index d.active_out_buffer_idx 1 ≡ d.active_out_buffer_idx =
        let swapped = s.swapped in ground arith in
      let apart : (d.rt_out_buffer_idx == d.active_out_buffer_idx) ≡ false =
        let swapped = s.swapped in ground arith in
      ap₂ (λ i o. get_elem? (if i == o then d.devices else map (keep_outputs i o) d.devices) k) r a
      ∙ ap
          (λ c.
            get_elem?
              (if c
                then d.devices
                else map (keep_outputs d.rt_out_buffer_idx d.active_out_buffer_idx) d.devices)
              k)
          apart
      ∙ get_elem?-map_at (keep_outputs d.rt_out_buffer_idx d.active_out_buffer_idx) d.devices k dev
          e

  -- What goes out of a device that was not written.
  kept_out :
      {room : ℕ} (d : EthercatDriver Ctx) (k : ℕ) (dev : EthercatDevice) (at : ℕ)
      → IsReady room d
      → IsSwapped d
      → d.fault_latched ≡ 0
      → IsDevice d k dev at
      → out_bytes
          (keep_outputs d.rt_out_buffer_idx d.active_out_buffer_idx dev)
          (cycle_begin d).active_out_buffer_idx
        ≡ outputs_at dev at (image_of (rt_send d))
  unfolding cycle_begin
  kept_out {room} d k dev at h s fault is =
      let swapped = s.swapped in
      let a : load_buffer_index d.active_out_buffer_idx 1 ≡ d.active_out_buffer_idx =
        ground arith in
      let r : load_buffer_index d.rt_out_buffer_idx 0 ≡ d.rt_out_buffer_idx = ground arith in
      let zeros : not (d.fault_latched == 0) ≡ false = ground arith in
      ap (out_bytes (keep_outputs d.rt_out_buffer_idx d.active_out_buffer_idx dev)) a
      ∙ keep_outputs-out_bytes dev d.rt_out_buffer_idx d.active_out_buffer_idx
          (h.laid.each k dev is.bound).outs
      ∙ sym (rt_send_lem room d k dev at h is ∙ ap₂ (sent dev) r zeros)

  fault-plc :
      (d : EthercatDriver Ctx) (j : ℕ) (new : List ℕ)
      → (store_output (cycle_begin d) j new).fault_latched ≡ d.fault_latched
  unfolding cycle_begin store_output
  fault-plc d j new = ground arith

  active-plc :
      (d : EthercatDriver Ctx) (j : ℕ) (new : List ℕ)
      → (store_output (cycle_begin d) j new).active_out_buffer_idx
        ≡ (cycle_begin d).active_out_buffer_idx
  unfolding cycle_begin store_output
  active-plc d j new = ground arith

  -- The driver in the PLC's cycle after the store of `new` for device `j`.
  module _ {room : ℕ} (d : EthercatDriver Ctx) (j : ℕ) (other : EthercatDevice) (new : List ℕ)
      (h : IsReady room d) (s : IsSwapped d) (fault : d.fault_latched ≡ 0)
      (there : get_elem? d.devices j ≡ some other) (len : length new ≡ other.out_size) where
    abbrev begin_plc : EthercatDriver Ctx
    begin_plc = cycle_begin d

    abbrev stored_plc : EthercatDriver Ctx
    stored_plc = store_output (cycle_begin d) j new

    abbrev kept_of : EthercatDevice → EthercatDevice
    kept_of dev = keep_outputs d.rt_out_buffer_idx d.active_out_buffer_idx dev

    abbrev slot : ℕ
    slot = load_buffer_index (cycle_begin d).active_out_buffer_idx 1

    abbrev written : EthercatDevice
    written = store_in (kept_of other) slot new

    devices_plc : stored_plc.devices ≡ set (cycle_begin d).devices j written
    devices_plc =
        ap (λ t. t.devices)
          (store_output_at (cycle_begin d) j new (kept_of other) (begun d j other s there))

    IsReady-plc : IsReady room stored_plc
    IsReady-plc = store_output-IsReady (cycle_begin d) j new (cycle_begin-IsReady d h)

    IsSwapped-plc : IsSwapped stored_plc
    IsSwapped-plc = store_output-IsSwapped (cycle_begin d) j new (cycle_begin-IsSwapped d s)

    slot_plc : stored_plc.active_out_buffer_idx ≡ slot
    slot_plc =
        let swapped = (cycle_begin-IsSwapped d s).swapped in
        let same = active-plc d j new in ground arith

    at_written : get_elem? stored_plc.devices j ≡ some written
    at_written =
        ap (λ t. get_elem? t j) devices_plc
        ∙ get_elem?-set_self (cycle_begin d).devices j written
            (get_elem?-lt (cycle_begin d).devices j (kept_of other) (begun d j other s there))

    out_written : out_bytes written stored_plc.active_out_buffer_idx ≡ new
    unfolding keep_outputs
    out_written =
        ap (out_bytes written) slot_plc
        ∙ store_in-out_bytes (kept_of other) slot new
            ((cycle_begin-IsReady d h).laid.each j (kept_of other) (begun d j other s there)).outs
            len

    next_written :
        (at : ℕ)
        → other.soem_outputs ≡ some at
        → outputs_at other at (image_of (rt_send (cycle_end stored_plc))) ≡ new
    unfolding keep_outputs
    next_written at o =
        sent_next stored_plc j written at IsReady-plc IsSwapped-plc (fault-plc d j new ∙ fault)
          (record { bound = at_written; outputs = o })
        ∙ out_written

    next_other :
        (k : ℕ) (dev : EthercatDevice) (at : ℕ)
        → j ≢ k
        → IsDevice d k dev at
        → outputs_at dev at (image_of (rt_send (cycle_end stored_plc)))
          ≡ outputs_at dev at (image_of (rt_send d))
    unfolding keep_outputs
    next_other k dev at ne is =
        sent_next stored_plc k (kept_of dev) at IsReady-plc IsSwapped-plc
          (fault-plc d j new ∙ fault)
          (record {
            bound =
                ap (λ t. get_elem? t k) devices_plc
                ∙ get_elem?-set_ne (cycle_begin d).devices j k written ne
                ∙ begun d k dev s is.bound;
            outputs = is.outputs;
          })
        ∙ ap (out_bytes (kept_of dev)) (active-plc d j new)
        ∙ kept_out d k dev at h s fault is

    -- The outputs that the PLC does not write in a cycle stay as they were on the bus, and what it writes
    -- to a device replaces that device's outputs: after `cycle_begin`, a store of all the output bytes of
    -- device `j`, and `cycle_end`, the next exchange sends the new bytes for `j`, and for every other device
    -- what an exchange before would have sent, while no fault is latched.
    pub rt_send-plc_cycle :
        (k : ℕ) (dev : EthercatDevice) (at : ℕ)
        → IsDevice d k dev at
        → outputs_at dev at (image_of (rt_send (cycle_end (store_output (cycle_begin d) j new))))
          ≡ (if j == k then new else outputs_at dev at (image_of (rt_send d)))
    rt_send-plc_cycle k dev at is = elim (Bool-cases (j == k)) [
      | inl e ↦
          let i : j ≡ k = ground arith in
          let same : other ≡ dev = some_inj (sym there ∙ ap (get_elem? d.devices) i ∙ is.bound) in
          subst (λ y. outputs_at y at (image_of (rt_send (cycle_end stored_plc))) ≡ new) same
            (next_written at (ap (λ y. y.soem_outputs) same ∙ is.outputs))
          ∙ ap (λ c. if c then new else outputs_at dev at (image_of (rt_send d))) (sym e)
      | inr e ↦
          next_other k dev at (λ i. ground arith) is
          ∙ ap (λ c. if c then new else outputs_at dev at (image_of (rt_send d))) (sym e)
    ]
