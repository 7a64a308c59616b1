-- ===== src/EtherCat/Publish.antt =====
-- From the PLC's staging buffers to the bus.
use mathlib.Core.Path.{subst}
use plcmaster.Prelude.{
  ℕ, ◌≡◌, sym, ◌∙◌, ap, Option, none, some, List, [], length, get_elem?, take-all, false, ◌==◌, not,
  arith,
}
use plcmaster.EtherCat.{
  EthercatDevice, EthercatDriver, buffer, copy_out_to_iomap, load_buffer_index, image_of,
}
use plcmaster.EtherCat.Rt.{rt_send}
use plcmaster.EtherCat.Ops.{cycle_end, get_output_data}
use plcmaster.EtherCat.Indices.{IsSwapped}
use plcmaster.EtherCat.Layout.{IsLaid, buffer-IsSized}
use plcmaster.EtherCat.Ready.{IsReady}
use plcmaster.EtherCat.Outputs.{outputs_at, out_bytes, sent, copy_out_to_iomap_lem}

module _ {Ctx : Type 0} where
  -- A device of a driver, with the place of its outputs in the process image.
  pub record IsDevice (d : EthercatDriver Ctx) (k : ℕ) (dev : EthercatDevice) (at : ℕ)
      : Type 0 where
    pub bound : get_elem? d.devices k ≡ some dev
    pub outputs : dev.soem_outputs ≡ some at

  -- What the next exchange sends of a device, if `rt_idx` is the buffer that it takes.
  pub rt_send_lem :
      (room : ℕ) (d : EthercatDriver Ctx) (k : ℕ) (dev : EthercatDevice) (at : ℕ)
      → IsReady room d
      → IsDevice d k dev at
      → outputs_at dev at (image_of (rt_send d))
        ≡ sent dev (load_buffer_index d.rt_out_buffer_idx 0) (not (d.fault_latched == 0))
  unfolding rt_send
  rt_send_lem room d k dev at h is =
      let f =
        copy_out_to_iomap d.devices (load_buffer_index d.rt_out_buffer_idx 0)
          (not (d.fault_latched == 0)) in
      ap
        (λ o.
          outputs_at dev at
            (elim (elim o as (λ t. Option (List ℕ)) [ none ↦ none | some i ↦ some (f i) ])
              as (λ t. List ℕ) [ none ↦ [] | some i ↦ i ]))
        h.held
      ∙ copy_out_to_iomap_lem d.devices _ _ h.image k dev at
          (subst (IsLaid d.devices) (sym h.size) h.laid) is.bound is.outputs

  pub staged :
      (room : ℕ) (d : EthercatDriver Ctx) (k : ℕ) (dev : EthercatDevice)
      → IsReady room d
      → IsSwapped d
      → get_elem? d.devices k ≡ some dev
      → (get_output_data d k).1 ≡ some (out_bytes dev d.active_out_buffer_idx)
  unfolding get_output_data
  staged room d k dev h s e =
      let m = buffer-IsSized d.active_out_buffer_idx (h.laid.each k dev e).outs in
      let b : List ℕ = m.bytes in
      let here : buffer dev.out_buffers d.active_out_buffer_idx ≡ some b = m.here in
      let size : length b ≡ dev.out_size = m.size in
      let swapped = s.swapped in ground (arith, e, here, take-all dev.out_size b)

  -- What goes out of a device after `cycle_end`.
  pub sent_next :
      {room : ℕ} (d : EthercatDriver Ctx) (k : ℕ) (dev : EthercatDevice) (at : ℕ)
      → IsReady room d
      → IsSwapped d
      → d.fault_latched ≡ 0
      → IsDevice d k dev at
      → outputs_at dev at (image_of (rt_send (cycle_end d))) ≡ out_bytes dev d.active_out_buffer_idx
  unfolding cycle_end
  sent_next {room} d k dev at h s fault is =
      let swapped = s.swapped in
      let idx : load_buffer_index (load_buffer_index d.active_out_buffer_idx 1) 0
          ≡ d.active_out_buffer_idx =
        ground arith in
      let zeros : not (d.fault_latched == 0) ≡ false = ground arith in
      rt_send_lem room (cycle_end d) k dev at
        (record { image = h.image; held = h.held; size = h.size; laid = h.laid })
        (record { bound = is.bound; outputs = is.outputs })
      ∙ ap (λ i. sent dev i (not (d.fault_latched == 0))) idx
      ∙ ap (sent dev d.active_out_buffer_idx) zeros

  -- What the PLC has staged at the end of its cycle, which `get_output_data` shows, is what the next
  -- exchange sends of each mapped device, while no fault is latched.
  pub rt_send-cycle_end :
      (room : ℕ) (d : EthercatDriver Ctx) (k : ℕ) (dev : EthercatDevice) (at : ℕ)
      → IsReady room d
      → IsSwapped d
      → d.fault_latched ≡ 0
      → IsDevice d k dev at
      → some (outputs_at dev at (image_of (rt_send (cycle_end d)))) ≡ (get_output_data d k).1
  rt_send-cycle_end room d k dev at h s fault is =
      ap some (sent_next d k dev at h s fault is) ∙ sym (staged room d k dev h s is.bound)
