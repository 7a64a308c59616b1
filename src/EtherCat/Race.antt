-- ===== src/EtherCat/Race.antt =====
-- A cycle of the PLC between the load of the buffer index by the real-time thread and its copy.
use plcmaster.Prelude.{ℕ, ◌≡◌, ◌∙◌, ap, List, length, ◌==◌, true, if◌then◌else◌, arith}
use plcmaster.EtherCat.{EthercatDevice, EthercatDriver, load_buffer_index, image_of}
use plcmaster.EtherCat.Rt.{rt_send, send_from}
use plcmaster.EtherCat.Ops.{cycle_begin, cycle_end, store_output}
use plcmaster.EtherCat.Indices.{
  IsSwapped, cycle_begin-IsSwapped, cycle_end-IsSwapped, store_output-IsSwapped,
}
use plcmaster.EtherCat.Ready.Events.{cycle_end-IsReady}
use plcmaster.EtherCat.PlcCycle.{rt_send-plc_cycle}
use plcmaster.EtherCat.Ready.{IsReady}
use plcmaster.EtherCat.Outputs.{outputs_at}
use plcmaster.EtherCat.Publish.{IsDevice}

module _ {Ctx : Type 0} where
  -- The PLC's part between the load and the copy: the end of a cycle, the begin of the next one, and
  -- stores to a device in that.
  abbrev pub next_stores : EthercatDriver Ctx → ℕ → List ℕ → EthercatDriver Ctx
  next_stores d k bytes = store_output (cycle_begin (cycle_end d)) k bytes

  -- The buffer that the PLC writes in its next cycle is the one that the thread has loaded.
  active_is_loaded :
      (d : EthercatDriver Ctx)
      → IsSwapped d
      → (cycle_begin (cycle_end d)).active_out_buffer_idx ≡ load_buffer_index d.rt_out_buffer_idx 0
  unfolding cycle_begin cycle_end
  active_is_loaded d s = let swapped = s.swapped in ground arith

  -- A copy from the buffer that the PLC stages is what the next exchange after `cycle_end` sends.
  send_staged :
      (d : EthercatDriver Ctx) (idx : ℕ)
      → IsSwapped d
      → d.active_out_buffer_idx ≡ idx
      → image_of (send_from idx d) ≡ image_of (rt_send (cycle_end d))
  unfolding rt_send cycle_end
  send_staged d idx s e =
      let swapped = s.swapped in
      let same : idx ≡ load_buffer_index (load_buffer_index d.active_out_buffer_idx 1) 0 =
        ground arith in
      ap (λ i. image_of (send_from i d)) same

  -- An output that no `cycle_end` has published can be sent. When the real-time thread has loaded the index
  -- of the buffer to send, and before its copy the PLC thread ends its cycle, begins the next one and
  -- stores all output bytes of a mapped device, the copy sends the bytes that were just stored, while no
  -- fault is latched.
  pub send_from-next_stores :
      {room : ℕ} (d : EthercatDriver Ctx) (k : ℕ) (dev : EthercatDevice) (at : ℕ) (new : List ℕ)
      → IsReady room d
      → IsSwapped d
      → d.fault_latched ≡ 0
      → IsDevice d k dev at
      → length new ≡ dev.out_size
      → outputs_at dev at
          (image_of (send_from (load_buffer_index d.rt_out_buffer_idx 0) (next_stores d k new)))
        ≡ new
  unfolding cycle_end store_output
  send_from-next_stores {room} d k dev at new h s fault is len =
      let ended = cycle_end d in
      let stored_active : (next_stores d k new).active_out_buffer_idx
          ≡ (cycle_begin ended).active_out_buffer_idx =
        ground arith in
      let self : (k == k) ≡ true = ground arith in
      ap (outputs_at dev at) (
        send_staged (next_stores d k new) (load_buffer_index d.rt_out_buffer_idx 0)
          (store_output-IsSwapped (cycle_begin ended) k new
            (cycle_begin-IsSwapped ended (cycle_end-IsSwapped d s)))
          (stored_active ∙ active_is_loaded d s))
      ∙ rt_send-plc_cycle ended k dev new (cycle_end-IsReady d h) (cycle_end-IsSwapped d s) fault
          is.bound len k dev at (record { bound = is.bound; outputs = is.outputs })
      ∙ ap (λ c. if c then new else outputs_at dev at (image_of (rt_send ended))) self
