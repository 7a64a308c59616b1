-- ===== src/EtherCat/Ready.antt =====
-- A mapped EtherCAT driver stays mapped while it runs.
pub mod Events
use mathlib.Core.Path.{subst}
use plcmaster.Prelude.{
  ℕ, ◌≡◌, refl, sym, ◌∙◌, ap, inl, inr, none, some, Option-cases, List, [], ◌∷◌, length, get_elem?,
  set, take, replicate, blit, length-blit, Bool, true, false, if◌then◌else◌, not, ◌==◌, ◌&&◌, leb,
  arith,
}
use plcmaster.EtherCat.{
  EthercatDevice, EthercatDriver, RtLocals, put_outputs, copy_out_to_iomap, zero_image,
  zero_output_buffers, load_buffer_index, buffer, image_of, on_image,
}
use plcmaster.EtherCat.Soem.{Soem}
use plcmaster.EtherCat.Rt.{
  rt_step, rt_cycle, rt_enter, rt_exit, send_zeros, exchange, rt_send, rt_receive, watch_state,
  judge, latch, next_bad, bad_cycle,
}
use plcmaster.EtherCat.Ops.{
  cycle_begin, cycle_end, get_input_data, get_output_data, store_output, store_in,
}
use plcmaster.EtherCat.Run.{
  EcEvent, rt, begin, finish, read_input, read_output, store, act, run, rt_step_cases,
}
use plcmaster.EtherCat.Layout.{IsLaid, set-IsLaid}
use plcmaster.EtherCat.Layout.Keeps.{
  copy_iomap_to_in-IsLaid, copy_out_buffers-IsLaid, zero_each-IsLaid, store_in-IsMapped,
}

-- The process image has `room` bytes, and the devices are mapped into it.
pub record IsReady {Ctx : Type 0} (room : ℕ) (d : EthercatDriver Ctx) : Type 0 where
  pub image : List ℕ
  pub held : d.iomap ≡ some image
  pub size : length image ≡ room
  pub laid : IsLaid d.devices room

-- What the library does with the image: it writes within it.
pub record KeepsImage {Ctx : Type 0} (soem : Soem Ctx) : Type 0 where
  pub same :
      (ctx : Ctx) (image : List ℕ) → length (soem.receive_processdata ctx image).1.0 ≡ length image

pub length-put_outputs :
    (dev : EthercatDevice) (idx : ℕ) (zeros : Bool) (image : List ℕ)
    → length (put_outputs dev idx zeros image) ≡ length image
unfolding put_outputs
length-put_outputs dev idx zeros image = elim (Option-cases dev.soem_outputs) [
  | inl e ↦ ground arith
  | inr (at, e) ↦ elim (Option-cases (buffer dev.out_buffers idx)) [
    | inl e' ↦ ground (arith, length-blit image at (replicate dev.out_size 0))
    | inr (b, e') ↦ ground (
      arith,
      length-blit image at (replicate dev.out_size 0),
      length-blit image at (take dev.out_size b),
    )
  ]
]

pub length-copy_out_to_iomap :
    (devs : List EthercatDevice) (idx : ℕ) (zeros : Bool) (image : List ℕ)
    → length (copy_out_to_iomap devs idx zeros image) ≡ length image
unfolding copy_out_to_iomap
length-copy_out_to_iomap [] idx zeros image = refl
length-copy_out_to_iomap (dev ∷ devs) idx zeros image =
    length-copy_out_to_iomap devs idx zeros (put_outputs dev idx zeros image)
    ∙ length-put_outputs dev idx zeros image

length-zero_image :
    (devs : List EthercatDevice) (image : List ℕ) → length (zero_image devs image) ≡ length image
unfolding zero_image
length-zero_image [] image = refl
length-zero_image (dev ∷ devs) image = elim (Option-cases dev.soem_outputs) [
  | inl e ↦ ground (arith, length-zero_image devs image)
  | inr (at, e) ↦ ground (
    arith,
    length-zero_image devs image,
    length-zero_image devs (blit image at (replicate dev.out_size 0)),
    length-blit image at (replicate dev.out_size 0),
  )
]

-- A driver with a changed image and changed devices.
pub IsReady-change :
    {Ctx : Type 0} {room : ℕ} {d d' : EthercatDriver Ctx} (h : IsReady room d) (f : List ℕ → List ℕ)
    → d'.iomap ≡ some (f h.image)
    → length (f h.image) ≡ length h.image
    → IsLaid d'.devices room
    → IsReady room d'
IsReady-change h f e len laid = record {
  image = f h.image;
  held = e;
  size = len ∙ h.size;
  laid = laid;
}

module _ {Ctx : Type 0} {room : ℕ} where
  pub rt_send-IsReady : (d : EthercatDriver Ctx) → IsReady room d → IsReady room (rt_send d)
  unfolding rt_send
  rt_send-IsReady d h =
      let f =
        copy_out_to_iomap d.devices (load_buffer_index d.rt_out_buffer_idx 0)
          (not (d.fault_latched == 0)) in
      IsReady-change h f (ap (λ o. elim o [ none ↦ none | some image ↦ some (f image) ]) h.held)
        (length-copy_out_to_iomap d.devices _ _ h.image) h.laid

  pub zero_output_buffers-IsReady :
      (d : EthercatDriver Ctx) → IsReady room d → IsReady room (zero_output_buffers d)
  unfolding zero_output_buffers
  zero_output_buffers-IsReady d h =
      IsReady-change h (zero_image d.devices)
        (ap (λ o. elim o [ none ↦ none | some image ↦ some (zero_image d.devices image) ]) h.held)
        (length-zero_image d.devices h.image) (zero_each-IsLaid d.devices room h.laid)

  pub rt_receive-IsReady : (d : EthercatDriver Ctx) → IsReady room d → IsReady room (rt_receive d)
  unfolding rt_receive
  rt_receive-IsReady d h = record {
    image = h.image;
    held = h.held;
    size = h.size;
    laid = copy_iomap_to_in-IsLaid _ _ d.devices room h.laid;
  }

  latch-IsReady :
      (fail count : ℕ) (d : EthercatDriver Ctx) → IsReady room d → IsReady room (latch fail count d)
  unfolding latch
  latch-IsReady fail count d h = pick (leb fail count && d.fault_latched == 0)
    where
      fault : ℕ
      fault = if leb fail count then 1 else d.fault_latched

      pick :
          (c : Bool)
          → IsReady room (record d {
            fault_latched = fault;
            devices = if c then (zero_output_buffers d).devices else d.devices;
            iomap = if c then (zero_output_buffers d).iomap else d.iomap;
          })
      pick true =
          let z = zero_output_buffers-IsReady d h in
          record { image = z.image; held = z.held; size = z.size; laid = z.laid }
      pick false = record { image = h.image; held = h.held; size = h.size; laid = h.laid }

  pub judge-IsReady :
      (l : RtLocals) (d : EthercatDriver Ctx) → IsReady room d → IsReady room (judge l d)
  unfolding judge
  judge-IsReady l d h =
      let count =
        next_bad (bad_cycle l d.last_wkc d.ec_state d.settings.warmup_cycles) d.dowkccheck in
      let h' : IsReady room (record d { dowkccheck = count }) = record {
        image = h.image;
        held = h.held;
        size = h.size;
        laid = h.laid;
      } in
      let r = latch-IsReady l.wkc_fail_threshold count (record d { dowkccheck = count }) h' in
      record { image = r.image; held = r.held; size = r.size; laid = r.laid }
