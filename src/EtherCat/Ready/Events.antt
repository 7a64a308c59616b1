-- ===== src/EtherCat/Ready/Events.antt =====
-- A mapped EtherCAT driver over the events of its two threads.
use mathlib.Core.Path.{subst}
use plcmaster.Prelude.{
  ℕ, ◌≡◌, refl, sym, ◌∙◌, ap, inl, inr, none, some, Option-cases, List, [], ◌∷◌, length, get_elem?,
  set, true, arith,
}
use plcmaster.EtherCat.{
  EthercatDevice, EthercatDriver, RtLocals, copy_out_to_iomap, zero_output_buffers,
  load_buffer_index, image_of, on_image,
}
use plcmaster.EtherCat.Soem.{Soem}
use plcmaster.EtherCat.Rt.{
  rt_step, rt_cycle, rt_enter, rt_exit, send_zeros, exchange, rt_send, watch_state,
}
use plcmaster.EtherCat.Ops.{
  cycle_begin, cycle_end, get_input_data, get_output_data, store_output, store_in,
}
use plcmaster.EtherCat.Run.{
  EcEvent, rt, begin, finish, read_input, read_output, store, act, run, rt_step_cases,
}
use plcmaster.EtherCat.Layout.{IsLaid, set-IsLaid}
use plcmaster.EtherCat.Layout.Keeps.{copy_out_buffers-IsLaid, store_in-IsMapped}
use plcmaster.EtherCat.Ready.{
  IsReady, KeepsImage, IsReady-change, length-copy_out_to_iomap, rt_send-IsReady,
  zero_output_buffers-IsReady, rt_receive-IsReady, judge-IsReady,
}

module _ {Ctx : Type 0} {room : ℕ} (soem : Soem Ctx) (ok : KeepsImage soem) where
  pub exchange-IsReady : (d : EthercatDriver Ctx) → IsReady room d → IsReady room (exchange soem d)
  unfolding exchange
  exchange-IsReady d h =
      let sent = soem.send_processdata d.ctx (image_of d) in
      let got = (soem.receive_processdata sent (image_of d)).1.0 in
      IsReady-change h (λ old. got)
        (ap (λ o. elim o [ none ↦ none | some image ↦ some got ]) h.held)
        (ok.same sent (image_of d) ∙ ap length (ap (λ o. elim o [ none ↦ [] | some i ↦ i ]) h.held))
        h.laid

  pub rt_cycle-IsReady :
      (now : ℕ) (l : RtLocals) (d : EthercatDriver Ctx)
      → IsReady room d
      → IsReady room (rt_cycle soem now l d)
  unfolding rt_cycle watch_state
  rt_cycle-IsReady now l d h =
      let a = exchange-IsReady (rt_send d) (rt_send-IsReady d h) in
      let w : IsReady room (watch_state soem (exchange soem (rt_send d))) = record {
        image = a.image;
        held = a.held;
        size = a.size;
        laid = a.laid;
      } in
      let r = judge-IsReady l _ (rt_receive-IsReady _ w) in
      record { image = r.image; held = r.held; size = r.size; laid = r.laid }

  pub send_zeros-IsReady :
      (d : EthercatDriver Ctx) → IsReady room d → IsReady room (send_zeros soem d)
  unfolding send_zeros
  send_zeros-IsReady d h =
      let z = zero_output_buffers-IsReady d h in
      let f = copy_out_to_iomap (zero_output_buffers d).devices 0 true in
      exchange-IsReady (on_image f (zero_output_buffers d)) (
        IsReady-change z f (ap (λ o. elim o [ none ↦ none | some image ↦ some (f image) ]) z.held)
          (length-copy_out_to_iomap (zero_output_buffers d).devices 0 true z.image) z.laid)

  rt_exit-IsReady : (d : EthercatDriver Ctx) → IsReady room d → IsReady room (rt_exit soem d)
  unfolding rt_exit
  rt_exit-IsReady d h =
      let z = send_zeros-IsReady d h in
      record { image = z.image; held = z.held; size = z.size; laid = z.laid }

module _ {Ctx : Type 0} where
  pub store_output_at :
      (d : EthercatDriver Ctx) (k : ℕ) (bytes : List ℕ) (dev : EthercatDevice)
      → get_elem? d.devices k ≡ some dev
      → store_output d k bytes ≡ record d {
        devices =
            set d.devices k (store_in dev (load_buffer_index d.active_out_buffer_idx 1) bytes);
      }
  unfolding store_output
  store_output_at d k bytes dev e =
      ap
        (λ o. elim o as (λ t. EthercatDriver Ctx) [
          | none ↦ d
          | some x ↦ record d {
            devices =
                set d.devices k (store_in x (load_buffer_index d.active_out_buffer_idx 1) bytes);
          }
        ])
        e

module _ {Ctx : Type 0} {room : ℕ} where
  rt_enter-IsReady :
      (now : ℕ) (d : EthercatDriver Ctx) → IsReady room d → IsReady room (rt_enter now d)
  unfolding rt_enter
  rt_enter-IsReady now d h = record { image = h.image; held = h.held; size = h.size; laid = h.laid }

  pub cycle_begin-IsReady : (d : EthercatDriver Ctx) → IsReady room d → IsReady room (cycle_begin d)
  unfolding cycle_begin
  cycle_begin-IsReady d h = record {
    image = h.image;
    held = h.held;
    size = h.size;
    laid = copy_out_buffers-IsLaid _ _ d.devices room h.laid;
  }

  pub cycle_end-IsReady : (d : EthercatDriver Ctx) → IsReady room d → IsReady room (cycle_end d)
  unfolding cycle_end
  cycle_end-IsReady d h = record { image = h.image; held = h.held; size = h.size; laid = h.laid }

  IsReady-same :
      {d d' : EthercatDriver Ctx}
      → IsReady room d
      → d'.iomap ≡ d.iomap
      → d'.devices ≡ d.devices
      → IsReady room d'
  IsReady-same h e e' = record {
    image = h.image;
    held = e ∙ h.held;
    size = h.size;
    laid = subst (λ devs. IsLaid devs room) (sym e') h.laid;
  }

  get_input_data-IsReady :
      (d : EthercatDriver Ctx) (k : ℕ) → IsReady room d → IsReady room (get_input_data d k).0
  unfolding get_input_data
  get_input_data-IsReady d k h = IsReady-same h (ground arith) (ground arith)

  pub get_output_data-IsReady :
      (d : EthercatDriver Ctx) (k : ℕ) → IsReady room d → IsReady room (get_output_data d k).0
  unfolding get_output_data
  get_output_data-IsReady d k h = IsReady-same h (ground arith) (ground arith)

  pub store_output-IsReady :
      (d : EthercatDriver Ctx) (k : ℕ) (bytes : List ℕ)
      → IsReady room d
      → IsReady room (store_output d k bytes)
  unfolding store_output
  store_output-IsReady d k bytes h = elim (Option-cases (get_elem? d.devices k)) [
    | inl e ↦ IsReady-same h (ground arith) (ground arith)
    | inr (dev, e) ↦
        let idx = load_buffer_index d.active_out_buffer_idx 1 in
        let laid =
          set-IsLaid d.devices room k dev (store_in dev idx bytes) e
            (record { inputs = refl; outputs = refl; in_size = refl; out_size = refl })
            (store_in-IsMapped idx bytes dev room (h.laid.each k dev e)) h.laid in
        subst (IsReady room) (sym (store_output_at d k bytes dev e))
          (record { image = h.image; held = h.held; size = h.size; laid = laid })
  ]

module _ {Ctx : Type 0} {room : ℕ} (soem : Soem Ctx) (ok : KeepsImage soem) where
  pub rt_step-IsReady :
      (now : ℕ) (d : EthercatDriver Ctx) → IsReady room d → IsReady room (rt_step soem now d)
  rt_step-IsReady now d h =
      rt_step_cases soem (IsReady room) now d h (rt_enter-IsReady now d h)
        (λ l. rt_cycle-IsReady soem ok now l d h) (rt_exit-IsReady soem ok d h)

  pub act-IsReady :
      (e : EcEvent) (d : EthercatDriver Ctx) → IsReady room d → IsReady room (act soem e d)
  unfolding act
  act-IsReady (rt now) d h = rt_step-IsReady now d h
  act-IsReady begin d h = cycle_begin-IsReady d h
  act-IsReady finish d h = cycle_end-IsReady d h
  act-IsReady (read_input k) d h = get_input_data-IsReady d k h
  act-IsReady (read_output k) d h = get_output_data-IsReady d k h
  act-IsReady (store k bytes) d h = store_output-IsReady d k bytes h

  -- Whatever the two threads do, every device keeps buffers of the sizes of its mapping, and the places of
  -- the devices in the process image stay within it and apart.
  pub run-IsReady :
      (es : List EcEvent) (d : EthercatDriver Ctx) → IsReady room d → IsReady room (run soem es d)
  unfolding run
  run-IsReady [] d h = h
  run-IsReady (e ∷ es) d h = run-IsReady es (act soem e d) (act-IsReady e d h)
