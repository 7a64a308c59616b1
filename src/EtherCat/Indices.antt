-- ===== src/EtherCat/Indices.antt =====
-- The buffer indices of the EtherCAT driver.
use plcmaster.Prelude.{ℕ, ◌+◌, ◌≤◌, ◌≡◌, List, [], ◌∷◌, arith}
use plcmaster.EtherCat.{EthercatDriver, RtLocals}
use plcmaster.EtherCat.Soem.{Soem}
use plcmaster.EtherCat.Rt.{
  rt_cycle, rt_enter, rt_exit, send_zeros, exchange, rt_send, rt_receive, watch_state, judge, latch,
}
use plcmaster.EtherCat.Ops.{cycle_begin, cycle_end, get_input_data, get_output_data, store_output}
use plcmaster.EtherCat.Run.{
  EcEvent, rt, begin, finish, read_input, read_output, store, act, run, rt_step_cases,
}

-- The PLC's staging buffer and the buffer that is sent are the two buffers of a device, and the input
-- indices are in range.
pub record IsSwapped {Ctx : Type 0} (d : EthercatDriver Ctx) : Type 0 where
  pub swapped : d.active_out_buffer_idx + d.rt_out_buffer_idx ≡ 1
  pub active_in : d.active_in_buffer_idx ≤ 1
  pub plc_in : d.plc_in_buffer_idx ≤ 1

module _ {Ctx : Type 0} (soem : Soem Ctx) where
  pub rt_cycle-IsSwapped :
      (now : ℕ) (l : RtLocals) (d : EthercatDriver Ctx)
      → IsSwapped d
      → IsSwapped (rt_cycle soem now l d)
  unfolding rt_cycle judge latch rt_receive watch_state exchange rt_send
  rt_cycle-IsSwapped now l d h =
      let s = h.swapped in
      let a = h.active_in in
      record { swapped = ground arith; active_in = ground arith; plc_in = h.plc_in }

  rt_exit-IsSwapped : (d : EthercatDriver Ctx) → IsSwapped d → IsSwapped (rt_exit soem d)
  unfolding rt_exit send_zeros exchange
  rt_exit-IsSwapped d h = record { swapped = h.swapped; active_in = h.active_in; plc_in = h.plc_in }

module _ {Ctx : Type 0} where
  rt_enter-IsSwapped : (now : ℕ) (d : EthercatDriver Ctx) → IsSwapped d → IsSwapped (rt_enter now d)
  unfolding rt_enter
  rt_enter-IsSwapped now d h = record {
    swapped = h.swapped;
    active_in = h.active_in;
    plc_in = h.plc_in;
  }

  pub cycle_begin-IsSwapped : (d : EthercatDriver Ctx) → IsSwapped d → IsSwapped (cycle_begin d)
  unfolding cycle_begin
  cycle_begin-IsSwapped d h =
      let s = h.swapped in
      let a = h.active_in in
      record { swapped = ground arith; active_in = ground arith; plc_in = ground arith }

  pub cycle_end-IsSwapped : (d : EthercatDriver Ctx) → IsSwapped d → IsSwapped (cycle_end d)
  unfolding cycle_end
  cycle_end-IsSwapped d h =
      let s = h.swapped in
      record { swapped = ground arith; active_in = h.active_in; plc_in = h.plc_in }

  get_input_data-IsSwapped :
      (d : EthercatDriver Ctx) (k : ℕ) → IsSwapped d → IsSwapped (get_input_data d k).0
  unfolding get_input_data
  get_input_data-IsSwapped d k h =
      let s = h.swapped in
      let a = h.active_in in
      let p = h.plc_in in
      record { swapped = ground arith; active_in = ground arith; plc_in = ground arith }

  pub get_output_data-IsSwapped :
      (d : EthercatDriver Ctx) (k : ℕ) → IsSwapped d → IsSwapped (get_output_data d k).0
  unfolding get_output_data
  get_output_data-IsSwapped d k h =
      let s = h.swapped in
      let a = h.active_in in
      let p = h.plc_in in
      record { swapped = ground arith; active_in = ground arith; plc_in = ground arith }

  pub store_output-IsSwapped :
      (d : EthercatDriver Ctx) (k : ℕ) (bytes : List ℕ)
      → IsSwapped d
      → IsSwapped (store_output d k bytes)
  unfolding store_output
  store_output-IsSwapped d k bytes h =
      let s = h.swapped in
      let a = h.active_in in
      let p = h.plc_in in
      record { swapped = ground arith; active_in = ground arith; plc_in = ground arith }

module _ {Ctx : Type 0} (soem : Soem Ctx) where
  act-IsSwapped : (e : EcEvent) (d : EthercatDriver Ctx) → IsSwapped d → IsSwapped (act soem e d)
  unfolding act
  act-IsSwapped (rt now) d h =
      rt_step_cases soem IsSwapped now d h (rt_enter-IsSwapped now d h)
        (λ l. rt_cycle-IsSwapped soem now l d h) (rt_exit-IsSwapped soem d h)
  act-IsSwapped begin d h = cycle_begin-IsSwapped d h
  act-IsSwapped finish d h = cycle_end-IsSwapped d h
  act-IsSwapped (read_input k) d h = get_input_data-IsSwapped d k h
  act-IsSwapped (read_output k) d h = get_output_data-IsSwapped d k h
  act-IsSwapped (store k bytes) d h = store_output-IsSwapped d k bytes h

  -- Between the passes of the real-time thread and the calls of the PLC thread, each taken as a whole, the
  -- two output indices differ, and every buffer index is in range.
  pub run-IsSwapped :
      (es : List EcEvent) (d : EthercatDriver Ctx) → IsSwapped d → IsSwapped (run soem es d)
  unfolding run
  run-IsSwapped [] d h = h
  run-IsSwapped (e ∷ es) d h = run-IsSwapped es (act soem e d) (act-IsSwapped e d h)
