-- ===== src/EtherCat/Run.antt =====
-- The EtherCAT driver between its start and its stop: the real-time thread and the PLC thread take
-- turns, in any order. A pass of the real-time loop and each call of the PLC thread is one event.
use plcmaster.Prelude.{Bool, true, false, if◌then◌else◌, ℕ, List, [], ◌∷◌}
use plcmaster.EtherCat.{EthercatDriver, RtThread, RtLocals, absent, created, ended, looping}
use plcmaster.EtherCat.Soem.{Soem}
use plcmaster.EtherCat.Rt.{rt_step, rt_enter, rt_cycle, rt_exit}
use plcmaster.EtherCat.Ops.{cycle_begin, cycle_end, get_input_data, get_output_data, store_output}

-- `rt` carries the time at the end of the pass, the data events the index of a device.
pub data EcEvent : Type 0 where
  rt : ℕ → EcEvent
  begin finish : EcEvent
  read_input read_output : ℕ → EcEvent
  store : ℕ → List ℕ → EcEvent

module _ {Ctx : Type 0} (soem : Soem Ctx) where
  unfoldable pub act : EcEvent → EthercatDriver Ctx → EthercatDriver Ctx
  unfolding rt_step cycle_begin cycle_end get_input_data get_output_data store_output
  act (rt now) d = rt_step soem now d
  act begin d = cycle_begin d
  act finish d = cycle_end d
  act (read_input k) d = (get_input_data d k).0
  act (read_output k) d = (get_output_data d k).0
  act (store k bytes) d = store_output d k bytes

  unfoldable pub run : List EcEvent → EthercatDriver Ctx → EthercatDriver Ctx
  unfolding act
  run [] d = d
  run (e ∷ es) d = run es (act e d)

  -- What holds of a driver that stays as it is, that starts the thread, that does one pass and that
  -- leaves the loop holds after `rt_step`.
  pub rt_step_cases :
      (P : EthercatDriver Ctx → Type 0) (now : ℕ) (d : EthercatDriver Ctx)
      → P d
      → P (rt_enter now d)
      → ((l : RtLocals) → P (rt_cycle soem now l d))
      → P (rt_exit soem d)
      → P (rt_step soem now d)
  unfolding rt_step
  rt_step_cases P now d stay enter pass leave = by_thread d.rt_thread
    where
      in_loop : (l : RtLocals) (b : Bool) → P (if b then rt_cycle soem now l d else rt_exit soem d)
      in_loop l true = pass l
      in_loop l false = leave

      by_thread :
          (t : RtThread)
          → P (elim t [
            | absent ↦ d
            | created ↦ rt_enter now d
            | looping l ↦ if d.rt_should_run then rt_cycle soem now l d else rt_exit soem d
            | ended ↦ d
          ])
      by_thread absent = stay
      by_thread created = enter
      by_thread ended = stay
      by_thread (looping l) = in_loop l d.rt_should_run
