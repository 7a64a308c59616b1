-- ===== src/EtherCat/Fault.antt =====
-- The fault of the EtherCAT driver: when it is latched, and what is sent from then on.
pub mod Bad
use mathlib.Core.Path.{subst}
use plcmaster.Prelude.{
  ℕ, ◌+◌, ◌%◌, ◌^◌, ◌≤◌, ◌<◌, ◌≡◌, ◌≢◌, ◌⊎◌, refl, sym, ◌∙◌, ap, List, [], ◌∷◌, replicate, Bool,
  true, false, ◌&&◌, ◌||◌, suc, not, ◌==◌, if◌then◌else◌, arith,
}
use plcmaster.EtherCat.{
  EthercatDevice, EthercatDriver, RtLocals, absent, created, ended, looping, load_buffer_index,
  image_of,
}
use plcmaster.EtherCat.Soem.{Soem}
use plcmaster.EtherCat.Rt.{
  rt_step, rt_cycle, rt_enter, rt_exit, send_zeros, exchange, rt_send, rt_receive, watch_state,
  judge, latch, bad_cycle, next_bad, next_deadline, u32_max,
}
use plcmaster.EtherCat.Ops.{cycle_begin, cycle_end, get_input_data, get_output_data, store_output}
use plcmaster.EtherCat.Run.{
  EcEvent, rt, begin, finish, read_input, read_output, store, act, run, rt_step_cases,
}
use plcmaster.EtherCat.Ready.{IsReady, KeepsImage}
use plcmaster.EtherCat.Ready.Events.{run-IsReady}
use plcmaster.EtherCat.Outputs.{outputs_at, sent}
use plcmaster.EtherCat.Publish.{IsDevice, rt_send_lem}

abbrev is_pass : EcEvent → Bool
is_pass e = elim e [
  | rt now ↦ true
  | begin ↦ false
  | finish ↦ false
  | read_input k ↦ false
  | read_output k ↦ false
  | store k bytes ↦ false
]

-- The number of passes among some events.
unfoldable pub passes : List EcEvent → ℕ
passes [] = 0
passes (e ∷ es) = let rest = passes es in if is_pass e then suc rest else rest

module _ {Ctx : Type 0} where
  -- The fault is latched.
  pub record IsLatched (d : EthercatDriver Ctx) : Type 0 where
    pub set : d.fault_latched ≢ 0

  -- What a bad pass does.
  record IsWorse (fail : ℕ) (d d' : EthercatDriver Ctx) : Type 0 where
    counted : (d'.dowkccheck ≡ d.dowkccheck + 1) ⊎ (u32_max ≤ d'.dowkccheck)
    latched : fail ≤ d'.dowkccheck → d'.fault_latched ≢ 0

  -- The thread is in its loop, and latches a fault after `fail` bad passes in a row.
  pub record IsLooping (fail : ℕ) (d : EthercatDriver Ctx) : Type 0 where
    pub locals : RtLocals
    pub thread : d.rt_thread ≡ looping locals
    pub threshold : locals.wkc_fail_threshold ≡ fail
    pub running : d.rt_should_run ≡ true

module _ {Ctx : Type 0} (soem : Soem Ctx) where
  rt_cycle-IsLatched :
      (now : ℕ) (l : RtLocals) (d : EthercatDriver Ctx)
      → IsLatched d
      → IsLatched (rt_cycle soem now l d)
  unfolding rt_cycle judge latch rt_receive watch_state exchange rt_send
  rt_cycle-IsLatched now l d h = let f = h.set in record { set = λ e. ground arith }

  act-IsLatched : (e : EcEvent) (d : EthercatDriver Ctx) → IsLatched d → IsLatched (act soem e d)
  unfolding act rt_enter rt_exit send_zeros exchange cycle_begin cycle_end get_input_data
      get_output_data store_output
  act-IsLatched (rt now) d h =
      rt_step_cases soem IsLatched now d h (record { set = h.set })
        (λ l. rt_cycle-IsLatched now l d h) (record { set = h.set })
  act-IsLatched begin d h = record { set = h.set }
  act-IsLatched finish d h = record { set = h.set }
  act-IsLatched (read_input k) d h = let f = h.set in record { set = λ e. ground arith }
  act-IsLatched (read_output k) d h = let f = h.set in record { set = λ e. ground arith }
  act-IsLatched (store k bytes) d h = let f = h.set in record { set = λ e. ground arith }

  run-IsLatched :
      (es : List EcEvent) (d : EthercatDriver Ctx) → IsLatched d → IsLatched (run soem es d)
  unfolding run
  run-IsLatched [] d h = h
  run-IsLatched (e ∷ es) d h = run-IsLatched es (act soem e d) (act-IsLatched e d h)

  -- Once a fault is latched, whatever the PLC stores and however the two threads take turns, each further
  -- exchange sends zeros for the outputs of every mapped device.
  pub rt_send-latched :
      {room : ℕ} (es : List EcEvent) (d : EthercatDriver Ctx) (k : ℕ) (dev : EthercatDevice)
      (at : ℕ)
      → KeepsImage soem
      → IsReady room d
      → IsLatched d
      → IsDevice (run soem es d) k dev at
      → outputs_at dev at (image_of (rt_send (run soem es d))) ≡ replicate dev.out_size 0
  rt_send-latched {room} es d k dev at ok h fault is =
      let set = (run-IsLatched es d fault).set in
      let zeros : not ((run soem es d).fault_latched == 0) ≡ true = ground arith in
      rt_send_lem room (run soem es d) k dev at (run-IsReady soem ok es d h) is
      ∙ ap (sent dev (load_buffer_index (run soem es d).rt_out_buffer_idx 0)) zeros

  -- Whether the next pass of the real-time thread finds the bus bad.
  unfoldable pub pass_bad : EthercatDriver Ctx → Bool
  unfolding bad_cycle exchange rt_send watch_state
  pass_bad d =
      let d' = watch_state soem (exchange soem (rt_send d)) in
      elim d.rt_thread [
        | looping l ↦
            d.rt_should_run && bad_cycle l d'.last_wkc d'.ec_state d.settings.warmup_cycles
        | _ ↦ false
      ]

  -- Whether all passes among the next events find the bus bad.
  unfoldable pub all_bad : List EcEvent → EthercatDriver Ctx → Bool
  unfolding pass_bad act
  all_bad [] d = true
  all_bad (e ∷ es) d = (not (is_pass e) || pass_bad d) && all_bad es (act soem e d)

  rt_cycle-IsWorse :
      (now : ℕ) (l : RtLocals) (d : EthercatDriver Ctx)
      → d.rt_thread ≡ looping l
      → d.rt_should_run ≡ true
      → pass_bad d ≡ true
      → IsWorse l.wkc_fail_threshold d (rt_cycle soem now l d)
  unfolding rt_cycle judge latch rt_receive watch_state exchange rt_send pass_bad next_bad
  rt_cycle-IsWorse now l d e on bad = record {
    counted = ground arith;
    latched = λ le f. ground arith;
  }

  both_true : (a b : Bool) → (a && b) ≡ true → (a ≡ true) × (b ≡ true)
  both_true a b h = ground arith

  rt_step-looping :
      (now : ℕ) (l : RtLocals) (d : EthercatDriver Ctx)
      → d.rt_thread ≡ looping l
      → d.rt_should_run ≡ true
      → rt_step soem now d ≡ rt_cycle soem now l d
  unfolding rt_step
  rt_step-looping now l d e on =
      ap
        (λ t. elim t as (λ x. EthercatDriver Ctx) [
          | absent ↦ d
          | created ↦ rt_enter now d
          | looping x ↦ if d.rt_should_run then rt_cycle soem now x d else rt_exit soem d
          | ended ↦ d
        ])
        e
      ∙ ap (λ c. if c then rt_cycle soem now l d else rt_exit soem d) on

  rt_step-IsWorse :
      (now fail : ℕ) (d : EthercatDriver Ctx)
      → IsLooping fail d
      → pass_bad d ≡ true
      → IsWorse fail d (rt_step soem now d)
  rt_step-IsWorse now fail d h bad =
      subst (IsWorse fail d) (sym (rt_step-looping now h.locals d h.thread h.running)) (
        subst (λ n. IsWorse n d (rt_cycle soem now h.locals d)) h.threshold
          (rt_cycle-IsWorse now h.locals d h.thread h.running bad))

  rt_cycle-IsLooping :
      (now : ℕ) (l : RtLocals) (d : EthercatDriver Ctx)
      → d.rt_should_run ≡ true
      → IsLooping l.wkc_fail_threshold (rt_cycle soem now l d)
  unfolding rt_cycle judge latch rt_receive watch_state exchange rt_send
  rt_cycle-IsLooping now l d on = record {
    locals = record l {
      cycle_count = (l.cycle_count + 1) % 2 ^ 64;
      deadline = next_deadline now d.settings.period_ns l.deadline;
    };
    thread = refl;
    threshold = refl;
    running = on;
  }

  rt_step-IsLooping :
      (now fail : ℕ) (d : EthercatDriver Ctx)
      → IsLooping fail d
      → IsLooping fail (rt_step soem now d)
  rt_step-IsLooping now fail d h =
      subst (IsLooping fail) (sym (rt_step-looping now h.locals d h.thread h.running)) (
        subst (λ n. IsLooping n (rt_cycle soem now h.locals d)) h.threshold
          (rt_cycle-IsLooping now h.locals d h.running))
