-- ===== src/EtherCat/Fault/Bad.antt =====
-- A bus that stays bad.
use mathlib.Core.Path.{subst}
use plcmaster.Prelude.{
  ℕ, ◌+◌, ◌≤◌, ◌<◌, ◌≡◌, refl, sym, ◌∙◌, List, [], ◌∷◌, replicate, true, false, arith,
}
use plcmaster.EtherCat.{EthercatDevice, EthercatDriver, image_of}
use plcmaster.EtherCat.Soem.{Soem}
use plcmaster.EtherCat.Rt.{rt_step, rt_send, u32_max}
use plcmaster.EtherCat.Ops.{cycle_begin, cycle_end, get_input_data, get_output_data, store_output}
use plcmaster.EtherCat.Run.{EcEvent, rt, begin, finish, read_input, read_output, store, act, run}
use plcmaster.EtherCat.Ready.{IsReady, KeepsImage}
use plcmaster.EtherCat.Ready.Events.{run-IsReady}
use plcmaster.EtherCat.Outputs.{outputs_at}
use plcmaster.EtherCat.Publish.{IsDevice}
use plcmaster.EtherCat.Fault.{
  is_pass, passes, IsLatched, IsLooping, pass_bad, all_bad, both_true, rt_step-IsWorse,
  rt_step-IsLooping, rt_send-latched,
}

module _ {Ctx : Type 0} (soem : Soem Ctx) where
  -- A call of the PLC thread leaves the thread, the counter and the fault as they are.
  record IsAside (d d' : EthercatDriver Ctx) : Type 0 where
    thread : d'.rt_thread ≡ d.rt_thread
    running : d'.rt_should_run ≡ d.rt_should_run
    count : d'.dowkccheck ≡ d.dowkccheck
    fault : d'.fault_latched ≡ d.fault_latched

  act-IsAside :
      (e : EcEvent) (d : EthercatDriver Ctx) → is_pass e ≡ false → IsAside d (act soem e d)
  unfolding act cycle_begin cycle_end get_input_data get_output_data store_output
  act-IsAside (rt now) d h = absurd (ground arith)
  act-IsAside begin d h = record { thread = refl; running = refl; count = refl; fault = refl }
  act-IsAside finish d h = record { thread = refl; running = refl; count = refl; fault = refl }
  act-IsAside (read_input k) d h = record {
    thread = ground arith;
    running = ground arith;
    count = ground arith;
    fault = ground arith;
  }
  act-IsAside (read_output k) d h = record {
    thread = ground arith;
    running = ground arith;
    count = ground arith;
    fault = ground arith;
  }
  act-IsAside (store k bytes) d h = record {
    thread = ground arith;
    running = ground arith;
    count = ground arith;
    fault = ground arith;
  }

  aside-IsLooping :
      {fail : ℕ} (e : EcEvent) (d : EthercatDriver Ctx)
      → is_pass e ≡ false
      → IsLooping fail d
      → IsLooping fail (act soem e d)
  aside-IsLooping e d h l =
      let a = act-IsAside e d h in
      record {
        locals = l.locals;
        thread = a.thread ∙ l.thread;
        threshold = l.threshold;
        running = a.running ∙ l.running;
      }

  aside-IsLatched :
      {fail : ℕ} (e : EcEvent) (d : EthercatDriver Ctx)
      → is_pass e ≡ false
      → (fail ≤ d.dowkccheck → IsLatched d)
      → fail ≤ (act soem e d).dowkccheck
      → IsLatched (act soem e d)
  aside-IsLatched {fail} e d h now_or le =
      let a = act-IsAside e d h in
      record { set = λ z. (now_or (subst (λ n. fail ≤ n) a.count le)).set (sym a.fault ∙ z) }

  aside_count :
      {fail : ℕ} (n : ℕ) (e : EcEvent) (d : EthercatDriver Ctx)
      → is_pass e ≡ false
      → fail ≤ d.dowkccheck + n
      → fail ≤ (act soem e d).dowkccheck + n
  aside_count {fail} n e d h le = subst (λ m. fail ≤ m + n) (sym (act-IsAside e d h).count) le

  latches :
      (es : List EcEvent) (fail : ℕ) (d : EthercatDriver Ctx)
      → IsLooping fail d
      → all_bad soem es d ≡ true
      → fail ≤ u32_max
      → (fail ≤ d.dowkccheck → IsLatched d)
      → fail ≤ d.dowkccheck + passes es
      → IsLatched (run soem es d)
  unfolding run act all_bad passes
  latches [] fail d h bad small now_or le = now_or (omega arith)
  latches (rt now ∷ es) fail d h bad small now_or le =
      let both : (pass_bad soem d ≡ true) × (all_bad soem es (rt_step soem now d) ≡ true) =
        both_true soem (pass_bad soem d) _ bad in
      let w = rt_step-IsWorse soem now fail d h both.0 in
      let counted = w.counted in
      latches es fail (rt_step soem now d) (rt_step-IsLooping soem now fail d h) both.1 small
        (λ reached. record { set = w.latched reached }) (omega arith)
  latches (begin ∷ es) fail d h bad small now_or le =
      latches es fail (act soem begin d) (aside-IsLooping begin d refl h) bad small
        (aside-IsLatched begin d refl now_or) (aside_count (passes es) begin d refl le)
  latches (finish ∷ es) fail d h bad small now_or le =
      latches es fail (act soem finish d) (aside-IsLooping finish d refl h) bad small
        (aside-IsLatched finish d refl now_or) (aside_count (passes es) finish d refl le)
  latches (read_input k ∷ es) fail d h bad small now_or le =
      latches es fail (act soem (read_input k) d) (aside-IsLooping (read_input k) d refl h) bad
        small (aside-IsLatched (read_input k) d refl now_or)
        (aside_count (passes es) (read_input k) d refl le)
  latches (read_output k ∷ es) fail d h bad small now_or le =
      latches es fail (act soem (read_output k) d) (aside-IsLooping (read_output k) d refl h) bad
        small (aside-IsLatched (read_output k) d refl now_or)
        (aside_count (passes es) (read_output k) d refl le)
  latches (store k bytes ∷ es) fail d h bad small now_or le =
      latches es fail (act soem (store k bytes) d) (aside-IsLooping (store k bytes) d refl h) bad
        small (aside-IsLatched (store k bytes) d refl now_or)
        (aside_count (passes es) (store k bytes) d refl le)

  -- A bus that stays bad is shut off. Let the thread of a mapped driver be in its loop, with fewer bad
  -- passes counted than the fail threshold, and let the library write within the image: after events with
  -- as many passes as the threshold says, all of which find the bus bad, with any calls of the PLC thread
  -- between them, and after whatever events then, the next exchange sends zeros for the outputs of each
  -- mapped device.
  pub rt_send-bad_bus :
      {room fail : ℕ} (bads es : List EcEvent) (d : EthercatDriver Ctx) (k : ℕ)
      (dev : EthercatDevice) (at : ℕ)
      → KeepsImage soem
      → IsReady room d
      → IsLooping fail d
      → d.dowkccheck < fail
      → fail ≤ u32_max
      → fail ≤ passes bads
      → all_bad soem bads d ≡ true
      → IsDevice (run soem es (run soem bads d)) k dev at
      → outputs_at dev at (image_of (rt_send (run soem es (run soem bads d))))
        ≡ replicate dev.out_size 0
  rt_send-bad_bus {room} {fail} bads es d k dev at ok h inside fresh small enough bad is =
      rt_send-latched soem es (run soem bads d) k dev at ok (run-IsReady soem ok bads d h)
        (latches bads fail d inside bad small (λ reached. absurd (omega arith)) (omega arith)) is
