-- ===== src/EtherCat/Start.antt =====
-- Starting an EtherCAT driver, for the first time or after a fault.
pub mod Quiet
use mathlib.Core.Path.{subst}
use plcmaster.Prelude.{
  ◌∷◌, Bool-cases, inl, inr, blit-all, length-replicate, get_elem?-map, get_elem?, replicate, arith,
  ℕ, zero, suc, ◌≡◌, refl, sym, ◌∙◌, ap, Option, none, some, List, [], length, length-blit, Bool,
  true, false, if◌then◌else◌, not, ◌==◌,
}
use plcmaster.EtherCat.Layout.{AreSized, IsSized, IsLaid}
use plcmaster.EtherCat.Outputs.{outputs_at, out_bytes, sent}
use plcmaster.EtherCat.Publish.{IsDevice, rt_send_lem}
use plcmaster.EtherCat.Rt.{rt_send}
use plcmaster.EtherCat.{
  EthercatDevice, zeroed, zero_each, zero_outputs_of, load_buffer_index, EthercatDriver, created,
  on_image, image_of, clear_at, zero_output_buffers,
}
use plcmaster.EtherCat.Soem.{Soem, state_operational, await_op, request_op}
use plcmaster.EtherCat.Rt.{exchange}
use plcmaster.EtherCat.Ops.{fresh_stats, bring_up, start}
use plcmaster.EtherCat.Indices.{IsSwapped}
use plcmaster.EtherCat.Ready.{IsReady, KeepsImage, IsReady-change, zero_output_buffers-IsReady}
use plcmaster.EtherCat.Ready.Events.{exchange-IsReady}
use plcmaster.EtherCat.Mapping.Final.{IsFinal}

-- A driver as a start that succeeds leaves it.
pub record IsStarted {Ctx : Type 0} (room : ℕ) (d : EthercatDriver Ctx) : Type 0 where
  pub final : IsFinal room d
  pub thread : d.rt_thread ≡ created
  pub told : d.rt_should_run ≡ true
  pub no_bad : d.dowkccheck ≡ 0
  pub state : d.ec_state ≡ state_operational

module _ {Ctx : Type 0} where
  abbrev ready : EthercatDriver Ctx → EthercatDriver Ctx
  ready d = record d {
    ec_state = state_operational;
    dowkccheck = 0;
    state_check_cycle_ctr = 0;
    in_op = true;
    fault_latched = 0;
    rt_should_run = true;
    rt_is_running = false;
    stats = fresh_stats;
  }

  abbrev outcome : Bool → Bool → EthercatDriver Ctx → EthercatDriver Ctx × Bool
  outcome done made d =
      if not done
      then (d, false)
      else if made
      then (record (ready d) { rt_thread = created }, true)
      else (record (ready d) { in_op = false; rt_should_run = false }, false)

  outcome_well :
      (done made : Bool) (d d' : EthercatDriver Ctx)
      → outcome done made d ≡ (d', true)
      → record (ready d) { rt_thread = created } ≡ d'
  outcome_well true true d d' h = ap (λ p. p.0) h
  outcome_well true false d d' h = let e = ap (λ p. p.1) h in cc
  outcome_well false made d d' h = let e = ap (λ p. p.1) h in cc

module _ {Ctx : Type 0} (soem : Soem Ctx) where
  -- The driver that a start leaves, from what the library answered.
  abbrev answered : EthercatDriver Ctx → EthercatDriver Ctx
  answered up = record (on_image (λ old. (request_op soem up.ctx (image_of up)).1.0) up) {
    ctx = (request_op soem up.ctx (image_of up)).0;
  }

  start_at :
      (made : Bool) (d : EthercatDriver Ctx) (image : List ℕ)
      → d.iomap ≡ some image
      → start soem made d
        ≡ outcome
            (request_op soem (bring_up soem d).ctx (image_of (bring_up soem d))).1.1
            made
            (answered (bring_up soem d))
  unfolding start
  start_at made d image e =
      ap
        (λ o. elim o as (λ t. EthercatDriver Ctx × Bool) [
          | none ↦ (d, false)
          | some i ↦
              outcome (request_op soem (bring_up soem d).ctx (image_of (bring_up soem d))).1.1 made
                (answered (bring_up soem d))
        ])
        e

  bring_up-IsSwapped : (d : EthercatDriver Ctx) → IsSwapped d → IsSwapped (bring_up soem d)
  unfolding bring_up exchange zero_output_buffers
  bring_up-IsSwapped d s = record {
    swapped = s.swapped;
    active_in = s.active_in;
    plc_in = s.plc_in;
  }

module _ {Ctx : Type 0} (soem : Soem Ctx) (ok : KeepsImage soem) where
  length-await_op :
      (left : ℕ) (ctx : Ctx) (image : List ℕ)
      → length (await_op soem left ctx image).1.0 ≡ length image
  unfolding await_op
  length-await_op zero ctx image = refl
  length-await_op (suc left) ctx image =
      let got = soem.receive_processdata (soem.send_processdata ctx image) image in
      let asked = soem.statecheck got.0 state_operational in
      pick (asked.1 == state_operational) asked.0 got.1.0 (await_op soem left asked.0 got.1.0)
        (length-await_op left asked.0 got.1.0)
      ∙ ok.same (soem.send_processdata ctx image) image
    where
      pick :
          (c : Bool) (ctx' : Ctx) (image' : List ℕ) (rest : Ctx × (List ℕ × Bool))
          → length rest.1.0 ≡ length image'
          → length (if c then (ctx', (image', true)) else rest).1.0 ≡ length image'
      pick true ctx' image' rest h = refl
      pick false ctx' image' rest h = h

  length-request_op :
      (ctx : Ctx) (image : List ℕ) → length (request_op soem ctx image).1.0 ≡ length image
  unfolding request_op
  length-request_op ctx image =
      length-await_op 20 (soem.writestate (soem.set_state ctx state_operational)) image

module _ {Ctx : Type 0} {room : ℕ} (soem : Soem Ctx) (ok : KeepsImage soem) where
  bring_up-IsReady : (d : EthercatDriver Ctx) → IsReady room d → IsReady room (bring_up soem d)
  unfolding bring_up
  bring_up-IsReady d h =
      let c = on_image (λ image. clear_at image 0 d.iomap_size) d in
      let hc : IsReady room c =
        IsReady-change h (λ image. clear_at image 0 d.iomap_size)
          (ap
            (λ o. elim o as (λ t. Option (List ℕ)) [
              | none ↦ none
              | some i ↦ some (clear_at i 0 d.iomap_size)
            ])
            h.held)
          (length-blit h.image 0 _) h.laid in
      let z = zero_output_buffers c in
      let one = exchange soem z in
      let two = exchange soem one in
      exchange-IsReady soem ok two (
        exchange-IsReady soem ok one
          (exchange-IsReady soem ok z (zero_output_buffers-IsReady c hc)))

  answered-IsReady : (d : EthercatDriver Ctx) → IsReady room d → IsReady room (answered soem d)
  answered-IsReady d h =
      let got = (request_op soem d.ctx (image_of d)).1.0 in
      IsReady-change h (λ old. got)
        (ap (λ o. elim o as (λ t. Option (List ℕ)) [ none ↦ none | some i ↦ some got ]) h.held)
        (length-request_op soem ok d.ctx (image_of d)
          ∙ ap length (ap (λ o. elim o as (λ t. List ℕ) [ none ↦ [] | some i ↦ i ]) h.held))
        h.laid

  -- A start that succeeds leaves a mapped driver without a fault, whose thread is about to run.
  pub start-IsStarted :
      (d d' : EthercatDriver Ctx) (made : Bool)
      → IsReady room d
      → IsSwapped d
      → start soem made d ≡ (d', true)
      → IsStarted room d'
  start-IsStarted d d' made h s e =
      let up = bring_up soem d in
      let answer = request_op soem up.ctx (image_of up) in
      let r = answered-IsReady up (bring_up-IsReady d h) in
      let s' = bring_up-IsSwapped soem d s in
      subst (IsStarted room)
        (outcome_well answer.1.1 made (answered soem up) d'
          (sym (start_at soem made d h.image h.held) ∙ e))
        (record {
          final = record {
            ready = record { image = r.image; held = r.held; size = r.size; laid = r.laid };
            swapped = record { swapped = s'.swapped; active_in = s'.active_in; plc_in = s'.plc_in };
            no_fault = refl;
          };
          thread = refl;
          told = refl;
          no_bad = refl;
          state = refl;
        })
