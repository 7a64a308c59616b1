-- ===== src/EtherCat/Start/Quiet.antt =====
-- What a start of an EtherCAT driver sends first.
use mathlib.Core.Path.{subst}
use plcmaster.Prelude.{
  ◌∷◌, Bool-cases, inl, inr, blit-all, length-replicate, get_elem?-map, get_elem?, replicate, arith,
  ℕ, ◌≡◌, refl, sym, ◌∙◌, ap, Option, none, some, List, [], length, Bool, true, false,
  if◌then◌else◌, not, ◌==◌,
}
use plcmaster.EtherCat.Layout.{AreSized, IsSized, IsLaid}
use plcmaster.EtherCat.Outputs.{outputs_at, out_bytes, sent}
use plcmaster.EtherCat.Publish.{IsDevice, rt_send_lem}
use plcmaster.EtherCat.Rt.{rt_send}
use plcmaster.EtherCat.{
  EthercatDevice, zeroed, zero_each, zero_outputs_of, load_buffer_index, EthercatDriver, image_of,
  zero_output_buffers,
}
use plcmaster.EtherCat.Soem.{Soem, request_op}
use plcmaster.EtherCat.Rt.{exchange}
use plcmaster.EtherCat.Ops.{bring_up, start}
use plcmaster.EtherCat.Indices.{IsSwapped}
use plcmaster.EtherCat.Ready.{IsReady, KeepsImage}
use plcmaster.EtherCat.Start.{outcome, answered, start_at, bring_up-IsReady, answered-IsReady}

-- The output buffers of each device hold zeros.
record IsCleared (devs : List EthercatDevice) : Type 0 where
  clear :
      (k : ℕ) (dev : EthercatDevice) (idx : ℕ)
      → get_elem? devs k ≡ some dev
      → out_bytes dev idx ≡ replicate dev.out_size 0

no_bytes : (b : List ℕ) → length b ≡ 0 → b ≡ []
no_bytes [] h = refl
no_bytes (x ∷ b) h = absurd (omega arith)

zeroed_bytes :
    (o : Option (List ℕ)) (n : ℕ)
    → IsSized o n
    → elim (if n == 0 then o else zeroed o n) as (λ t. List ℕ) [ none ↦ [] | some b ↦ b ]
      ≡ replicate n 0
zeroed_bytes o n h =
    subst
      (λ q.
        elim (if n == 0 then q else zeroed q n) as (λ t. List ℕ) [ none ↦ [] | some b ↦ b ]
        ≡ replicate n 0)
      (sym h.here)
      (elim (Bool-cases (n == 0)) [
        | inl e ↦ let none_left : n ≡ 0 = ground arith in pick true _ _ e (whole none_left)
        | inr e ↦
            pick false _ _ e (blit-all h.bytes (replicate n 0) (length-replicate n 0 ∙ sym h.size))
      ])
  where
    pick :
        (c : Bool) (b b' : List ℕ)
        → n == 0 ≡ c
        → (if c then b else b') ≡ replicate n 0
        → elim (if n == 0 then some b else some b') as (λ t. List ℕ) [ none ↦ [] | some x ↦ x ]
          ≡ replicate n 0
    pick true b b' e r =
        ap (λ c. elim (if c then some b else some b') as (λ t. List ℕ) [ none ↦ [] | some x ↦ x ]) e
        ∙ r
    pick false b b' e r =
        ap (λ c. elim (if c then some b else some b') as (λ t. List ℕ) [ none ↦ [] | some x ↦ x ]) e
        ∙ r

    whole : n ≡ 0 → h.bytes ≡ replicate n 0
    whole z = no_bytes h.bytes (h.size ∙ z) ∙ ap (λ m. replicate m 0) (sym z)

cleared_bytes :
    (dev : EthercatDevice) (idx : ℕ)
    → AreSized dev.out_buffers dev.out_size
    → out_bytes (zero_outputs_of dev) idx ≡ replicate dev.out_size 0
unfolding zero_outputs_of
cleared_bytes dev idx h = go (idx == 0)
  where
    go :
        (c : Bool)
        → elim (if c
              then (if dev.out_size == 0
                  then dev.out_buffers.first
                  else zeroed dev.out_buffers.first dev.out_size)
              else (if dev.out_size == 0
                  then dev.out_buffers.second
                  else zeroed dev.out_buffers.second dev.out_size))
            as (λ t. List ℕ) [ none ↦ [] | some b ↦ b ]
          ≡ replicate dev.out_size 0
    go true = zeroed_bytes dev.out_buffers.first dev.out_size h.first
    go false = zeroed_bytes dev.out_buffers.second dev.out_size h.second

zero_each-IsCleared :
    {room : ℕ} (devs : List EthercatDevice) → IsLaid devs room → IsCleared (zero_each devs)
unfolding zero_each zero_outputs_of
zero_each-IsCleared devs h = record {
  clear = λ k dev idx e.
      let (x, at, is) = get_elem?-map zero_outputs_of devs k dev e in
      subst (λ y. out_bytes y idx ≡ replicate y.out_size 0) is
        (cleared_bytes x idx (h.each k x at).outs);
}

-- A driver whose next exchange sends zeros.
record IsQuiet {Ctx : Type 0} (room : ℕ) (d : EthercatDriver Ctx) : Type 0 where
  ready : IsReady room d
  swapped : IsSwapped d
  cleared : IsCleared d.devices

module _ {Ctx : Type 0} {room : ℕ} where
  outcome-IsQuiet :
      (done made : Bool) (d : EthercatDriver Ctx)
      → IsQuiet room d
      → IsQuiet room (outcome done made d).0
  outcome-IsQuiet true true d h = record {
    ready = record {
      image = h.ready.image;
      held = h.ready.held;
      size = h.ready.size;
      laid = h.ready.laid;
    };
    swapped = record {
      swapped = h.swapped.swapped;
      active_in = h.swapped.active_in;
      plc_in = h.swapped.plc_in;
    };
    cleared = h.cleared;
  }
  outcome-IsQuiet true false d h = record {
    ready = record {
      image = h.ready.image;
      held = h.ready.held;
      size = h.ready.size;
      laid = h.ready.laid;
    };
    swapped = record {
      swapped = h.swapped.swapped;
      active_in = h.swapped.active_in;
      plc_in = h.swapped.plc_in;
    };
    cleared = h.cleared;
  }
  outcome-IsQuiet false made d h = h

  rt_send-IsQuiet :
      (d : EthercatDriver Ctx) (k : ℕ) (dev : EthercatDevice) (at : ℕ)
      → IsQuiet room d
      → IsDevice d k dev at
      → outputs_at dev at (image_of (rt_send d)) ≡ replicate dev.out_size 0
  rt_send-IsQuiet d k dev at h is =
      rt_send_lem room d k dev at h.ready is ∙ go (not (d.fault_latched == 0))
    where
      go :
          (b : Bool)
          → sent dev (load_buffer_index d.rt_out_buffer_idx 0) b ≡ replicate dev.out_size 0
      go true = refl
      go false = h.cleared.clear k dev (load_buffer_index d.rt_out_buffer_idx 0) is.bound

module _ {Ctx : Type 0} {room : ℕ} (soem : Soem Ctx) (ok : KeepsImage soem) where
  -- A start, whether it succeeds or not, keeps the layout of the devices and the swap of the buffer
  -- indices, and the next exchange sends zeros for the outputs of each mapped device, whatever was staged
  -- before.
  pub rt_send-start :
      (d : EthercatDriver Ctx) (made : Bool) (k : ℕ) (dev : EthercatDevice) (at : ℕ)
      → IsReady room d
      → IsSwapped d
      → IsDevice (start soem made d).0 k dev at
      → IsReady room (start soem made d).0
        × IsSwapped (start soem made d).0
        × (outputs_at dev at (image_of (rt_send (start soem made d).0)) ≡ replicate dev.out_size 0)
  unfolding bring_up exchange zero_output_buffers
  rt_send-start d made k dev at h s is =
      let up = bring_up soem d in
      let quiet : IsQuiet room (answered soem up) = record {
        ready = answered-IsReady soem ok up (bring_up-IsReady soem ok d h);
        swapped = record { swapped = s.swapped; active_in = s.active_in; plc_in = s.plc_in };
        cleared = zero_each-IsCleared d.devices h.laid;
      } in
      let after =
        subst (λ p. IsQuiet room p.0) (sym (start_at soem made d h.image h.held))
          (outcome-IsQuiet (request_op soem up.ctx (image_of up)).1.1 made (answered soem up)
            quiet) in
      (after.ready, after.swapped, rt_send-IsQuiet (start soem made d).0 k dev at after is)
