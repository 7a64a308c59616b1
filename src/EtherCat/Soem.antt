-- ===== src/EtherCat/Soem.antt =====
-- backends/ethercat/ec_soem_lifecycle.c: bringing up the bus through the SOEM library.
--
-- The library is not part of the repository, so that its calls are fields of a parameter. An `int` is
-- its bit pattern. The printing of adapters and warnings is left out.
use plcmaster.Prelude.{
  ℕ, zero, suc, ◌+◌, ◌*◌, ◌%◌, ◌^◌, Bool, true, false, ◌||◌, Option, none, some, List,
  if◌then◌else◌, ltb, leb, ◌==◌, CString,
}

-- An entry of `slavelist`. The pointers to its process data point into the process image and are the
-- offset there, `none` for NULL.
pub record Slave : Type 0 where
  pub state : ℕ
  pub inputs : Option ℕ
  pub outputs : Option ℕ
  pub input_bytes : ℕ
  pub output_bytes : ℕ
  pub eep_man : ℕ
  pub eep_id : ℕ

-- What the program uses of an `ecx_contextt`: `blank` is a cleared one, `wipe` clears one. The calls that read or write the process image get it as
-- an argument: the list of its bytes.
pub record Soem (Ctx : Type 0) : Type 0 where
  pub blank : Ctx
  pub wipe : Ctx → Ctx
  pub init : Ctx → CString → Ctx × ℕ
  pub config_init : Ctx → Ctx × ℕ
  pub config_map_group : Ctx → List ℕ → Ctx × (List ℕ × ℕ)
  pub outputs_wkc : Ctx → ℕ
  pub inputs_wkc : Ctx → ℕ
  pub configdc : Ctx → Ctx
  pub slavecount : Ctx → ℕ
  pub slave : Ctx → ℕ → Slave
  pub set_state : Ctx → ℕ → Ctx
  pub set_hook : Ctx → ℕ → Option ℕ → Ctx
  pub writestate : Ctx → Ctx
  pub statecheck : Ctx → ℕ → Ctx × ℕ
  pub readstate : Ctx → Ctx
  pub send_processdata : Ctx → List ℕ → Ctx
  pub receive_processdata : Ctx → List ℕ → Ctx × (List ℕ × ℕ)
  pub close : Ctx → Ctx

-- The states of a slave in ethercat.h that the program names.
abbrev pub state_none : ℕ
state_none = 0

abbrev pub state_init : ℕ
state_init = 1

abbrev pub state_safe_op : ℕ
state_safe_op = 4

abbrev pub state_operational : ℕ
state_operational = 8

-- Whether the `int` with a bit pattern is negative.
abbrev pub is_negative : ℕ → Bool
is_negative x = leb (2 ^ 31) x

module _ {Ctx : Type 0} (soem : Soem Ctx) where
  -- `ec_soem_context_init`; `true` is the return value 0.
  unfoldable pub context_init : Ctx → CString → Ctx × Bool
  context_init ctx ifname =
      let (ctx', opened) = soem.init ctx ifname in
      if opened == 0 then (ctx', false) else (ctx', true)

  -- `ec_soem_configure_iomap_group0` for an image that is not NULL: the context, the image, the
  -- expected working counter or `none` for the return value -1.
  unfoldable pub configure_iomap_group0 : Ctx → List ℕ → ℕ → Ctx × (List ℕ × Option ℕ)
  configure_iomap_group0 ctx iomap iomap_size =
      if iomap_size == 0
      then (ctx, (iomap, none))
      else let (ctx', (iomap', used)) = soem.config_map_group ctx iomap in
        if is_negative used || used == 0 || ltb iomap_size used
        then (ctx', (iomap', none))
        else (ctx', (iomap', some ((soem.outputs_wkc ctx' * 2 + soem.inputs_wkc ctx') % 2 ^ 16)))

  -- The loop of `ec_soem_request_safe_op` with `left` attempts to go.
  unfoldable pub await_safe_op : ℕ → Ctx → Ctx × Bool
  await_safe_op zero ctx = (ctx, false)
  await_safe_op (suc left) ctx =
      let (ctx', state) = soem.statecheck ctx state_safe_op in
      let rest = await_safe_op left ctx' in if state == state_safe_op then (ctx', true) else rest

  unfoldable pub request_safe_op : Ctx → Ctx × Bool
  unfolding await_safe_op
  request_safe_op ctx = await_safe_op 10 (soem.writestate (soem.set_state ctx state_safe_op))

  -- The loop of `ec_soem_request_op`: each attempt exchanges process data and then asks for the state.
  unfoldable pub await_op : ℕ → Ctx → List ℕ → Ctx × (List ℕ × Bool)
  await_op zero ctx image = (ctx, (image, false))
  await_op (suc left) ctx image =
      let (ctx₁, (image', wkc)) =
        soem.receive_processdata (soem.send_processdata ctx image) image in
      let (ctx₂, state) = soem.statecheck ctx₁ state_operational in
      let rest = await_op left ctx₂ image' in
      if state == state_operational then (ctx₂, (image', true)) else rest

  unfoldable pub request_op : Ctx → List ℕ → Ctx × (List ℕ × Bool)
  unfolding await_op
  request_op ctx image = await_op 20 (soem.writestate (soem.set_state ctx state_operational)) image

  -- `ec_soem_close`
  unfoldable pub close : Ctx → Ctx
  close ctx = soem.wipe (
      soem.close (
        if is_negative (soem.slavecount ctx) || soem.slavecount ctx == 0
        then ctx
        else soem.writestate (soem.set_state ctx state_init)))
