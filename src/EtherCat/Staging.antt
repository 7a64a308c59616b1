-- ===== src/EtherCat/Staging.antt =====
-- The EtherCAT driver keeps the interface's promise for output data.
use mathlib.Core.Path.{subst}
use plcmaster.Prelude.{
  some_inj, ℕ, ◌≡◌, sym, ◌∙◌, ap, Option-cases, inl, inr, Option, some, List, length, get_elem?,
  get_elem?-set_self, get_elem?-lt, arith,
}
use plcmaster.Prelude.Bits.{IsBytes}
use plcmaster.Backend.{IsStaging}
use plcmaster.EtherCat.{EthercatDevice, EthercatDriver, load_buffer_index}
use plcmaster.EtherCat.Soem.{Soem}
use plcmaster.EtherCat.Ops.{get_output_data, store_output, store_in}
use plcmaster.EtherCat.Setup.{Host}
use plcmaster.EtherCat.Mapping.{ec_ops}
use plcmaster.EtherCat.Indices.{IsSwapped, get_output_data-IsSwapped, store_output-IsSwapped}
use plcmaster.EtherCat.Ready.{IsReady}
use plcmaster.EtherCat.Ready.Events.{get_output_data-IsReady, store_output-IsReady, store_output_at}
use plcmaster.EtherCat.Outputs.{out_bytes, length-out_bytes}
use plcmaster.EtherCat.Publish.{staged}
use plcmaster.EtherCat.PlcCycle.{store_in-out_bytes}

module _ {Ctx : Type 0} where
  -- The staging buffers of a driver hold bytes.
  pub record HoldsBytes (d : EthercatDriver Ctx) : Type 0 where
    pub each :
        (k : ℕ) (dev : EthercatDevice)
        → get_elem? d.devices k ≡ some dev
        → IsBytes (out_bytes dev d.active_out_buffer_idx)

  asked_bound :
      (d : EthercatDriver Ctx) (k : ℕ) (old : List ℕ)
      → (get_output_data d k).1 ≡ some old
      → (dev : EthercatDevice) × (get_elem? d.devices k ≡ some dev)
  unfolding get_output_data
  asked_bound d k old h = elim (Option-cases (get_elem? d.devices k)) [
    | inl e ↦ ground arith
    | inr (dev, e) ↦ (dev, e)
  ]

  devices_asked : (d : EthercatDriver Ctx) (k : ℕ) → (get_output_data d k).0.devices ≡ d.devices
  unfolding get_output_data
  devices_asked d k = ground arith

  -- What was stored is shown.
  shows_stored :
      {room : ℕ} (d : EthercatDriver Ctx) (k : ℕ) (dev : EthercatDevice) (new : List ℕ)
      → IsReady room d
      → IsSwapped d
      → get_elem? d.devices k ≡ some dev
      → length new ≡ dev.out_size
      → (get_output_data (store_output d k new) k).1 ≡ some new
  shows_stored {room} d k dev new h s e len =
      let slot = load_buffer_index d.active_out_buffer_idx 1 in
      let x = store_in dev slot new in
      let put = store_output_at d k new dev e in
      let swapped = s.swapped in
      let same : d.active_out_buffer_idx ≡ slot = ground arith in
      staged room (store_output d k new) k x (store_output-IsReady d k new h)
        (store_output-IsSwapped d k new s)
        (ap (λ t. get_elem? t.devices k) put
          ∙ get_elem?-set_self d.devices k x (get_elem?-lt d.devices k dev e))
      ∙ ap (λ t. some (out_bytes x t.active_out_buffer_idx)) put
      ∙ ap (λ i. some (out_bytes x i)) same
      ∙ ap some (store_in-out_bytes dev slot new (h.laid.each k dev e).outs len)

module _ {Ctx : Type 0} (soem : Soem Ctx) (host : Host) where
  member_is :
      (get : EthercatDriver Ctx → ℕ → EthercatDriver Ctx × Option (List ℕ))
      → (ec_ops soem host).get_output_data ≡ some get
      → get_output_data ≡ get
  unfolding ec_ops
  member_is get e = some_inj e

  -- The driver's table keeps what the interface promises of output data, in each state in which its
  -- devices are mapped and its staging buffers hold bytes: what is stored through the pointer that
  -- `get_output_data` gave is what it shows next, and what it shows are bytes.
  pub ec_ops-IsStaging :
      (room : ℕ) (d : EthercatDriver Ctx)
      → IsReady room d
      → IsSwapped d
      → HoldsBytes d
      → IsStaging (ec_ops soem host) d
  unfolding ec_ops
  ec_ops-IsStaging room d h s b = record {
    stored = λ get k old new member shown len fine.
        let same = member_is get member in
        let shown' : (get_output_data d k).1 ≡ some old = ap (λ f. (f d k).1) same ∙ shown in
        let (dev, e) = asked_bound d k old shown' in
        let is : out_bytes dev d.active_out_buffer_idx ≡ old =
          some_inj (sym (staged room d k dev h s e) ∙ shown') in
        let size = length-out_bytes dev d.active_out_buffer_idx (h.laid.each k dev e).outs in
        ap (λ f. (f (store_output (f d k).0 k new) k).1) (sym same)
        ∙ shows_stored (get_output_data d k).0 k dev new (get_output_data-IsReady d k h)
            (get_output_data-IsSwapped d k s) (ap (λ t. get_elem? t k) (devices_asked d k) ∙ e)
            (len ∙ sym (ap length is) ∙ size);
    bytes = λ get k shown member at.
        let same = member_is get member in
        let shown' : (get_output_data d k).1 ≡ some shown = ap (λ f. (f d k).1) same ∙ at in
        let (dev, e) = asked_bound d k shown shown' in
        subst IsBytes (some_inj (sym (staged room d k dev h s e) ∙ shown')) (b.each k dev e);
  }
