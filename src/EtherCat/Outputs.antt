-- ===== src/EtherCat/Outputs.antt =====
-- What the EtherCAT driver puts into the process image: the staged outputs, and zeros after a fault.
use mathlib.Core.Path.{subst}
use plcmaster.Prelude.{
  ℕ, zero, suc, ◌+◌, ◌≤◌, ◌≡◌, ◌⊎◌, refl, sym, ◌∙◌, ap, inl, inr, Option-cases, none, some, List,
  [], ◌∷◌, length, get_elem?, slice, blit, replicate, take-all, length-replicate, slice-blit,
  slice-blit_outside, Bool, true, false, if◌then◌else◌, arith,
}
use plcmaster.EtherCat.{EthercatDevice, buffer, put_outputs, copy_out_to_iomap}
use plcmaster.EtherCat.Layout.{AreSized, IsMapped, IsFree, IsLaid, buffer-IsSized}
use plcmaster.EtherCat.Ready.{length-put_outputs}

-- The outputs of a device in the process image.
abbrev pub outputs_at : EthercatDevice → ℕ → List ℕ → List ℕ
outputs_at dev at image = slice image at dev.out_size

-- The bytes of an output buffer.
abbrev pub out_bytes : EthercatDevice → ℕ → List ℕ
out_bytes dev idx = elim (buffer dev.out_buffers idx) [ none ↦ [] | some b ↦ b ]

-- What one exchange sends of a device.
abbrev pub sent : EthercatDevice → ℕ → Bool → List ℕ
sent dev idx zeros = if zeros then replicate dev.out_size 0 else out_bytes dev idx

blit_nil : (xs : List ℕ) (i : ℕ) (bs : List ℕ) → length bs ≡ 0 → blit xs i bs ≡ xs
blit_nil [] i bs h = refl
blit_nil (x ∷ xs) zero [] h = refl
blit_nil (x ∷ xs) zero (b ∷ bs) h = absurd (omega arith)
blit_nil (x ∷ xs) (suc i) bs h = ap (λ t. x ∷ t) (blit_nil xs i bs h)

pub length-out_bytes :
    (dev : EthercatDevice) (idx : ℕ)
    → AreSized dev.out_buffers dev.out_size
    → length (out_bytes dev idx) ≡ dev.out_size
length-out_bytes dev idx sized =
    let b = buffer-IsSized idx sized in
    ap (λ o. length (elim o [ none ↦ [] | some x ↦ x ])) b.here ∙ b.size

length-sent :
    (dev : EthercatDevice) (idx : ℕ) (zeros : Bool)
    → AreSized dev.out_buffers dev.out_size
    → length (sent dev idx zeros) ≡ dev.out_size
length-sent dev idx true sized = length-replicate dev.out_size 0
length-sent dev idx false sized = length-out_bytes dev idx sized

put_outputs_at :
    (dev : EthercatDevice) (idx : ℕ) (zeros : Bool) (image : List ℕ) (at : ℕ)
    → dev.soem_outputs ≡ some at
    → AreSized dev.out_buffers dev.out_size
    → put_outputs dev idx zeros image ≡ blit image at (sent dev idx zeros)
unfolding put_outputs
put_outputs_at dev idx zeros image at e sized =
    let b : List ℕ = (buffer-IsSized idx sized).bytes in
    let here : buffer dev.out_buffers idx ≡ some b = (buffer-IsSized idx sized).here in
    let size : length b ≡ dev.out_size = (buffer-IsSized idx sized).size in
    let none_sent : length (sent dev idx zeros) ≡ dev.out_size = length-sent dev idx zeros sized in
    ground (
      arith,
      e,
      here,
      take-all dev.out_size b (omega arith),
      blit_nil image at (sent dev idx zeros),
    )

put_outputs-outside :
    (dev : EthercatDevice) (idx : ℕ) (zeros : Bool) (image : List ℕ) (at n : ℕ)
    → ((i : ℕ) → dev.soem_outputs ≡ some i → (i + dev.out_size ≤ at) ⊎ (at + n ≤ i))
    → AreSized dev.out_buffers dev.out_size
    → slice (put_outputs dev idx zeros image) at n ≡ slice image at n
unfolding put_outputs
put_outputs-outside dev idx zeros image at n free sized = elim (Option-cases dev.soem_outputs) [
  | inl e ↦ ap (λ t. slice t at n) (put_outputs_none dev idx zeros image e)
  | inr (i, e) ↦
      let len : length (sent dev idx zeros) ≡ dev.out_size = length-sent dev idx zeros sized in
      let apart = free i e in
      ap (λ t. slice t at n) (put_outputs_at dev idx zeros image i e sized)
      ∙ slice-blit_outside image i (sent dev idx zeros) at n (omega arith)
]
  where
    put_outputs_none :
        (dev : EthercatDevice) (idx : ℕ) (zeros : Bool) (image : List ℕ)
        → dev.soem_outputs ≡ none
        → put_outputs dev idx zeros image ≡ image
    put_outputs_none dev idx zeros image e = ground arith

put_outputs-here :
    (dev : EthercatDevice) (idx : ℕ) (zeros : Bool) (image : List ℕ) (at : ℕ)
    → dev.soem_outputs ≡ some at
    → IsMapped dev (length image)
    → outputs_at dev at (put_outputs dev idx zeros image) ≡ sent dev idx zeros
put_outputs-here dev idx zeros image at e m =
    let len : length (sent dev idx zeros) ≡ dev.out_size = length-sent dev idx zeros m.outs in
    let inside : at + dev.out_size ≤ length image = m.inside_out at e in
    ap (λ t. slice t at dev.out_size) (put_outputs_at dev idx zeros image at e m.outs)
    ∙ ap (slice (blit image at (sent dev idx zeros)) at) (sym len)
    ∙ slice-blit image at (sent dev idx zeros) (omega arith)

-- Devices that have no outputs in a place, with buffers of their sizes.
record IsAway (devs : List EthercatDevice) (at n : ℕ) : Type 0 where
  free : IsFree devs at n
  sized :
      (j : ℕ) (dev : EthercatDevice)
      → get_elem? devs j ≡ some dev
      → AreSized dev.out_buffers dev.out_size

IsAway-tail :
    {dev : EthercatDevice} {devs : List EthercatDevice} {at n : ℕ}
    → IsAway (dev ∷ devs) at n
    → IsAway devs at n
IsAway-tail h = record {
  free = record { apart = λ j. h.free.apart (suc j) };
  sized = λ j. h.sized (suc j);
}

copy_out-away :
    (devs : List EthercatDevice) (idx : ℕ) (zeros : Bool) (image : List ℕ) (at n : ℕ)
    → IsAway devs at n
    → slice (copy_out_to_iomap devs idx zeros image) at n ≡ slice image at n
unfolding copy_out_to_iomap
copy_out-away [] idx zeros image at n h = refl
copy_out-away (dev ∷ devs) idx zeros image at n h =
    copy_out-away devs idx zeros (put_outputs dev idx zeros image) at n (IsAway-tail h)
    ∙ put_outputs-outside dev idx zeros image at n (λ i e. h.free.apart 0 dev i refl e)
        (h.sized 0 dev refl)

IsLaid-tail :
    {dev : EthercatDevice} {devs : List EthercatDevice} {room : ℕ}
    → IsLaid (dev ∷ devs) room
    → IsLaid devs room
IsLaid-tail h = record {
  each = λ k. h.each (suc k);
  apart = λ j k dev dev' i at ne. h.apart (suc j) (suc k) dev dev' i at (λ e. ne (suc_inj e));
}
  where
    suc_inj : {a b : ℕ} → suc a ≡ suc b → a ≡ b
    suc_inj e = omega arith

IsLaid-IsAway :
    (dev : EthercatDevice) (devs : List EthercatDevice) (room at : ℕ)
    → IsLaid (dev ∷ devs) room
    → dev.soem_outputs ≡ some at
    → IsAway devs at dev.out_size
IsLaid-IsAway dev devs room at h e = record {
  free = record {
    apart = λ j other i here o. h.apart (suc j) 0 other dev i at (λ x. omega arith) here refl o e;
  };
  sized = λ j other here. (h.each (suc j) other here).outs;
}

-- Each device finds in the process image what is sent of it.
pub copy_out_to_iomap_lem :
    (devs : List EthercatDevice) (idx : ℕ) (zeros : Bool) (image : List ℕ) (k : ℕ)
    (dev : EthercatDevice) (at : ℕ)
    → IsLaid devs (length image)
    → get_elem? devs k ≡ some dev
    → dev.soem_outputs ≡ some at
    → outputs_at dev at (copy_out_to_iomap devs idx zeros image) ≡ sent dev idx zeros
unfolding copy_out_to_iomap
copy_out_to_iomap_lem [] idx zeros image k dev at h e o = cc
copy_out_to_iomap_lem (x ∷ devs) idx zeros image zero dev at h e o =
    let is : x ≡ dev = cc in
    subst
      (λ y.
        outputs_at y at (copy_out_to_iomap devs idx zeros (put_outputs x idx zeros image))
        ≡ sent y idx zeros)
      is
      (copy_out-away devs idx zeros (put_outputs x idx zeros image) at x.out_size
          (IsLaid-IsAway x devs (length image) at h (ap (λ y. y.soem_outputs) is ∙ o))
        ∙ put_outputs-here x idx zeros image at (ap (λ y. y.soem_outputs) is ∙ o) (h.each 0 x refl))
copy_out_to_iomap_lem (x ∷ devs) idx zeros image (suc k) dev at h e o =
    copy_out_to_iomap_lem devs idx zeros (put_outputs x idx zeros image) k dev at
      (subst (IsLaid devs) (sym (length-put_outputs x idx zeros image)) (IsLaid-tail h)) e o
