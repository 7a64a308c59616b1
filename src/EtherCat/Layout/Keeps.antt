-- ===== src/EtherCat/Layout/Keeps.antt =====
-- The copies of the EtherCAT driver keep the layout of its devices.
use plcmaster.Prelude.{
  ℕ, ◌≡◌, refl, ◌∙◌, ap, Option, none, some, List, map, length, slice, blit, length-blit, Bool,
  true, false, if◌then◌else◌, ◌==◌,
}
use plcmaster.EtherCat.{
  EthercatDevice, buffer, put_buffer, copy_iomap_to_in, copy_out_buffers, zero_each, copy_to,
  clear_at, take_inputs, keep_outputs, zero_outputs_of,
}
use plcmaster.EtherCat.Ops.{store_in}
use plcmaster.EtherCat.Layout.{
  IsSized, AreSized, IsMapped, SamePlace, IsLaid, put_buffer-AreSized, map-IsLaid,
}

pub store_in-IsMapped :
    (idx : ℕ) (bytes : List ℕ) (dev : EthercatDevice) (room : ℕ)
    → IsMapped dev room
    → IsMapped (store_in dev idx bytes) room
store_in-IsMapped idx bytes dev room h = record {
  ins = h.ins;
  outs = stored (buffer dev.out_buffers idx) refl;
  inside_out = h.inside_out;
  inside_in = h.inside_in;
}
  where
    stored :
        (o : Option (List ℕ))
        → buffer dev.out_buffers idx ≡ o
        → AreSized
            (elim o [
              | none ↦ dev.out_buffers
              | some b ↦ put_buffer dev.out_buffers idx (some (blit b 0 bytes))
            ])
            dev.out_size
    stored none e = h.outs
    stored (some b) e = put_buffer-AreSized idx 0 bytes b h.outs e

take_inputs-IsMapped :
    (next : ℕ) (image : List ℕ) (dev : EthercatDevice) (room : ℕ)
    → IsMapped dev room
    → IsMapped (take_inputs next image dev) room
unfolding take_inputs
take_inputs-IsMapped next image dev room h = record {
  ins = taken dev.soem_inputs (buffer dev.in_buffers next) refl (dev.in_size == 0);
  outs = h.outs;
  inside_out = h.inside_out;
  inside_in = h.inside_in;
}
  where
    taken :
        (place : Option ℕ) (o : Option (List ℕ))
        → buffer dev.in_buffers next ≡ o
        → (empty : Bool)
        → AreSized
            (elim place [
              | none ↦ dev.in_buffers
              | some at ↦ elim o [
                | none ↦ dev.in_buffers
                | some old ↦
                    if empty
                    then dev.in_buffers
                    else put_buffer dev.in_buffers next
                        (some (copy_to old 0 (slice image at dev.in_size) dev.in_size))
              ]
            ])
            dev.in_size
    taken none o e empty = h.ins
    taken (some at) none e empty = h.ins
    taken (some at) (some old) e true = h.ins
    taken (some at) (some old) e false = put_buffer-AreSized next 0 _ old h.ins e

keep_outputs-IsMapped :
    (src dst : ℕ) (dev : EthercatDevice) (room : ℕ)
    → IsMapped dev room
    → IsMapped (keep_outputs src dst dev) room
unfolding keep_outputs
keep_outputs-IsMapped src dst dev room h = record {
  ins = h.ins;
  outs = kept (buffer dev.out_buffers src) (buffer dev.out_buffers dst) refl (dev.out_size == 0);
  inside_out = h.inside_out;
  inside_in = h.inside_in;
}
  where
    kept :
        (from to : Option (List ℕ))
        → buffer dev.out_buffers dst ≡ to
        → (empty : Bool)
        → AreSized
            (elim from [
              | none ↦ dev.out_buffers
              | some bytes ↦ elim to [
                | none ↦ dev.out_buffers
                | some old ↦
                    if empty
                    then dev.out_buffers
                    else put_buffer dev.out_buffers dst (some (copy_to old 0 bytes dev.out_size))
              ]
            ])
            dev.out_size
    kept none to e empty = h.outs
    kept (some bytes) none e empty = h.outs
    kept (some bytes) (some old) e true = h.outs
    kept (some bytes) (some old) e false = put_buffer-AreSized dst 0 _ old h.outs e

zero_outputs_of-IsMapped :
    (dev : EthercatDevice) (room : ℕ) → IsMapped dev room → IsMapped (zero_outputs_of dev) room
unfolding zero_outputs_of
zero_outputs_of-IsMapped dev room h = record {
  ins = h.ins;
  outs = record {
    first = cleared dev.out_buffers.first (dev.out_size == 0) h.outs.first;
    second = cleared dev.out_buffers.second (dev.out_size == 0) h.outs.second;
  };
  inside_out = h.inside_out;
  inside_in = h.inside_in;
}
  where
    cleared :
        (o : Option (List ℕ)) (empty : Bool)
        → IsSized o dev.out_size
        → IsSized
            (if empty
              then o
              else elim o [ none ↦ none | some b ↦ some (clear_at b 0 dev.out_size) ])
            dev.out_size
    cleared o true s = s
    cleared none false s = s
    cleared (some b) false s = record {
      bytes = clear_at b 0 dev.out_size;
      here = refl;
      size =
          let e = s.here in
          let same : b ≡ s.bytes = cc in length-blit b 0 _ ∙ ap length same ∙ s.size;
    }

take_inputs-SamePlace :
    (next : ℕ) (image : List ℕ) (dev : EthercatDevice) → SamePlace dev (take_inputs next image dev)
unfolding take_inputs
take_inputs-SamePlace next image dev = record {
  inputs = refl;
  outputs = refl;
  in_size = refl;
  out_size = refl;
}

keep_outputs-SamePlace :
    (src dst : ℕ) (dev : EthercatDevice) → SamePlace dev (keep_outputs src dst dev)
unfolding keep_outputs
keep_outputs-SamePlace src dst dev = record {
  inputs = refl;
  outputs = refl;
  in_size = refl;
  out_size = refl;
}

zero_outputs_of-SamePlace : (dev : EthercatDevice) → SamePlace dev (zero_outputs_of dev)
unfolding zero_outputs_of
zero_outputs_of-SamePlace dev = record {
  inputs = refl;
  outputs = refl;
  in_size = refl;
  out_size = refl;
}

pub copy_iomap_to_in-IsLaid :
    (next : ℕ) (image : List ℕ) (devs : List EthercatDevice) (room : ℕ)
    → IsLaid devs room
    → IsLaid (copy_iomap_to_in next image devs) room
unfolding copy_iomap_to_in
copy_iomap_to_in-IsLaid next image devs room h =
    map-IsLaid (take_inputs next image) devs room (λ dev. take_inputs-IsMapped next image dev room)
      (take_inputs-SamePlace next image) h

pub copy_out_buffers-IsLaid :
    (src dst : ℕ) (devs : List EthercatDevice) (room : ℕ)
    → IsLaid devs room
    → IsLaid (copy_out_buffers src dst devs) room
unfolding copy_out_buffers
copy_out_buffers-IsLaid src dst devs room h = pick (src == dst)
  where
    pick : (c : Bool) → IsLaid (if c then devs else map (keep_outputs src dst) devs) room
    pick true = h
    pick false =
        map-IsLaid (keep_outputs src dst) devs room (λ dev. keep_outputs-IsMapped src dst dev room)
          (keep_outputs-SamePlace src dst) h

pub zero_each-IsLaid :
    (devs : List EthercatDevice) (room : ℕ) → IsLaid devs room → IsLaid (zero_each devs) room
unfolding zero_each
zero_each-IsLaid devs room h =
    map-IsLaid zero_outputs_of devs room (λ dev. zero_outputs_of-IsMapped dev room)
      zero_outputs_of-SamePlace h
