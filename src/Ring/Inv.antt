-- ===== src/Ring/Inv.antt =====
-- The representation invariant of the ring, and what an index wrap does to a slot.
use native.Mathlib.Nat.{
  mod-add-mod, mod-eq_of_lt, mod-eq-sub-mod, mod-lt, mod-mod_of_dvd, dvd_of_mod-eq-zero,
}
use native.Mathlib.Decide.{dec_lt}
use plcmaster.Prelude.{ℕ, ◌+◌, ◌-◌, ◌%◌, ◌≤◌, ◌<◌, ◌≡◌, ◌≢◌, some, List, length, arith}
use plcmaster.Ring.{SpscRing, u32_mod, sub_u32, init}

-- The number of elements that are stored.
abbrev pub level {ℓ} : {A : Type ℓ} → SpscRing A → ℕ
level q = sub_u32 q.write_index q.read_index

-- The indices are 32-bit, the level is at most the capacity, the storage has a place for each slot,
-- and the capacity divides 2^32: otherwise the slots jump where an index wraps.
pub record IsValid {ℓ} {A : Type ℓ} (q : SpscRing A) : Type ℓ where
  pub positive : 0 < q.capacity
  pub cap_fits : q.capacity < u32_mod
  pub divides : u32_mod % q.capacity ≡ 0
  pub stored : q.capacity ≤ length q.storage
  pub read_fits : q.read_index < u32_mod
  pub write_fits : q.write_index < u32_mod
  pub bounded : level q ≤ q.capacity

-- Where it succeeds, `spsc_ring_init` with a storage of at least `cap` places and a capacity that divides 2^32 gives
-- a valid ring.
pub init-IsValid {ℓ} :
    {A : Type ℓ} (storage : List A) (size cap : ℕ) (q : SpscRing A)
    → cap ≤ length storage
    → cap < u32_mod
    → u32_mod % cap ≡ 0
    → init (some storage) size cap ≡ some q
    → IsValid q
unfolding init
init-IsValid storage size cap q room small divides e = ground arith

-- Where the capacity divides 2^32, an index that wraps keeps its slot.
pub slot_wrap : (cap i : ℕ) → u32_mod % cap ≡ 0 → i % u32_mod % cap ≡ i % cap
slot_wrap cap i d = mod-mod_of_dvd cap i (dvd_of_mod-eq-zero cap d)

-- Fewer than `cap` steps round the ring do not come back to the same slot.
pub slot-ne : (cap i k : ℕ) → 0 < k → k < cap → (i + k) % cap ≢ i % cap
slot-ne cap i k hk hc = rw (← mod-add-mod) (elim (dec_lt (i % cap + k) cap) [
  | yes p ↦ omega (arith, mod-eq_of_lt p)
  | no p ↦ omega (
    arith,
    mod-lt i {m = cap} (omega arith),
    mod-eq-sub-mod {n = i % cap + k} {m = cap} (omega arith),
    mod-eq_of_lt {n = i % cap + k - cap} {m = cap}
        (omega (arith, mod-lt i {m = cap} (omega arith))),
  )
])
