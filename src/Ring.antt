-- ===== src/Ring.antt =====
-- core/ipc/spsc_ring.c and spsc_ring.h: the single-producer single-consumer ring.
--
-- The storage is a list of elements, so that the `memcpy` of `elem_size` bytes at
-- `slot * elem_size` is a read or a write of one list entry. The two indices are free-running
-- `uint32_t` counters; their sums and differences are taken modulo 2^32.
pub mod Inv
pub mod Queue
pub mod Refine
use plcmaster.Prelude.{
  ℕ, ◌+◌, ◌-◌, ◌%◌, ◌^◌, Bool, true, false, Option, none, some, List, ltb, leb, ◌==◌, if◌then◌else◌,
  ◌||◌, get_elem?, set,
}

abbrev pub u32_mod : ℕ
u32_mod = 2 ^ 32

-- `uint32_t` addition and subtraction
abbrev pub add_u32 : ℕ → ℕ → ℕ
add_u32 a b = (a + b) % u32_mod

abbrev pub sub_u32 : ℕ → ℕ → ℕ
sub_u32 a b = (a + u32_mod - b) % u32_mod

-- `SpscRing_t` over elements of type `A`
pub record SpscRing {ℓ} (A : Type ℓ) : Type ℓ where
  pub storage : List A
  pub capacity : ℕ
  pub read_index : ℕ
  pub write_index : ℕ

module _ {ℓ} {A : Type ℓ} where
  -- `spsc_ring_init`: `none` is the return value -1. The storage pointer is an option (`none` for
  -- NULL); `capacity` is a `size_t` that is cut to 32 bits on the way into the ring.
  unfoldable pub init : Option (List A) → ℕ → ℕ → Option (SpscRing A)
  init none elem_size capacity = none
  init (some storage) elem_size capacity =
      if elem_size == 0 || capacity == 0
      then none
      else some (record {
        storage = storage;
        capacity = capacity % u32_mod;
        read_index = 0;
        write_index = 0;
      })

  -- `spsc_ring_push`: the ring after the call and the returned flag. A NULL element is `none`.
  unfoldable pub push : SpscRing A → Option A → SpscRing A × Bool
  push q none = (q, false)
  push q (some elem) = if leb q.capacity (sub_u32 q.write_index q.read_index) then (q, false) else (
    record q {
      storage = set q.storage (q.write_index % q.capacity) elem;
      write_index = add_u32 q.write_index 1;
    },
    true,
  )

  -- `spsc_ring_pop`: the ring after the call and what was copied out, `none` for the flag false.
  unfoldable pub pop : SpscRing A → SpscRing A × Option A
  pop q = if q.read_index == q.write_index then (q, none) else (
    record q { read_index = add_u32 q.read_index 1 },
    get_elem? q.storage (q.read_index % q.capacity),
  )
