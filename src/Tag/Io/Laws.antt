-- ===== src/Tag/Io/Laws.antt =====
-- The bytes and bits that an access to device data reads and changes.
use mathlib.Core.Path.{subst}
use native.Mathlib.Decide.{ℕ_discrete}
use plcmaster.Prelude.{
  Bool-cases, ℕ, ◌+◌, ◌≤◌, ◌<◌, ◌≡◌, ◌≢◌, ◌⊎◌, inl, inr, refl, sym, ◌∙◌, ap, true, Option-cases,
  some, List, [], ◌∷◌, if◌then◌else◌, length, length-set, length-blit, slice-blit, get_elem?,
  get_elem?-some, get_elem?-set_self, get_elem?-set_ne, get_elem?-blit_outside, set, blit, slice,
  arith,
}
use plcmaster.Prelude.Bits.{
  IsBytes, test_bit, write_bit, test_bit-write_bit, write_bit-lt, IsBytes-set, IsBytes-blit,
}
use plcmaster.Tag.{TagType, bool, u8, u16, u32, real, unknown, TagIoRef}
use plcmaster.Tag.Value.{tag_type_size}
use plcmaster.Status.{success}
use plcmaster.Tag.Io.{io_in_range, io_fetch, io_put, as_bool, read_bytes, write_bytes}

-- The bytes of a value of the type: a `bool` is the byte 0 or 1.
abbrev pub IsValue : TagType → List ℕ → Type 0
IsValue bool v = (v ≡ 0 ∷ []) ⊎ (v ≡ 1 ∷ [])
IsValue u8 v = length v ≡ 1
IsValue u16 v = length v ≡ 2
IsValue u32 v = length v ≡ 4
IsValue real v = length v ≡ 4
IsValue (unknown n) v = ⊥

-- A checked access stays inside the data: a boolean tag names a bit of a byte of it, and the bytes
-- of any other tag lie in it.
pub in_range_bool :
    (ref : TagIoRef) (size : ℕ)
    → io_in_range ref bool size ≡ true
    → (ref.bit < 8) × (ref.byte_offset < size)
unfolding io_in_range
in_range_bool ref size h = ground arith

pub in_range_value :
    (ref : TagIoRef) (type : TagType) (size : ℕ)
    → type ≢ bool
    → io_in_range ref type size ≡ true
    → ref.byte_offset + tag_type_size type ≤ size
unfolding io_in_range
in_range_value ref bool size ne h = absurd (ne refl)
in_range_value ref _ size ne h = ground arith

pub length-io_put :
    (ref : TagIoRef) (type : TagType) (v base : List ℕ)
    → length (io_put ref type v base) ≡ length base
unfolding io_put
length-io_put ref bool v base = elim (Option-cases (get_elem? base ref.byte_offset)) [
  | inl out ↦ ground arith
  | inr (x, at) ↦ ground (arith, length-set base ref.byte_offset (write_bit x ref.bit (as_bool v)))
]
length-io_put ref _ v base = length-blit base ref.byte_offset v

blit_fetch :
    (base v : List ℕ) (i n : ℕ) → length v ≡ n → i + n ≤ length base → slice (blit base i v) i n ≡ v
blit_fetch base v i n e h = rw (← e) (slice-blit base i v (omega arith))

io_put_bool :
    (ref : TagIoRef) (v base : List ℕ) (x : ℕ)
    → get_elem? base ref.byte_offset ≡ some x
    → io_put ref bool v base ≡ set base ref.byte_offset (write_bit x ref.bit (as_bool v))
unfolding io_put
io_put_bool ref v base x at = ground arith

io_fetch_bool :
    (ref : TagIoRef) (base : List ℕ) (x : ℕ)
    → get_elem? base ref.byte_offset ≡ some x
    → io_fetch ref bool base ≡ (if test_bit x ref.bit then 1 else 0) ∷ []
unfolding io_fetch
io_fetch_bool ref base x at = ground arith

bool_byte : (v : List ℕ) → IsValue bool v → (if as_bool v then 1 else 0) ∷ [] ≡ v
unfolding as_bool
bool_byte v (inl zero_byte) = rw zero_byte
bool_byte v (inr one_byte) = rw one_byte

bool_fetch :
    (ref : TagIoRef) (v base : List ℕ)
    → IsValue bool v
    → IsBytes base
    → io_in_range ref bool (length base) ≡ true
    → io_fetch ref bool (io_put ref bool v base) ≡ v
bool_fetch ref v base ok b h =
    let (bit_ok, off_ok) = in_range_bool ref (length base) h in
    let (x, at) = get_elem?-some base ref.byte_offset off_ok in
    let w = write_bit x ref.bit (as_bool v) in
    let got = get_elem?-set_self base ref.byte_offset w off_ok in
    let bit =
      test_bit-write_bit x ref.bit ref.bit (as_bool v) (b.byte ref.byte_offset x at) bit_ok
        bit_ok in
    ap (io_fetch ref bool) (io_put_bool ref v base x at)
    ∙ io_fetch_bool ref (set base ref.byte_offset w) w got
    ∙ ap (λ t. (if t then 1 else 0) ∷ []) (bit ∙ ground arith)
    ∙ bool_byte v ok

-- What was put in range is fetched again.
pub io_fetch-io_put :
    (ref : TagIoRef) (type : TagType) (v base : List ℕ)
    → IsValue type v
    → IsBytes base
    → io_in_range ref type (length base) ≡ true
    → io_fetch ref type (io_put ref type v base) ≡ v
unfolding io_put io_fetch tag_type_size
io_fetch-io_put ref bool v base ok b h = bool_fetch ref v base ok b h
io_fetch-io_put ref u8 v base ok b h =
    blit_fetch base v ref.byte_offset 1 ok (in_range_value ref u8 (length base) (λ e. cc) h)
io_fetch-io_put ref u16 v base ok b h =
    blit_fetch base v ref.byte_offset 2 ok (in_range_value ref u16 (length base) (λ e. cc) h)
io_fetch-io_put ref u32 v base ok b h =
    blit_fetch base v ref.byte_offset 4 ok (in_range_value ref u32 (length base) (λ e. cc) h)
io_fetch-io_put ref real v base ok b h =
    blit_fetch base v ref.byte_offset 4 ok (in_range_value ref real (length base) (λ e. cc) h)
io_fetch-io_put ref (unknown n) v base ok b h = absurd ok

-- A store to a BOOL tag that is in range of the device data leaves every other bit of the data as it was,
-- in its own byte and in the others.
pub io_put_bool_frame :
    (ref : TagIoRef) (v base : List ℕ) (k x bit : ℕ)
    → IsBytes base
    → io_in_range ref bool (length base) ≡ true
    → get_elem? base k ≡ some x
    → bit < 8
    → (k ≢ ref.byte_offset) ⊎ (bit ≢ ref.bit)
    → (y : ℕ) × (get_elem? (io_put ref bool v base) k ≡ some y) × (test_bit y bit ≡ test_bit x bit)
io_put_bool_frame ref v base k x bit b h at small apart = elim (ℕ_discrete k ref.byte_offset) [
  | yes e ↦
      let (bit_ok, off_ok) = in_range_bool ref (length base) h in
      let here : get_elem? base ref.byte_offset ≡ some x = rw (← e) at in
      let w = write_bit x ref.bit (as_bool v) in
      (
        w,
        ap (λ l. get_elem? l k) (io_put_bool ref v base x here)
            ∙ rw e (get_elem?-set_self base ref.byte_offset w off_ok),
        test_bit-write_bit x ref.bit bit (as_bool v) (b.byte k x at) bit_ok small ∙ ground arith,
      )
  | no ne ↦
      let (bit_ok, off_ok) = in_range_bool ref (length base) h in
      let (z, here) = get_elem?-some base ref.byte_offset off_ok in
      (
        x,
        ap (λ l. get_elem? l k) (io_put_bool ref v base z here)
            ∙ get_elem?-set_ne base ref.byte_offset k (write_bit z ref.bit (as_bool v))
                (λ e. ne (sym e))
            ∙ at,
        refl,
      )
]

-- A store to any other tag leaves the bytes outside of the tag's own as they were.
pub io_put_frame :
    (ref : TagIoRef) (type : TagType) (v base : List ℕ) (k : ℕ)
    → type ≢ bool
    → (k < ref.byte_offset) ⊎ (ref.byte_offset + length v ≤ k)
    → get_elem? (io_put ref type v base) k ≡ get_elem? base k
unfolding io_put
io_put_frame ref bool v base k ne outside = absurd (ne refl)
io_put_frame ref _ v base k ne outside = get_elem?-blit_outside base ref.byte_offset v k outside

io_put-IsBytes :
    (ref : TagIoRef) (type : TagType) (v base : List ℕ)
    → IsBytes v
    → IsBytes base
    → io_in_range ref type (length base) ≡ true
    → IsBytes (io_put ref type v base)
unfolding io_put
io_put-IsBytes ref bool v base hv hb h =
    let (bit_ok, off_ok) = in_range_bool ref (length base) h in
    let (x, at) = get_elem?-some base ref.byte_offset off_ok in
    subst IsBytes (sym (io_put_bool ref v base x at)) (
      IsBytes-set base ref.byte_offset (write_bit x ref.bit (as_bool v)) hb
        (write_bit-lt x ref.bit (as_bool v) (hb.byte ref.byte_offset x at) bit_ok))
io_put-IsBytes ref _ v base hv hb h = IsBytes-blit base ref.byte_offset v hb hv

-- Storing a value in the data leaves bytes.
pub write_bytes-IsBytes :
    (ref : TagIoRef) (type : TagType) (v base base' : List ℕ)
    → IsBytes v
    → IsBytes base
    → write_bytes ref type v base ≡ inr base'
    → IsBytes base'
unfolding write_bytes
write_bytes-IsBytes ref type v base base' hv hb h =
    elim (Bool-cases (io_in_range ref type (length base))) [
      | inl within ↦
          let e : io_put ref type v base ≡ base' = ground arith in
          subst IsBytes e (io_put-IsBytes ref type v base hv hb within)
      | inr out ↦ ground arith
    ]

-- Storing a value in the data and reading it back at the same place gives the value.
pub read_bytes-write_bytes :
    (ref : TagIoRef) (type : TagType) (v base base' : List ℕ)
    → IsValue type v
    → IsBytes base
    → write_bytes ref type v base ≡ inr base'
    → (read_bytes ref type base' ≡ (success, v)) × (length base' ≡ length base)
unfolding write_bytes read_bytes
read_bytes-write_bytes ref type v base base' ok b h =
    ground (arith, io_fetch-io_put ref type v base ok b, length-io_put ref type v base)
