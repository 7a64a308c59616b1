-- ===== src/Builder/Validate.antt =====
-- The validation of device tags against what the tag access tests later.
use plcmaster.Prelude.{
  ℕ, ◌+◌, ◌^◌, ◌≤◌, ◌<◌, ◌≡◌, ◌≢◌, refl, ap, Option-cases, inl, inr, true, false, some, CString,
  arith,
}
use plcmaster.Tag.{TagType, bool, u8, u16, u32, real, unknown}
use plcmaster.Tag.Value
use plcmaster.Tag.Io.{io_in_range}
use plcmaster.Device.{TagDesc, DeviceDesc}
use plcmaster.Builder.{tag_type_size, io_size_of, validate_at, validate_tag_desc, io_ref}

validate_at-in_range :
    (tag : TagDesc) (size backend_index device_index : ℕ) (type : TagType)
    → tag.type ≡ type
    → tag.offset_byte + tag_type_size type < 2 ^ 32
    → validate_at tag size ≡ true
    → io_in_range (io_ref backend_index device_index tag) type size ≡ true
unfolding validate_at tag_type_size io_in_range Value.tag_type_size
validate_at-in_range tag size b d bool e lt h = ground arith
validate_at-in_range tag size b d u8 e lt h = ground arith
validate_at-in_range tag size b d u16 e lt h = ground arith
validate_at-in_range tag size b d u32 e lt h = ground arith
validate_at-in_range tag size b d real e lt h = ground arith
validate_at-in_range tag size b d (unknown n) e lt h = ground arith

validated_size :
    (tag : TagDesc) (desc : DeviceDesc)
    → validate_tag_desc tag desc ≡ true
    → (size : ℕ) × (io_size_of tag.dir desc ≡ some size) × (validate_at tag size ≡ true)
unfolding validate_tag_desc
validated_size tag desc h = elim (Option-cases tag.name) [
  | inl e ↦ ground arith
  | inr (name, e) ↦ elim (Option-cases (io_size_of tag.dir desc)) [
    | inl e' ↦ ground arith
    | inr (size, e') ↦ (size, e', ground arith)
  ]
]

-- A tag that the builder accepts is in range of its device's data: the test of the tag access against
-- data of the described size succeeds, if the end of the tag does not exceed 32 bits.
pub validate_tag_desc-in_range :
    (tag : TagDesc) (desc : DeviceDesc) (backend_index device_index : ℕ)
    → tag.offset_byte + tag_type_size tag.type < 2 ^ 32
    → validate_tag_desc tag desc ≡ true
    → (size : ℕ) × (io_size_of tag.dir desc ≡ some size)
      × (io_in_range (io_ref backend_index device_index tag) tag.type size ≡ true)
validate_tag_desc-in_range tag desc b d lt h =
    let (size, is, ok) = validated_size tag desc h in
    (size, is, validate_at-in_range tag size b d tag.type refl lt ok)

-- A number whose end does not fit in 32 bits, by no more than the size of its device's data.
pub record Overlong (tag : TagDesc) (size : ℕ) : Type 0 where
  pub number : tag_type_size tag.type ≢ 0
  pub bit : tag.bit_index ≡ 0
  pub some_data : size ≢ 0
  pub data_fits : size < 2 ^ 32
  pub offset_fits : tag.offset_byte < 2 ^ 32
  pub end_wraps : 2 ^ 32 ≤ tag.offset_byte + tag_type_size tag.type
  pub end_small : tag.offset_byte + tag_type_size tag.type ≤ 2 ^ 32 + size

validate_at-wraps :
    (tag : TagDesc) (size b d : ℕ) (type : TagType)
    → tag.type ≡ type
    → Overlong tag size
    → (validate_at tag size ≡ true) × (io_in_range (io_ref b d tag) type size ≡ false)
unfolding validate_at tag_type_size io_in_range Value.tag_type_size
validate_at-wraps tag size b d bool e w = absurd (w.number (ap (λ t. tag_type_size t) e))
validate_at-wraps tag size b d u8 e w =
    let n = w.bit in
    let s = w.some_data in
    let f = w.data_fits in
    let o = w.offset_fits in
    let x = w.end_wraps in let y = w.end_small in (ground arith, ground arith)
validate_at-wraps tag size b d u16 e w =
    let n = w.bit in
    let s = w.some_data in
    let f = w.data_fits in
    let o = w.offset_fits in
    let x = w.end_wraps in let y = w.end_small in (ground arith, ground arith)
validate_at-wraps tag size b d u32 e w =
    let n = w.bit in
    let s = w.some_data in
    let f = w.data_fits in
    let o = w.offset_fits in
    let x = w.end_wraps in let y = w.end_small in (ground arith, ground arith)
validate_at-wraps tag size b d real e w =
    let n = w.bit in
    let s = w.some_data in
    let f = w.data_fits in
    let o = w.offset_fits in
    let x = w.end_wraps in let y = w.end_small in (ground arith, ground arith)
validate_at-wraps tag size b d (unknown n) e w = absurd (w.number (ap (λ t. tag_type_size t) e))

-- Where the end of a number does not fit in 32 bits, by no more than the size of its device's data, the
-- builder accepts the tag, although the tag access refuses it.
pub validate_tag_desc-wraps :
    (tag : TagDesc) (desc : DeviceDesc) (name : CString) (size backend_index device_index : ℕ)
    → tag.name ≡ some name
    → io_size_of tag.dir desc ≡ some size
    → Overlong tag size
    → (validate_tag_desc tag desc ≡ true)
      × (io_in_range (io_ref backend_index device_index tag) tag.type size ≡ false)
unfolding validate_tag_desc
validate_tag_desc-wraps tag desc name size b d named is w =
    let (ok, out) = validate_at-wraps tag size b d tag.type refl w in
    (ground (arith, named, is, ok), out)
