-- ===== src/Tag/Api/Typed.antt =====
-- The typed readers and writers, and the table under a write.
use mathlib.Core.Path.{subst}
use plcmaster.Prelude.{
  ℕ, ◌<◌, ◌^◌, ◌≡◌, inl, inr, refl, sym, ◌∙◌, ap, Bool, true, false, not, Option-cases, Option,
  none, some, List, take, blit, blit-all, if◌then◌else◌, ◌==◌, arith,
}
use plcmaster.Prelude.Bits.{
  le_bytes, le_value, length-le_bytes, le_value-le_bytes, le_bytes-IsBytes,
}
use plcmaster.Status.{success}
use plcmaster.Tag.{TagType, bool, u8, u16, u32, real, TagEntry}
use plcmaster.Tag.Value.{tag_type_size}
use plcmaster.Tag.Resolve.{resolve_entry}
use plcmaster.Tag.Io.Laws.{IsValue}
use plcmaster.Tag.Io.Driver.{IsStaged}
use plcmaster.Tag.Api.{tag_read, tag_write, read_uint, write_uint, tag_read_bool, tag_write_bool}
use plcmaster.Tag.Api.Laws.{tag_read-tag_write, write_ref-table}
use plcmaster.Runtime.{Runtime}

-- The types whose values are numbers of `n` bytes; a `float` counts by its bit pattern.
pub data IsNumber : TagType → ℕ → Type 0 where
  number_u8 : IsNumber u8 1
  number_u16 : IsNumber u16 2
  number_u32 : IsNumber u32 4
  number_real : IsNumber real 4

IsNumber-IsValue : {type : TagType} {n : ℕ} (v : ℕ) → IsNumber type n → IsValue type (le_bytes n v)
IsNumber-IsValue v number_u8 = length-le_bytes 1 v
IsNumber-IsValue v number_u16 = length-le_bytes 2 v
IsNumber-IsValue v number_u32 = length-le_bytes 4 v
IsNumber-IsValue v number_real = length-le_bytes 4 v

-- A `bool` in memory.
abbrev bool_bytes : Bool → List ℕ
bool_bytes v = le_bytes 1 (if v then 1 else 0)

bool_bytes-IsValue : (v : Bool) → IsValue bool (bool_bytes v)
unfolding le_bytes
bool_bytes-IsValue true = inr refl
bool_bytes-IsValue false = inl refl

bool_back : (v : Bool) → not (le_value (bool_bytes v) == 0) ≡ v
unfolding le_bytes le_value
bool_back true = refl
bool_back false = refl

module _ {Impl : Type 0} where
  -- No `tag_write`, successful or not, changes the tag table.
  pub tag_write-table :
      (rt : Runtime Impl) (id : ℕ) (v : Option (List ℕ))
      → (tag_write rt id v).0.tag_table ≡ rt.tag_table
  unfolding tag_write
  tag_write-table rt id none = refl
  tag_write-table rt id (some v) = elim (Option-cases (resolve_entry rt.tag_table id true)) [
    | inl null ↦ ground arith
    | inr (e, at) ↦ ground (arith, write_ref-table rt e.ref e.type (take (tag_type_size e.type) v))
  ]

  -- A number of `n` bytes that a typed writer stored with success, in a tag of a type of `n` bytes, is the
  -- one that the reader of the same width then returns, whatever the reader's variable held before.
  pub read_uint-write_uint :
      (rt rt' : Runtime Impl) (id n v old : ℕ) (e : TagEntry)
      → IsStaged rt
      → resolve_entry rt.tag_table id true ≡ some e
      → IsNumber e.type n
      → v < 256 ^ n
      → write_uint n rt id v ≡ (rt', success)
      → (read_uint n rt' id old).1 ≡ (success, v)
  unfolding read_uint write_uint
  read_uint-write_uint rt rt' id n v old e st at num small h =
      let whole =
        tag_read-tag_write rt rt' id e (le_bytes n v) st at (IsNumber-IsValue v num)
          (le_bytes-IsBytes n v) h in
      let again : (tag_read rt' id (some n)).1 ≡ (success, le_bytes n v) =
        ap (λ k. (tag_read rt' id (some k)).1) (sym (length-le_bytes n v)) ∙ whole in
      ap (λ p. (p.0, le_value (blit (le_bytes n old) 0 p.1))) again
      ∙ ap (λ l. (success, le_value l))
          (blit-all (le_bytes n old) (le_bytes n v)
            (length-le_bytes n v ∙ sym (length-le_bytes n old)))
      ∙ ap (λ k. (success, k)) (le_value-le_bytes n v small)

  -- The Boolean that `tag_write_bool` stored in a BOOL tag with success is the one that `tag_read_bool` of
  -- the same id then returns, whatever the reader's variable held before.
  pub tag_read_bool-tag_write_bool :
      (rt rt' : Runtime Impl) (id : ℕ) (v old : Bool) (e : TagEntry)
      → IsStaged rt
      → resolve_entry rt.tag_table id true ≡ some e
      → e.type ≡ bool
      → tag_write_bool rt id v ≡ (rt', success)
      → (tag_read_bool rt' id old).1 ≡ (success, v)
  unfolding tag_read_bool tag_write_bool read_uint write_uint le_bytes le_value
  tag_read_bool-tag_write_bool rt rt' id v old e st at is h =
      let ok = subst (λ t. IsValue t (bool_bytes v)) (sym is) (bool_bytes-IsValue v) in
      let whole =
        tag_read-tag_write rt rt' id e (bool_bytes v) st at ok
          (le_bytes-IsBytes 1 (if v then 1 else 0)) h in
      ap (λ p. (p.0, not (le_value (blit (le_bytes 1 (if old then 1 else 0)) 0 p.1) == 0))) whole
      ∙ ap (λ b. (success, b)) (bool_back v)
