-- ===== src/Tag.antt =====
-- core/tag and core/device/device_desc.h: the types of tags, the tag table, and access by id.
pub mod Table
pub mod Value
pub mod Resolve
pub mod Io
pub mod Api
use plcmaster.Prelude.{ℕ, Option, CString}

-- `TagType_t`; `unknown` is any value outside the enumeration.
pub data TagType : Type 0 where
  bool u8 u16 u32 real : TagType
  unknown : ℕ → TagType

-- `TagDir_t`
pub data TagDir : Type 0 where
  input output : TagDir
  other : ℕ → TagDir

-- `TagIORef_t`
pub record TagIoRef : Type 0 where
  pub device_index : ℕ
  pub backend_index : ℕ
  pub dir : TagDir
  pub byte_offset : ℕ
  pub bit : ℕ

-- `TagProcRef_t`
pub record TagProcRef : Type 0 where
  pub index : ℕ

-- `TagHmiAliasRef_t`; `TagId_t` is a number, 0 for no tag.
pub record TagHmiAliasRef : Type 0 where
  pub target : ℕ
  pub access : ℕ

-- `TagHmiVarRef_t`
pub record TagHmiVarRef : Type 0 where
  pub index : ℕ
  pub access : ℕ

-- `TagKind_t` with the member of the union `ref` that the kind selects; `invalid` is TAGK_INVALID and
-- any value outside the enumeration, for which no member is read.
pub data TagRef : Type 0 where
  invalid : TagRef
  io : TagIoRef → TagRef
  proc : TagProcRef → TagRef
  hmi_alias : TagHmiAliasRef → TagRef
  hmi_var : TagHmiVarRef → TagRef

-- `TagEntry_t`; `full_name` is `none` for NULL. In a table it points at the entry's own storage.
pub record TagEntry : Type 0 where
  pub full_name : Option CString
  pub type : TagType
  pub ref : TagRef
