-- ===== src/Device.antt =====
-- core/device/device_desc.h and the device part of app/config/config_static.h: what a device model
-- offers, and what the configuration says of one device.
use plcmaster.Prelude.{ℕ, Option, List, CString}
use plcmaster.Tag.{TagType, TagDir}

-- `TagDesc_t`; a string is `none` for NULL.
pub record TagDesc : Type 0 where
  pub name : Option CString
  pub dir : TagDir
  pub type : TagType
  pub offset_byte : ℕ
  pub bit_index : ℕ
  pub iec_alias : Option CString
  pub comment : Option CString

-- `DeviceHooks_t`; a function pointer is its address, `none` for NULL.
pub record DeviceHooks : Type 0 where
  pub on_init : Option ℕ
  pub on_update : Option ℕ
  pub on_shutdown : Option ℕ

-- `DeviceDesc_t`; `tags` has `tag_count` elements.
pub record DeviceDesc : Type 0 where
  pub model : Option CString
  pub vendor_id : ℕ
  pub product_code : ℕ
  pub rx_bytes : ℕ
  pub tx_bytes : ℕ
  pub tags : List TagDesc
  pub hooks : DeviceHooks

-- `DeviceConfig_t`
pub record DeviceConfig : Type 0 where
  pub name : Option CString
  pub model : Option CString
  pub backend : Option CString
  pub expected_position : ℕ
  pub io_addr : ℕ
  pub vendor_id : ℕ
  pub product_code : ℕ
