-- ===== src/Rpc/Plc.antt =====
-- core/ipc/tag_rpc_plc.c: the PLC cycle serves the requests of the channel.
pub mod Laws
pub mod Poll
pub mod Trip
use plcmaster.Prelude.{
  ℕ, zero, suc, ◌-◌, ◌%◌, ◌^◌, Bool, true, false, Option, none, some, List, [], ◌∷◌, if◌then◌else◌,
  ltb, ◌==◌, take, CString, str_eq, codes,
}
use plcmaster.Status.{Status, success, failed, einval, erange, enoent}
use plcmaster.Tag.{TagType, bool, u8, u16, u32, real, unknown, TagEntry}
use plcmaster.Tag.Table
use plcmaster.Tag.Api.{
  tag_read_bool, tag_read_u8, tag_read_u16, tag_read_u32, tag_read_real, tag_write_bool,
  tag_write_u8, tag_write_u16, tag_write_u32, tag_write_real,
}
use plcmaster.Runtime.{Runtime}
use plcmaster.Rpc
use plcmaster.Rpc.{TagRpcOp, read, write, other, TagRpcRequest, TagRpcResponse, TagRpcChannel}

-- What the handlers use of the C library. `number` is the number that `strtoul` (base 0) reads, before it
-- is cut to the range of `unsigned long`, with the text at `endptr`; `ulong_max` is `ULONG_MAX`, which has
-- 32 or 64 bits. `strtof` gives the value and the text at `endptr`; a `float` is its bit pattern. `print_unsigned` is the conversion `%u`, `print_float` is
-- `%f`.
pub record Libc : Type 0 where
  pub tolower : ℕ → ℕ
  pub number : CString → ℕ × CString
  pub ulong_max : ℕ
  pub strtof : CString → ℕ × CString
  pub print_unsigned : ℕ → CString
  pub print_float : ℕ → CString

-- `sizeof(rsp->type)`, `sizeof(rsp->value)` and `sizeof(rsp->msg)`
abbrev pub type_size : ℕ
type_size = 16

abbrev pub value_size : ℕ
value_size = 64

abbrev pub msg_size : ℕ
msg_size = 64

-- `snprintf(field, size, "%s", text)` for a nonempty field
unfoldable pub copy_text : ℕ → CString → CString
copy_text size text = take (size - 1) text

unfoldable pub tag_type_to_string : TagType → CString
tag_type_to_string bool = codes "BOOL"
tag_type_to_string u8 = codes "U8"
tag_type_to_string u16 = codes "U16"
tag_type_to_string u32 = codes "U32"
tag_type_to_string real = codes "REAL"
tag_type_to_string (unknown n) = codes "UNKNOWN"

-- `strtoul`: a number beyond the range of `unsigned long` gives `ULONG_MAX`.
abbrev pub strtoul : Libc → CString → ℕ × CString
strtoul libc text =
    let (n, rest) = libc.number text in ((if ltb libc.ulong_max n then libc.ulong_max else n), rest)

module _ (libc : Libc) where
  unfoldable pub str_eq_nocase : CString → CString → Bool
  str_eq_nocase [] [] = true
  str_eq_nocase [] (y ∷ b) = false
  str_eq_nocase (x ∷ a) [] = false
  str_eq_nocase (x ∷ a) (y ∷ b) =
      let rest = str_eq_nocase a b in if libc.tolower x == libc.tolower y then rest else false

  -- `parse_bool_value`; `none` is the return value -EINVAL.
  unfoldable pub parse_bool_value : CString → Option Bool
  parse_bool_value value =
      if str_eq value (codes "0")
      then some false
      else if str_eq value (codes "1")
      then some true
      else if str_eq_nocase value (codes "true")
      then some true
      else if str_eq_nocase value (codes "false")
      then some false
      else none

  -- An unsigned value that must end the text and be at most `most`.
  unfoldable pub parse_unsigned : ℕ → CString → Status × ℕ
  parse_unsigned most value =
      let (v, rest) = strtoul libc value in
      elim rest [ c ∷ cs ↦ (einval, 0) | [] ↦ if ltb most v then (erange, 0) else (success, v) ]

-- `set_error_response`
unfoldable pub error_response : ℕ → Status → CString → TagRpcResponse
error_response id status msg = record {
  id = id;
  status = status;
  type = [];
  value = [];
  msg = copy_text msg_size msg;
}

-- The response that `handle_read` fills in where the read succeeds.
unfoldable pub value_response : ℕ → TagType → CString → TagRpcResponse
value_response id type text = record {
  id = id;
  status = success;
  type = copy_text type_size (tag_type_to_string type);
  value = copy_text value_size text;
  msg = [];
}

-- The response that `handle_write` leaves where the write succeeds.
unfoldable pub done_response : ℕ → TagRpcResponse
done_response id = record { id = id; status = success; type = []; value = []; msg = [] }

-- The end of `handle_read`, on the value that was read as text.
unfoldable pub finish_read : ℕ → TagType → Status × CString → TagRpcResponse
finish_read id type (success, text) = value_response id type text
finish_read id type (rc, text) = error_response id rc (codes "read_failed")

-- The end of `handle_write`.
unfoldable pub finish_write : ℕ → Status → TagRpcResponse
finish_write id success = done_response id
finish_write id rc = error_response id rc (codes "write_failed")

module _ (libc : Libc) {Impl : Type 0} where
  -- The switch of `handle_read`: the status and the value as text. The local variables start at 0.
  unfoldable pub read_text : Runtime Impl → TagType → ℕ → Runtime Impl × (Status × CString)
  read_text rt bool id =
      let (rt', (rc, v)) = tag_read_bool rt id false in
      (rt', (rc, if v then codes "1" else codes "0"))
  read_text rt u8 id =
      let (rt', (rc, v)) = tag_read_u8 rt id 0 in (rt', (rc, libc.print_unsigned v))
  read_text rt u16 id =
      let (rt', (rc, v)) = tag_read_u16 rt id 0 in (rt', (rc, libc.print_unsigned v))
  read_text rt u32 id =
      let (rt', (rc, v)) = tag_read_u32 rt id 0 in (rt', (rc, libc.print_unsigned v))
  read_text rt real id =
      let (rt', (rc, v)) = tag_read_real rt id 0 in (rt', (rc, libc.print_float v))
  read_text rt (unknown n) id = (rt, (einval, []))

  unfoldable pub handle_read : Runtime Impl → TagEntry → ℕ → ℕ → Runtime Impl × TagRpcResponse
  handle_read rt entry req_id tag_id =
      let (rt', answer) = read_text rt entry.type tag_id in
      (rt', finish_read req_id entry.type answer)

  abbrev write_parsed :
      Runtime Impl → Status × ℕ → (ℕ → Runtime Impl × Status) → Runtime Impl × Status
  write_parsed rt (success, v) put = put v
  write_parsed rt (rc, v) put = (rt, rc)

  -- The switch of `handle_write`. The case of U32 has no range test: the value is cut to 32 bits.
  unfoldable pub write_text : Runtime Impl → TagType → ℕ → CString → Runtime Impl × Status
  write_text rt bool id value = elim (parse_bool_value libc value) [
    | none ↦ (rt, einval)
    | some v ↦ tag_write_bool rt id v
  ]
  write_text rt u8 id value =
      write_parsed rt (parse_unsigned libc 0xff value) (λ v. tag_write_u8 rt id (v % 2 ^ 8))
  write_text rt u16 id value =
      write_parsed rt (parse_unsigned libc 0xffff value) (λ v. tag_write_u16 rt id (v % 2 ^ 16))
  write_text rt u32 id value =
      let (v, rest) = strtoul libc value in
      elim rest [ c ∷ cs ↦ (rt, einval) | [] ↦ tag_write_u32 rt id (v % 2 ^ 32) ]
  write_text rt real id value =
      let (v, rest) = libc.strtof value in
      elim rest [ c ∷ cs ↦ (rt, einval) | [] ↦ tag_write_real rt id v ]
  write_text rt (unknown n) id value = (rt, einval)

  unfoldable pub handle_write :
      Runtime Impl → TagEntry → ℕ → ℕ → CString → Runtime Impl × TagRpcResponse
  handle_write rt entry req_id tag_id value =
      let (rt', rc) = write_text rt entry.type tag_id value in (rt', finish_write req_id rc)

  -- The body of the loop of `tag_rpc_plc_poll` for one request that was received.
  unfoldable pub handle_request : Runtime Impl → TagRpcRequest → Runtime Impl × TagRpcResponse
  handle_request rt req =
      let id = Table.find_id rt.tag_table req.name in
      if id == 0
      then (rt, error_response req.id enoent (codes "tag_not_found"))
      else elim (Table.get rt.tag_table id) [
        | none ↦ (rt, error_response req.id enoent (codes "tag_not_found"))
        | some entry ↦ elim req.op [
          | read ↦ handle_read rt entry req.id id
          | write ↦ handle_write rt entry req.id id req.value
          | other n ↦ (rt, error_response req.id einval (codes "bad_op"))
        ]
      ]

  -- `tag_rpc_plc_poll` with `left` requests to go, which is `max_per_cycle - handled`. A response for
  -- which the ring has no room is dropped.
  unfoldable pub poll : ℕ → TagRpcChannel → Runtime Impl → TagRpcChannel × Runtime Impl
  poll zero ch rt = (ch, rt)
  poll (suc left) ch rt =
      let (ch', received) = Rpc.recv_request ch in
      elim received [
        | none ↦ (ch', rt)
        | some req ↦
            let (rt', rsp) = handle_request rt req in poll left (Rpc.send_response ch' rsp).0 rt'
      ]
