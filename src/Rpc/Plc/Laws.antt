-- ===== src/Rpc/Plc/Laws.antt =====
-- What a client learns from the response to one request.
use plcmaster.Prelude.{
  ℕ, ◌%◌, ◌^◌, ◌≡◌, ◌≢◌, inl, inr, refl, Option-cases, some, CString, codes, if◌then◌else◌, arith,
}
use plcmaster.Prelude.Bits.{le_bytes}
use plcmaster.Status.{Status, success, enoent}
use plcmaster.Tag.{TagType, bool, u8, u16, u32, real, unknown, TagEntry}
use plcmaster.Tag.Table
use plcmaster.Tag.Io.Frame.{SameData, SameData-refl}
use plcmaster.Tag.Api.{read_uint, write_uint, tag_read_bool, tag_write_bool}
use plcmaster.Tag.Api.Laws.{tag_read-SameData}
use plcmaster.Tag.Api.Typed.{tag_write-table}
use plcmaster.Runtime.{Runtime}
use plcmaster.Rpc.{write, TagRpcRequest}
use plcmaster.Rpc.Plc.{
  strtoul, Libc, write_parsed, error_response, value_response, done_response, finish_read,
  finish_write, read_text, handle_read, parse_unsigned, write_text, handle_write, handle_request,
  parse_bool_value,
}

finish_read-id : (id : ℕ) (type : TagType) (a : Status × CString) → (finish_read id type a).id ≡ id
unfolding finish_read value_response error_response
finish_read-id id type (success, text) = refl
finish_read-id id type (_, text) = refl

finish_write-id : (id : ℕ) (rc : Status) → (finish_write id rc).id ≡ id
unfolding finish_write done_response error_response
finish_write-id id success = refl
finish_write-id id _ = refl

module _ {Impl : Type 0} where
  write_parsed-table :
      (libc : Libc) (rt : Runtime Impl) (p : Status × ℕ) (put : ℕ → Runtime Impl × Status)
      → ((v : ℕ) → (put v).0.tag_table ≡ rt.tag_table)
      → (write_parsed libc rt p put).0.tag_table ≡ rt.tag_table
  write_parsed-table libc rt (success, v) put h = h v
  write_parsed-table libc rt (_, v) put h = refl

module _ (libc : Libc) {Impl : Type 0} where
  handle_read-id :
      (rt : Runtime Impl) (e : TagEntry) (req_id id : ℕ)
      → (handle_read libc rt e req_id id).1.id ≡ req_id
  unfolding handle_read
  handle_read-id rt e req_id id = finish_read-id req_id e.type (read_text libc rt e.type id).1

  handle_write-id :
      (rt : Runtime Impl) (e : TagEntry) (req_id id : ℕ) (value : CString)
      → (handle_write libc rt e req_id id value).1.id ≡ req_id
  unfolding handle_write
  handle_write-id rt e req_id id value =
      finish_write-id req_id (write_text libc rt e.type id value).1

  -- The response to a request carries the request's id, on every path through the handlers.
  pub id-handle_request :
      (rt : Runtime Impl) (req : TagRpcRequest) → (handle_request libc rt req).1.id ≡ req.id
  unfolding handle_request error_response
  id-handle_request rt req =
      elim (Option-cases (Table.get rt.tag_table (Table.find_id rt.tag_table req.name))) [
        | inl null ↦ ground arith
        | inr (e, at) ↦
            let id = Table.find_id rt.tag_table req.name in
            ground (arith, handle_read-id rt e req.id id, handle_write-id rt e req.id id req.value)
      ]

  read_text-SameData :
      (rt : Runtime Impl) (type : TagType) (id : ℕ) → SameData rt (read_text libc rt type id).0
  unfolding read_text read_uint tag_read_bool
  read_text-SameData rt bool id = tag_read-SameData rt id (some 1)
  read_text-SameData rt u8 id = tag_read-SameData rt id (some 1)
  read_text-SameData rt u16 id = tag_read-SameData rt id (some 2)
  read_text-SameData rt u32 id = tag_read-SameData rt id (some 4)
  read_text-SameData rt real id = tag_read-SameData rt id (some 4)
  read_text-SameData rt (unknown n) id = SameData-refl rt

  handle_read-SameData :
      (rt : Runtime Impl) (e : TagEntry) (req_id id : ℕ)
      → SameData rt (handle_read libc rt e req_id id).0
  unfolding handle_read
  handle_read-SameData rt e req_id id = read_text-SameData rt e.type id

  -- A request that is no WRITE changes no tag, no process value and no HMI value.
  pub handle_request-SameData :
      (rt : Runtime Impl) (req : TagRpcRequest)
      → req.op ≢ write
      → SameData rt (handle_request libc rt req).0
  unfolding handle_request
  handle_request-SameData rt req ne =
      elim (Option-cases (Table.get rt.tag_table (Table.find_id rt.tag_table req.name))) [
        | inl null ↦ ground (arith, SameData-refl rt)
        | inr (e, at) ↦
            let id = Table.find_id rt.tag_table req.name in
            ground (arith, SameData-refl rt, handle_read-SameData rt e req.id id)
      ]

  -- A request for a name that the table does not hold is answered by `-ENOENT`, and changes nothing.
  pub handle_request_unknown :
      (rt : Runtime Impl) (req : TagRpcRequest)
      → Table.find_id rt.tag_table req.name ≡ 0
      → handle_request libc rt req ≡ (rt, error_response req.id enoent (codes "tag_not_found"))
  unfolding handle_request
  handle_request_unknown rt req h = rw h

  pub write_text-table :
      (rt : Runtime Impl) (type : TagType) (id : ℕ) (value : CString)
      → (write_text libc rt type id value).0.tag_table ≡ rt.tag_table
  unfolding write_text write_uint tag_write_bool
  write_text-table rt bool id value = elim (Option-cases (parse_bool_value libc value)) [
    | inl bad ↦ ground arith
    | inr (v, e) ↦ ground (arith, tag_write-table rt id (some (le_bytes 1 (if v then 1 else 0))))
  ]
  write_text-table rt u8 id value =
      write_parsed-table libc rt (parse_unsigned libc 0xff value) _ (λ v. tag_write-table rt id _)
  write_text-table rt u16 id value =
      write_parsed-table libc rt (parse_unsigned libc 0xffff value) _ (λ v. tag_write-table rt id _)
  write_text-table rt u32 id value =
      ground (arith, tag_write-table rt id (some (le_bytes 4 ((strtoul libc value).0 % 2 ^ 32))))
  write_text-table rt real id value =
      ground (arith, tag_write-table rt id (some (le_bytes 4 (libc.strtof value).0)))
  write_text-table rt (unknown n) id value = refl
