-- ===== src/Rpc/Plc/Trip.antt =====
-- Numbers that travel as text: a WRITE request and the READ request after it.
use mathlib.Core.Path.{subst}
use native.Mathlib.Nat.{mod-eq_of_lt}
use plcmaster.Prelude.{
  ℕ, ◌-◌, ◌%◌, ◌^◌, ◌≤◌, ◌<◌, ◌≡◌, refl, sym, ◌∙◌, ap, true, some, [], CString, arith,
}
use plcmaster.Status.{Status, success, failed, erange}
use plcmaster.Tag.{TagType, u8, u16, u32, TagEntry}
use plcmaster.Tag.Table
use plcmaster.Tag.Table.Lookup.{get-zero}
use plcmaster.Tag.Resolve.{resolve_entry}
use plcmaster.Tag.Io.Driver.{IsStaged}
use plcmaster.Tag.Api.{write_uint}
use plcmaster.Tag.Api.Typed.{read_uint-write_uint, IsNumber, number_u8, number_u16, number_u32}
use plcmaster.Runtime.{Runtime}
use plcmaster.Rpc.{TagRpcRequest, read, write}
use plcmaster.Rpc.Plc.{
  strtoul, Libc, error_response, value_response, finish_read, finish_write, read_text, handle_read,
  parse_unsigned, write_text, handle_write, handle_request,
}
use plcmaster.Rpc.Plc.Laws.{write_text-table}

-- The types that are parsed by `strtoul`, with their bytes.
pub data IsUnsigned : TagType → ℕ → Type 0 where
  unsigned_u8 : IsUnsigned u8 1
  unsigned_u16 : IsUnsigned u16 2
  unsigned_u32 : IsUnsigned u32 4

parse_fits :
    (libc : Libc) (most v : ℕ) (text : CString)
    → strtoul libc text ≡ (v, [])
    → v < most
    → parse_unsigned libc (most - 1) text ≡ (success, v)
unfolding parse_unsigned
parse_fits libc most v text h lt = ground arith

finish_write-ok : (id : ℕ) (rc : Status) → (finish_write id rc).status ≡ success → rc ≡ success
unfolding finish_write error_response
finish_write-ok id success h = refl
finish_write-ok id failed h = cc
finish_write-ok id _ h = cc

module _ (libc : Libc) {Impl : Type 0} where
  -- A text that is a number too large for a U8 or a U16 tag is refused with -ERANGE, and nothing is written.
  pub write_text_range :
      (rt : Runtime Impl) (id v : ℕ) (text : CString)
      → strtoul libc text ≡ (v, [])
      → (2 ^ 8 ≤ v → write_text libc rt u8 id text ≡ (rt, erange))
        × (2 ^ 16 ≤ v → write_text libc rt u16 id text ≡ (rt, erange))
  unfolding write_text parse_unsigned
  write_text_range rt id v text h = (λ big. ground arith, λ big. ground arith)

  write_text_u32 :
      (rt rt' : Runtime Impl) (id v : ℕ) (text : CString) (e : TagEntry)
      → IsStaged rt
      → resolve_entry rt.tag_table id true ≡ some e
      → e.type ≡ u32
      → strtoul libc text ≡ (v, [])
      → write_text libc rt u32 id text ≡ (rt', success)
      → (read_text libc rt' u32 id).1 ≡ (success, libc.print_unsigned (v % 2 ^ 32))
  unfolding write_text read_text
  write_text_u32 rt rt' id v text e st at is parsed h =
      let wrote : write_uint 4 rt id (v % 2 ^ 32) ≡ (rt', success) = ground arith in
      let num = subst (λ t. IsNumber t 4) (sym is) number_u32 in
      ap (λ p. (p.0, libc.print_unsigned p.1))
        (read_uint-write_uint rt rt' id 4 (v % 2 ^ 32) 0 e st at num (omega arith) wrote)

  text_trip :
      (rt rt' : Runtime Impl) (id v n : ℕ) (text : CString) (e : TagEntry) {type : TagType}
      → IsUnsigned type n
      → IsStaged rt
      → resolve_entry rt.tag_table id true ≡ some e
      → e.type ≡ type
      → v < 256 ^ n
      → strtoul libc text ≡ (v, [])
      → write_text libc rt type id text ≡ (rt', success)
      → (read_text libc rt' type id).1 ≡ (success, libc.print_unsigned v)
  unfolding write_text read_text
  text_trip rt rt' id v n text e unsigned_u8 st at is small parsed h =
      let fits = parse_fits libc 256 v text parsed small in
      let same : v % 2 ^ 8 ≡ v = omega arith in
      let wrote : write_uint 1 rt id v ≡ (rt', success) = ground arith in
      ap (λ p. (p.0, libc.print_unsigned p.1))
        (read_uint-write_uint rt rt' id 1 v 0 e st at (subst (λ t. IsNumber t 1) (sym is) number_u8)
          small wrote)
  text_trip rt rt' id v n text e unsigned_u16 st at is small parsed h =
      let fits = parse_fits libc 65536 v text parsed small in
      let same : v % 2 ^ 16 ≡ v = omega arith in
      let wrote : write_uint 2 rt id v ≡ (rt', success) = ground arith in
      ap (λ p. (p.0, libc.print_unsigned p.1))
        (read_uint-write_uint rt rt' id 2 v 0 e st at
          (subst (λ t. IsNumber t 2) (sym is) number_u16) small wrote)
  text_trip rt rt' id v n text e unsigned_u32 st at is small parsed h =
      write_text_u32 rt rt' id v text e st at is parsed h
      ∙ ap (λ k. (success, libc.print_unsigned k)) (mod-eq_of_lt small)

  request_write :
      (rt : Runtime Impl) (req : TagRpcRequest) (entry : TagEntry) (id : ℕ)
      → Table.find_id rt.tag_table req.name ≡ id
      → Table.get rt.tag_table id ≡ some entry
      → req.op ≡ write
      → handle_request libc rt req ≡ handle_write libc rt entry req.id id req.value
  unfolding handle_request
  request_write rt req entry id found got op = ground (arith, get-zero rt.tag_table)

  request_read :
      (rt : Runtime Impl) (req : TagRpcRequest) (entry : TagEntry) (id : ℕ)
      → Table.find_id rt.tag_table req.name ≡ id
      → Table.get rt.tag_table id ≡ some entry
      → req.op ≡ read
      → handle_request libc rt req ≡ handle_read libc rt entry req.id id
  unfolding handle_request
  request_read rt req entry id found got op = ground (arith, get-zero rt.tag_table)

  handle_write_inv :
      (rt : Runtime Impl) (entry : TagEntry) (req_id id : ℕ) (text : CString)
      → (handle_write libc rt entry req_id id text).1.status ≡ success
      → write_text libc rt entry.type id text
        ≡ ((handle_write libc rt entry req_id id text).0, success)
  unfolding handle_write
  handle_write_inv rt entry req_id id text h =
      let rc = finish_write-ok req_id (write_text libc rt entry.type id text).1 h in
      ap (λ s. ((write_text libc rt entry.type id text).0, s)) rc

  handle_read_ok :
      (rt : Runtime Impl) (entry : TagEntry) (req_id id : ℕ) (text : CString)
      → (read_text libc rt entry.type id).1 ≡ (success, text)
      → (handle_read libc rt entry req_id id).1 ≡ value_response req_id entry.type text
  unfolding handle_read finish_read
  handle_read_ok rt entry req_id id text h = ap (finish_read req_id entry.type) h

  -- Where a WRITE request with a number that the tag's unsigned type holds is answered by status 0, a READ
  -- request of the same name is answered by the tag's type and the same number, printed. The tag has the
  -- type of the tag that it is an alias of, and the drivers keep what is written to their output data.
  pub read_after_write :
      (rt : Runtime Impl) (wreq rreq : TagRpcRequest) (entry e : TagEntry) (v n : ℕ)
      → IsStaged rt
      → wreq.op ≡ write
      → rreq.op ≡ read
      → rreq.name ≡ wreq.name
      → Table.get rt.tag_table (Table.find_id rt.tag_table wreq.name) ≡ some entry
      → resolve_entry rt.tag_table (Table.find_id rt.tag_table wreq.name) true ≡ some e
      → e.type ≡ entry.type
      → IsUnsigned entry.type n
      → v < 256 ^ n
      → strtoul libc wreq.value ≡ (v, [])
      → (handle_request libc rt wreq).1.status ≡ success
      → (handle_request libc (handle_request libc rt wreq).0 rreq).1
        ≡ value_response rreq.id entry.type (libc.print_unsigned v)
  read_after_write rt wreq rreq entry e v n st wop rop same got at is num small parsed h =
      let id = Table.find_id rt.tag_table wreq.name in
      let wrote = request_write rt wreq entry id refl got wop in
      let rt' = (handle_write libc rt entry wreq.id id wreq.value).0 in
      let text =
        handle_write_inv rt entry wreq.id id wreq.value (ap (λ p. p.1.status) (sym wrote) ∙ h) in
      let table : rt'.tag_table ≡ rt.tag_table =
        ap (λ p. p.0.tag_table) (sym text) ∙ write_text-table libc rt entry.type id wreq.value in
      let found : Table.find_id rt'.tag_table rreq.name ≡ id =
        ap (λ t. Table.find_id t rreq.name) table ∙ ap (Table.find_id rt.tag_table) same in
      let answer =
        request_read rt' rreq entry id found (ap (λ t. Table.get t id) table ∙ got) rop in
      ap (λ p. (handle_request libc p.0 rreq).1) wrote
      ∙ ap (λ p. p.1) answer
      ∙ handle_read_ok rt' entry rreq.id id (libc.print_unsigned v)
          (text_trip rt rt' id v n wreq.value e num st at is small parsed text)
