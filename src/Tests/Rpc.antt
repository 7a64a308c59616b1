-- ===== src/Tests/Rpc.antt =====
-- Requests by name, with a C library that knows decimal numbers.
use plcmaster.Prelude.{
  ℕ, ◌+◌, ◌-◌, ◌*◌, ◌%◌, ◌^◌, ◌≡◌, refl, true, some, List, [], ◌∷◌, if◌then◌else◌, ltb, CString,
  codes, str_eq, ◌&&◌, arith,
}
use plcmaster.Prelude.Bits.{le_bytes}
use plcmaster.Status.{success}
use plcmaster.Ring.Refine.{contents}
use plcmaster.Tag.{u16, u32}
use plcmaster.Tag.Value.{tag_type_size, same_type, get_value}
use plcmaster.Tag.Table
use plcmaster.Tag.Resolve.{resolve_left, resolve_entry}
use plcmaster.Tag.Api.{tag_write, write_ref, write_uint}
use plcmaster.Runtime.{Runtime}
use plcmaster.Rpc.{TagRpcRequest, TagRpcResponse, TagRpcChannel, read, write}
use plcmaster.Rpc.Plc.{
  strtoul, Libc, value_response, parse_unsigned, finish_write, done_response, write_text,
  handle_write, handle_request, poll,
}
use plcmaster.Rpc.Plc.Poll.{ChannelValid, serve, queues, poll_refines}
use plcmaster.Rpc.Plc.Trip.{unsigned_u16, read_after_write}
use plcmaster.Tests.Data.{rt, rt-IsStaged, speed_entry, hmi_entry}

-- Decimal digits up to the first other character.
digits : ℕ → CString → ℕ × CString
digits n [] = (n, [])
digits n (c ∷ cs) =
    let more = digits (10 * n + (c - 48)) cs in if ltb 47 c && ltb c 58 then more else (n, c ∷ cs)

abbrev libc : Libc
libc = record {
  tolower = λ c. if ltb 64 c && ltb c 91 then c + 32 else c;
  number = digits 0;
  ulong_max = 2 ^ 32 - 1;
  strtof = digits 0;
  print_unsigned = λ n. (48 + n % 10) ∷ [];
  print_float = λ n. [];
}

abbrev write_req : TagRpcRequest
write_req = record { id = 7; op = write; name = codes "hmi.speed"; value = codes "500" }

abbrev read_req : TagRpcRequest
read_req = record { id = 8; op = read; name = codes "hmi.speed"; value = [] }

value_parsed : strtoul libc (codes "500") ≡ (500, [])
unfolding digits
value_parsed = refl

hmi_entry_got :
    Table.get rt.tag_table (Table.find_id rt.tag_table (codes "hmi.speed")) ≡ some hmi_entry
unfolding Table.find_id Table.find_from Table.get str_eq
hmi_entry_got = refl

speed_resolved :
    resolve_entry rt.tag_table (Table.find_id rt.tag_table (codes "hmi.speed")) true
    ≡ some speed_entry
unfolding Table.find_id Table.find_from Table.get str_eq resolve_entry resolve_left
speed_resolved = refl

request_done : (handle_request libc rt write_req).1.status ≡ success
unfolding digits handle_request handle_write write_text parse_unsigned finish_write done_response
    write_uint le_bytes tag_write tag_type_size write_ref get_value same_type Table.find_id
    Table.find_from Table.get str_eq resolve_entry resolve_left
request_done = refl

read_after_write_example :
    (handle_request libc (handle_request libc rt write_req).0 read_req).1
    ≡ value_response 8 u16 (libc.print_unsigned 500)
read_after_write_example =
    read_after_write libc rt write_req read_req hmi_entry speed_entry 500 2 rt-IsStaged refl refl
      refl hmi_entry_got speed_resolved refl unsigned_u16 (omega arith) value_parsed request_done

abbrev rt_total : Runtime (List ℕ)
rt_total = (write_text libc rt u32 5 (codes "4294967297")).0

-- A channel of two places, with both requests waiting and one response not yet received.
abbrev response : TagRpcResponse
response = record { id = 6; status = success; type = []; value = []; msg = [] }

abbrev channel : TagRpcChannel
channel = record {
  req_q = record {
    storage = write_req ∷ read_req ∷ [];
    capacity = 2;
    read_index = 0;
    write_index = 2;
  };
  rsp_q = record {
    storage = response ∷ response ∷ [];
    capacity = 2;
    read_index = 4;
    write_index = 5;
  };
}

channel-ChannelValid : ChannelValid channel
channel-ChannelValid = record {
  requests = record {
    positive = omega arith;
    cap_fits = omega arith;
    divides = omega arith;
    stored = omega arith;
    read_fits = omega arith;
    write_fits = omega arith;
    bounded = omega arith;
  };
  responses = record {
    positive = omega arith;
    cap_fits = omega arith;
    divides = omega arith;
    stored = omega arith;
    read_fits = omega arith;
    write_fits = omega arith;
    bounded = omega arith;
  };
}

poll_refines_example :
    let (ch', rt') = poll libc 16 channel rt in
    ((queues ch', rt') ≡ serve libc 2 16 (contents channel.req_q) (contents channel.rsp_q) rt)
    × ChannelValid ch'
poll_refines_example = poll_refines libc 16 channel rt channel-ChannelValid
