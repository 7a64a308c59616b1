-- ===== src/Tcp.antt =====
-- services/tcp/tag_tcp_server.c: clients read and write tags over a socket, one line for a request.
--
-- `isspace` and the conversion `%d` are parameters; the calls of the sockets are results that the
-- functions take.
pub mod Line
pub mod Request
use plcmaster.Prelude.{
  ℕ, zero, suc, ◌+◌, ◌-◌, ◌%◌, ◌^◌, Bool, true, false, ◌&&◌, not, Option, none, some, List, [], ◌∷◌,
  ◌++◌, if◌then◌else◌, ltb, ◌==◌, length, take, CString, str_eq, codes,
}
use plcmaster.Status.{Status, success}
use plcmaster.Rpc
use plcmaster.Rpc.{TagRpcOp, read, write, TagRpcRequest, TagRpcResponse, TagRpcChannel}

-- `TAG_TCP_MAX_LINE`, `sizeof(cmd)`, `TAGRPC_NAME_MAX` and `TAGRPC_VALUE_MAX`
abbrev pub max_line : ℕ
max_line = 512

abbrev pub cmd_size : ℕ
cmd_size = 16

abbrev pub name_max : ℕ
name_max = 64

abbrev pub value_max : ℕ
value_max = 64

-- `snprintf(out, out_len, ...)` of a text
abbrev pub print_to : ℕ → CString → CString
print_to size text = take (size - 1) text

module _ (is_space : ℕ → Bool) where
  unfoldable pub skip_ws : CString → CString
  skip_ws [] = []
  skip_ws (c ∷ s) = let rest = skip_ws s in if is_space c then rest else c ∷ s

  -- The word at the start of a text, and the text behind it.
  unfoldable pub split_word : CString → CString × CString
  split_word [] = ([], [])
  split_word (c ∷ s) =
      let (word, rest) = split_word s in if is_space c then ([], c ∷ s) else (c ∷ word, rest)

  -- `parse_token`: the token, cut to the size of its array, and the cursor; `none` is `false`.
  unfoldable pub parse_token : ℕ → CString → Option (CString × CString)
  unfolding skip_ws split_word
  parse_token size s = elim (skip_ws s) [
    | [] ↦ none
    | c ∷ p ↦
        let (word, rest) = split_word (c ∷ p) in
        elim (take (size - 1) word) [ [] ↦ none | x ∷ xs ↦ some (x ∷ xs, rest) ]
  ]

  -- The request that `handle_request` reads from a line; `none` is the answer `bad_cmd`.
  unfoldable pub parse_request : ℕ → CString → Option TagRpcRequest
  unfolding parse_token str_eq
  parse_request id line = elim (parse_token cmd_size line) [
    | none ↦ none
    | some cmd ↦
        if str_eq cmd.0 (codes "READ")
        then elim (parse_token name_max cmd.1) [
          | none ↦ none
          | some name ↦ some (record { id = id; op = read; name = name.0; value = [] })
        ]
        else if str_eq cmd.0 (codes "WRITE")
        then elim (parse_token name_max cmd.1) [
          | none ↦ none
          | some name ↦ elim (parse_token value_max name.1) [
            | none ↦ none
            | some value ↦ some (record { id = id; op = write; name = name.0; value = value.0 })
          ]
        ]
        else none
  ]

-- `format_response` into an array; `print_status` is the conversion `%d`.
unfoldable pub format_response : (Status → CString) → ℕ → TagRpcResponse → CString
format_response print_status size rsp = print_to size (elim rsp.status [
  | success ↦ elim rsp.type [
    | [] ↦ codes "OK\n"
    | t ∷ ts ↦ elim rsp.value [
      | [] ↦ codes "OK\n"
      | v ∷ vs ↦ codes "OK " ++ (t ∷ ts) ++ codes " " ++ (v ∷ vs) ++ codes "\n"
    ]
  ]
  | _ ↦ elim rsp.msg [
    | [] ↦ codes "ERR " ++ print_status rsp.status ++ codes " error\n"
    | m ∷ ms ↦ codes "ERR " ++ print_status rsp.status ++ codes " " ++ (m ∷ ms) ++ codes "\n"
  ]
])

-- The waiting loop of `handle_request` for the answer to the request `id`. For each round the list says
-- whether the stop flag is set and what the other threads have made of the channel; `none` is a loop that
-- still waits.
unfoldable pub await_response :
    (Status → CString)
    → ℕ
    → List (Bool × (TagRpcChannel → TagRpcChannel))
    → TagRpcChannel
    → TagRpcChannel × Option CString
unfolding format_response Rpc.recv_response
await_response print_status id [] ch = (ch, none)
await_response print_status id (round ∷ rounds) ch =
    let (ch', out) = Rpc.recv_response (round.1 ch) in
    let rest = await_response print_status id rounds ch' in
    if round.0 then (round.1 ch, some (codes "ERR -3 stopping\n")) else elim out [
      | none ↦ rest
      | some rsp ↦
          if rsp.id == id then (ch', some (format_response print_status max_line rsp)) else rest
    ]

-- `handle_request`: the channel, the next id and the answer.
unfoldable pub handle_request :
    (ℕ → Bool)
    → (Status → CString)
    → List (Bool × (TagRpcChannel → TagRpcChannel))
    → ℕ
    → CString
    → TagRpcChannel
    → (TagRpcChannel × ℕ) × Option CString
unfolding parse_request await_response Rpc.send_request
handle_request is_space print_status rounds next_id line ch =
    elim (parse_request is_space next_id line) [
      | none ↦ ((ch, next_id), some (codes "ERR -1 bad_cmd\n"))
      | some req ↦
          let (ch', sent) = Rpc.send_request ch req in
          let next = (next_id + 1) % 2 ^ 32 in
          let (ch'', answer) = await_response print_status next_id rounds ch' in
          if sent then ((ch'', next), answer) else ((ch', next), some (codes "ERR -2 queue_full\n"))
    ]

-- The text in a line buffer: its bytes before the first NUL.
unfoldable pub text_of : List ℕ → CString
text_of [] = []
text_of (c ∷ s) = let rest = text_of s in if c == 0 then [] else c ∷ rest

module _ {State : Type 0} where
  -- The loop of `tag_tcp_server_thread` over the bytes that were received, with the line so far.
  -- `answer` handles a line and sends the answer; `false` means that the send failed, and the client is
  -- closed.
  unfoldable pub feed :
      (CString → State → State × Bool) → List ℕ → List ℕ → State → (State × List ℕ) × Bool
  unfolding text_of
  feed answer [] line s = ((s, line), true)
  feed answer (c ∷ cs) line s =
      let (s', sent) = answer (text_of line) s in
      let next = feed answer cs [] s' in
      let skip = feed answer cs line s in
      let more = feed answer cs (line ++ c ∷ []) s in
      if c == 10
      then if sent then next else ((s', []), false)
      else if c == 13
      then skip
      else if ltb (length line + 1) max_line
      then more
      else skip

  -- The loop of `tag_tcp_server_thread` over the blocks of bytes that `recv` gives for one client, with the
  -- line so far; `false` means that the client was closed.
  unfoldable pub receive :
      (CString → State → State × Bool) → List (List ℕ) → List ℕ → State → (State × List ℕ) × Bool
  unfolding feed
  receive answer [] line s = ((s, line), true)
  receive answer (block ∷ blocks) line s =
      let ((s', line'), open_still) = feed answer block line s in
      let rest = receive answer blocks line' s' in if open_still then rest else ((s', line'), false)
