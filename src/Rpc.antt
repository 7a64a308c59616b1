-- ===== src/Rpc.antt =====
-- core/ipc/tag_rpc.h and tag_rpc.c: the request and response records, and the channel of two rings
-- between a client thread and the PLC cycle.
pub mod Plc
use plcmaster.Prelude.{ℕ, Bool, true, false, Option, none, some, List, length, CString}
use plcmaster.Ring
use plcmaster.Ring.{SpscRing}
use plcmaster.Status.{Status}

-- `TagRpcOp_t`; `other` is any value outside the enumeration.
pub data TagRpcOp : Type 0 where
  read write : TagRpcOp
  other : ℕ → TagRpcOp

-- `TagRpcRequest_t`; the two character arrays hold terminated strings.
pub record TagRpcRequest : Type 0 where
  pub id : ℕ
  pub op : TagRpcOp
  pub name : CString
  pub value : CString

-- `TagRpcResponse_t`
pub record TagRpcResponse : Type 0 where
  pub id : ℕ
  pub status : Status
  pub type : CString
  pub value : CString
  pub msg : CString

-- `TagRpcChannel_t`
pub record TagRpcChannel : Type 0 where
  pub req_q : SpscRing TagRpcRequest
  pub rsp_q : SpscRing TagRpcResponse

-- `TAG_RPC_CAPACITY`
abbrev pub tag_rpc_capacity : ℕ
tag_rpc_capacity = 64

-- `tag_rpc_init` on the static storages; `none` is the return value -1. The element sizes are
-- those of the two records, which are not zero.
unfoldable pub init : List TagRpcRequest → List TagRpcResponse → ℕ → ℕ → Option TagRpcChannel
unfolding Ring.init
init req_storage rsp_storage req_size rsp_size =
    elim (Ring.init (some req_storage) req_size tag_rpc_capacity) [
      | none ↦ none
      | some req_q ↦ elim (Ring.init (some rsp_storage) rsp_size tag_rpc_capacity) [
        | none ↦ none
        | some rsp_q ↦ some (record { req_q = req_q; rsp_q = rsp_q })
      ]
    ]

unfoldable pub send_request : TagRpcChannel → TagRpcRequest → TagRpcChannel × Bool
send_request ch req =
    let (q, done) = Ring.push ch.req_q (some req) in (record ch { req_q = q }, done)

unfoldable pub recv_request : TagRpcChannel → TagRpcChannel × Option TagRpcRequest
recv_request ch = let (q, out) = Ring.pop ch.req_q in (record ch { req_q = q }, out)

unfoldable pub send_response : TagRpcChannel → TagRpcResponse → TagRpcChannel × Bool
send_response ch rsp =
    let (q, done) = Ring.push ch.rsp_q (some rsp) in (record ch { rsp_q = q }, done)

unfoldable pub recv_response : TagRpcChannel → TagRpcChannel × Option TagRpcResponse
recv_response ch = let (q, out) = Ring.pop ch.rsp_q in (record ch { rsp_q = q }, out)
