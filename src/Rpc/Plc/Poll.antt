-- ===== src/Rpc/Plc/Poll.antt =====
-- `tag_rpc_plc_poll` against the queues that the two rings stand for.
use mathlib.Core.Path.{subst}
use plcmaster.Prelude.{
  ℕ, zero, suc, ◌≡◌, refl, sym, ◌∙◌, ap, inl, inr, none, some, List, [], ◌∷◌, arith,
}
use plcmaster.Ring
use plcmaster.Ring.{SpscRing}
use plcmaster.Ring.Inv.{IsValid}
use plcmaster.Ring.Refine.{contents, push_refines, pop_cases}
use plcmaster.Ring.Queue
use plcmaster.Rpc.{TagRpcRequest, TagRpcResponse, TagRpcChannel, recv_request, send_response}
use plcmaster.Runtime.{Runtime}
use plcmaster.Rpc.Plc.{Libc, handle_request, poll}

pub record ChannelValid (ch : TagRpcChannel) : Type 0 where
  pub requests : IsValid ch.req_q
  pub responses : IsValid ch.rsp_q

-- The queues of a channel.
abbrev pub queues : TagRpcChannel → List TagRpcRequest × List TagRpcResponse
queues ch = (contents ch.req_q, contents ch.rsp_q)

abbrev popped : TagRpcChannel → TagRpcChannel
popped ch = record ch { req_q = (Ring.pop ch.req_q).0 }

-- The channel after a request was taken and its response offered.
abbrev answered : TagRpcChannel → TagRpcResponse → TagRpcChannel
answered ch rsp = record {
  req_q = (Ring.pop ch.req_q).0;
  rsp_q = (Ring.push ch.rsp_q (some rsp)).0;
}

module _ (libc : Libc) {Impl : Type 0} where
  -- The poll on two plain queues: it takes up to `left` requests in order, and offers each response to a
  -- queue of `cap` places.
  abbrev pub serve :
      ℕ
      → ℕ
      → List TagRpcRequest
      → List TagRpcResponse
      → Runtime Impl
      → (List TagRpcRequest × List TagRpcResponse) × Runtime Impl
  serve cap zero reqs rsps rt = ((reqs, rsps), rt)
  serve cap (suc left) [] rsps rt = (([], rsps), rt)
  serve cap (suc left) (req ∷ reqs) rsps rt =
      let (rt', rsp) = handle_request libc rt req in
      serve cap left reqs (Queue.push cap rsps rsp).0 rt'

  poll_empty :
      (n : ℕ) (ch : TagRpcChannel) (rt : Runtime Impl)
      → (Ring.pop ch.req_q).1 ≡ none
      → poll libc (suc n) ch rt ≡ (popped ch, rt)
  unfolding poll recv_request send_response
  poll_empty n ch rt e = ground arith

  poll_step :
      (n : ℕ) (ch : TagRpcChannel) (rt : Runtime Impl) (req : TagRpcRequest)
      → (Ring.pop ch.req_q).1 ≡ some req
      → poll libc (suc n) ch rt
        ≡ (let (rt', rsp) = handle_request libc rt req in poll libc n (answered ch rsp) rt')
  unfolding poll recv_request send_response
  poll_step n ch rt req e = ground arith

  abbrev Agrees : ℕ → TagRpcChannel → Runtime Impl → TagRpcChannel × Runtime Impl → Type 0
  Agrees n ch rt (ch', rt') =
      ((queues ch', rt') ≡ serve ch.rsp_q.capacity n (contents ch.req_q) (contents ch.rsp_q) rt)
      × ChannelValid ch'

  agree_step :
      (n : ℕ) (ch : TagRpcChannel) (rt : Runtime Impl) (req : TagRpcRequest)
      (rest : List TagRpcRequest)
      → contents ch.req_q ≡ req ∷ rest
      → contents (Ring.pop ch.req_q).0 ≡ rest
      → (let (rt', rsp) = handle_request libc rt req in
          Agrees n (answered ch rsp) rt' (poll libc n (answered ch rsp) rt'))
      → ChannelValid ch
      → Agrees
          (suc n)
          ch
          rt
          (let (rt', rsp) = handle_request libc rt req in poll libc n (answered ch rsp) rt')
  agree_step n ch rt req rest e e' ih v =
      let (rt', rsp) = handle_request libc rt req in
      let cap = ch.rsp_q.capacity in
      let (offered, valid, size) = push_refines {q = ch.rsp_q} rsp v.responses in
      (
        ih.0
            ∙ ap
                (λ k.
                  serve k n (contents (Ring.pop ch.req_q).0)
                    (contents (Ring.push ch.rsp_q (some rsp)).0) rt')
                size
            ∙ ap (λ c. serve cap n c (contents (Ring.push ch.rsp_q (some rsp)).0) rt') e'
            ∙ ap (λ p. serve cap n rest p.0 rt') offered
            ∙ sym (ap (λ c. serve cap (suc n) c (contents ch.rsp_q) rt) e),
        ih.1,
      )

  -- On valid rings `tag_rpc_plc_poll` answers the requests that are waiting, oldest first and at most `n`
  -- of them, and puts each response behind those that are waiting, or drops it where their ring is full;
  -- the rings stay valid.
  pub poll_refines :
      (n : ℕ) (ch : TagRpcChannel) (rt : Runtime Impl)
      → ChannelValid ch
      → let (ch', rt') = poll libc n ch rt in
        ((queues ch', rt') ≡ serve ch.rsp_q.capacity n (contents ch.req_q) (contents ch.rsp_q) rt)
        × ChannelValid ch'
  poll_refines zero ch rt v = unfold poll in (refl, v)
  poll_refines (suc n) ch rt v = elim (pop_cases v.requests) [
    | inl (e, out, e', valid) ↦ subst (Agrees (suc n) ch rt) (sym (poll_empty n ch rt out)) (
      ap (λ c. ((c, contents ch.rsp_q), rt)) e'
          ∙ sym (ap (λ c. serve ch.rsp_q.capacity (suc n) c (contents ch.rsp_q) rt) e),
      record { requests = valid; responses = v.responses },
    )
    | inr (req, rest, e, out, e', valid) ↦
        subst (Agrees (suc n) ch rt) (sym (poll_step n ch rt req out)) (
          agree_step n ch rt req rest e e'
            (let (rt', rsp) = handle_request libc rt req in
              poll_refines n (answered ch rsp) rt'
                (record { requests = valid; responses = (push_refines rsp v.responses).1 }))
            v)
  ]
