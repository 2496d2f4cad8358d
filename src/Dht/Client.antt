-- ===== src/Dht/Client.antt =====
-- lib/dht/DhtClient.cpp: a client writes a request into its message buffer, hands it to eRPC for the session
-- of a node, and waits for the response. A node is known by the session with it, `uri`. eRPC is a parameter.
pub mod Filled
pub mod Responses
pub mod Transparency
pub mod Sessions
pub mod Buffers
use daqdb.Base.{
  ℕ, zero, suc, ◌+◌, ◌-◌, ◌%◌, Bool, true, false, List, [], ◌∷◌, leb, ◌==◌, if◌then◌else◌, length,
  Option, none, some, ◌≡◌,
}
use daqdb.Requests.{StatusCode}
use daqdb.Dht.Core
use daqdb.Dht.Core.{DhtNode, DhtCore, get_host_for_key, get_host_any}
use daqdb.Dht.Wire.{
  Bytes, Memory, store_bytes, load_bytes, max_request_size, max_response_size, msg_header,
  result_header, DaqdbDhtMsg, DaqdbDhtResult, ErpRequestType, Called, gives, fails, throws,
  undefined,
}
use daqdb.Dht.Server.{KvStoreOps, Handled, responds, escapes, faults, handler_for}

-- A Key: memory of the caller, or the first bytes of the client's message, where allocKey put it
pub data Key : Type 0 where
  own : Bytes → Key
  in_msg : ℕ → Key

-- A Value: memory of the caller, or bytes of the client's message from an offset on, where alloc put it
pub data Value : Type 0 where
  own : Bytes → Value
  in_msg : ℕ → ℕ → Value

abbrev pub key_size : Key → ℕ
key_size (own bs) = length bs
key_size (in_msg n) = n

abbrev pub value_size : Value → ℕ
value_size (own bs) = length bs
value_size (in_msg off n) = n

-- DhtReqCtx. One pointer serves for a value and for a key.
pub record DhtReqCtx : Type 0 where
  pub status : StatusCode
  pub value : Option Bytes
  pub ready : Bool

-- DhtClient, once it is initialized: its request buffer, the context of its request, what is handed out, and
-- the index that getHostAny keeps for the thread
pub record DhtClient : Type 0 where
  pub req_msg : DaqdbDhtMsg
  pub req_ctx : DhtReqCtx
  pub req_msg_buf_in_use : Bool
  pub req_msg_buf_val_in_use : Bool
  pub any_idx : ℕ

-- What a client comes to see of a request: its response, or none, so that it waits for ever
pub data Delivery (S : Type 0) : Type 0 where
  answered : DaqdbDhtResult → S → Delivery S
  silent : S → Delivery S

-- eRPC: a handler runs on the request at a node's server, and the response comes back.
pub record Erpc (S : Type 0) : Type 0 where
  pub exchange : (DaqdbDhtMsg → S → Handled S) → DaqdbDhtMsg → S → Delivery S

-- What a call of the client comes to
pub data Outcome {ℓ} (A : Type ℓ) : Type ℓ where
  returns : Called A → Outcome A
  waits : Outcome A

-- The stores of the nodes
abbrev pub Sites : Type 0 → Type 0
Sites S = ℕ → S

abbrev pub set_site : {S : Type 0} → ℕ → S → Sites S → Sites S
set_site n s sites m = if m == n then s else sites m

-- clbGet and clbGetAny, which copy the bytes of the response, and clbPut and clbRemove
unfoldable pub copy_if_ok : StatusCode → Bytes → Option Bytes → Option Bytes
copy_if_ok StatusCode.ok bs old = some bs
copy_if_ok _ bs old = old

unfoldable pub clb_get : DaqdbDhtResult → DhtReqCtx → DhtReqCtx
clb_get r ctx = record ctx {
  status = r.status;
  value = copy_if_ok r.status (load_bytes 0 r.msg_size r.msg) ctx.value;
  ready = true;
}

unfoldable pub clb_put : DaqdbDhtResult → DhtReqCtx → DhtReqCtx
clb_put r ctx = record ctx { status = r.status; ready = true }

-- The end of _runToResponse
unfoldable pub check_status : StatusCode → Called (Unit {0})
check_status StatusCode.ok = gives tt
check_status e = fails e

-- _initReqCtx
abbrev pub init_req_ctx : DhtReqCtx
init_req_ctx = record { status = StatusCode.max_errno; value = none; ready = false }

-- fillReqMsg for the key, and where a value then goes
unfoldable pub fill_key : Option Key → DaqdbDhtMsg → ℕ × DaqdbDhtMsg
fill_key none m = (0, m)
fill_key (some (own bs)) m =
    (length bs, record m { key_size = length bs; msg = store_bytes 0 bs m.msg })
fill_key (some (in_msg n)) m = (n, m)

-- fillReqMsg for the value. memcpy onto the same bytes changes nothing, and is undefined onto others that
-- overlap.
unfoldable pub fill_value : Option Value → ℕ × DaqdbDhtMsg → Option DaqdbDhtMsg
fill_value none (off, m) = some m
fill_value (some (own bs)) (off, m) =
    some (record m { val_size = length bs; msg = store_bytes off bs m.msg })
fill_value (some (in_msg at n)) (off, m) =
    if at == off then some (record m { val_size = n }) else none

unfoldable pub fill_req_msg : Option Key → Option Value → DaqdbDhtMsg → Option DaqdbDhtMsg
unfolding fill_key fill_value
fill_req_msg k v m = fill_value v (fill_key k m)

-- resizeMsgBuffers: eRPC asserts that a buffer is not larger than it was made.
unfoldable pub resize_msg_buffers : ℕ → ℕ → Bool
resize_msg_buffers request response =
    if leb request max_request_size then leb response max_response_size else false

-- Where the bytes of a key are. Bytes behind a key of the caller's, which the hash reads when its mask reaches
-- beyond the key, count as 0: what is shown of a call is about keys that have the bytes of the mask.
abbrev pub key_data : Key → DaqdbDhtMsg → Memory
key_data (own bs) m = store_bytes 0 bs (λ i. 0)
key_data (in_msg n) m = m.msg

-- What a call that waits for a response then gives: nothing, or what the context points to
abbrev pub no_result : DhtReqCtx → Called (Unit {0})
no_result ctx = gives tt

unfoldable pub pointed : Option Bytes → Called Bytes
pointed none = undefined
pointed (some bs) = gives bs

unfoldable pub and_read : {A : Type 0} → Called (Unit {0}) → Called A → Called A
and_read (gives u) a = a
and_read (fails e) a = fails e
and_read throws a = throws
and_read undefined a = undefined

-- getTargetHost and getAnyHost
unfoldable pub get_target_host : DhtCore → Key → DhtClient → Core.Outcome (DhtNode × DhtClient)
get_target_host dht k c = elim (get_host_for_key (key_data k c.req_msg) dht) [
  | Core.ok n ↦ Core.ok (n, c)
  | Core.key_not_found ↦ Core.key_not_found
  | Core.not_supported ↦ Core.not_supported
  | Core.undefined ↦ Core.undefined
]

unfoldable pub get_any_host : DhtCore → DhtClient → Core.Outcome (DhtNode × DhtClient)
get_any_host dht c = elim (get_host_any c.any_idx dht) [
  | Core.ok (n, idx) ↦ Core.ok (n, record c { any_idx = idx })
  | Core.key_not_found ↦ Core.key_not_found
  | Core.not_supported ↦ Core.not_supported
  | Core.undefined ↦ Core.undefined
]

module _ {S : Type 0} (kvs : KvStoreOps S) (erpc : Erpc S) (dht : DhtCore) where
  -- What _runToResponse makes of a response, or of none
  unfoldable pub run_to_response :
      {A : Type 0}
      → ℕ
      → (DaqdbDhtResult → DhtReqCtx → DhtReqCtx)
      → (DhtReqCtx → Called A)
      → Delivery S
      → DhtClient
      → Sites S
      → Outcome A × DhtClient × Sites S
  run_to_response node clb read (answered r s) c sites =
      let ctx = clb r init_req_ctx in
      (
        if ctx.ready then returns (and_read (check_status ctx.status) (read ctx)) else waits,
        record c { req_ctx = ctx },
        set_site node s sites,
      )
  run_to_response node clb read (silent s) c sites =
      (waits, record c { req_ctx = init_req_ctx }, set_site node s sites)

  -- enqueueAndWait, and what the call then reads from the context
  unfoldable pub enqueue_and_wait :
      {A : Type 0}
      → ErpRequestType
      → (DaqdbDhtResult → DhtReqCtx → DhtReqCtx)
      → (DhtReqCtx → Called A)
      → Core.Outcome (DhtNode × DhtClient)
      → DhtClient
      → Sites S
      → Outcome A × DhtClient × Sites S
  enqueue_and_wait type clb read (Core.ok (n, d)) c sites =
      run_to_response n.uri clb read (erpc.exchange (handler_for kvs type) d.req_msg (sites n.uri))
        d sites
  enqueue_and_wait type clb read Core.key_not_found c sites =
      (returns (fails StatusCode.key_not_found), c, sites)
  enqueue_and_wait type clb read Core.not_supported c sites =
      (returns (fails StatusCode.not_supported), c, sites)
  enqueue_and_wait type clb read Core.undefined c sites = (returns undefined, c, sites)

  -- The buffers are resized, the request is written, and the host is asked.
  unfoldable pub request :
      {A : Type 0}
      → ℕ
      → ℕ
      → Option DaqdbDhtMsg
      → (DhtClient → Outcome A × DhtClient × Sites S)
      → DhtClient
      → Sites S
      → Outcome A × DhtClient × Sites S
  request request_size response_size filled send c sites =
      if resize_msg_buffers request_size response_size
      then elim filled [
        | none ↦ (returns undefined, c, sites)
        | some m ↦ send (record c { req_msg = m })
      ]
      else (returns undefined, c, sites)

  -- DhtClient::get
  unfoldable pub get : Key → DhtClient → Sites S → Outcome Bytes × DhtClient × Sites S
  get k c sites =
      request (msg_header + key_size k) max_response_size (fill_req_msg (some k) none c.req_msg)
        (λ d.
          enqueue_and_wait ErpRequestType.get clb_get (λ ctx. pointed ctx.value)
            (get_target_host dht k d) d sites)
        c sites

  -- DhtClient::getAny
  unfoldable pub get_any : DhtClient → Sites S → Outcome Bytes × DhtClient × Sites S
  get_any c sites =
      request msg_header max_response_size (fill_req_msg none none c.req_msg)
        (λ d.
          enqueue_and_wait ErpRequestType.get_any clb_get (λ ctx. pointed ctx.value)
            (get_any_host dht d) d sites)
        c sites

  -- DhtClient::put
  unfoldable pub put : Key → Value → DhtClient → Sites S → Outcome (Unit {0}) × DhtClient × Sites S
  put k v c sites =
      request (msg_header + key_size k + value_size v) result_header
        (fill_req_msg (some k) (some v) c.req_msg)
        (λ d.
          enqueue_and_wait ErpRequestType.put clb_put no_result (get_target_host dht k d) d sites)
        c sites

  -- DhtClient::remove
  unfoldable pub remove : Key → DhtClient → Sites S → Outcome (Unit {0}) × DhtClient × Sites S
  remove k c sites =
      request (msg_header + key_size k) result_header (fill_req_msg (some k) none c.req_msg)
        (λ d.
          enqueue_and_wait ErpRequestType.remove clb_put no_result (get_target_host dht k d) d
            sites)
        c sites
