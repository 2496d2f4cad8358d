-- ===== src/Dht/Server.antt =====
-- lib/dht/DhtServer.cpp: the handlers of requests, each on the message of a request and the store of the
-- server's node. The threads that run the handlers are left out.
use daqdb.Base.{ℕ, ◌+◌, ◌-◌, leb, if◌then◌else◌, length}
use daqdb.Requests.{StatusCode}
use daqdb.Dht.Wire.{
  Bytes, store_bytes, load_bytes, max_response_size, DaqdbDhtMsg, DaqdbDhtResult, result_header,
  ErpRequestType, Called, gives, fails, throws, undefined,
}

-- The calls of KVStore that the handlers make. A key is handed over as its bytes; Get has a capacity, Put
-- the pointer that Alloc gave, and GetAny the size of a key. `copy_value` is memcpy to such a pointer.
pub record KvStoreOps (S : Type 0) : Type 0 where
  pub key_size : ℕ
  pub get : Bytes → ℕ → S → Called Bytes × S
  pub get_any : ℕ → S → Called Bytes × S
  pub alloc : Bytes → ℕ → S → Called ℕ × S
  pub copy_value : ℕ → Bytes → S → S
  pub put : Bytes → ℕ → ℕ → S → Called (Unit {0}) × S
  pub remove : Bytes → S → Called (Unit {0}) × S

-- The buffer of a response: the one that a request's handle has, or one that is allocated
pub data RespBuf : Type 0 where
  pre_resp dyn_resp : RespBuf

abbrev pub pre_buf_size : ℕ
pre_buf_size = 32768

unfoldable pub erpc_prepare_msgbuf : ℕ → RespBuf
erpc_prepare_msgbuf size = if leb size pre_buf_size then pre_resp else dyn_resp

-- A response in a buffer of a size, an exception that leaves the handler, or undefined behaviour
pub data Handled (S : Type 0) : Type 0 where
  responds : RespBuf → ℕ → DaqdbDhtResult → S → Handled S
  escapes : S → Handled S
  faults : Handled S

-- A result without bytes; the memory behind it is what the buffer held.
abbrev pub bare_result : StatusCode → DaqdbDhtResult
bare_result e = record { status = e; msg_size = 0; msg = λ i. 0 }

unfoldable pub respond_bare : {S : Type 0} → StatusCode → S → Handled S
unfolding erpc_prepare_msgbuf
respond_bare e s = responds (erpc_prepare_msgbuf result_header) result_header (bare_result e) s

-- Bytes behind a result that has room for so many, of which it counts `n`
unfoldable pub respond_bytes : {S : Type 0} → RespBuf → ℕ → ℕ → Bytes → S → Handled S
respond_bytes buf capacity n bs s =
    if leb (length bs) capacity
    then responds buf (result_header + n)
        (record { status = StatusCode.ok; msg_size = n; msg = store_bytes 0 bs (λ i. 0) }) s
    else faults

-- What the catch clause does
unfoldable pub answer_bare : {S : Type 0} → Called (Unit {0}) × S → Handled S
answer_bare (gives u, s) = respond_bare StatusCode.ok s
answer_bare (fails e, s) = respond_bare e s
answer_bare (throws, s) = escapes s
answer_bare (undefined, s) = faults

-- For Get, which counts the bytes that the store wrote
unfoldable pub answer_value : {S : Type 0} → Called Bytes × S → Handled S
unfolding erpc_prepare_msgbuf
answer_value (gives bs, s) =
    respond_bytes (erpc_prepare_msgbuf max_response_size) (max_response_size - result_header)
      (length bs) bs s
answer_value (fails e, s) = respond_bare e s
answer_value (throws, s) = escapes s
answer_value (undefined, s) = faults

-- For GetAny, which counts the size of a key
unfoldable pub answer_key : {S : Type 0} → ℕ → Called Bytes × S → Handled S
unfolding erpc_prepare_msgbuf
answer_key n (gives bs, s) = respond_bytes (erpc_prepare_msgbuf (result_header + n)) n n bs s
answer_key n (fails e, s) = respond_bare e s
answer_key n (throws, s) = escapes s
answer_key n (undefined, s) = faults

abbrev pub key_of : DaqdbDhtMsg → Bytes
key_of m = load_bytes 0 m.key_size m.msg

abbrev pub value_of : DaqdbDhtMsg → Bytes
value_of m = load_bytes m.key_size m.val_size m.msg

module _ {S : Type 0} (kvs : KvStoreOps S) where
  -- erpcReqGetAnyHandler
  unfoldable pub get_any_handler : DaqdbDhtMsg → S → Handled S
  get_any_handler req s = answer_key kvs.key_size (kvs.get_any kvs.key_size s)

  -- erpcReqGetHandler
  unfoldable pub get_handler : DaqdbDhtMsg → S → Handled S
  get_handler req s = answer_value (kvs.get (key_of req) (max_response_size - result_header) s)

  -- erpcReqPutHandler. Alloc stands before the try block.
  unfoldable pub put_allocated : DaqdbDhtMsg → Called ℕ × S → Handled S
  put_allocated req (gives value, s) =
      answer_bare (kvs.put (key_of req) value req.val_size (kvs.copy_value value (value_of req) s))
  put_allocated req (fails e, s) = escapes s
  put_allocated req (throws, s) = escapes s
  put_allocated req (undefined, s) = faults

  unfoldable pub put_handler : DaqdbDhtMsg → S → Handled S
  put_handler req s = put_allocated req (kvs.alloc (key_of req) req.val_size s)

  -- erpcReqRemoveHandler
  unfoldable pub remove_handler : DaqdbDhtMsg → S → Handled S
  remove_handler req s = answer_bare (kvs.remove (key_of req) s)

  -- The handlers that _serve registers
  unfoldable pub handler_for : ErpRequestType → DaqdbDhtMsg → S → Handled S
  handler_for ErpRequestType.get = get_handler
  handler_for ErpRequestType.get_any = get_any_handler
  handler_for ErpRequestType.put = put_handler
  handler_for ErpRequestType.remove = remove_handler
