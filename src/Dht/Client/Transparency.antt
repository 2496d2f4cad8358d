-- ===== src/Dht/Client/Transparency.antt =====
-- A call of lib/dht/DhtClient.cpp against the call of the store that its host's handler makes.
use daqdb.Base.{ℕ, ◌+◌, ◌-◌, ◌≡◌, ◌≤◌, ap, ◌∙◌, le→leb, length}
use daqdb.Dht.Core
use daqdb.Dht.Core.{DhtNode, DhtCore, get_host_for_key}
use daqdb.Dht.Wire.{
  Bytes, max_request_size, max_response_size, msg_header, result_header, DaqdbDhtMsg,
  DaqdbDhtResult, ErpRequestType, Called, gives,
}
use daqdb.Dht.Server.{
  KvStoreOps, Handled, responds, RespBuf, answer_bare, answer_value, get_handler, put_allocated,
  put_handler, remove_handler, handler_for,
}
use daqdb.Dht.Client.{
  Key, own, in_msg, Value, key_size, value_size, DhtReqCtx, DhtClient, answered, Erpc, returns,
  Sites, set_site, clb_get, clb_put, resize_msg_buffers, key_data, no_result, pointed,
  get_target_host, run_to_response, enqueue_and_wait, request, get, put, remove,
}
use daqdb.Dht.Client.Filled.{
  key_bytes, value_bytes, Placed, PlacedBehind, with_key, with_value, fill-with_key,
  key_of-with_key, key_data-with_key, fill-with_value, key_of-with_value, value_of-with_value,
  val_size-with_value,
}
use daqdb.Dht.Client.Responses.{
  Answerable, AnswerableBare, value_result, unit_result, answer_value_lem, answer_bare_lem,
  run-value, run-unit,
}

-- The hash reads no bytes behind a key of the caller's own.
abbrev pub HashedWithin : Key → DhtCore → Type 0
HashedWithin (own bs) dht = dht.mask_offset + dht.mask_length ≤ length bs
HashedWithin (in_msg n) dht = Unit {0}

module _ {S : Type 0} (kvs : KvStoreOps S) (erpc : Erpc S) (dht : DhtCore)
    (delivers : (h : DaqdbDhtMsg → S → Handled S) (m : DaqdbDhtMsg) (s s' : S) (buf : RespBuf)
        (size : ℕ) (r : DaqdbDhtResult)
      → h m s ≡ responds buf size r s'
      → erpc.exchange h m s ≡ answered r s') where
  target-ok :
      (k : Key) (c : DhtClient) (n : DhtNode)
      → get_host_for_key (key_data k c.req_msg) dht ≡ Core.ok n
      → get_target_host dht k c ≡ Core.ok (n, c)
  unfolding get_target_host
  target-ok k c n e = rw (get_target_host, e)

  -- A request that its host's handler answers
  exchanged :
      {A : Type 0} (type : ErpRequestType) (clb : DaqdbDhtResult → DhtReqCtx → DhtReqCtx)
      (read : DhtReqCtx → Called A) (n : DhtNode) (d c : DhtClient) (sites : Sites S)
      (buf : RespBuf) (size : ℕ) (r : DaqdbDhtResult) (s : S)
      → handler_for kvs type d.req_msg (sites n.uri) ≡ responds buf size r s
      → enqueue_and_wait kvs erpc dht type clb read (Core.ok (n, d)) c sites
        ≡ run_to_response kvs erpc dht n.uri clb read (answered r s) d sites
  unfolding enqueue_and_wait
  exchanged type clb read n d c sites buf size r s h =
      ap (λ x. run_to_response kvs erpc dht n.uri clb read x d sites)
        (delivers (handler_for kvs type) d.req_msg (sites n.uri) s buf size r h)

  module _ (k : Key) (c : DhtClient) (sites : Sites S) (n : DhtNode) (placed : Placed k c.req_msg)
      (host : get_host_for_key (key_data k c.req_msg) dht ≡ Core.ok n) where
    abbrev sent : DhtClient
    sent = record c { req_msg = with_key k c.req_msg }

    get-sends :
        msg_header + key_size k ≤ max_request_size
        → get kvs erpc dht k c sites
          ≡ enqueue_and_wait kvs erpc dht ErpRequestType.get clb_get
              (λ ctx. pointed ctx.value)
              (Core.ok (n, sent))
              sent
              sites
    unfolding get request resize_msg_buffers
    get-sends room = simp (
      le→leb (msg_header + key_size k) max_request_size room,
      fill-with_key k c.req_msg,
      target-ok k sent n (ap (λ d. get_host_for_key d dht) (key_data-with_key k c.req_msg) ∙ host),
    )

    -- Where eRPC brings a handler's response back, a get of a key that is the caller's own and has the bytes
    -- that the hash reads, or stands at the start of the message with its size in it, and that fits into a
    -- request, is exactly the store's Get of the
    -- key's bytes at the node that serves the key, where that gives a value that fits into a response or an
    -- OperationFailedException: the caller gets that, and no other node changes.
    pub get_remote :
        (q : Called Bytes) (s : S)
        → HashedWithin k dht
        → msg_header + key_size k ≤ max_request_size
        → kvs.get (key_bytes k c.req_msg) (max_response_size - result_header) (sites n.uri) ≡ (q, s)
        → Answerable q
        → (let out = get kvs erpc dht k c sites in
            (out.0 ≡ returns q) × (out.2 ≡ set_site n.uri s sites))
    unfolding handler_for get_handler
    get_remote q s within room served can =
        let (buf, size, e) = answer_value_lem q s can in
        let handled =
          ap answer_value (
            ap (λ bs. kvs.get bs (max_response_size - result_header) (sites n.uri))
              (key_of-with_key k c.req_msg placed)
            ∙ served)
          ∙ e in
        let all =
          get-sends room
          ∙ exchanged ErpRequestType.get clb_get (λ ctx. pointed ctx.value) n sent sent sites buf
              size (value_result q) s handled in
        let (r, t) = run-value kvs erpc dht n.uri q s sent sites can in
        (ap (λ o. o.0) all ∙ r, ap (λ o. o.2) all ∙ t)

    remove-sends :
        msg_header + key_size k ≤ max_request_size
        → remove kvs erpc dht k c sites
          ≡ enqueue_and_wait kvs erpc dht ErpRequestType.remove clb_put no_result
              (Core.ok (n, sent))
              sent
              sites
    unfolding remove request resize_msg_buffers
    remove-sends room = simp (
      le→leb (msg_header + key_size k) max_request_size room,
      fill-with_key k c.req_msg,
      target-ok k sent n (ap (λ d. get_host_for_key d dht) (key_data-with_key k c.req_msg) ∙ host),
    )

    -- Where eRPC brings a handler's response back, a removal of a key that is the caller's own and has the bytes
    -- that the hash reads, or stands at the start of the message with its size in it, and that fits into a
    -- request, is the Remove of the key's bytes at the node that serves the key, where that comes to a result
    -- or an OperationFailedException: the caller gets that, and no other node changes.
    pub remove_remote :
        (q : Called (Unit {0})) (s : S)
        → HashedWithin k dht
        → msg_header + key_size k ≤ max_request_size
        → kvs.remove (key_bytes k c.req_msg) (sites n.uri) ≡ (q, s)
        → AnswerableBare q
        → (let out = remove kvs erpc dht k c sites in
            (out.0 ≡ returns q) × (out.2 ≡ set_site n.uri s sites))
    unfolding handler_for remove_handler
    remove_remote q s within room served can =
        let (buf, size, e) = answer_bare_lem q s can in
        let handled =
          ap answer_bare
            (ap (λ bs. kvs.remove bs (sites n.uri)) (key_of-with_key k c.req_msg placed) ∙ served)
          ∙ e in
        let all =
          remove-sends room
          ∙ exchanged ErpRequestType.remove clb_put no_result n sent sent sites buf size
              (unit_result q) s handled in
        let (r, t) = run-unit kvs erpc dht n.uri q s sent sites can in
        (ap (λ o. o.0) all ∙ r, ap (λ o. o.2) all ∙ t)

  module _ (k : Key) (v : Value) (c : DhtClient) (sites : Sites S) (n : DhtNode)
      (placed : Placed k c.req_msg) (behind : PlacedBehind k v)
      (host : get_host_for_key (key_data k (with_value k v c.req_msg)) dht ≡ Core.ok n) where
    abbrev written : DhtClient
    written = record c { req_msg = with_value k v c.req_msg }

    put-sends :
        msg_header + key_size k + value_size v ≤ max_request_size
        → put kvs erpc dht k v c sites
          ≡ enqueue_and_wait kvs erpc dht ErpRequestType.put clb_put no_result
              (Core.ok (n, written))
              written
              sites
    unfolding put request resize_msg_buffers
    put-sends room = simp (
      le→leb (msg_header + key_size k + value_size v) max_request_size room,
      fill-with_value k v c.req_msg behind,
      target-ok k written n host,
    )

    -- Where eRPC brings a handler's response back, a put of a key that is the caller's own and has the
    -- bytes that the hash reads, or stands at the start of the message with its size in it, and of a value that is the caller's own or stands directly
    -- behind the key, when they fit into a request, and at the node that serves the key Alloc succeeds and Put
    -- comes to a result or an OperationFailedException: the bytes of the value are copied to what Alloc gave,
    -- the caller gets what Put of that comes to, and no other node changes.
    pub put_remote :
        (value : ℕ) (q : Called (Unit {0})) (s t : S)
        → HashedWithin k dht
        → msg_header + key_size k + value_size v ≤ max_request_size
        → kvs.alloc (key_bytes k c.req_msg) (value_size v) (sites n.uri) ≡ (gives value, s)
        → kvs.put
            (key_bytes k c.req_msg)
            value
            (value_size v)
            (kvs.copy_value value (value_bytes v c.req_msg) s)
          ≡ (q, t)
        → AnswerableBare q
        → (let out = put kvs erpc dht k v c sites in
            (out.0 ≡ returns q) × (out.2 ≡ set_site n.uri t sites))
    unfolding handler_for put_handler put_allocated
    put_remote value q s t within room allocated served can =
        let (buf, size, e) = answer_bare_lem q t can in
        let handled : put_handler kvs (with_value k v c.req_msg) (sites n.uri)
            ≡ responds buf size (unit_result q) t =
          rw
            (
              key_of-with_value k v c.req_msg placed,
              val_size-with_value k v c.req_msg,
              allocated,
              key_of-with_value k v c.req_msg placed,
              value_of-with_value k v c.req_msg placed behind,
              val_size-with_value k v c.req_msg,
              served,
            )
            e in
        let all =
          put-sends room
          ∙ exchanged ErpRequestType.put clb_put no_result n written written sites buf size
              (unit_result q) t handled in
        let (r, u) = run-unit kvs erpc dht n.uri q t written sites can in
        (ap (λ o. o.0) all ∙ r, ap (λ o. o.2) all ∙ u)
