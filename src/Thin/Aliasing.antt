-- ===== src/Thin/Aliasing.antt =====
-- The buffers of lib/thin/KVStoreThin.cpp: what a caller fills in is what is sent, and when a buffer is given
-- out twice.
use daqdb.Base.{
  ℕ, ◌+◌, ◌≡◌, ◌≢◌, ◌≤◌, refl, ap, ◌∙◌, some, true, false, length, arith, le→leb, ==_false,
}
use daqdb.Dht.Core
use daqdb.Dht.Core.{DhtNode, DhtCore, get_host_for_key}
use daqdb.Dht.Wire.{
  ErpRequestType, Bytes, Called, gives, fails, throws, undefined, store_bytes, load_bytes,
  msg_header, max_request_size, DaqdbDhtMsg, DaqdbDhtResult,
}
use daqdb.Dht.Wire.Copies.{load-store, load-store_below}
use daqdb.Dht.Server.{KvStoreOps}
use daqdb.Dht.Client.{
  key_data, clb_put, no_result, Key, own, in_msg, Value, DhtClient, Erpc, Outcome, returns, waits,
  Sites, key_size, value_size, Delivery, answered, silent, DhtReqCtx, get_target_host,
  enqueue_and_wait, run_to_response, request, resize_msg_buffers, put,
}
use daqdb.Dht.Client.Buffers.{alloc_key, alloc_value, write_at}
use daqdb.Dht.Client.Filled.{
  Placed, PlacedBehind, key_bytes, value_bytes, with_value, fill-with_value, key_of-with_value,
}
use daqdb.Thin.{thin_put, after_thin_put, thin_alloc, thin_alloc_key}

-- A key and then a value, not empty, that a client with no key and no value handed out gives out in its
-- message, where the message has room for both behind its header, can be filled in one after the other, hold
-- the bytes that were filled in, and lie where put expects them.
pub alloc-fills :
    (c : DhtClient) (ks vs : Bytes)
    → c.req_msg_buf_in_use ≡ false
    → c.req_msg_buf_val_in_use ≡ false
    → length vs ≢ 0
    → msg_header + length ks + length vs ≤ max_request_size
    → (d e f g : DhtClient) × (thin_alloc_key true (length ks) c ≡ (gives (in_msg (length ks)), d))
      × (write_at 0 ks d ≡ some e)
      × (thin_alloc true (in_msg (length ks)) (length vs) e
          ≡ (gives (Value.in_msg (length ks) (length vs)), f))
      × (write_at (length ks) vs f ≡ some g)
      × (key_bytes (in_msg (length ks)) g.req_msg ≡ ks)
      × (value_bytes (Value.in_msg (length ks) (length vs)) g.req_msg ≡ vs)
      × Placed (in_msg (length ks)) g.req_msg
unfolding thin_alloc_key thin_alloc alloc_key alloc_value write_at
alloc-fills c ks vs free free' some_bytes room =
    let m = store_bytes 0 ks c.req_msg.msg in
    let d : DhtClient = record c {
      req_msg_buf_in_use = true;
      req_msg = record c.req_msg { key_size = length ks };
    } in
    let e : DhtClient = record d { req_msg = record d.req_msg { msg = m } } in
    let f : DhtClient = record e {
      req_msg_buf_val_in_use = true;
      req_msg = record e.req_msg { val_size = length vs };
    } in
    let g : DhtClient = record f {
      req_msg = record f.req_msg { msg = store_bytes (length ks) vs m };
    } in
    (
      d,
      e,
      f,
      g,
      simp (alloc_key, free),
      rw (le→leb (msg_header + 0 + length ks) max_request_size (omega (arith, room))) refl,
      simp (thin_alloc, ==_false (length vs) 0 some_bytes, alloc_value, free'),
      rw (le→leb (msg_header + length ks + length vs) max_request_size room) refl,
      load-store_below 0 (length ks) (length ks) vs m (omega arith) ∙ load-store 0 ks c.req_msg.msg,
      load-store (length ks) vs m,
      refl,
    )

module _ {S : Type 0} (kvs : KvStoreOps S) (erpc : Erpc S) (dht : DhtCore) where
  -- A call that has a host, or none, leaves the request in the client.
  run-req_msg :
      {A : Type 0} (node : ℕ) (clb : DaqdbDhtResult → DhtReqCtx → DhtReqCtx)
      (read : DhtReqCtx → Called A) (x : Delivery S) (c : DhtClient) (sites : Sites S)
      → (run_to_response kvs erpc dht node clb read x c sites).1.req_msg ≡ c.req_msg
  unfolding run_to_response
  run-req_msg node clb read (answered r s) c sites = refl
  run-req_msg node clb read (silent s) c sites = refl

  sent-req_msg :
      (k : Key) (d : DhtClient) (sites : Sites S) (h : Core.Outcome DhtNode)
      → get_host_for_key (key_data k d.req_msg) dht ≡ h
      → (enqueue_and_wait kvs erpc dht ErpRequestType.put clb_put no_result
          (get_target_host dht k d)
          d
          sites).1.req_msg
        ≡ d.req_msg
  unfolding enqueue_and_wait get_target_host
  sent-req_msg k d sites (Core.ok n) e =
      rw (get_target_host, e) (run-req_msg n.uri clb_put no_result _ d sites)
  sent-req_msg k d sites Core.key_not_found e = rw (get_target_host, e)
  sent-req_msg k d sites Core.not_supported e = rw (get_target_host, e)
  sent-req_msg k d sites Core.undefined e = rw (get_target_host, e)

  put-req_msg :
      (k : Key) (v : Value) (c : DhtClient) (sites : Sites S)
      → PlacedBehind k v
      → msg_header + key_size k + value_size v ≤ max_request_size
      → (put kvs erpc dht k v c sites).1.req_msg ≡ with_value k v c.req_msg
  unfolding put request resize_msg_buffers
  put-req_msg k v c sites behind room =
      let d : DhtClient = record c { req_msg = with_value k v c.req_msg } in
      simp (
        le→leb (msg_header + key_size k + value_size v) max_request_size room,
        fill-with_value k v c.req_msg behind,
        sent-req_msg k d sites (get_host_for_key (key_data k d.req_msg) dht) refl,
      )

  pub after_thin_put-answer :
      (r : Outcome (Unit {0}) × DhtClient × Sites S) → (after_thin_put r).0 ≡ r.0
  unfolding after_thin_put
  after_thin_put-answer (returns (gives u), c, sites) = refl
  after_thin_put-answer (returns (fails f), c, sites) = refl
  after_thin_put-answer (returns throws, c, sites) = refl
  after_thin_put-answer (returns undefined, c, sites) = refl
  after_thin_put-answer (waits, c, sites) = refl

  after_put-freed :
      (r : Outcome (Unit {0}) × DhtClient × Sites S) (q : Called (Unit {0}))
      → (after_thin_put r).0 ≡ returns q
      → q ≢ undefined
      → ((after_thin_put r).1.req_msg_buf_in_use ≡ false)
        × ((after_thin_put r).1.req_msg_buf_val_in_use ≡ false)
        × ((after_thin_put r).1.req_msg ≡ r.1.req_msg)
  unfolding after_thin_put
  after_put-freed (returns (gives u), c, sites) q e h = (refl, refl, refl)
  after_put-freed (returns (fails f), c, sites) q e h = (refl, refl, refl)
  after_put-freed (returns throws, c, sites) q e h = (refl, refl, refl)
  after_put-freed (returns undefined, c, sites) q e h = absurd (h (cc))
  after_put-freed (waits, c, sites) q e h = cc

  -- Whatever a key that the client has handed out holds, a put of another key of the caller's, once it comes
  -- back with a result or an exception, has written its bytes over it, and the client hands the same memory
  -- out again.
  pub thin_put-aliases :
      (n : ℕ) (ks vs : Bytes) (c : DhtClient) (sites : Sites S) (q : Called (Unit {0}))
      → msg_header + length ks + length vs ≤ max_request_size
      → (thin_put kvs erpc dht (own ks) (Value.own vs) c sites).0 ≡ returns q
      → q ≢ undefined
      → (let d = (thin_put kvs erpc dht (own ks) (Value.own vs) c sites).1 in
          (key_bytes (in_msg (length ks)) d.req_msg ≡ ks) × ((alloc_key n d).0 ≡ gives (in_msg n)))
  unfolding thin_put alloc_key
  thin_put-aliases n ks vs c sites q room e h =
      let r = put kvs erpc dht (own ks) (Value.own vs) c sites in
      let (freed, _, kept) = after_put-freed r q e h in
      let msg = kept ∙ put-req_msg (own ks) (Value.own vs) c sites tt room in
      (
        ap (λ m. load_bytes 0 (length ks) (DaqdbDhtMsg.msg m)) msg
            ∙ key_of-with_value (own ks) (Value.own vs) c.req_msg tt,
        simp (alloc_key, freed),
      )
