-- ===== src/Tests/Messages.antt =====
-- Clients of lib/dht/DhtClient.cpp and lib/thin/KVStoreThin.cpp, with nodes that each store one value.
use daqdb.Base.{
  ℕ, ◌≡◌, refl, true, false, [], ◌∷◌, none, some, arith, leb, if◌then◌else◌, ◌==◌, ◌∙◌,
}
use daqdb.Requests.{StatusCode}
use daqdb.Dht.Core
use daqdb.Dht.Core.{get_host_for_key, gen_hash, hash_rounds, shift_left, first_match}
use daqdb.Dht.Wire.{Bytes, gives, fails, DaqdbDhtMsg, DaqdbDhtResult, store_bytes}
use daqdb.Dht.Server.{KvStoreOps, Handled, responds, escapes, faults, RespBuf}
use daqdb.Dht.Client.{
  Key, own, in_msg, Value, DhtClient, Delivery, answered, silent, Erpc, returns, Sites, set_site,
  key_data, get, put, remove, init_req_ctx,
}
use daqdb.Dht.Client.Transparency.{get_remote, put_remote, remove_remote}
use daqdb.Dht.Client.Sessions.{SessionOps, Peer, ClientState, initialize, initialize_lem}
use daqdb.Dht.Client.Buffers.{alloc_key, write_at}
use daqdb.Dht.Client.Filled.{Placed, key_bytes, value_bytes}
use daqdb.Thin.{thin_put, thin_alloc, thin_alloc_key}
use daqdb.Thin.Aliasing.{after_thin_put-answer, alloc-fills, thin_put-aliases}
use daqdb.Tests.Routes.{core, node_at}

-- A node that stores one value, for every key
abbrev one_value : KvStoreOps Bytes
one_value = record {
  key_size = 2;
  get = λ k capacity s. (gives s, s);
  get_any = λ n s. (gives (200 ∷ 1 ∷ []), s);
  alloc = λ k n s. (gives 0, s);
  copy_value = λ p bs s. bs;
  put = λ k p n s. (gives tt, s);
  remove = λ k s. (fails StatusCode.key_not_found, s);
}

abbrev delivered : Handled Bytes → Bytes → Delivery Bytes
delivered (responds buf size r s) old = answered r s
delivered (escapes s) old = silent s
delivered faults old = silent old

abbrev direct : Erpc Bytes
direct = record { exchange = λ h m s. delivered (h m s) s }

direct-delivers :
    (h : DaqdbDhtMsg → Bytes → Handled Bytes) (m : DaqdbDhtMsg) (s s' : Bytes) (buf : RespBuf)
    (size : ℕ) (r : DaqdbDhtResult)
    → h m s ≡ responds buf size r s'
    → direct.exchange h m s ≡ answered r s'
direct-delivers h m s s' buf size r e = rw e

abbrev pub client : DhtClient
client = record {
  req_msg = record { key_size = 0; val_size = 0; msg = λ i. 0 };
  req_ctx = init_req_ctx;
  req_msg_buf_in_use = false;
  req_msg_buf_val_in_use = false;
  any_idx = 0;
}

abbrev sites : Sites Bytes
sites node = node ∷ 7 ∷ []

abbrev a_key : Key
a_key = own (200 ∷ 1 ∷ [])

host : get_host_for_key (key_data a_key client.req_msg) core ≡ Core.ok (node_at 1 128 255)
unfolding get_host_for_key gen_hash hash_rounds shift_left first_match store_bytes
    Core.init_range_to_host Core.set_range
host = refl

get_remote_example :
    ((get one_value direct core a_key client sites).0 ≡ returns (gives (1 ∷ 7 ∷ [])))
    × ((get one_value direct core a_key client sites).2 ≡ set_site 1 (1 ∷ 7 ∷ []) sites)
get_remote_example =
    get_remote one_value direct core direct-delivers a_key client sites (node_at 1 128 255) tt host
      (gives (1 ∷ 7 ∷ [])) (1 ∷ 7 ∷ []) (omega arith) (omega arith) refl (omega arith)

remove_remote_example :
    ((remove one_value direct core a_key client sites).0 ≡ returns (fails StatusCode.key_not_found))
    × ((remove one_value direct core a_key client sites).2 ≡ set_site 1 (1 ∷ 7 ∷ []) sites)
remove_remote_example =
    remove_remote one_value direct core direct-delivers a_key client sites (node_at 1 128 255) tt
      host (fails StatusCode.key_not_found) (1 ∷ 7 ∷ []) (omega arith) (omega arith) refl (λ e. cc)

put_remote_example :
    ((put one_value direct core a_key (Value.own (5 ∷ 6 ∷ [])) client sites).0 ≡ returns (gives tt))
    × ((put one_value direct core a_key (Value.own (5 ∷ 6 ∷ [])) client sites).2
        ≡ set_site 1 (5 ∷ 6 ∷ []) sites)
put_remote_example =
    put_remote one_value direct core direct-delivers a_key (Value.own (5 ∷ 6 ∷ [])) client sites
      (node_at 1 128 255) tt tt host 0 (gives tt) (1 ∷ 7 ∷ []) (5 ∷ 6 ∷ []) (omega arith)
      (omega arith) refl refl tt

-- Sessions that are connected after three runs of the loop, but for that with node 2
abbrev slow_sessions : SessionOps
slow_sessions = record {
  create_session = λ uri. uri;
  connected_after = λ session m. if session == 2 then false else leb 3 m;
}

abbrev new_peer : ℕ → Peer
new_peer uri = record { uri = uri; session_id = none }

initialize_lem_example :
    (initialize slow_sessions 4 100 3 2 (new_peer 0 ∷ new_peer 1 ∷ []) ≡ (
      gives tt,
      ClientState.ready,
      some 5,
      record { uri = 0; session_id = some 0 } ∷ record { uri = 1; session_id = some 1 } ∷ [],
    ))
    × (initialize slow_sessions 4 100 3 2 (new_peer 0 ∷ new_peer 1 ∷ new_peer 2 ∷ new_peer 3 ∷ [])
        ≡ (
          fails StatusCode.dht_connect_error,
          ClientState.error,
          some 5,
          record { uri = 0; session_id = some 0 }
              ∷ record { uri = 1; session_id = some 1 }
              ∷ new_peer 2
              ∷ new_peer 3
              ∷ [],
        ))
initialize_lem_example =
    initialize_lem slow_sessions 4 100 3 2 (λ e. omega (arith, e)) (new_peer 0 ∷ new_peer 1 ∷ [])
      (new_peer 3 ∷ []) (new_peer 2) ((3, omega arith, refl), ((4, omega arith, refl), tt))
      (λ m h. refl)

alloc-fills_example :
    (d e f g : DhtClient) × (thin_alloc_key true 2 client ≡ (gives (in_msg 2), d))
    × (write_at 0 (200 ∷ 1 ∷ []) d ≡ some e)
    × (thin_alloc true (in_msg 2) 3 e ≡ (gives (Value.in_msg 2 3), f))
    × (write_at 2 (7 ∷ 8 ∷ 9 ∷ []) f ≡ some g)
    × (key_bytes (in_msg 2) g.req_msg ≡ 200 ∷ 1 ∷ [])
    × (value_bytes (Value.in_msg 2 3) g.req_msg ≡ 7 ∷ 8 ∷ 9 ∷ [])
    × Placed (in_msg 2) g.req_msg
alloc-fills_example =
    alloc-fills client (200 ∷ 1 ∷ []) (7 ∷ 8 ∷ 9 ∷ []) refl refl (λ e. omega (arith, e))
      (omega arith)

-- A client that has handed out a key of two bytes
abbrev with_key_out : DhtClient
with_key_out = record client {
  req_msg_buf_in_use = true;
  req_msg = record { key_size = 2; val_size = 0; msg = store_bytes 0 (3 ∷ 4 ∷ []) (λ i. 0) };
}

put_returns :
    (thin_put one_value direct core a_key (Value.own (5 ∷ 6 ∷ [])) with_key_out sites).0
    ≡ returns (gives tt)
unfolding thin_put
put_returns =
    after_thin_put-answer one_value direct core
      (put one_value direct core a_key (Value.own (5 ∷ 6 ∷ [])) with_key_out sites)
    ∙ (put_remote one_value direct core direct-delivers a_key (Value.own (5 ∷ 6 ∷ [])) with_key_out
        sites (node_at 1 128 255) tt tt host 0 (gives tt) (1 ∷ 7 ∷ []) (5 ∷ 6 ∷ []) (omega arith)
        (omega arith) refl refl tt).0

thin_put-aliases_example :
    (let d = (thin_put one_value direct core a_key (Value.own (5 ∷ 6 ∷ [])) with_key_out sites).1 in
      (key_bytes (in_msg 2) d.req_msg ≡ 200 ∷ 1 ∷ []) × ((alloc_key 2 d).0 ≡ gives (in_msg 2)))
thin_put-aliases_example =
    thin_put-aliases one_value direct core 2 (200 ∷ 1 ∷ []) (5 ∷ 6 ∷ []) with_key_out sites
      (gives tt) (omega arith) put_returns (λ e. cc)
