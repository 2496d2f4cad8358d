-- ===== src/Tests/Remotes.antt =====
-- A client of lib/dht/DhtClient.cpp whose nodes run lib/core/KVStore.cpp on a small tree.
use daqdb.Base.{ℕ, ◌<◌, ◌≡◌, refl, true, [], ◌∷◌, arith, suc}
use daqdb.Pmem.ArTree.{Location, ok, find_value_in_node, leaf_child, open_child, new_node, fill}
use daqdb.Pmem.ArTree.Operations.{
  ArTree, alloc_value_for_key, with_wrapper, find, use_pointer, alloc_wrapper, set_wrapper,
}
use daqdb.Pmem.ArTree.Search.{Bytes as KeyBytes}
use daqdb.Requests
use daqdb.Primary.{
  PrimaryKey, is_local, is_node, modulo, modulo_rounds, enqueue_next, enqueue_by, enqueue_local,
  create_p_key_buff,
}
use daqdb.KvStore.Served.{Hosted, key_at, kv_store_ops}
use daqdb.KvStore.Served.Remote.{remote_round_trip}
use daqdb.Dht.Core
use daqdb.Dht.Core.{get_host_for_key, gen_hash, hash_rounds, shift_left, first_match}
use daqdb.Dht.Wire.{Bytes, gives, store_bytes, DaqdbDhtMsg, DaqdbDhtResult}
use daqdb.Dht.Server.{Handled, responds, escapes, faults, RespBuf}
use daqdb.Dht.Client
use daqdb.Dht.Client.{own, Value, Delivery, answered, silent, Erpc, returns, Sites}
use daqdb.Tests.Routes.{core, node_at}
use daqdb.Tests.Messages.{client}
use daqdb.Tests.Pipelines.{spdk, world}
use daqdb.Tests.Stores.{threads, primary}
use daqdb.Tests.Trees.{tree_pool}
use daqdb.Tests.TreeRuns.{tree, tree-Valid}

abbrev ks : Bytes
ks = 0 ∷ 1 ∷ 2 ∷ 3 ∷ 4 ∷ 5 ∷ 6 ∷ 7 ∷ []

abbrev vs : Bytes
vs = 20 ∷ 30 ∷ 40 ∷ []

-- The bytes of a key are bytes.
AllBytes : Bytes → Type 0
AllBytes [] = Unit
AllBytes (b ∷ bs) = (b < 256) × AllBytes bs

stored_bytes : (off i : ℕ) (bs : Bytes) → AllBytes bs → store_bytes off bs (λ i. 0) i < 256
unfolding store_bytes AllBytes
stored_bytes off i [] h = omega arith
stored_bytes off i (b ∷ bs) h = ground (arith, stored_bytes (suc off) i bs (h.1))

key-KeyBytes : KeyBytes (key_at ks)
unfolding AllBytes
key-KeyBytes i = stored_bytes 0 i ks (omega arith)

abbrev hosted : Hosted
hosted = record {
  store = record { world = world (tree Location.empty); p_key = primary; offload_enabled = true };
  memory = λ p. [];
}

abbrev allocated : ArTree
allocated = (alloc_value_for_key tree_pool (key_at ks) 3 (tree Location.empty)).1

allocates : alloc_value_for_key tree_pool (key_at ks) 3 (tree Location.empty) ≡ (ok 4096, allocated)
unfolding alloc_value_for_key with_wrapper find use_pointer alloc_wrapper find_value_in_node
    leaf_child open_child set_wrapper fill new_node store_bytes
allocates = refl

abbrev queued : PrimaryKey
queued = record primary { ready_keys = create_p_key_buff primary (key_at ks) ∷ [] }

enqueues : enqueue_next spdk.ring_takes (key_at ks) primary ≡ (Requests.gives tt, queued)
unfolding enqueue_next enqueue_by enqueue_local is_local is_node modulo modulo_rounds store_bytes
enqueues = refl

abbrev delivered : Handled Hosted → Hosted → Delivery Hosted
delivered (responds buf size r s) old = answered r s
delivered (escapes s) old = silent s
delivered faults old = silent old

abbrev direct : Erpc Hosted
direct = record { exchange = λ h m s. delivered (h m s) s }

direct-delivers :
    (h : DaqdbDhtMsg → Hosted → Handled Hosted) (m : DaqdbDhtMsg) (s s' : Hosted) (buf : RespBuf)
    (size : ℕ) (r : DaqdbDhtResult)
    → h m s ≡ responds buf size r s'
    → direct.exchange h m s ≡ answered r s'
direct-delivers h m s s' buf size r e = rw e

abbrev sites : Sites Hosted
sites node = hosted

host : get_host_for_key (key_at ks) core ≡ Core.ok (node_at 2 0 127)
unfolding get_host_for_key gen_hash hash_rounds shift_left first_match store_bytes
    Core.init_range_to_host Core.set_range
host = refl

remote_round_trip_example :
    (let ops = kv_store_ops tree_pool spdk threads (λ s k n. []) 8 in
      let r = Client.put ops direct core (own ks) (Value.own vs) client sites in
      (r.0 ≡ returns (gives tt))
      × ((Client.get ops direct core (own ks) r.1 r.2).0 ≡ returns (gives (20 ∷ 30 ∷ 40 ∷ []))))
remote_round_trip_example =
    remote_round_trip tree_pool spdk threads (λ s k n. []) ks vs key-KeyBytes hosted
      (tree-Valid Location.empty) 4096 allocated allocates queued enqueues 8 direct core
      direct-delivers client sites (node_at 2 0 127) refl host refl (omega arith) (omega arith)
