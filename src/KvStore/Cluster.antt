-- ===== src/KvStore/Cluster.antt =====
-- lib/core/KVStore.cpp: Put, Get and Remove of a key of any node, and what they free. The client of the hash
-- table, which calls eRPC, is a parameter.
pub mod Frees
use daqdb.Base.{ℕ, Bool, true, false, if◌then◌else◌}
use daqdb.Pmem.ArTree.{Key, Pmemobj}
use daqdb.Dht.Core
use daqdb.Dht.Core.{DhtCore, is_local_key}
use daqdb.Requests.{StatusCode, delete_value, Reply, gives, fails, undefined}
use daqdb.Pipeline.{Spdk, log_event}
use daqdb.KvStore.{KvStore, Threads, set_world}
use daqdb.KvStore.Node.{put_value, get_new, remove_value}

-- Key and Value: where the bytes are, how many, and whether the store has the memory
pub record Buffer : Type 0 where
  pub address : ℕ
  pub size : ℕ
  pub kvs_buffered : Bool

-- The calls of DhtClient that the store makes
pub record DhtClient : Type 0 where
  pub put : Key → KvStore → Reply (Unit {0}) × KvStore
  pub get : Key → KvStore → Reply ℕ × KvStore
  pub remove : Key → KvStore → Reply (Unit {0}) × KvStore
  pub free_value : Key → Buffer → KvStore → Reply (Unit {0}) × KvStore
  pub free_key : Buffer → KvStore → Reply (Unit {0}) × KvStore

module _ (pmem : Pmemobj) (spdk : Spdk) (threads : Threads) (dht : DhtCore)
    (client : DhtClient) where
  -- `getDhtCore()->isLocalKey(key)` decides between the node and the client.
  unfoldable pub by_locality {ℓ} :
      {A : Type ℓ}
      → Core.Outcome Bool
      → (KvStore → Reply A × KvStore)
      → (KvStore → Reply A × KvStore)
      → KvStore
      → Reply A × KvStore
  by_locality (Core.ok true) here there s = here s
  by_locality (Core.ok false) here there s = there s
  by_locality Core.key_not_found here there s = (fails StatusCode.key_not_found, s)
  by_locality Core.not_supported here there s = (fails StatusCode.not_supported, s)
  by_locality Core.undefined here there s = (undefined, s)

  unfoldable pub delete_data : Buffer → KvStore → Reply (Unit {0}) × KvStore
  delete_data b s = (gives tt, set_world s (log_event (delete_value b.address) s.world))

  -- KVStore::Free of a value
  unfoldable pub free_value : Key → Buffer → KvStore → Reply (Unit {0}) × KvStore
  free_value key v s =
      if v.kvs_buffered
      then by_locality (is_local_key key dht) (λ s'. (gives tt, s')) (client.free_value key v) s
      else delete_data v s

  -- KVStore::Free of a key
  unfoldable pub free_key : Buffer → KvStore → Reply (Unit {0}) × KvStore
  free_key b s = if b.kvs_buffered then client.free_key b s else delete_data b s

  -- One after the other; an exception of the first leaves out the second.
  unfoldable pub and_next {ℓ κ} :
      {A : Type ℓ} {B : Type κ}
      → Reply A × KvStore
      → (A → KvStore → Reply B × KvStore)
      → Reply B × KvStore
  and_next (gives a, s) k = k a s
  and_next (fails e, s) k = (fails e, s)
  and_next (undefined, s) k = (undefined, s)

  unfoldable pub free_both : Key → Buffer → Buffer → KvStore → Reply (Unit {0}) × KvStore
  free_both key k v s = and_next (free_value key v s) (λ _. free_key k)

  -- What follows in Put, also when it passes an exception on
  unfoldable pub after_put :
      Key → Buffer → Buffer → Reply (Unit {0}) × KvStore → Reply (Unit {0}) × KvStore
  after_put key k v (gives u, s) = free_both key k v s
  after_put key k v (fails e, s) = and_next (free_both key k v s) (λ _ s'. (fails e, s'))
  after_put key k v (undefined, s) = (undefined, s)

  -- KVStore::Put
  unfoldable pub put_key : Key → Buffer → Buffer → KvStore → Reply (Unit {0}) × KvStore
  put_key key k v s = after_put key k v (
      by_locality (is_local_key key dht) (put_value pmem spdk threads false key) (client.put key) s)

  -- KVStore::Get: the size of the value
  unfoldable pub get_key : Key → ℕ → KvStore → Reply ℕ × KvStore
  get_key key key_size s =
      by_locality (is_local_key key dht) (get_new pmem spdk threads key key_size) (client.get key) s

  -- KVStore::Remove
  unfoldable pub remove_key : Key → ℕ → KvStore → Reply (Unit {0}) × KvStore
  remove_key key key_size s =
      by_locality (is_local_key key dht) (remove_value pmem spdk threads key key_size)
        (client.remove key) s
