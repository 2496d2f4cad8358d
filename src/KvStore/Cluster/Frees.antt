-- ===== src/KvStore/Cluster/Frees.antt =====
-- KVStore::Put of lib/core/KVStore.cpp gives up its key and its value on every way out.
use daqdb.Base.{◌≡◌, ◌≢◌, refl, ap, ◌∙◌, true, false, ◌∷◌}
use daqdb.Pmem.ArTree.{Key, Pmemobj}
use daqdb.Dht.Core
use daqdb.Dht.Core.{DhtCore, is_local_key}
use daqdb.Requests.{delete_value, Reply, gives, fails, undefined}
use daqdb.Pipeline.{Spdk, log_event}
use daqdb.KvStore.{KvStore, Threads}
use daqdb.KvStore.Node.{put_value}
use daqdb.KvStore.Cluster.{
  Buffer, DhtClient, by_locality, delete_data, free_value, free_key, and_next, free_both, after_put,
  put_key,
}

module _ (pmem : Pmemobj) (spdk : Spdk) (threads : Threads) (dht : DhtCore) (client : DhtClient)
    (key : Key) (k v : Buffer) (own_key : k.kvs_buffered ≡ false)
    (own_value : v.kvs_buffered ≡ false) where
  abbrev freed : KvStore → KvStore
  freed s = record s {
    world = record s.world { log = delete_value k.address ∷ delete_value v.address ∷ s.world.log };
  }

  frees : (s : KvStore) → free_both pmem spdk threads dht client key k v s ≡ (gives tt, freed s)
  unfolding free_both free_value free_key delete_data and_next log_event
  frees s = rw (own_value, own_key) refl

  ends :
      (x : Reply (Unit {0})) (s : KvStore)
      → x ≢ undefined
      → after_put pmem spdk threads dht client key k v (x, s) ≡ (x, freed s)
  unfolding after_put and_next
  ends (gives u) s d = frees s
  ends (fails e) s d =
      ap (λ r. and_next pmem spdk threads dht client r (λ _ s'. (fails e, s'))) (frees s)
  ends undefined s d = absurd (d refl)

  -- Put of a local key, where the key and the value are not the store's own memory, answers as the put of
  -- the raw key does, with success or with its exception, and both ways the value and then the key are
  -- freed, once each, after it.
  pub put_key-Frees :
      (s s' : KvStore) (x : Reply (Unit {0}))
      → is_local_key key dht ≡ Core.ok true
      → put_value pmem spdk threads false key s ≡ (x, s')
      → x ≢ undefined
      → put_key pmem spdk threads dht client key k v s ≡ (x, freed s')
  unfolding put_key by_locality
  put_key-Frees s s' x here e d =
      ap
        (λ l. after_put pmem spdk threads dht client key k v (
          by_locality pmem spdk threads dht client l (put_value pmem spdk threads false key)
            (client.put key) s))
        here
      ∙ ap (after_put pmem spdk threads dht client key k v) e
      ∙ ends x s' d
