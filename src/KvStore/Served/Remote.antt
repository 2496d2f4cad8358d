-- ===== src/KvStore/Served/Remote.antt =====
-- A value that a client of lib/dht/DhtClient.cpp puts and gets, at a node that runs lib/core/KVStore.cpp.
use daqdb.Base.{
  ℕ, ◌+◌, ◌-◌, ◌≡◌, ◌≤◌, refl, ap, ◌∙◌, subst, false, [], ◌∷◌, length, take, ==_refl, arith,
  if◌then◌else◌, ◌==◌,
}
use daqdb.Pmem.ArTree.{Key, Location, Pmemobj, ok, levels}
use daqdb.Pmem.ArTree.Operations
use daqdb.Pmem.ArTree.Operations.{ArTree, Entry, alloc_value_for_key}
use daqdb.Pmem.ArTree.Search.{Bytes as KeyBytes}
use daqdb.Pmem.ArTree.Views.{Valid}
use daqdb.Pmem.ArTree.Reserve.{holds, Reserves, alloc_lem}
use daqdb.Pmem.ArTree.Lifecycle.{get-put-alloc}
use daqdb.Requests
use daqdb.Pipeline.{Spdk}
use daqdb.Primary.{PrimaryKey, enqueue_next}
use daqdb.KvStore.{KvStore, Threads, set_tree, with_tree}
use daqdb.KvStore.Node.{put_value, get_into, alloc_value, after_enqueue}
use daqdb.KvStore.Rollback.{put_enqueues, get_into-put_value}
use daqdb.KvStore.Served.{
  Hosted, key_at, called_offload, called_put, with_bytes, held, served_get, served_alloc,
  served_put, kv_store_ops,
}
use daqdb.Dht.Core
use daqdb.Dht.Core.{DhtNode, DhtCore, get_host_for_key}
use daqdb.Dht.Wire.{
  Bytes, gives, max_request_size, max_response_size, msg_header, result_header, DaqdbDhtMsg,
  DaqdbDhtResult,
}
use daqdb.Dht.Server.{Handled, responds, RespBuf}
use daqdb.Dht.Client
use daqdb.Dht.Client.{own, Value, DhtClient, answered, Erpc, returns, Sites, set_site, key_data}
use daqdb.Dht.Client.Transparency.{get_remote, put_remote}

take-length : (bs : Bytes) → take (length bs) bs ≡ bs
take-length [] = refl
take-length (b ∷ bs) = ap (λ r. b ∷ r) (take-length bs)

module _ (pmem : Pmemobj) (spdk : Spdk) (threads : Threads) (handed : KvStore → Key → ℕ → Bytes)
    (ks vs : Bytes) (bounded : KeyBytes (key_at ks)) (h : Hosted) (valid : Valid h.store.world.tree)
    (a : ℕ) (t : ArTree)
    (allocated : alloc_value_for_key pmem (key_at ks) (length vs) h.store.world.tree ≡ (ok a, t))
    (p : PrimaryKey)
    (kept : enqueue_next spdk.ring_takes (key_at ks) h.store.p_key ≡ (Requests.gives tt, p)) where
  -- The node after Alloc, after the copy, and after Put
  abbrev reserved : Hosted
  reserved = record h { store = set_tree h.store t }

  abbrev copied : Hosted
  copied = record reserved { memory = λ q. if q == a then vs else h.memory q }

  abbrev put_store : KvStore
  put_store = (put_value pmem spdk threads false (key_at ks) copied.store).1

  abbrev filled : Hosted
  filled = record copied { store = put_store }

  served_alloc_lem : served_alloc pmem spdk threads handed ks (length vs) h ≡ (gives a, reserved)
  unfolding served_alloc alloc_value with_tree
  served_alloc_lem = rw (allocated, alloc_value)

  reserves : Reserves pmem (key_at ks) bounded h.store.world.tree valid (length vs) (ok a, t)
  reserves =
      subst (Reserves pmem (key_at ks) bounded h.store.world.tree valid (length vs)) allocated
        (alloc_lem pmem (key_at ks) bounded h.store.world.tree valid (length vs))

  -- The tree that Put leaves, and what a Get then finds
  put_lem :
      (capacity : ℕ)
      → length vs ≤ capacity
      → ((put_value pmem spdk threads false (key_at ks) copied.store).0 ≡ Requests.gives tt)
        × ((get_into pmem spdk threads (key_at ks) (length ks) capacity put_store).0
            ≡ Requests.gives (length vs))
        × ((Operations.get pmem (key_at ks) put_store.world.tree).0
            ≡ ok (record { value = a; size = length vs; location = Location.pmem }))
  unfolding Reserves after_enqueue
  put_lem capacity room =
      let (v, before, keeps, (w, empty, there)) = reserves in
      let w' = holds (length vs) a w in
      let (done, size) =
        get_into-put_value pmem spdk threads (key_at ks) bounded copied.store v w' there p
          (length ks) capacity room kept in
      let kept_tree =
        ap (λ r. r.1.world.tree)
          (put_enqueues pmem spdk threads (key_at ks) bounded copied.store v w' there
            (Requests.gives tt, p) kept) in
      (
        done,
        size,
        ap (λ t. (Operations.get pmem (key_at ks) t).0) kept_tree
            ∙ get-put-alloc pmem (key_at ks) bounded h.store.world.tree (length vs) a t valid
                allocated,
      )

  served_put_lem : served_put pmem spdk threads handed ks a (length vs) copied ≡ (gives tt, filled)
  unfolding served_put called_put
  served_put_lem = ap (λ r. (called_put r, filled)) (put_lem (length vs) (omega arith)).0

  served_get_lem :
      (capacity : ℕ)
      → length vs ≤ capacity
      → (served_get pmem spdk threads handed ks capacity filled).0 ≡ gives vs
  unfolding served_get called_offload held
  served_get_lem capacity room =
      let (_, size, entry) = put_lem capacity room in
      ap
        (λ r.
          with_bytes
            (held pmem spdk threads handed (key_at ks) filled
              (Operations.get pmem (key_at ks) put_store.world.tree).0)
            (called_offload r))
        size
      ∙ ap (λ e. gives (held pmem spdk threads handed (key_at ks) filled e (length vs))) entry
      ∙ ap (λ m. gives (take (length vs) m)) (rw (==_refl a))
      ∙ ap gives (take-length vs)

  module _ (key_size : ℕ) (erpc : Erpc Hosted) (dht : DhtCore)
      (delivers : (f : DaqdbDhtMsg → Hosted → Handled Hosted) (m : DaqdbDhtMsg) (s s' : Hosted)
          (buf : RespBuf) (size : ℕ) (r : DaqdbDhtResult)
        → f m s ≡ responds buf size r s'
        → erpc.exchange f m s ≡ answered r s')
      (c : DhtClient) (sites : Sites Hosted) (n : DhtNode) (there : sites n.uri ≡ h)
      (host : get_host_for_key (key_at ks) dht ≡ Core.ok n) where
    -- For a key of the tree's size, all of the bytes that the hash reads in it: where eRPC brings responses back, and at the node that serves the key the
    -- tree is valid, AllocValueForKey succeeds, so that the key has no value and there is memory for one, and
    -- the queue of ready keys takes the key, a client's put of the key and a value that fit into a
    -- message succeeds, and its get of the key that follows gives the bytes of the value.
    pub remote_round_trip :
        length ks ≡ levels
        → dht.mask_offset + dht.mask_length ≤ length ks
        → msg_header + length ks + length vs ≤ max_request_size
        → (let ops = kv_store_ops pmem spdk threads handed key_size in
            let r = Client.put ops erpc dht (own ks) (Value.own vs) c sites in
            (r.0 ≡ returns (gives tt))
            × ((Client.get ops erpc dht (own ks) r.1 r.2).0 ≡ returns (gives vs)))
    remote_round_trip whole within room =
        let ops = kv_store_ops pmem spdk threads handed key_size in
        let r = Client.put ops erpc dht (own ks) (Value.own vs) c sites in
        let (put, after) =
          put_remote ops erpc dht delivers (own ks) (Value.own vs) c sites n tt tt host a (gives tt)
            reserved filled within room
            (ap (served_alloc pmem spdk threads handed ks (length vs)) there ∙ served_alloc_lem)
            served_put_lem tt in
        let at : r.2 n.uri ≡ filled = ap (λ f. f n.uri) after ∙ rw (==_refl n.uri) in
        let capacity = max_response_size - result_header in
        let got = served_get_lem capacity (omega (arith, room)) in
        let g = (served_get pmem spdk threads handed ks capacity filled).1 in
        let (get, _) =
          get_remote ops erpc dht delivers (own ks) r.1 r.2 n tt host (gives vs) g within
            (omega (arith, room))
            (ap (served_get pmem spdk threads handed ks capacity) at ∙ ap (λ q. (q, g)) got)
            (omega (arith, room)) in
        (put, get)
