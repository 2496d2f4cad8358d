-- ===== src/KvStore/Async.antt =====
-- lib/core/KVStore.cpp: PutAsync and GetAsync, which hand a request to one of the pollers of the tree, or
-- for a long term value to the offload poller, and UpdateAsync, which hands one to the offload poller. A callback that is called here is set.
pub mod Updates
use daqdb.Base.{
  ℕ, suc, ◌%◌, Bool, true, false, Option, none, some, List, [], ◌∷◌, ◌++◌, ◌==◌, length, get_elem?,
  set, if◌then◌else◌,
}
use daqdb.Requests.{
  StatusCode, Rqst, callback, get_pool, update_pool, finalize_get, finalize_update, Reply, gives,
  fails, undefined,
}
use daqdb.Pipeline.{World, Spdk, log_event, put_rqst, enqueue_offload}
use daqdb.Pipeline.PmemPoller.{PmemRqst, RqstOperation}
use daqdb.Pmem.ArTree.{Pmemobj, Outcome, ok, throws, fault, out_of_fuel}
use daqdb.Pmem.ArTree.Operations
use daqdb.Pmem.ArTree.Operations.{ArTree, Entry}
use daqdb.KvStore.{KvStore, Threads, set_world, set_tree}

-- The rings of `_rqstPollers`, and `pollerId` of the calling thread
pub record Pollers : Type 0 where
  pub rings : List (List PmemRqst)
  pub poller_id : ℕ

-- `(pollerId + 1) % _rqstPollers.size()`, or the one that the options name
unfoldable pub next_poller : Option ℕ → Pollers → Reply ℕ
next_poller none p =
    if length p.rings == 0 then undefined else gives (suc p.poller_id % length p.rings)
next_poller (some id) p = gives id

-- The callback of an exception that is caught
unfoldable pub call_back : PmemRqst → StatusCode → KvStore → KvStore
call_back r status s = set_world s (
    log_event
      (callback (record {
        id = r.id;
        status = status;
        key = r.key;
        key_size = r.key_size;
        value_size = r.value_size;
      }))
      s.world)

module _ (spdk : Spdk) where
  -- `_rqstPollers.at(pollerId)->enqueue(...)`. QueueFullException is no OperationFailedException: no catch
  -- clause tells it to the callback.
  unfoldable pub enqueue_ring :
      Option (List PmemRqst) → PmemRqst → Pollers × KvStore → Reply (Unit {0}) × Pollers × KvStore
  enqueue_ring none r (p, s) = (fails StatusCode.out_of_range, p, s)
  enqueue_ring (some ring) r (p, s) =
      if spdk.ring_takes (length ring)
      then (gives tt, record p { rings = set p.rings p.poller_id (ring ++ r ∷ []) }, s)
      else (fails StatusCode.queue_full, p, s)

  unfoldable pub enqueue_at :
      Reply ℕ → PmemRqst → Pollers × KvStore → Reply (Unit {0}) × Pollers × KvStore
  enqueue_at (gives id) r (p, s) =
      enqueue_ring (get_elem? p.rings id) r (record p { poller_id = id }, s)
  enqueue_at (fails e) r (p, s) = (fails e, p, s)
  enqueue_at undefined r (p, s) = (undefined, p, s)

  -- KVStore::PutAsync. What it frees where it throws is left out.
  unfoldable pub put_async :
      Bool → Option ℕ → PmemRqst → Pollers × KvStore → Reply (Unit {0}) × Pollers × KvStore
  put_async long_term id r (p, s) =
      if long_term
      then (fails StatusCode.not_implemented, p, s)
      else enqueue_at (next_poller id p) (record r { op = RqstOperation.put }) (p, s)

  unfoldable pub after_offload_get :
      PmemRqst → Rqst → Bool × World → KvStore → Reply (Unit {0}) × KvStore
  after_offload_get r q (true, w) s = (gives tt, set_world s w)
  after_offload_get r q (false, w) s =
      (fails StatusCode.queue_full, set_world s (put_rqst get_pool q w))

  unfoldable pub offload_get : Bool → Rqst → PmemRqst → KvStore → Reply (Unit {0}) × KvStore
  offload_get false q r s = (fails StatusCode.offload_disabled_error, s)
  offload_get true q r s =
      let q' = finalize_get r.key r.key_size 0 0 true q in
      after_offload_get r q' (enqueue_offload spdk q' s.world) s

  -- KVStore::GetAsync of a local key. A request for a ring that is full is not freed.
  unfoldable pub get_async :
      Threads
      → Bool
      → Option ℕ
      → PmemRqst
      → Pollers × KvStore
      → Reply (Unit {0}) × Pollers × KvStore
  get_async threads long_term id r (p, s) =
      if long_term
      then (let o =
            offload_get s.offload_enabled (threads.take_rqst get_pool s.world)
              (record r { value_size = 0 }) s in
          (o.0, p, o.1))
      else enqueue_at (next_poller id p) (record r { op = RqstOperation.get; value_size = 0 })
          (p, s)

  -- UpdateAsync, once the tree has answered. The exception of a full ring is not caught. Every exception of
  -- Get is told to the callback as KEY_NOT_FOUND, with the caller's value, and the request that is then made
  -- has a location that was never set.
  unfoldable pub after_offload_update :
      PmemRqst → Rqst → Bool × World → KvStore → Reply (Unit {0}) × KvStore
  after_offload_update r q (true, w) s = (gives tt, set_world s w)
  after_offload_update r q (false, w) s =
      (fails StatusCode.queue_full, set_world s (put_rqst update_pool q w))

  unfoldable pub hand_update :
      Threads → PmemRqst → Outcome Entry × ArTree → KvStore → Reply (Unit {0}) × KvStore
  hand_update threads r (ok v, t) s =
      let s' = set_tree s t in
      let q =
        finalize_update r.key r.key_size v.value v.size true v.location
          (threads.take_rqst update_pool s'.world) in
      after_offload_update r q (enqueue_offload spdk q s'.world) s'
  hand_update threads r (throws e, t) s =
      (undefined, call_back r StatusCode.key_not_found (set_tree s t))
  hand_update threads r (fault, t) s = (undefined, set_tree s t)
  hand_update threads r (out_of_fuel, t) s = (undefined, set_tree s t)

  -- KVStore::UpdateAsync
  unfoldable pub update_async :
      Pmemobj → Threads → Bool → PmemRqst → KvStore → Reply (Unit {0}) × KvStore
  update_async pmem threads long_term r s =
      if long_term
      then if s.offload_enabled
        then hand_update threads r (Operations.get pmem r.key s.world.tree) s
        else (fails StatusCode.offload_disabled_error, s)
      else (fails StatusCode.not_implemented, s)
