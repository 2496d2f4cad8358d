-- ===== src/KvStore/Async/Updates.antt =====
-- KVStore::Update and KVStore::UpdateAsync of lib/core/KVStore.cpp, of a value that the tree has.
use daqdb.Base.{◌≡◌, ◌⊎◌, Bool, true, false}
use daqdb.Pmem.ArTree.{Pmemobj}
use daqdb.Pmem.ArTree.Operations
use daqdb.Pmem.ArTree.Operations.{ArTree, Entry}
use daqdb.Requests.{StatusCode, Rqst, update_pool, finalize_update, Reply, gives, fails}
use daqdb.Pipeline.{Spdk}
use daqdb.Pipeline.PmemPoller.{PmemRqst}
use daqdb.KvStore.{KvStore, Threads, answer_of, set_world}
use daqdb.KvStore.Node.{after_wait}

module _ (pmem : Pmemobj) (spdk : Spdk) (threads : Threads) where
  -- The request for a value of the tree
  abbrev pub request_for : PmemRqst → Entry → KvStore → Rqst
  request_for r v s =
      finalize_update r.key r.key_size v.value v.size true v.location
        (threads.take_rqst update_pool s.world)

  -- How the two calls end: a ring that takes the request, or one that is full
  abbrev pub Ends :
      PmemRqst → Rqst → Bool → Reply (Unit {0}) × KvStore → Reply (Unit {0}) × KvStore → Type 0
  Ends r q takes async blocking =
      ((takes ≡ true)
        × (async.0 ≡ gives tt)
        × (blocking
            ≡ after_wait pmem spdk threads (λ a. tt) (answer_of q.id (threads.news async.1.world))
                (set_world async.1 (threads.elapse async.1.world))))
      ⊎ ((takes ≡ false) × (blocking.0 ≡ fails StatusCode.queue_full) × (async ≡ blocking))
