-- ===== src/Tests/Stores.antt =====
-- A store on a device at rest, and keys for its queue.
use daqdb.Base.{ap, ◌≢◌}
use daqdb.Base.{◌+◌, ◌++◌, ◌≡◌, refl, true, false, [], ◌∷◌}
use daqdb.Pmem.ArTree.{Key, Location, ok}
use daqdb.Pmem.ArTree.Operations
use daqdb.Requests.{StatusCode, callback, Reply, gives, fails, undefined, Log, delete_value}
use daqdb.Pipeline.{Spdk}
use daqdb.Primary.{
  PrimaryKey, is_local, is_node, modulo, modulo_rounds, enqueue_next, enqueue_by, enqueue_local,
  create_p_key_buff,
}
use daqdb.Primary.Fifo.{primary_part, dequeue_all, enqueue_all, dequeue_all-enqueue_all}
use daqdb.KvStore.{KvStore, Threads}
use daqdb.KvStore.Node.{put_value, get_into}
use daqdb.KvStore.Rollback.{put_rolled_back}
use daqdb.KvStore.Cluster.{Buffer, DhtClient, put_key}
use daqdb.KvStore.Cluster.Frees.{put_key-Frees}
use daqdb.Dht.Core
use daqdb.Dht.Core.{DhtCore, is_local_key}
use daqdb.Pmem.ArTree.Operations.{Entry}
use daqdb.Tests.Pipelines.{spdk, world, blank, disk_tree}
use daqdb.Tests.Trees.{tree_pool, key, key-Bytes}
use daqdb.Tests.TreeRuns.{wrapper, tree, tree-Valid, tree-lookup}

-- One node, and keys whose primary part is their first byte
abbrev pub primary : PrimaryKey
primary = record {
  key_size = 8;
  p_key_size = 1;
  p_key_offset = 0;
  local_node_id = 0;
  n_nodes = 1;
  has_queue = true;
  ready_keys = [];
}

abbrev other_key : Key
other_key i = i + 5

key-local : is_local primary key ≡ gives true
unfolding is_local is_node modulo modulo_rounds
key-local = refl

other_key-local : is_local primary other_key ≡ gives true
unfolding is_local is_node modulo modulo_rounds
other_key-local = refl

dequeue_all-enqueue_all_example :
    dequeue_all 2 (enqueue_all (λ n. true) (key ∷ other_key ∷ []) primary)
    ≡ gives (primary_part primary key) ∷ gives (primary_part primary other_key) ∷ []
dequeue_all-enqueue_all_example =
    dequeue_all-enqueue_all (λ n. true) (key ∷ other_key ∷ []) primary refl refl
      (key-local, (other_key-local, tt)) (λ n lt. refl)

-- While a call waits, its request is answered with an error.
abbrev failing : Log
failing =
    callback (record {
      id = 5;
      status = StatusCode.unknown_error;
      key = key;
      key_size = 8;
      value_size = 0;
    })
    ∷ []

abbrev pub threads : Threads
threads = record {
  news = λ w. failing;
  elapse = λ w. record w { log = failing ++ w.log };
  logs = λ w. refl;
  take_rqst = λ pool w. blank;
}

abbrev store : Location → KvStore
store l = record { world = world (tree l); p_key = primary; offload_enabled = true }

abbrev full : Spdk
full = record spdk { ring_takes = λ n. false }

queue_full : enqueue_next full.ring_takes key primary ≡ (fails StatusCode.no_code, primary)
unfolding enqueue_next enqueue_by enqueue_local is_local is_node modulo modulo_rounds
queue_full = refl

put_rolled_back_example :
    let r = put_value tree_pool full threads false key (store Location.pmem) in
    (r.0 ≡ fails StatusCode.no_code)
    × ((get_into tree_pool full threads key 8 64 r.1).0 ≡ undefined)
put_rolled_back_example =
    put_rolled_back tree_pool full threads key key-Bytes (store Location.pmem)
      (tree-Valid Location.pmem) (wrapper Location.pmem) (tree-lookup Location.pmem)
      StatusCode.no_code primary 8 64 refl queue_full

abbrev queued : PrimaryKey
queued = record primary { ready_keys = create_p_key_buff primary key ∷ [] }

enqueues : enqueue_next spdk.ring_takes key primary ≡ (gives tt, queued)
unfolding enqueue_next enqueue_by enqueue_local is_local is_node modulo modulo_rounds
enqueues = refl

abbrev disk_store : KvStore
disk_store = record { world = world disk_tree; p_key = primary; offload_enabled = true }

abbrev key_buffer : Buffer
key_buffer = record { address = 100; size = 8; kvs_buffered = false }

abbrev value_buffer : Buffer
value_buffer = record { address = 200; size = 10; kvs_buffered = false }

-- A client that no call reaches here, and a hash table without a mask, in which every key is local
abbrev client : DhtClient
client = record {
  put = λ k s. (gives tt, s);
  get = λ k s. (gives 0, s);
  remove = λ k s. (gives tt, s);
  free_value = λ k v s. (gives tt, s);
  free_key = λ k s. (gives tt, s);
}

abbrev dht : DhtCore
dht = record {
  mask_length = 0;
  mask_offset = 0;
  local_node = record { uri = 1; start = 0; end = 0 };
  neighbors = [];
  range_to_host = [];
}

here : is_local_key key dht ≡ Core.ok true
unfolding is_local_key
here = refl

-- The store after a Put that found the queue full
abbrev undone : KvStore
undone = (put_value tree_pool full threads false key (store Location.pmem)).1

fails_full :
    put_value tree_pool full threads false key (store Location.pmem)
    ≡ (fails StatusCode.no_code, undone)
fails_full =
    ap (λ x. (x, undone))
      (put_rolled_back tree_pool full threads key key-Bytes (store Location.pmem)
        (tree-Valid Location.pmem) (wrapper Location.pmem) (tree-lookup Location.pmem)
        StatusCode.no_code primary 8 64 refl queue_full).0

not_undefined : ◌≢◌ {A = Reply (Unit {0})} (fails StatusCode.no_code) undefined
not_undefined e = absurd (cc)

put_key-Frees_example :
    put_key tree_pool full threads dht client key key_buffer value_buffer (store Location.pmem) ≡ (
      fails StatusCode.no_code,
      record undone {
        world = record undone.world {
          log = delete_value 100 ∷ delete_value 200 ∷ undone.world.log;
        };
      },
    )
put_key-Frees_example =
    put_key-Frees tree_pool full threads dht client key key_buffer value_buffer refl refl
      (store Location.pmem) undone (fails StatusCode.no_code) here fails_full not_undefined

abbrev disk_entry : Entry
disk_entry = record {
  value = (wrapper Location.disk).location_ptr;
  size = (wrapper Location.disk).size;
  location = Location.disk;
}
