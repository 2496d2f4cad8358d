-- ===== src/Tests/Pipelines.antt =====
-- One device at rest, an SPDK that does what it is asked, and requests for them.
use daqdb.Base.{
  ℕ, ◌+◌, ◌-◌, ◌^◌, ◌≡◌, ◌≢◌, refl, true, false, some, none, if◌then◌else◌, ◌==◌, List, [], ◌∷◌,
  update,
}
use daqdb.Base.Int.{pos}
use daqdb.Pmem.ArTree.{Location, DeviceAddr}
use daqdb.Pmem.ArTree.Operations.{ArTree}
use daqdb.Pmem.ArTree.Views.{path, lookup, Valid}
use daqdb.Pmem.ArTree.Effects.{on_disk}
use daqdb.Offload.FreeList
use daqdb.Offload.LbaAlloc.{LbaAlloc, get_lba, bucket_get}
use daqdb.Requests.{
  StatusCode, Operation, Rqst, DeviceTask, IoWaitCb, callback, put, get_pool, update_pool,
  remove_pool, in_pmem, finalize_get, finalize_update,
}
use daqdb.Pipeline.{
  IoState, FinState, World, returns, Spdk, accepted, no_memory, failed, enqueue_offload, put_rqst,
  call, log_event, rqst_clb,
}
use daqdb.Pipeline.Bdev.{
  get_optimal_size, get_aligned_size, get_size_in_blk, take_buffer, count_outstanding,
  count_read_err, to_uint64, load_addr,
}
use daqdb.Pipeline.Bdev.Io.{do_read}
use daqdb.Pipeline.Bdev.Completion.{resume}
use daqdb.Pipeline.IoEngine.{process_task}
use daqdb.Pipeline.PmemPoller.{PmemRqst, RqstOperation}
use daqdb.Pipeline.OffloadPoller.{process_rqst, process_update, update_at, answer}
use daqdb.Pipeline.Tally.{events, rqsts, returned, answered}
use daqdb.Pipeline.Steps.{Reach, NoneLost, done, step, submit, offload_step}
use daqdb.Pipeline.Steps.Conserved.{Idle, settled_once}
use daqdb.Pipeline.Steps.GetRound.{at_rest, get_answered}
use daqdb.Pipeline.Steps.UpdateRound.{update_log, update_answered}
use daqdb.Pipeline.Steps.RoundTrip.{round_trip}
use daqdb.Pipeline.Shortage.{rescheduled_read, quiescent_removal}
use daqdb.Tests.Pools.{pool}
use daqdb.Tests.LbaBuckets.{bucket_at, new_drive}
use daqdb.Tests.Trees.{tree_pool, key, key-Bytes}
use daqdb.Tests.TreeRuns.{wrapper, tree, tree-Valid, tree-lookup}

abbrev pub spdk : Spdk
spdk = record {
  read_blocks = λ o n w. accepted;
  write_blocks = λ o n w. accepted;
  queue_io_wait = λ w. true;
  ring_takes = λ n. true;
}

-- One address, 7, in each bucket
abbrev pub alloc : LbaAlloc
alloc = record { buckets = λ i. bucket_at 1; free = new_drive }

abbrev pub world : ArTree → World
world t = at_rest (record {
  tree = t;
  lba_allocator = alloc;
  ctx = record { blk_size = 512; io_min_size = 4096; pci_addr = 3; io_pool_size = 64 };
  io_state = IoState.init;
  fin_state = FinState.ready;
  stats = record {
    outstanding_io_cnt = 0;
    read_compl_cnt = 0;
    write_compl_cnt = 0;
    read_err_cnt = 0;
    write_err_cnt = 0;
  };
  io_bufs_in_use = 0;
  offload = [];
  io_engine = [];
  finalizer = [];
  reads = [];
  writes = [];
  waiting = [];
  log = [];
})

abbrev pub blank : Rqst
blank = record {
  id = 5;
  op = Operation.get;
  key = key;
  key_size = 8;
  value = 0;
  value_size = 0;
  has_clb = true;
  loc = Location.empty;
}

-- An update of a value that is nowhere is answered at once.
abbrev lost : Rqst
lost = record blank { op = Operation.update }

abbrev answered_world : World
answered_world = record (world (tree Location.pmem)) {
  log =
      put update_pool lost
      ∷ callback (record {
        id = 5;
        status = StatusCode.key_not_found;
        key = key;
        key_size = 8;
        value_size = 0;
      })
      ∷ [];
}

idle : (t : ArTree) → Idle (world t)
idle t = record {
  offload = refl;
  io_engine = refl;
  finalizer = refl;
  reads = refl;
  writes = refl;
  waiting = refl;
}

lost_run : Reach spdk pool tree_pool (lost ∷ []) (world (tree Location.pmem)) answered_world
unfolding enqueue_offload process_rqst process_update update_at answer rqst_clb call put_rqst
    log_event
lost_run = submit lost refl (step (offload_step lost [] refl refl) done)

settled_once_example :
    (events (returned 5) answered_world.log
      ≡ events (returned 5) [] + rqsts (returned 5) (lost ∷ []))
    × (events (answered 5) answered_world.log
        ≡ events (answered 5) [] + rqsts (answered 5) (lost ∷ []))
unfolding NoneLost lost_run
settled_once_example =
    settled_once spdk pool tree_pool 5 (lost ∷ []) (world (tree Location.pmem)) answered_world refl
      refl (idle (tree Location.pmem)) lost_run (tt, tt)
      (record {
        offload = refl;
        io_engine = refl;
        finalizer = refl;
        reads = refl;
        writes = refl;
        waiting = refl;
      })

abbrev pub addr : DeviceAddr
addr = record { lba = 7; bus_addr = 3 }

-- The value is on disk, and the vector at 512 says where.
abbrev pub disk_tree : ArTree
disk_tree =
    let t = tree Location.disk in
    record t { store = record t.store { iovs = update (λ p. none) 512 (some addr) } }

pub disk_tree-Valid : Valid disk_tree
disk_tree-Valid =
    let v = tree-Valid Location.disk in
    record { fits = v.fits; sized = v.sized; linked = v.linked; apart = v.apart }

pub disk_tree-lookup : lookup disk_tree (path key) ≡ some (wrapper Location.disk)
unfolding lookup
disk_tree-lookup = tree-lookup Location.disk

get_answered_example :
    (v : World) × Reach spdk pool tree_pool
      (finalize_get key 8 0 0 true blank ∷ [])
      (world disk_tree)
      v
    × Idle v
    × (v.tree ≡ disk_tree)
    × (v.log
        ≡ put get_pool (record (finalize_get key 8 0 0 true blank) { value_size = 10 })
          ∷ callback
              (record { id = 5; status = StatusCode.ok; key = key; key_size = 8; value_size = 10 })
          ∷ [])
get_answered_example =
    get_answered spdk pool tree_pool (world disk_tree) key 8 true blank (wrapper Location.disk) addr
      true key-Bytes disk_tree-Valid disk_tree-lookup refl refl refl (λ u. refl)

-- The state of the allocator after one address was taken
abbrev taken : LbaAlloc
taken = (get_lba pool 10 alloc).1

takes_7 : get_lba pool 10 alloc ≡ (FreeList.ok (pos 7), taken)
unfolding get_lba bucket_get
takes_7 = refl

abbrev pmem_world : World
pmem_world = world (tree Location.pmem)

update_answered_example :
    (v : World) × Reach spdk pool tree_pool
      (finalize_update key 8 512 10 true Location.pmem blank ∷ [])
      pmem_world
      v
    × Idle v
    × (v.log ≡ update_log spdk pool tree_pool pmem_world key 8 512 10 true blank (pos 7) taken)
    × Valid v.tree
    × (lookup v.tree (path key) ≡ some (on_disk 4096 (wrapper Location.pmem)))
    × ((other : List ℕ)
        → other ≢ path key
        → lookup v.tree other ≡ lookup (tree Location.pmem) other)
    × (v.tree.store.iovs 4096 ≡ some (record { lba = to_uint64 (pos 7); bus_addr = 3 }))
    × ((j : ℕ) → 4096 ≢ j → v.tree.store.iovs j ≡ (tree Location.pmem).store.iovs j)
update_answered_example =
    update_answered spdk pool tree_pool pmem_world key 8 512 10 true blank (pos 7) taken
      (wrapper Location.pmem) 4096 key-Bytes (tree-Valid Location.pmem) (tree-lookup Location.pmem)
      refl refl takes_7 refl (λ u. refl)

-- An SPDK that takes only the blocks of the address 7
abbrev pub one_place : Spdk
one_place = record spdk {
  read_blocks = λ o n w. if o == 56 then accepted else failed;
  write_blocks = λ o n w. if o == 56 then accepted else failed;
}

round_trip_example :
    (v : World) × Reach one_place pool tree_pool
      (finalize_update key 8 512 10 true Location.pmem blank
        ∷ finalize_get key 8 0 0 true (record blank { id = 6 })
        ∷ [])
      pmem_world
      v
    × Idle v
    × (v.log
        ≡ put get_pool
            (record (finalize_get key 8 0 0 true (record blank { id = 6 })) { value_size = 10 })
          ∷ callback
              (record { id = 6; status = StatusCode.ok; key = key; key_size = 8; value_size = 10 })
          ∷ put update_pool (finalize_update key 8 512 10 true Location.pmem blank)
          ∷ callback
              (record { id = 5; status = StatusCode.ok; key = key; key_size = 8; value_size = 0 })
          ∷ [])
unfolding get_aligned_size get_size_in_blk to_uint64 get_optimal_size
round_trip_example =
    round_trip one_place pool tree_pool pmem_world key 8 512 blank (record blank { id = 6 }) (pos 7)
      taken (wrapper Location.pmem) 4096 key-Bytes (tree-Valid Location.pmem)
      (tree-lookup Location.pmem) refl refl takes_7 refl (λ u. refl) (λ u. refl)

abbrev short : Spdk
short = record spdk { read_blocks = λ o n w. no_memory }

abbrev task : DeviceTask
task = record {
  size = 4096;
  block_size = 0;
  key = key;
  key_size = 8;
  bdev_addr = in_pmem 512;
  update_pmem_iov = false;
  rqst = record blank { value_size = 10 };
  op = Operation.get;
  result = false;
  free_lba = 0;
  routing = false;
  bdev_io_wait = IoWaitCb.no_callback;
}

abbrev ready_world : World
ready_world = world disk_tree

loads : load_addr task.bdev_addr ready_world ≡ some addr
unfolding load_addr
loads = refl

rescheduled_read_example :
    let task' = record task {
      block_size = get_size_in_blk ready_world.ctx (get_aligned_size ready_world.ctx 10);
      bdev_io_wait = IoWaitCb.write_queue_io_wait;
    } in
    (do_read short task ready_world
      ≡ returns true (record (count_read_err (count_outstanding (take_buffer ready_world))) {
        waiting = task' ∷ [];
      }))
    × (resume short task' pmem_world
        ≡ returns tt (record pmem_world {
          writes = task' ∷ [];
          stats = record pmem_world.stats { write_err_cnt = 2 ^ 64 - 1 };
        }))
rescheduled_read_example =
    rescheduled_read short task ready_world pmem_world addr refl loads (λ x. refl) (λ x. refl)
      (λ x. refl)

abbrev quiescent_world : World
quiescent_world = record pmem_world { io_state = IoState.quiescent }

abbrev removal : DeviceTask
removal = record task { op = Operation.remove }

quiescent_removal_example :
    process_task spdk pool removal quiescent_world
    ≡ returns tt (record quiescent_world {
      log =
          put remove_pool removal.rqst
          ∷ callback (record {
            id = 5;
            status = StatusCode.unknown_error;
            key = key;
            key_size = 8;
            value_size = 0;
          })
          ∷ put remove_pool removal.rqst
          ∷ [];
    })
quiescent_removal_example = quiescent_removal spdk pool removal quiescent_world refl refl

abbrev pub pmem_get : PmemRqst
pmem_get = record {
  id = 9;
  op = RqstOperation.get;
  key = key;
  key_size = 8;
  value_size = 0;
  has_clb = true;
}
