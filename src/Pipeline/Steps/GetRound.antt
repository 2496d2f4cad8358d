-- ===== src/Pipeline/Steps/GetRound.antt =====
-- What becomes of one request when nothing else is going on: the whole way through the pipeline.
use daqdb.Base.{ℕ, ◌*◌, ◌%◌, ◌^◌, ◌≡◌, refl, ◌∙◌, Bool, true, false, some, [], ◌∷◌, if◌then◌else◌}
use daqdb.Pmem.ArTree.{Key, Location, DeviceAddr, ValueWrapper, Pmemobj, ok}
use daqdb.Pmem.ArTree.Operations.{get, read_wrapper}
use daqdb.Offload.FreeList.{Pmem}
use daqdb.Requests.{
  IoWaitCb, StatusCode, Operation, Rqst, DeviceTask, Answer, Log, callback, put, get_pool, in_pmem,
  finalize_get,
}
use daqdb.Pipeline.{
  IoState, FinState, World, returns, Spdk, accepted, and_then, enqueue_offload, enqueue_io_engine,
  enqueue_finalizer, call, put_rqst, log_event,
}
use daqdb.Pipeline.Bdev.{
  get_optimal_size, get_aligned_size, get_size_in_blk, state_machine, load_addr, take_buffer,
  count_outstanding, drop_buffer,
}
use daqdb.Pipeline.Bdev.Io.{route_task, read, do_read, read_from, finish_read}
use daqdb.Pipeline.Bdev.Completion.{hand_over, read_complete, count_read}
use daqdb.Pipeline.IoEngine
use daqdb.Pipeline.IoEngine.{dispatch, unless_taken}
use daqdb.Pipeline.OffloadPoller.{
  process_rqst, process_get, with_val_ctx, read_value, new_task, unless_queued,
}
use daqdb.Pipeline.FinalizePoller
use daqdb.Pipeline.FinalizePoller.{process_in, finalize, call_get}
use daqdb.Pipeline.Steps.{
  offload_step, engine_step, read_step, finalize_step, Reach, done, step, submit,
}
use daqdb.Pipeline.Steps.Conserved.{Idle}
use daqdb.Pmem.ArTree.Search.{Bytes}
use daqdb.Pmem.ArTree.Views.{path, lookup, Valid}
use daqdb.Pmem.ArTree.Effects.{get-lookup}

-- A device in service with nothing to do
abbrev pub at_rest : World → World
at_rest w = record w {
  io_state = IoState.ready;
  fin_state = FinState.ready;
  offload = [];
  io_engine = [];
  finalizer = [];
  reads = [];
  writes = [];
  waiting = [];
}

abbrev pub read_status : Bool → StatusCode
read_status success = if success then StatusCode.ok else StatusCode.unknown_error

module _ (spdk : Spdk) (pm : Pmem) (pmem : Pmemobj) where
  -- A get of a value on disk
  module _ (w : World) (key : Key) (key_size : ℕ) (has_clb : Bool) (r₀ : Rqst) (wr : ValueWrapper)
      (addr : DeviceAddr) where
    abbrev pub get_rqst : Rqst
    get_rqst = finalize_get key key_size 0 0 has_clb r₀

    abbrev pub sized : Rqst
    sized = record get_rqst { value_size = wr.size }

    abbrev pub get_task : DeviceTask
    get_task = record {
      size = get_optimal_size w.ctx wr.size;
      block_size = 0;
      key = key;
      key_size = key_size;
      bdev_addr = in_pmem wr.location_ptr;
      update_pmem_iov = false;
      rqst = sized;
      op = Operation.get;
      result = false;
      free_lba = 0;
      routing = true;
      bdev_io_wait = IoWaitCb.no_callback;
    }

    abbrev pub blocks : ℕ
    blocks = get_size_in_blk w.ctx (get_aligned_size w.ctx wr.size)

    abbrev pub read_task : DeviceTask
    read_task = record get_task { block_size = blocks; routing = false }

    abbrev pub reading : World
    reading = count_outstanding (take_buffer (record (at_rest w) { reads = read_task ∷ [] }))

    abbrev pub after_read : Bool → World
    after_read success =
        count_read
          (record reading { reads = []; finalizer = record read_task { result = success } ∷ [] })

    offload_get :
        spdk.ring_takes 0 ≡ true
        → get pmem key w.tree ≡ (
          ok (record { value = wr.location_ptr; size = wr.size; location = Location.disk }),
          w.tree,
        )
        → process_rqst spdk pm pmem Operation.get get_rqst (at_rest w)
          ≡ returns tt (record (at_rest w) { io_engine = get_task ∷ [] })
    unfolding process_rqst process_get with_val_ctx read_value new_task read route_task
        enqueue_io_engine unless_queued and_then finalize_get
    offload_get takes found = rw (found, takes) refl

    engine_get :
        w.tree.store.iovs wr.location_ptr ≡ some addr
        → ((u : World) → spdk.read_blocks (blocks * addr.lba % 2 ^ 64) blocks u ≡ accepted)
        → IoEngine.process_task spdk pm get_task (at_rest w) ≡ returns tt reading
    unfolding IoEngine.process_task dispatch read route_task do_read and_then state_machine
        load_addr read_from finish_read unless_taken finalize_get
    engine_get at accepts = rw (at, accepts (at_rest w)) refl

    complete_get :
        (success : Bool)
        → spdk.ring_takes 0 ≡ true
        → read_complete spdk success read_task (record reading { reads = [] })
          ≡ returns tt (after_read success)
    unfolding read_complete hand_over enqueue_finalizer and_then state_machine finalize_get
    complete_get success takes = rw takes refl

    abbrev pub get_answer : Bool → Answer
    get_answer success = record {
      id = r₀.id;
      status = read_status success;
      key = key;
      key_size = key_size;
      value_size = if success then wr.size else 0;
    }

    abbrev pub get_log : Bool → Log
    get_log success =
        put get_pool sized ∷ (if has_clb then callback (get_answer success) ∷ w.log else w.log)

    abbrev pub after_get : Bool → World
    after_get success =
        drop_buffer (record (after_read success) { finalizer = []; log = get_log success })

    finalize_get_task :
        (success : Bool)
        → FinalizePoller.process_task pmem
            (record read_task { result = success })
            (record (after_read success) { finalizer = [] })
          ≡ returns tt (after_get success)
    unfolding FinalizePoller.process_task process_in finalize FinalizePoller.process_get call_get
        call put_rqst log_event finalize_get
    finalize_get_task true = refl
    finalize_get_task false = refl

    -- A get of a value that the tree, which is valid, holds on disk, in a device at rest whose rings take
    -- requests and whose read at the value's address SPDK accepts, has a run through the pipeline to its end
    -- for either report of SPDK. Nothing is left waiting, the tree is as before, the request is back in the
    -- get pool, and its callback, if it has one, was called once: with OK and the size in the tree if SPDK
    -- reports success, else with UNKNOWN_ERROR.
    pub get_answered :
        (success : Bool)
        → Bytes key
        → Valid w.tree
        → lookup w.tree (path key) ≡ some wr
        → wr.location ≡ Location.disk
        → w.tree.store.iovs wr.location_ptr ≡ some addr
        → spdk.ring_takes 0 ≡ true
        → ((u : World) → spdk.read_blocks (blocks * addr.lba % 2 ^ 64) blocks u ≡ accepted)
        → (v : World) × Reach spdk pm pmem (get_rqst ∷ []) (at_rest w) v
          × Idle v
          × (v.tree ≡ w.tree)
          × (v.log ≡ get_log success)
    unfolding enqueue_offload read_wrapper process_rqst finalize_get
    get_answered success bytes valid look disk at takes accepts = (
      after_get success,
      submit get_rqst (rw takes refl) (
          step (offload_step get_rqst [] refl (offload_get takes found)) (
            step (engine_step get_task [] refl (engine_get at accepts)) (
              step (read_step [] read_task [] success refl (complete_get success takes)) (
                step
                  (finalize_step (record read_task { result = success }) [] refl
                    (finalize_get_task success))
                  done)))),
      record {
        offload = refl;
        io_engine = refl;
        finalizer = refl;
        reads = refl;
        writes = refl;
        waiting = refl;
      },
      refl,
      refl,
    )
      where
        found : get pmem key w.tree ≡ (
          ok (record { value = wr.location_ptr; size = wr.size; location = Location.disk }),
          w.tree,
        )
        found = get-lookup pmem key bytes w.tree valid ∙ rw (look, disk) refl
