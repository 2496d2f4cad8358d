-- ===== src/Pipeline/Steps/UpdateRound.antt =====
-- What becomes of one update when nothing else is going on: a value moves from persistent memory to disk.
use daqdb.Base.{
  ℕ, ◌*◌, ◌%◌, ◌^◌, ◌≡◌, ◌≢◌, refl, ap, Bool, true, false, some, List, [], ◌∷◌, if◌then◌else◌,
}
use daqdb.Base.Int.{ℤ}
use daqdb.Pmem.ArTree.{Key, Location, Action, DeviceAddr, ValueWrapper, Pmemobj, ok}
use daqdb.Pmem.ArTree.Operations.{ArTree, allocate_and_update_value_wrapper}
use daqdb.Pmem.ArTree.Search.{Bytes}
use daqdb.Pmem.ArTree.Views.{path, lookup, Valid}
use daqdb.Pmem.ArTree.Effects.{update_lem, on_disk}
use daqdb.Offload.FreeList
use daqdb.Offload.FreeList.{Pmem}
use daqdb.Offload.LbaAlloc.{LbaAlloc, get_lba}
use daqdb.Requests.{
  IoWaitCb, StatusCode, Operation, Rqst, DeviceTask, Log, callback, put, update_pool, null,
  finalize_update,
}
use daqdb.Pipeline.{
  World, returns, Spdk, accepted, and_then, enqueue_offload, enqueue_io_engine, enqueue_finalizer,
  call, put_rqst, log_event,
}
use daqdb.Pipeline.Bdev.{
  get_optimal_size, get_aligned_size, get_size_in_blk, state_machine, take_buffer,
  count_outstanding, drop_buffer, to_uint64,
}
use daqdb.Pipeline.Bdev.Io.{
  route_task, write, do_write, write_placed, with_lba, submit_write, finish_write,
}
use daqdb.Pipeline.Bdev.Completion.{hand_over, write_complete, count_write}
use daqdb.Pipeline.IoEngine
use daqdb.Pipeline.IoEngine.{dispatch, unless_taken}
use daqdb.Pipeline.OffloadPoller.{
  process_rqst, process_update, update_at, update_task, write_task, new_task, unless_queued,
}
use daqdb.Pipeline.FinalizePoller
use daqdb.Pipeline.FinalizePoller.{
  process_in, finalize, update_by, finish_update, finish, device_addr_size,
}
use daqdb.Pipeline.Steps.{
  offload_step, engine_step, write_step, finalize_step, Reach, done, step, submit,
}
use daqdb.Pipeline.Steps.Conserved.{Idle}
use daqdb.Pipeline.Steps.GetRound.{at_rest}

module _ (spdk : Spdk) (pm : Pmem) (pmem : Pmemobj) where
  module _ (w : World) (key : Key) (key_size value value_size : ℕ) (has_clb : Bool) (r₀ : Rqst)
      (lba : ℤ) (a : LbaAlloc) where
    abbrev pub update_rqst : Rqst
    update_rqst = finalize_update key key_size value value_size has_clb Location.pmem r₀

    abbrev pub blocks : ℕ
    blocks = get_size_in_blk w.ctx (get_aligned_size w.ctx value_size)

    abbrev pub update_task₀ : DeviceTask
    update_task₀ = record {
      size = get_optimal_size w.ctx value_size;
      block_size = blocks;
      key = key;
      key_size = key_size;
      bdev_addr = null;
      update_pmem_iov = true;
      rqst = update_rqst;
      op = Operation.update;
      result = false;
      free_lba = 0;
      routing = true;
      bdev_io_wait = IoWaitCb.no_callback;
    }

    abbrev pub written : DeviceTask
    written = record update_task₀ { free_lba = to_uint64 lba; routing = false }

    abbrev pub writing : World
    writing =
        count_outstanding
          (take_buffer (record (at_rest w) { lba_allocator = a; writes = written ∷ [] }))

    abbrev pub after_write : World
    after_write = count_write (
        drop_buffer
          (record writing { writes = []; finalizer = record written { result = true } ∷ [] }))

    offload_update :
        spdk.ring_takes 0 ≡ true
        → process_rqst spdk pm pmem Operation.update update_rqst (at_rest w)
          ≡ returns tt (record (at_rest w) { io_engine = update_task₀ ∷ [] })
    unfolding process_rqst process_update update_at update_task write_task new_task write route_task
        enqueue_io_engine unless_queued and_then finalize_update
    offload_update takes = rw takes refl

    engine_update :
        get_lba pm value_size w.lba_allocator ≡ (FreeList.ok lba, a)
        → ((u : World) → spdk.write_blocks (blocks * to_uint64 lba % 2 ^ 64) blocks u ≡ accepted)
        → IoEngine.process_task spdk pm update_task₀ (at_rest w) ≡ returns tt writing
    unfolding IoEngine.process_task dispatch write route_task do_write and_then state_machine
        write_placed with_lba submit_write finish_write unless_taken finalize_update
    engine_update got accepts =
        rw (got, accepts (take_buffer (record (at_rest w) { lba_allocator = a }))) refl

    complete_update :
        spdk.ring_takes 0 ≡ true
        → write_complete spdk true written (record writing { writes = [] }) ≡ returns tt after_write
    unfolding write_complete hand_over enqueue_finalizer and_then state_machine finalize_update
    complete_update takes = rw takes refl

    abbrev pub update_log : Log
    update_log =
        put update_pool update_rqst
        ∷ (if has_clb
            then callback (record {
              id = r₀.id;
              status = StatusCode.ok;
              key = key;
              key_size = key_size;
              value_size = 0;
            })
              ∷ w.log
            else w.log)

    abbrev pub disk_addr : DeviceAddr
    disk_addr = record { lba = to_uint64 lba; bus_addr = w.ctx.pci_addr }

    abbrev pub after_update : ArTree → World
    after_update t = record after_write { finalizer = []; log = update_log; tree = t }

    finalize_update_task :
        (t : ArTree)
        → allocate_and_update_value_wrapper pmem key device_addr_size disk_addr w.tree ≡ (ok tt, t)
        → FinalizePoller.process_task pmem
            (record written { result = true })
            (record after_write { finalizer = [] })
          ≡ returns tt (after_update t)
    unfolding FinalizePoller.process_task process_in finalize FinalizePoller.process_update
        update_by finish_update finish call put_rqst log_event finalize_update
    finalize_update_task t e = rw e refl

    pub update_Reach :
        (t : ArTree)
        → get_lba pm value_size w.lba_allocator ≡ (FreeList.ok lba, a)
        → spdk.ring_takes 0 ≡ true
        → ((u : World) → spdk.write_blocks (blocks * to_uint64 lba % 2 ^ 64) blocks u ≡ accepted)
        → allocate_and_update_value_wrapper pmem key device_addr_size disk_addr w.tree ≡ (ok tt, t)
        → Reach spdk pm pmem (update_rqst ∷ []) (at_rest w) (after_update t)
    unfolding enqueue_offload finalize_update
    update_Reach t got takes accepts e = submit update_rqst (rw takes refl) (
        step (offload_step update_rqst [] refl (offload_update takes)) (
          step (engine_step update_task₀ [] refl (engine_update got accepts)) (
            step (write_step [] written [] true refl (complete_update takes)) (
              step
                (finalize_step (record written { result = true }) [] refl
                  (finalize_update_task t e))
                done))))

    -- For an update of a value with a pending reservation, in a device at rest with a valid tree, where the
    -- tree and the allocator have room, the rings take requests and SPDK accepts the write at the address that
    -- the allocator gives, there is a run, the one in which SPDK completes the write with success, through the
    -- pipeline to its end. Nothing is left waiting, the request is back in the update pool, its callback, if it
    -- has one, was called once with OK, and the tree is valid and has the value of that key on disk at that
    -- address, and the other keys and the other device addresses as before.
    pub update_answered :
        (wr : ValueWrapper) (iov : ℕ)
        → Bytes key
        → Valid w.tree
        → lookup w.tree (path key) ≡ some wr
        → wr.action_value ≡ Action.reserved
        → pmem.reserve_value device_addr_size w.tree.store ≡ some iov
        → get_lba pm value_size w.lba_allocator ≡ (FreeList.ok lba, a)
        → spdk.ring_takes 0 ≡ true
        → ((u : World) → spdk.write_blocks (blocks * to_uint64 lba % 2 ^ 64) blocks u ≡ accepted)
        → (v : World) × Reach spdk pm pmem (update_rqst ∷ []) (at_rest w) v
          × Idle v
          × (v.log ≡ update_log)
          × Valid v.tree
          × (lookup v.tree (path key) ≡ some (on_disk iov wr))
          × ((other : List ℕ) → other ≢ path key → lookup v.tree other ≡ lookup w.tree other)
          × (v.tree.store.iovs iov ≡ some disk_addr)
          × ((j : ℕ) → iov ≢ j → v.tree.store.iovs j ≡ w.tree.store.iovs j)
    update_answered wr iov bytes valid look act res got takes accepts =
        let ((answer, valid', (here, others)), at, elsewhere) =
          update_lem pmem key bytes w.tree valid wr device_addr_size iov disk_addr look act res in
        let r = allocate_and_update_value_wrapper pmem key device_addr_size disk_addr w.tree in
        (
          after_update r.1,
          update_Reach r.1 got takes accepts (ap (λ x. (x, r.1)) answer),
          record {
            offload = refl;
            io_engine = refl;
            finalizer = refl;
            reads = refl;
            writes = refl;
            waiting = refl;
          },
          refl,
          valid',
          here,
          others,
          at,
          elsewhere,
        )
