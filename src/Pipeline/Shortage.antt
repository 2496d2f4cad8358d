-- ===== src/Pipeline/Shortage.antt =====
-- What lib/spdk/SpdkBdev.cpp and lib/spdk/SpdkIoEngine.cpp do when SPDK has no buffers for a read, and
-- when the device is quiescent.
use daqdb.Base.{
  ℕ, ◌-◌, ◌*◌, ◌%◌, ◌^◌, ◌<◌, ◌≡◌, refl, true, false, some, [], ◌∷◌, ◌++◌, ltb, if◌then◌else◌,
  ltb-false, arith,
}
use daqdb.Pmem.ArTree.{DeviceAddr}
use daqdb.Offload.FreeList.{Pmem}
use daqdb.Requests.{
  StatusCode, Operation, DeviceTask, IoWaitCb, Answer, Log, callback, put, remove_pool,
}
use daqdb.Pipeline.{
  IoState, World, returns, Spdk, accepted, no_memory, and_then, call, rqst_clb, put_rqst, log_event,
  dec64, dec32,
}
use daqdb.Pipeline.Bdev.{
  get_aligned_size, get_size_in_blk, load_addr, state_machine, count_outstanding, count_read_err,
  take_buffer, drop_buffer, can_queue,
}
use daqdb.Pipeline.Bdev.Io.{
  do_read, read_from, finish_read, reschedule, route_task, remove, do_remove,
}
use daqdb.Pipeline.Bdev.Completion.{resume, resume_by, write_queue_io_wait, finish_resume}
use daqdb.Pipeline.IoEngine.{process_task, dispatch, unless_taken}

exhausted : (n m : ℕ) → n ≡ 0 → m < 2 ^ 32 → (if ltb (dec32 n) m then m - dec32 n else 0) ≡ 0
exhausted n m e h = rw (e, ltb-false (2 ^ 32 - 1) m (omega (arith, h))) refl

module _ (spdk : Spdk) where
  ready_lem : (w : World) → w.io_state ≡ IoState.ready → state_machine w ≡ returns false w
  unfolding state_machine
  ready_lem w io = rw io refl

  quiescent_lem : (w : World) → w.io_state ≡ IoState.quiescent → state_machine w ≡ returns true w
  unfolding state_machine
  quiescent_lem w io = rw io refl

  -- A read of a ready device for which SPDK has no buffers at the value's blocks, and which it lets wait, is
  -- put among the tasks that wait with the callback of a write. Where SPDK takes a write at the blocks that
  -- the task's free address names, to resume it, in any state, submits its buffer as a write, submits no read,
  -- and counts a write error less.
  pub rescheduled_read :
      (task : DeviceTask) (w u : World) (addr : DeviceAddr)
      → w.io_state ≡ IoState.ready
      → load_addr task.bdev_addr w ≡ some addr
      → (let n = get_size_in_blk w.ctx (get_aligned_size w.ctx task.rqst.value_size) in
          (x : World) → spdk.read_blocks (n * addr.lba % 2 ^ 64) n x ≡ no_memory)
      → ((x : World) → spdk.queue_io_wait x ≡ true)
      → (let n = get_size_in_blk w.ctx (get_aligned_size w.ctx task.rqst.value_size) in
          (x : World) → spdk.write_blocks (n * task.free_lba % 2 ^ 64) n x ≡ accepted)
      → (let task' = record task {
        block_size = get_size_in_blk w.ctx (get_aligned_size w.ctx task.rqst.value_size);
        bdev_io_wait = IoWaitCb.write_queue_io_wait;
      } in
          (do_read spdk task w
            ≡ returns true (record (count_read_err (count_outstanding (take_buffer w))) {
              waiting = w.waiting ++ task' ∷ [];
            }))
          × (resume spdk task' u
              ≡ returns tt (record u {
                writes = u.writes ++ task' ∷ [];
                stats = record u.stats { write_err_cnt = dec64 u.stats.write_err_cnt };
              })))
  unfolding do_read read_from finish_read reschedule resume resume_by write_queue_io_wait
      finish_resume and_then
  rescheduled_read task w u addr io at none waits accepts =
      (rw (ready_lem w io, at, none, waits) refl, rw accepts refl)

  -- While the device is quiescent, a removal that reaches the engine is answered with UNKNOWN_ERROR and
  -- its request is returned to its pool twice.
  pub quiescent_removal :
      (pm : Pmem) (task : DeviceTask) (w : World)
      → task.op ≡ Operation.remove
      → w.io_state ≡ IoState.quiescent
      → (let a : Answer = record {
        id = task.rqst.id;
        status = StatusCode.unknown_error;
        key = task.rqst.key;
        key_size = task.rqst.key_size;
        value_size = 0;
      } in
          let once : Log = put remove_pool task.rqst ∷ w.log in
          process_task spdk pm task w
          ≡ returns tt (record w {
            log =
                put remove_pool task.rqst ∷ (if task.rqst.has_clb then callback a ∷ once else once);
          }))
  unfolding process_task dispatch remove route_task do_remove and_then unless_taken rqst_clb call
      put_rqst log_event
  quiescent_removal pm task w op io = rw (op, quiescent_lem w io) refl

  -- A read that finds the device quiescent takes a buffer off the count that it never added. If none
  -- was in use, the engine takes no task from its ring any more.
  pub quiescent_read :
      (task : DeviceTask) (w : World)
      → w.io_state ≡ IoState.quiescent
      → w.io_bufs_in_use ≡ 0
      → w.ctx.io_pool_size < 2 ^ 32
      → (v : World) × (do_read spdk task w ≡ returns false v) × (can_queue v ≡ 0)
  unfolding do_read and_then can_queue
  quiescent_read task w io none small = (
    drop_buffer w,
    rw (quiescent_lem w io) refl,
    exhausted w.io_bufs_in_use w.ctx.io_pool_size none small,
  )
