-- ===== src/Pipeline/Bdev/Io.antt =====
-- lib/spdk/SpdkBdev.cpp: reads, writes and removals, after init, so the engine is there. The bytes that
-- are copied into the buffers are left out.
use daqdb.Base.{
  ℕ, ◌*◌, ◌%◌, ◌^◌, Bool, true, false, Option, none, some, [], ◌∷◌, ◌++◌, if◌then◌else◌,
}
use daqdb.Base.Int.{ℤ}
use daqdb.Pmem.ArTree.{DeviceAddr, is_pmem}
use daqdb.Offload.FreeList.{Pmem, Result, ok, throws, fault, out_of_fuel}
use daqdb.Offload.LbaAlloc.{LbaAlloc, get_lba, put_lba}
use daqdb.Requests.{DeviceTask, IoWaitCb, remove_pool}
use daqdb.Pipeline.{
  hangs, uncaught, undefined, returns, stops, Run, ◌>>=◌, Rc, accepted, no_memory, failed, Spdk,
  put_rqst, enqueue_finalizer, enqueue_io_engine,
}
use daqdb.Pipeline.Bdev.{
  get_aligned_size, get_size_in_blk, state_machine, load_addr, to_uint64, to_int64,
  count_outstanding, count_read_err, count_write_err, take_buffer, drop_buffer,
}

module _ (spdk : Spdk) where
  -- SpdkBdev::reschedule, which sets writeQueueIoWait for reads and writes alike
  unfoldable pub reschedule : DeviceTask → Run Bool
  reschedule task w =
      if spdk.queue_io_wait w
      then returns true (record w {
        waiting = w.waiting ++ record task { bdev_io_wait = IoWaitCb.write_queue_io_wait } ∷ [];
      })
      else stops hangs w

  -- What follows spdk_bdev_read_blocks
  unfoldable pub finish_read : Rc → DeviceTask → Run Bool
  finish_read accepted task w =
      returns true (count_outstanding (record w { reads = w.reads ++ task ∷ [] }))
  finish_read no_memory task w = reschedule task (count_read_err (count_outstanding w))
  finish_read failed task w = stops hangs (count_read_err (count_outstanding w))

  -- What follows spdk_bdev_write_blocks
  unfoldable pub finish_write : Rc → DeviceTask → Run Bool
  finish_write accepted task w =
      returns true (count_outstanding (record w { writes = w.writes ++ task ∷ [] }))
  finish_write no_memory task w = reschedule task (count_write_err (count_outstanding w))
  finish_write failed task w = stops hangs (count_write_err (count_outstanding w))

  unfoldable pub submit_write : DeviceTask → Run Bool
  submit_write task w =
      finish_write (spdk.write_blocks (task.block_size * task.free_lba % 2 ^ 64) task.block_size w)
        task w

  unfoldable pub read_from : Option DeviceAddr → DeviceTask → Run Bool
  read_from none task w = stops undefined w
  read_from (some addr) task w =
      let size = get_aligned_size w.ctx task.rqst.value_size in
      let blocks = get_size_in_blk w.ctx size in
      finish_read (spdk.read_blocks (blocks * addr.lba % 2 ^ 64) blocks w)
        (record task { block_size = blocks }) (take_buffer w)

  -- SpdkBdev::doRead
  unfoldable pub do_read : DeviceTask → Run Bool
  do_read task = do
    quiet ← state_machine
    if quiet
        then (λ w. returns false (drop_buffer w))
        else (λ w. read_from (load_addr task.bdev_addr w) task w)

  -- getFreeLba and what doWrite does with its answer
  unfoldable pub with_lba : Result ℤ × LbaAlloc → (ℕ → Run Bool) → Run Bool
  with_lba (ok lba, a) k w = k (to_uint64 lba) (record w { lba_allocator = a })
  with_lba (throws e, a) k w = stops uncaught (record w { lba_allocator = a })
  with_lba (fault, a) k w = stops undefined (record w { lba_allocator = a })
  with_lba (out_of_fuel, a) k w = stops hangs (record w { lba_allocator = a })

  -- Only a value in persistent memory gets a new address.
  unfoldable pub write_placed : Pmem → DeviceTask → Run Bool
  write_placed pm task w =
      if is_pmem task.rqst.loc
      then with_lba (get_lba pm task.rqst.value_size w.lba_allocator)
          (λ lba w'. submit_write (record task { free_lba = lba }) (take_buffer w')) w
      else submit_write task (take_buffer w)

  -- SpdkBdev::doWrite
  unfoldable pub do_write : Pmem → DeviceTask → Run Bool
  do_write pm task = do
    quiet ← state_machine
    if quiet then (λ w. returns false (drop_buffer w)) else write_placed pm task

  unfoldable pub finish_remove : DeviceTask → Result (Unit {0}) × LbaAlloc → Run Bool
  finish_remove task (ok u, a) w =
      let r =
        enqueue_finalizer spdk (record task { result = true }) (record w { lba_allocator = a }) in
      returns r.0 r.1
  finish_remove task (throws e, a) w = stops uncaught (record w { lba_allocator = a })
  finish_remove task (fault, a) w = stops undefined (record w { lba_allocator = a })
  finish_remove task (out_of_fuel, a) w = stops hangs (record w { lba_allocator = a })

  unfoldable pub free_at : Pmem → Option DeviceAddr → DeviceTask → Run Bool
  free_at pm none task w = stops undefined w
  free_at pm (some addr) task w =
      let size = get_aligned_size w.ctx task.rqst.value_size in
      finish_remove task (put_lba pm (to_int64 addr.lba) size w.lba_allocator) w

  -- SpdkBdev::doRemove
  unfoldable pub do_remove : Pmem → DeviceTask → Run Bool
  do_remove pm task = do
    quiet ← state_machine
    if quiet
        then (λ w. returns false (put_rqst remove_pool task.rqst w))
        else (λ w. free_at pm (load_addr task.bdev_addr w) task w)

  -- To the engine's ring, or straight to the device
  unfoldable pub route_task : Bool → (DeviceTask → Run Bool) → DeviceTask → Run Bool
  route_task true f task w = let r = enqueue_io_engine spdk task w in returns r.0 r.1
  route_task false f task w = f task w

  -- SpdkBdev::read, write and remove
  unfoldable pub read : DeviceTask → Run Bool
  read task = route_task task.routing do_read task

  unfoldable pub write : Pmem → DeviceTask → Run Bool
  write pm task = route_task task.routing (do_write pm) task

  unfoldable pub remove : Pmem → DeviceTask → Run Bool
  remove pm task = route_task task.routing (do_remove pm) task
