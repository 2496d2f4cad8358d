-- ===== src/Pipeline/Bdev/Completion.antt =====
-- lib/spdk/SpdkBdev.cpp: the callbacks that SPDK runs when it completes a task, or has buffers again.
use daqdb.Base.{ℕ, ◌*◌, ◌%◌, ◌^◌, Bool, Option, none, some, [], ◌∷◌, ◌++◌, ◌==◌, if◌then◌else◌}
use daqdb.Pmem.ArTree.{DeviceAddr}
use daqdb.Requests.{DeviceTask, IoWaitCb}
use daqdb.Pipeline.{
  World, hangs, undefined, returns, stops, Run, ◌>>=◌, Rc, accepted, no_memory, failed, Spdk, inc64,
  dec64, enqueue_finalizer,
}
use daqdb.Pipeline.Bdev.{state_machine, drop_buffer, load_addr}

-- `if (outstanding_io_cnt) outstanding_io_cnt--`
abbrev pub settle : ℕ → ℕ
settle n = if n == 0 then n else dec64 n

abbrev pub count_read : World → World
count_read w = record w {
  stats = record w.stats {
    outstanding_io_cnt = settle w.stats.outstanding_io_cnt;
    read_compl_cnt = inc64 w.stats.read_compl_cnt;
  };
}

abbrev pub count_write : World → World
count_write w = record w {
  stats = record w.stats {
    outstanding_io_cnt = settle w.stats.outstanding_io_cnt;
    write_compl_cnt = inc64 w.stats.write_compl_cnt;
  };
}

module _ (spdk : Spdk) where
  -- The answer of `finalizer->enqueue` is not looked at.
  unfoldable pub hand_over : Bool → DeviceTask → Run (Unit {0})
  hand_over success task w =
      returns tt (enqueue_finalizer spdk (record task { result = success }) w).1

  -- SpdkBdev::readComplete
  unfoldable pub read_complete : Bool → DeviceTask → Run (Unit {0})
  read_complete success task w = (state_machine >>= (λ _. hand_over success task)) (count_read w)

  -- SpdkBdev::writeComplete
  unfoldable pub write_complete : Bool → DeviceTask → Run (Unit {0})
  write_complete success task w =
      (state_machine >>= (λ _. hand_over success task)) (count_write (drop_buffer w))

  -- Another turn of waiting
  unfoldable pub wait_again : DeviceTask → Run (Unit {0})
  wait_again task w =
      if spdk.queue_io_wait w
      then returns tt (record w { waiting = w.waiting ++ task ∷ [] })
      else stops hangs w

  unfoldable pub finish_resume : Rc → DeviceTask → Run (Unit {0})
  finish_resume accepted task w = returns tt (record w {
    writes = w.writes ++ task ∷ [];
    stats = record w.stats { write_err_cnt = dec64 w.stats.write_err_cnt };
  })
  finish_resume no_memory task w = wait_again task w
  finish_resume failed task w = wait_again task w

  -- SpdkBdev::writeQueueIoWait
  unfoldable pub write_queue_io_wait : DeviceTask → Run (Unit {0})
  write_queue_io_wait task w =
      finish_resume (spdk.write_blocks (task.block_size * task.free_lba % 2 ^ 64) task.block_size w)
        task w

  unfoldable pub finish_resumed_read : Rc → DeviceTask → Run (Unit {0})
  finish_resumed_read accepted task w = returns tt (record w {
    reads = w.reads ++ task ∷ [];
    stats = record w.stats { read_err_cnt = dec64 w.stats.read_err_cnt };
  })
  finish_resumed_read no_memory task w = wait_again task w
  finish_resumed_read failed task w = wait_again task w

  unfoldable pub resume_read : Option DeviceAddr → DeviceTask → Run (Unit {0})
  resume_read none task w = stops undefined w
  resume_read (some addr) task w =
      finish_resumed_read (spdk.read_blocks (task.block_size * addr.lba % 2 ^ 64) task.block_size w)
        task w

  -- SpdkBdev::readQueueIoWait
  unfoldable pub read_queue_io_wait : DeviceTask → Run (Unit {0})
  read_queue_io_wait task w = resume_read (load_addr task.bdev_addr w) task w

  -- SPDK calls the callback of a task that waits. One without a callback would be a call of a null pointer.
  unfoldable pub resume_by : IoWaitCb → DeviceTask → Run (Unit {0})
  resume_by IoWaitCb.no_callback task w = stops undefined w
  resume_by IoWaitCb.read_queue_io_wait task w = read_queue_io_wait task w
  resume_by IoWaitCb.write_queue_io_wait task w = write_queue_io_wait task w

  unfoldable pub resume : DeviceTask → Run (Unit {0})
  resume task w = resume_by task.bdev_io_wait task w
