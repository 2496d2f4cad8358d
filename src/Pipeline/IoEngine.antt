-- ===== src/Pipeline/IoEngine.antt =====
-- lib/spdk/SpdkIoEngine.cpp: the thread that takes tasks from the engine's ring.
use daqdb.Base.{Bool, false, List, [], ◌∷◌, if◌then◌else◌}
use daqdb.Offload.FreeList.{Pmem}
use daqdb.Requests.{StatusCode, Operation, DeviceTask, Pool, get_pool, update_pool, remove_pool}
use daqdb.Pipeline.{returns, Run, ◌>>=◌, ◌>>◌, Spdk, rqst_clb, put_rqst}
use daqdb.Pipeline.Bdev.Io.{read, write, remove}

-- `if (ret != true) { rqstClb(...); pool.put(...); }`
unfoldable pub unless_taken : Pool → DeviceTask → Bool → Run (Unit {0})
unless_taken pool task ret w =
    if ret
    then returns tt w
    else returns tt (put_rqst pool task.rqst (rqst_clb task.rqst StatusCode.unknown_error w))

module _ (spdk : Spdk) (pm : Pmem) where
  unfoldable pub dispatch : Operation → DeviceTask → Run (Unit {0})
  dispatch Operation.nop task = returns tt
  dispatch Operation.get task = read spdk task >>= unless_taken get_pool task
  dispatch Operation.update task = write spdk pm task >>= unless_taken update_pool task
  dispatch Operation.remove task = remove spdk pm task >>= unless_taken remove_pool task

  -- One round of SpdkIoEngine::process
  unfoldable pub process_task : DeviceTask → Run (Unit {0})
  process_task task = dispatch task.op (record task { routing = false })

  -- SpdkIoEngine::process, on the tasks that dequeue has taken
  pub process : List DeviceTask → Run (Unit {0})
  process [] = returns tt
  process (task ∷ tasks) = process_task task >> process tasks
