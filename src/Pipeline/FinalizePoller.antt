-- ===== src/Pipeline/FinalizePoller.antt =====
-- lib/offload/FinalizePoller.cpp: completed tasks are answered and their requests go back to the pools.
use daqdb.Base.{ℕ, Bool, true, false, Option, none, some, List, [], ◌∷◌}
use daqdb.Pmem.ArTree.{Pmemobj, Outcome, ok, throws, fault, out_of_fuel}
use daqdb.Pmem.ArTree.Operations.{ArTree, remove, allocate_and_update_value_wrapper}
use daqdb.Requests.{StatusCode, Operation, DeviceTask, Pool, get_pool, update_pool, remove_pool}
use daqdb.Pipeline.{
  World, FinState, hangs, uncaught, undefined, returns, stops, Run, ◌>>◌, call, put_rqst,
}
use daqdb.Pipeline.Bdev.{drop_buffer}

unfoldable pub finish : Pool → DeviceTask → StatusCode → ℕ → World → World
finish pool task status value_size w =
    put_rqst pool task.rqst (call task.rqst status task.key task.key_size value_size w)

unfoldable pub call_get : Bool → DeviceTask → World → World
call_get true task = call task.rqst StatusCode.ok task.key task.key_size task.rqst.value_size
call_get false task = call task.rqst StatusCode.unknown_error task.key task.key_size 0

-- FinalizePoller::_processGet
unfoldable pub process_get : DeviceTask → Run (Unit {0})
process_get task w =
    returns tt (put_rqst get_pool task.rqst (drop_buffer (call_get task.result task w)))

-- After AllocateAndUpdateValueWrapper. An exception is answered.
unfoldable pub finish_update : DeviceTask → Outcome (Unit {0}) × ArTree → Run (Unit {0})
finish_update task (ok u, t) w =
    returns tt (finish update_pool task StatusCode.ok 0 (record w { tree = t }))
finish_update task (throws e, t) w =
    returns tt (finish update_pool task StatusCode.unknown_error 0 (record w { tree = t }))
finish_update task (fault, t) w = stops undefined (record w { tree = t })
finish_update task (out_of_fuel, t) w = stops hangs (record w { tree = t })

-- After RTreeEngine::Remove. An exception is not caught.
unfoldable pub finish_remove : DeviceTask → Outcome (Unit {0}) × ArTree → Run (Unit {0})
finish_remove task (ok u, t) w =
    returns tt (finish remove_pool task StatusCode.ok 0 (record w { tree = t }))
finish_remove task (throws e, t) w = stops uncaught (record w { tree = t })
finish_remove task (fault, t) w = stops undefined (record w { tree = t })
finish_remove task (out_of_fuel, t) w = stops hangs (record w { tree = t })

abbrev pub device_addr_size : ℕ
device_addr_size = 16

module _ (pmem : Pmemobj) where
  -- _processUpdate, by the task's result and by whether the tree is to be changed
  unfoldable pub update_by : Bool → Bool → DeviceTask → Run (Unit {0})
  update_by false iov task w = returns tt (finish update_pool task StatusCode.unknown_error 0 w)
  update_by true false task w = returns tt (finish update_pool task StatusCode.ok 0 w)
  update_by true true task w =
      finish_update task
        (allocate_and_update_value_wrapper pmem task.key device_addr_size
          (record { lba = task.free_lba; bus_addr = w.ctx.pci_addr }) w.tree)
        w

  -- FinalizePoller::_processUpdate
  unfoldable pub process_update : DeviceTask → Run (Unit {0})
  process_update task = update_by task.result task.update_pmem_iov task

  unfoldable pub remove_by : Bool → DeviceTask → Run (Unit {0})
  remove_by true task w = finish_remove task (remove pmem task.rqst.key w.tree) w
  remove_by false task w = returns tt (finish remove_pool task StatusCode.unknown_error 0 w)

  -- FinalizePoller::_processRemove
  unfoldable pub process_remove : DeviceTask → Run (Unit {0})
  process_remove task = remove_by task.result task

  unfoldable pub finalize : Operation → DeviceTask → Run (Unit {0})
  finalize Operation.nop task = returns tt
  finalize Operation.get task = process_get task
  finalize Operation.update task = process_update task
  finalize Operation.remove task = process_remove task

  -- A task that is dropped goes back to its pool, and nobody is told.
  unfoldable pub drop_task : Operation → DeviceTask → Run (Unit {0})
  drop_task Operation.nop task w = returns tt w
  drop_task Operation.get task w = returns tt (put_rqst get_pool task.rqst w)
  drop_task Operation.update task w = returns tt (put_rqst update_pool task.rqst w)
  drop_task Operation.remove task w = returns tt (put_rqst remove_pool task.rqst w)

  -- One round of FinalizePoller::process
  unfoldable pub process_in : FinState → DeviceTask → Run (Unit {0})
  process_in FinState.ready task = finalize task.op task
  process_in FinState.quiescing task = drop_task task.op task
  process_in FinState.quiescent task = drop_task task.op task

  unfoldable pub process_task : DeviceTask → Run (Unit {0})
  process_task task w = process_in w.fin_state task w

  -- FinalizePoller::process, on what dequeue has taken; `none` is a null pointer. Without a request it
  -- would set FP_QUIESCENT where the state is FP_QUIESCENT already.
  pub process : List (Option DeviceTask) → Run (Unit {0})
  process [] = returns tt
  process (none ∷ tasks) = process tasks
  process (some task ∷ tasks) = process_task task >> process tasks
