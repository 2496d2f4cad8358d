-- ===== src/Pipeline/Tally/Completions.antt =====
-- The engine's thread and the finalizer settle each task or pass it on: lib/spdk/SpdkIoEngine.cpp, the
-- callbacks of lib/spdk/SpdkBdev.cpp, and lib/offload/FinalizePoller.cpp.
use daqdb.Base.{
  Option, none, some, ℕ, ◌+◌, ◌≡◌, Bool, true, false, [], ◌∷◌, arith, if◌then◌else◌, Bool-cases,
  inl, inr, length,
}
use daqdb.Pmem.ArTree.{Pmemobj, Outcome, ok, throws, fault, out_of_fuel}
use daqdb.Pmem.ArTree.Operations.{ArTree, remove}
use daqdb.Offload.FreeList.{Pmem}
use daqdb.Requests.{
  StatusCode, Operation, DeviceTask, IoWaitCb, Pool, get_pool, update_pool, remove_pool,
}
use daqdb.Pipeline.{
  World, and_then, Rc, accepted, no_memory, failed, Spdk, rqst_clb, put_rqst, log_event,
  enqueue_finalizer,
}
use daqdb.Pmem.ArTree.{DeviceAddr}
use daqdb.Pipeline.Bdev.{drop_buffer, load_addr}
use daqdb.Pipeline.Bdev.Completion.{
  hand_over, read_complete, write_complete, count_read, count_write, wait_again, finish_resume,
  finish_resumed_read, resume_read, read_queue_io_wait, resume_by, resume, write_queue_io_wait,
}
use daqdb.Pipeline.IoEngine.{unless_taken, dispatch}
use daqdb.Pipeline.FinalizePoller.{
  call_get, finish, process_get, update_by, remove_by, process_update, process_remove,
  finish_update, finish_remove, finalize,
}
use daqdb.Pipeline.Tally.{Weight, and_then-Gives, Live, of_task, tasks-append, weigh, settle_lem}
use daqdb.Pipeline.Tally.Devices.{read-Taken, write-Taken, remove-Taken, state_machine-Live}
use daqdb.Pipeline.Tally.Pollers.{Totals}

module _ (wt : Weight) where
  unless_taken-Totals :
      (n : ℕ) (pool : Pool) (task : DeviceTask) (b : Bool) (w : World)
      → Live wt (n + (if b then wt.of_rqst task.rqst else 0)) w
      → Totals wt (n + wt.of_rqst task.rqst) (unless_taken pool task b w)
  unfolding unless_taken rqst_clb
  unless_taken-Totals n pool task true w live = live
  unless_taken-Totals n pool task false w (io, fin, e) =
      settle_lem wt pool task.rqst StatusCode.unknown_error task.rqst.key task.rqst.key_size 0 n w
        (io, fin, omega (arith, e))

  weighed :
      {op : Operation} (task : DeviceTask) (b : Bool) (w : World) (n : ℕ)
      → op ≡ task.op
      → Live wt (n + (if b then of_task wt task else 0)) w
      → Live wt (n + (if b then weigh op (wt.of_rqst task.rqst) else 0)) w
  weighed task b w n h live = rw h live

  finish-Live :
      (n vs : ℕ) (pool : Pool) (task : DeviceTask) (s : StatusCode) (w : World)
      → Live wt n w
      → Live wt (n + wt.of_rqst task.rqst) (finish pool task s vs w)
  unfolding finish
  finish-Live n vs pool task s w live =
      settle_lem wt pool task.rqst s task.key task.key_size vs n w live

  finish_update-Totals :
      (n : ℕ) (task : DeviceTask) (o : Outcome (Unit {0}) × ArTree) (w : World)
      → Live wt n w
      → Totals wt (n + wt.of_rqst task.rqst) (finish_update task o w)
  unfolding finish_update
  finish_update-Totals n task (ok u, t) w live =
      finish-Live n 0 update_pool task StatusCode.ok (record w { tree = t }) live
  finish_update-Totals n task (throws e, t) w live =
      finish-Live n 0 update_pool task StatusCode.unknown_error (record w { tree = t }) live
  finish_update-Totals n task (fault, t) w live = tt
  finish_update-Totals n task (out_of_fuel, t) w live = tt

  finish_remove-Totals :
      (n : ℕ) (task : DeviceTask) (o : Outcome (Unit {0}) × ArTree) (w : World)
      → Live wt n w
      → Totals wt (n + wt.of_rqst task.rqst) (finish_remove task o w)
  unfolding finish_remove
  finish_remove-Totals n task (ok u, t) w live =
      finish-Live n 0 remove_pool task StatusCode.ok (record w { tree = t }) live
  finish_remove-Totals n task (throws e, t) w live = tt
  finish_remove-Totals n task (fault, t) w live = tt
  finish_remove-Totals n task (out_of_fuel, t) w live = tt

  call_get-Live :
      (n : ℕ) (b : Bool) (task : DeviceTask) (w : World)
      → Live wt n w
      → Live wt (n + wt.of_rqst task.rqst) (put_rqst get_pool task.rqst (call_get b task w))
  unfolding call_get
  call_get-Live n true task w live =
      settle_lem wt get_pool task.rqst StatusCode.ok task.key task.key_size task.rqst.value_size n w
        live
  call_get-Live n false task w live =
      settle_lem wt get_pool task.rqst StatusCode.unknown_error task.key task.key_size 0 n w live

  process_get-Totals :
      (n : ℕ) (task : DeviceTask) (w : World)
      → Live wt n w
      → Totals wt (n + wt.of_rqst task.rqst) (process_get task w)
  unfolding process_get put_rqst log_event
  process_get-Totals n task w live = call_get-Live n task.result task w live

  module _ (pmem : Pmemobj) where
    update_by-Totals :
        (n : ℕ) (b iov : Bool) (task : DeviceTask) (w : World)
        → Live wt n w
        → Totals wt (n + wt.of_rqst task.rqst) (update_by pmem b iov task w)
    unfolding update_by
    update_by-Totals n false iov task w live =
        finish-Live n 0 update_pool task StatusCode.unknown_error w live
    update_by-Totals n true false task w live =
        finish-Live n 0 update_pool task StatusCode.ok w live
    update_by-Totals n true true task w live = finish_update-Totals n task _ w live

    remove_by-Totals :
        (n : ℕ) (b : Bool) (task : DeviceTask) (w : World)
        → Live wt n w
        → Totals wt (n + wt.of_rqst task.rqst) (remove_by pmem b task w)
    unfolding remove_by
    remove_by-Totals n true task w live =
        finish_remove-Totals n task (remove pmem task.rqst.key w.tree) w live
    remove_by-Totals n false task w live =
        finish-Live n 0 remove_pool task StatusCode.unknown_error w live

    pub finalize-Totals :
        (n : ℕ) (op : Operation) (task : DeviceTask) (w : World)
        → Live wt n w
        → Totals wt (n + weigh op (wt.of_rqst task.rqst)) (finalize pmem op task w)
    unfolding finalize process_update process_remove
    finalize-Totals n Operation.nop task w (io, fin, e) = (io, fin, omega (arith, e))
    finalize-Totals n Operation.get task w live = process_get-Totals n task w live
    finalize-Totals n Operation.update task w live =
        update_by-Totals n task.result task.update_pmem_iov task w live
    finalize-Totals n Operation.remove task w live = remove_by-Totals n task.result task w live

  module _ (spdk : Spdk) where
    pub dispatch-Totals :
        (n : ℕ) (pm : Pmem) (op : Operation) (task : DeviceTask) (w : World)
        → op ≡ task.op
        → Live wt n w
        → Totals wt (n + weigh op (wt.of_rqst task.rqst)) (dispatch spdk pm op task w)
    unfolding dispatch
    dispatch-Totals n pm Operation.nop task w h (io, fin, e) = (io, fin, omega (arith, e))
    dispatch-Totals n pm Operation.get task w h live =
        and_then-Gives _ _ _ _ (read-Taken wt spdk n task w live)
          (λ b u t. unless_taken-Totals n get_pool task b u (weighed task b u n h t))
    dispatch-Totals n pm Operation.update task w h live =
        and_then-Gives _ _ _ _ (write-Taken wt spdk n pm task w live)
          (λ b u t. unless_taken-Totals n update_pool task b u (weighed task b u n h t))
    dispatch-Totals n pm Operation.remove task w h live =
        and_then-Gives _ _ _ _ (remove-Taken wt spdk n pm task w live)
          (λ b u t. unless_taken-Totals n remove_pool task b u (weighed task b u n h t))

    -- Where the finalizer's ring has room, a completed task is not lost.
    hand_over-Totals :
        (n : ℕ) (success : Bool) (task : DeviceTask) (w : World)
        → spdk.ring_takes (length w.finalizer) ≡ true
        → Live wt n w
        → Totals wt (n + of_task wt task) (hand_over spdk success task w)
    unfolding hand_over enqueue_finalizer
    hand_over-Totals n success task w room (io, fin, e) = rw room (
      io,
      fin,
      omega (arith, e, tasks-append wt w.finalizer (record task { result = success } ∷ [])),
    )

    pub read_complete-Totals :
        (n : ℕ) (success : Bool) (task : DeviceTask) (w : World)
        → spdk.ring_takes (length w.finalizer) ≡ true
        → Live wt n w
        → Totals wt (n + of_task wt task) (read_complete spdk success task w)
    unfolding read_complete and_then
    read_complete-Totals n success task w room live =
        rw (state_machine-Live wt spdk n (count_read w) live)
          (hand_over-Totals n success task (count_read w) room live)

    pub write_complete-Totals :
        (n : ℕ) (success : Bool) (task : DeviceTask) (w : World)
        → spdk.ring_takes (length w.finalizer) ≡ true
        → Live wt n w
        → Totals wt (n + of_task wt task) (write_complete spdk success task w)
    unfolding write_complete and_then
    write_complete-Totals n success task w room live =
        rw (state_machine-Live wt spdk n (count_write (drop_buffer w)) live)
          (hand_over-Totals n success task (count_write (drop_buffer w)) room live)

    wait_again-Totals :
        (n : ℕ) (task : DeviceTask) (w : World)
        → Live wt n w
        → Totals wt (n + of_task wt task) (wait_again spdk task w)
    unfolding wait_again
    wait_again-Totals n task w (io, fin, e) = elim (Bool-cases (spdk.queue_io_wait w)) [
      | inl h ↦ rw h (io, fin, omega (arith, e, tasks-append wt w.waiting (task ∷ [])))
      | inr h ↦ rw h tt
    ]

    finish_resume-Totals :
        (n : ℕ) (rc : Rc) (task : DeviceTask) (w : World)
        → Live wt n w
        → Totals wt (n + of_task wt task) (finish_resume spdk rc task w)
    unfolding finish_resume
    finish_resume-Totals n accepted task w (io, fin, e) =
        (io, fin, omega (arith, e, tasks-append wt w.writes (task ∷ [])))
    finish_resume-Totals n no_memory task w live = wait_again-Totals n task w live
    finish_resume-Totals n failed task w live = wait_again-Totals n task w live

    pub write_queue_io_wait-Totals :
        (n : ℕ) (task : DeviceTask) (w : World)
        → Live wt n w
        → Totals wt (n + of_task wt task) (write_queue_io_wait spdk task w)
    unfolding write_queue_io_wait
    write_queue_io_wait-Totals n task w live = finish_resume-Totals n _ task w live

    finish_resumed_read-Totals :
        (n : ℕ) (rc : Rc) (task : DeviceTask) (w : World)
        → Live wt n w
        → Totals wt (n + of_task wt task) (finish_resumed_read spdk rc task w)
    unfolding finish_resumed_read
    finish_resumed_read-Totals n accepted task w (io, fin, e) =
        (io, fin, omega (arith, e, tasks-append wt w.reads (task ∷ [])))
    finish_resumed_read-Totals n no_memory task w live = wait_again-Totals n task w live
    finish_resumed_read-Totals n failed task w live = wait_again-Totals n task w live

    resume_read-Totals :
        (n : ℕ) (a : Option DeviceAddr) (task : DeviceTask) (w : World)
        → Live wt n w
        → Totals wt (n + of_task wt task) (resume_read spdk a task w)
    unfolding resume_read
    resume_read-Totals n none task w live = tt
    resume_read-Totals n (some a) task w live = finish_resumed_read-Totals n _ task w live

    resume_by-Totals :
        (n : ℕ) (cb : IoWaitCb) (task : DeviceTask) (w : World)
        → Live wt n w
        → Totals wt (n + of_task wt task) (resume_by spdk cb task w)
    unfolding resume_by read_queue_io_wait
    resume_by-Totals n IoWaitCb.no_callback task w live = tt
    resume_by-Totals n IoWaitCb.read_queue_io_wait task w live =
        resume_read-Totals n (load_addr task.bdev_addr w) task w live
    resume_by-Totals n IoWaitCb.write_queue_io_wait task w live =
        write_queue_io_wait-Totals n task w live

    pub resume-Totals :
        (n : ℕ) (task : DeviceTask) (w : World)
        → Live wt n w
        → Totals wt (n + of_task wt task) (resume spdk task w)
    unfolding resume
    resume-Totals n task w live = resume_by-Totals n task.bdev_io_wait task w live
