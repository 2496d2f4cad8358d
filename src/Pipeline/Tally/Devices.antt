-- ===== src/Pipeline/Tally/Devices.antt =====
-- A device in service keeps every task that it takes: lib/spdk/SpdkBdev.cpp.
use daqdb.Base.{
  ℕ, ◌+◌, ◌≡◌, refl, Bool, true, false, Option, none, some, [], ◌∷◌, arith, if◌then◌else◌,
  Bool-cases, inl, inr, length,
}
use daqdb.Base.Int.{ℤ}
use daqdb.Pmem.ArTree.{DeviceAddr, is_pmem}
use daqdb.Offload.FreeList.{Pmem, Result, ok, throws, fault, out_of_fuel}
use daqdb.Offload.LbaAlloc.{LbaAlloc, get_lba}
use daqdb.Requests.{IoWaitCb, DeviceTask}
use daqdb.Pipeline.{
  World, returns, Run, and_then, Rc, accepted, no_memory, failed, Spdk, enqueue_finalizer,
  enqueue_io_engine,
}
use daqdb.Pipeline.Bdev.{state_machine, load_addr, take_buffer, to_uint64}
use daqdb.Pipeline.Bdev.Io.{
  reschedule, finish_read, finish_write, submit_write, read_from, write_placed, do_read, do_write,
  with_lba, finish_remove, free_at, do_remove, route_task, read, write, remove,
}
use daqdb.Pipeline.Tally.{Weight, Gives, Live, of_task, tasks-append}

abbrev pub Taken : Weight → ℕ → DeviceTask → Bool → World → Type 0
Taken wt n task b w = Live wt (n + (if b then of_task wt task else 0)) w

module _ (wt : Weight) (spdk : Spdk) where
  pub state_machine-Live : (n : ℕ) (w : World) → Live wt n w → state_machine w ≡ returns false w
  unfolding state_machine
  state_machine-Live n w (io, fin, e) = rw io refl

  -- Where a task joins a ring or a list of the device, the total grows by it.
  reschedule-Taken :
      (n : ℕ) (task : DeviceTask) (w : World)
      → Live wt n w
      → Gives (Taken wt n task) (reschedule spdk task w)
  unfolding reschedule
  reschedule-Taken n task w (io, fin, e) = elim (Bool-cases (spdk.queue_io_wait w)) [
    | inl h ↦ rw h (
      io,
      fin,
      omega (
        arith,
        e,
        tasks-append wt w.waiting
            (record task { bdev_io_wait = IoWaitCb.write_queue_io_wait } ∷ []),
      ),
    )
    | inr h ↦ rw h tt
  ]

  finish_read-Taken :
      (n : ℕ) (rc : Rc) (task : DeviceTask) (w : World)
      → Live wt n w
      → Gives (Taken wt n task) (finish_read spdk rc task w)
  unfolding finish_read
  finish_read-Taken n accepted task w (io, fin, e) =
      (io, fin, omega (arith, e, tasks-append wt w.reads (task ∷ [])))
  finish_read-Taken n no_memory task w live = reschedule-Taken n task _ live
  finish_read-Taken n failed task w live = tt

  finish_write-Taken :
      (n : ℕ) (rc : Rc) (task : DeviceTask) (w : World)
      → Live wt n w
      → Gives (Taken wt n task) (finish_write spdk rc task w)
  unfolding finish_write
  finish_write-Taken n accepted task w (io, fin, e) =
      (io, fin, omega (arith, e, tasks-append wt w.writes (task ∷ [])))
  finish_write-Taken n no_memory task w live = reschedule-Taken n task _ live
  finish_write-Taken n failed task w live = tt

  read_from-Taken :
      (n : ℕ) (addr : Option DeviceAddr) (task : DeviceTask) (w : World)
      → Live wt n w
      → Gives (Taken wt n task) (read_from spdk addr task w)
  unfolding read_from
  read_from-Taken n none task w live = tt
  read_from-Taken n (some addr) task w live =
      finish_read-Taken n _ (record task { block_size = _ }) (take_buffer w) live

  pub do_read-Taken :
      (n : ℕ) (task : DeviceTask) (w : World)
      → Live wt n w
      → Gives (Taken wt n task) (do_read spdk task w)
  unfolding do_read and_then
  do_read-Taken n task w live =
      rw (state_machine-Live n w live) (read_from-Taken n (load_addr task.bdev_addr w) task w live)

  with_lba-Taken :
      (n : ℕ) (task : DeviceTask) (r : Result ℤ × LbaAlloc) (k : ℕ → Run Bool) (w : World)
      → Live wt n w
      → ((lba : ℕ) (v : World) → Live wt n v → Gives (Taken wt n task) (k lba v))
      → Gives (Taken wt n task) (with_lba spdk r k w)
  unfolding with_lba
  with_lba-Taken n task (ok lba, a) k w live h =
      h (to_uint64 lba) (record w { lba_allocator = a }) live
  with_lba-Taken n task (throws e, a) k w live h = tt
  with_lba-Taken n task (fault, a) k w live h = tt
  with_lba-Taken n task (out_of_fuel, a) k w live h = tt

  submit_write-Taken :
      (n : ℕ) (task : DeviceTask) (w : World)
      → Live wt n w
      → Gives (Taken wt n task) (submit_write spdk task w)
  unfolding submit_write
  submit_write-Taken n task w live = finish_write-Taken n _ task w live

  write_placed-Taken :
      (n : ℕ) (pm : Pmem) (task : DeviceTask) (w : World)
      → Live wt n w
      → Gives (Taken wt n task) (write_placed spdk pm task w)
  unfolding write_placed
  write_placed-Taken n pm task w live = elim (Bool-cases (is_pmem task.rqst.loc)) [
    | inl h ↦ rw h (
        with_lba-Taken n task (get_lba pm task.rqst.value_size w.lba_allocator) _ w live
          (λ lba v l. submit_write-Taken n (record task { free_lba = lba }) (take_buffer v) l))
    | inr h ↦ rw h (submit_write-Taken n task (take_buffer w) live)
  ]

  pub do_write-Taken :
      (n : ℕ) (pm : Pmem) (task : DeviceTask) (w : World)
      → Live wt n w
      → Gives (Taken wt n task) (do_write spdk pm task w)
  unfolding do_write and_then
  do_write-Taken n pm task w live =
      rw (state_machine-Live n w live) (write_placed-Taken n pm task w live)

  pub enqueue_finalizer-Taken :
      (n : ℕ) (task : DeviceTask) (w : World)
      → Live wt n w
      → Taken wt n task (enqueue_finalizer spdk task w).0 (enqueue_finalizer spdk task w).1
  unfolding enqueue_finalizer
  enqueue_finalizer-Taken n task w (io, fin, e) =
      elim (Bool-cases (spdk.ring_takes (length w.finalizer))) [
        | inl h ↦ rw h (io, fin, omega (arith, e, tasks-append wt w.finalizer (task ∷ [])))
        | inr h ↦ rw h (io, fin, omega (arith, e))
      ]

  enqueue_io_engine-Taken :
      (n : ℕ) (task : DeviceTask) (w : World)
      → Live wt n w
      → Taken wt n task (enqueue_io_engine spdk task w).0 (enqueue_io_engine spdk task w).1
  unfolding enqueue_io_engine
  enqueue_io_engine-Taken n task w (io, fin, e) =
      elim (Bool-cases (spdk.ring_takes (length w.io_engine))) [
        | inl h ↦ rw h (io, fin, omega (arith, e, tasks-append wt w.io_engine (task ∷ [])))
        | inr h ↦ rw h (io, fin, omega (arith, e))
      ]

  finish_remove-Taken :
      (n : ℕ) (task : DeviceTask) (r : Result (Unit {0}) × LbaAlloc) (w : World)
      → Live wt n w
      → Gives (Taken wt n task) (finish_remove spdk task r w)
  unfolding finish_remove
  finish_remove-Taken n task (ok u, a) w live =
      enqueue_finalizer-Taken n (record task { result = true }) (record w { lba_allocator = a })
        live
  finish_remove-Taken n task (throws e, a) w live = tt
  finish_remove-Taken n task (fault, a) w live = tt
  finish_remove-Taken n task (out_of_fuel, a) w live = tt

  free_at-Taken :
      (n : ℕ) (pm : Pmem) (addr : Option DeviceAddr) (task : DeviceTask) (w : World)
      → Live wt n w
      → Gives (Taken wt n task) (free_at spdk pm addr task w)
  unfolding free_at
  free_at-Taken n pm none task w live = tt
  free_at-Taken n pm (some addr) task w live = finish_remove-Taken n task _ w live

  pub do_remove-Taken :
      (n : ℕ) (pm : Pmem) (task : DeviceTask) (w : World)
      → Live wt n w
      → Gives (Taken wt n task) (do_remove spdk pm task w)
  unfolding do_remove and_then
  do_remove-Taken n pm task w live =
      rw (state_machine-Live n w live) (free_at-Taken n pm (load_addr task.bdev_addr w) task w live)

  route_task-Taken :
      (n : ℕ) (b : Bool) (f : DeviceTask → Run Bool) (task : DeviceTask) (w : World)
      → Live wt n w
      → Gives (Taken wt n task) (f task w)
      → Gives (Taken wt n task) (route_task spdk b f task w)
  unfolding route_task
  route_task-Taken n true f task w live h = enqueue_io_engine-Taken n task w live
  route_task-Taken n false f task w live h = h

  pub read-Taken :
      (n : ℕ) (task : DeviceTask) (w : World)
      → Live wt n w
      → Gives (Taken wt n task) (read spdk task w)
  unfolding read
  read-Taken n task w live =
      route_task-Taken n task.routing (do_read spdk) task w live (do_read-Taken n task w live)

  pub write-Taken :
      (n : ℕ) (pm : Pmem) (task : DeviceTask) (w : World)
      → Live wt n w
      → Gives (Taken wt n task) (write spdk pm task w)
  unfolding write
  write-Taken n pm task w live =
      route_task-Taken n task.routing (do_write spdk pm) task w live
        (do_write-Taken n pm task w live)

  pub remove-Taken :
      (n : ℕ) (pm : Pmem) (task : DeviceTask) (w : World)
      → Live wt n w
      → Gives (Taken wt n task) (remove spdk pm task w)
  unfolding remove
  remove-Taken n pm task w live =
      route_task-Taken n task.routing (do_remove spdk pm) task w live
        (do_remove-Taken n pm task w live)
