-- ===== src/Pipeline/OffloadPoller.antt =====
-- lib/offload/OffloadPoller.cpp: requests become tasks for the device, or are answered at once.
use daqdb.Base.{ℕ, Bool, true, false, List, [], ◌∷◌, ltb, ◌==◌, if◌then◌else◌}
use daqdb.Pmem.ArTree.{Location, is_pmem, Pmemobj, Outcome, ok, throws, fault, out_of_fuel}
use daqdb.Pmem.ArTree.Operations.{Entry, ArTree, get}
use daqdb.Offload.FreeList.{Pmem}
use daqdb.Requests.{
  StatusCode, Operation, Rqst, null, in_pmem, in_rqst, AddrPtr, DeviceTask, IoWaitCb, Pool,
  get_pool, update_pool, remove_pool, delete_value,
}
use daqdb.Pipeline.{
  World, hangs, undefined, returns, stops, Run, ◌>>=◌, ◌>>◌, Spdk, rqst_clb, put_rqst,
}
use daqdb.Pipeline.Bdev.{get_optimal_size, get_aligned_size, get_size_in_blk}
use daqdb.Pipeline.Bdev.Io.{read, write, remove}

-- `_rqstClb` and the return of the request to its pool
unfoldable pub answer : Pool → Rqst → StatusCode → Run (Unit {0})
answer pool r status w = returns tt (put_rqst pool r (rqst_clb r status w))

-- `delete[] rqst->value`, where a removal brings a value
unfoldable pub drop_value : Rqst → World → World
drop_value r w = record w {
  log = if ltb 0 r.value_size then delete_value r.value ∷ w.log else w.log;
}

unfoldable pub answer_remove : Rqst → StatusCode → Run (Unit {0})
answer_remove r status w = returns tt (put_rqst remove_pool r (drop_value r (rqst_clb r status w)))

-- `if (spdkDev->...(ioTask) != true)`
unfoldable pub unless_queued : Pool → Rqst → Bool → Run (Unit {0})
unless_queued pool r queued = if queued then returns tt else answer pool r StatusCode.unknown_error

-- A DeviceTask as it is initialised: what no initialiser names is zero.
unfoldable pub new_task : ℕ → ℕ → AddrPtr → Bool → Rqst → Operation → DeviceTask
new_task size block_size addr iov r op = record {
  size = size;
  block_size = block_size;
  key = λ i. 0;
  key_size = r.key_size;
  bdev_addr = addr;
  update_pmem_iov = iov;
  rqst = r;
  op = op;
  result = false;
  free_lba = 0;
  routing = true;
  bdev_io_wait = IoWaitCb.no_callback;
}

-- The tree's answer in _getValCtx: every exception gives UNKNOWN_ERROR.
unfoldable pub with_val_ctx {ℓ} :
    {A : Type ℓ} → Outcome Entry × ArTree → Run A → (Entry → Run A) → Run A
with_val_ctx (ok v, t) missing k w = k v (record w { tree = t })
with_val_ctx (throws e, t) missing k w = missing (record w { tree = t })
with_val_ctx (fault, t) missing k w = stops undefined (record w { tree = t })
with_val_ctx (out_of_fuel, t) missing k w = stops hangs (record w { tree = t })

module _ (spdk : Spdk) (pm : Pmem) (pmem : Pmemobj) where
  unfoldable pub read_value : Rqst → Entry → Run (Unit {0})
  read_value r v w =
      if is_pmem v.location
      then answer get_pool r StatusCode.key_not_found w
      else (let r' = record r { value_size = v.size } in
          let task =
            new_task (get_optimal_size w.ctx v.size) 0 (in_pmem v.value) false r' Operation.get in
          (read spdk (record task { key = r.key }) >>= unless_queued get_pool r') w)

  -- OffloadPoller::_processGet
  unfoldable pub process_get : Rqst → Run (Unit {0})
  process_get r w =
      with_val_ctx (get pmem r.key w.tree) (answer get_pool r StatusCode.unknown_error)
        (read_value r) w

  -- The task of an update. What is copied into `devAddrBuf` is what `value` points to.
  unfoldable pub update_task : AddrPtr → Bool → Rqst → World → DeviceTask
  update_task addr iov r w =
      record (new_task (get_optimal_size w.ctx r.value_size)
        (get_size_in_blk w.ctx (get_aligned_size w.ctx r.value_size)) addr iov r Operation.update) {
          key = r.key;
        }

  unfoldable pub write_task : Rqst → DeviceTask → Run (Unit {0})
  write_task r task = write spdk pm task >>= unless_queued update_pool r

  unfoldable pub update_at : Location → Rqst → Run (Unit {0})
  update_at Location.pmem r w = write_task r (update_task null true r w) w
  update_at Location.disk r w =
      if r.value_size == 0
      then answer update_pool r StatusCode.ok w
      else write_task r (update_task (in_rqst (w.tree.store.iovs r.value)) false r w) w
  update_at Location.empty r w = answer update_pool r StatusCode.key_not_found w

  -- OffloadPoller::_processUpdate, of a request that is there
  unfoldable pub process_update : Rqst → Run (Unit {0})
  process_update r = update_at r.loc r

  -- The first eight bytes at the value are read, and not used.
  unfoldable pub remove_value : Rqst → Entry → Run (Unit {0})
  remove_value r v w =
      if is_pmem v.location
      then answer_remove r StatusCode.key_not_found w
      else (remove spdk pm (
              new_task (get_optimal_size w.ctx r.value_size) 0 (in_pmem v.value) false r
                Operation.remove)
            >>= unless_queued remove_pool r)
          w

  -- OffloadPoller::_processRemove
  unfoldable pub process_remove : Rqst → Run (Unit {0})
  process_remove r w =
      with_val_ctx (get pmem r.key w.tree) (answer_remove r StatusCode.unknown_error)
        (remove_value r) w

  unfoldable pub process_rqst : Operation → Rqst → Run (Unit {0})
  process_rqst Operation.nop r = returns tt
  process_rqst Operation.get r = process_get r
  process_rqst Operation.update r = process_update r
  process_rqst Operation.remove r = process_remove r

  -- OffloadPoller::process, on the requests that dequeue has taken
  pub process : List Rqst → Run (Unit {0})
  process [] = returns tt
  process (r ∷ rs) = process_rqst r.op r >> process rs
