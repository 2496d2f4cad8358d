-- ===== src/Pipeline/PmemPoller.antt =====
-- lib/pmem/PmemPoller.h and .cpp: puts and gets for the tree, and gets that are passed on to the offload
-- poller when the value is on disk.
use daqdb.Base.{ℕ, Bool, true, false, List, [], ◌∷◌, ◌==◌, if◌then◌else◌}
use daqdb.Pmem.ArTree.{Key, Location, Pmemobj, Outcome, ok, throws, fault, out_of_fuel}
use daqdb.Pmem.ArTree.Operations
use daqdb.Pmem.ArTree.Operations.{ArTree, Entry}
use daqdb.Requests.{StatusCode, Rqst, callback, delete_rqst, get_pool, finalize_get}
use daqdb.Pipeline.{
  World, hangs, undefined, returns, stops, Run, ◌>>◌, Spdk, log_event, put_rqst, enqueue_offload,
}

-- RqstOperation
pub data RqstOperation : Type 0 where
  nop get put update : RqstOperation

-- PmemRqst, less the pointer to its value, of which ARTree::Put makes no use
pub record PmemRqst : Type 0 where
  pub id : ℕ
  pub op : RqstOperation
  pub key : Key
  pub key_size : ℕ
  pub value_size : ℕ
  pub has_clb : Bool

-- _rqstClb, with the size of the value, or 0 for the one without a value
unfoldable pub pmem_clb : PmemRqst → StatusCode → ℕ → World → World
pmem_clb r status value_size w = record w {
  log =
      if r.has_clb
      then callback (record {
        id = r.id;
        status = status;
        key = r.key;
        key_size = r.key_size;
        value_size = value_size;
      })
        ∷ w.log
      else w.log;
}

-- `offloadPoller->enqueue(getRqst)` and what follows it
unfoldable pub after_transfer : PmemRqst → Rqst → Bool × World → Run (Unit {0})
after_transfer r q (true, w) _ = returns tt w
after_transfer r q (false, w) _ =
    returns tt (pmem_clb r StatusCode.unknown_error 0 (put_rqst get_pool q w))

-- Whether the poller has an offload poller, and the requests that the pool gives out
module _ (spdk : Spdk) (pmem : Pmemobj) (has_offload : Bool) (take_rqst : World → Rqst) where
  -- PmemPoller::_processTransfer. Without an offload poller it calls back, and goes on to use it.
  unfoldable pub transfer_by : Bool → PmemRqst → Run (Unit {0})
  transfer_by false r w = stops undefined (pmem_clb r StatusCode.offload_disabled_error 0 w)
  transfer_by true r w =
      let q = finalize_get r.key r.key_size 0 0 r.has_clb (take_rqst w) in
      after_transfer r q (enqueue_offload spdk q w) w

  unfoldable pub process_transfer : PmemRqst → Run (Unit {0})
  process_transfer = transfer_by has_offload

  -- A value that is there, by its location
  unfoldable pub answer_at : Location → PmemRqst → ℕ → Run (Unit {0})
  answer_at Location.disk r size w = process_transfer r w
  answer_at Location.pmem r size w = returns tt (pmem_clb r StatusCode.ok size w)
  answer_at Location.empty r size w = returns tt (pmem_clb r StatusCode.ok size w)

  unfoldable pub after_tree_get : PmemRqst → Outcome Entry × ArTree → Run (Unit {0})
  after_tree_get r (ok v, t) w =
      if v.value == 0
      then returns tt (pmem_clb r StatusCode.ok 0 (record w { tree = t }))
      else answer_at v.location r v.size (record w { tree = t })
  after_tree_get r (throws e, t) w =
      returns tt (pmem_clb r StatusCode.unknown_error 0 (record w { tree = t }))
  after_tree_get r (fault, t) w = stops undefined (record w { tree = t })
  after_tree_get r (out_of_fuel, t) w = stops hangs (record w { tree = t })

  -- PmemPoller::_processGet
  unfoldable pub process_get : PmemRqst → Run (Unit {0})
  process_get r w = after_tree_get r (Operations.get pmem r.key w.tree) w

  unfoldable pub after_put : PmemRqst → Outcome (Unit {0}) × ArTree → Run (Unit {0})
  after_put r (ok u, t) w = returns tt (pmem_clb r StatusCode.ok 0 (record w { tree = t }))
  after_put r (throws e, t) w =
      returns tt (pmem_clb r StatusCode.unknown_error 0 (record w { tree = t }))
  after_put r (fault, t) w = stops undefined (record w { tree = t })
  after_put r (out_of_fuel, t) w = stops hangs (record w { tree = t })

  -- PmemPoller::_processPut
  unfoldable pub process_put : PmemRqst → Run (Unit {0})
  process_put r w = after_put r (Operations.put pmem r.key w.tree) w

  unfoldable pub process_op : RqstOperation → PmemRqst → Run (Unit {0})
  process_op RqstOperation.put r = process_put r
  process_op RqstOperation.get r = process_get r
  process_op RqstOperation.nop r = returns tt
  process_op RqstOperation.update r = returns tt

  -- One round of PmemPoller::process
  unfoldable pub process_pmem : PmemRqst → Run (Unit {0})
  process_pmem r = process_op r.op r >> (λ w. returns tt (log_event (delete_rqst r.id) w))

  -- PmemPoller::process, on the requests that dequeue has taken
  pub process : List PmemRqst → Run (Unit {0})
  process [] = returns tt
  process (r ∷ rs) = process_pmem r >> process rs
