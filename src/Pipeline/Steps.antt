-- ===== src/Pipeline/Steps.antt =====
-- The threads of the pipeline take turns: a step is one round of a poller, one callback of SPDK, or a new
-- request for the offload poller. SPDK completes reads and writes in any order.
pub mod Conserved
pub mod GetRound
pub mod UpdateRound
pub mod RoundTrip
use daqdb.Base.{ℕ, ◌≡◌, Bool, true, List, [], ◌∷◌, ◌++◌, length}
use daqdb.Pmem.ArTree.{Pmemobj}
use daqdb.Offload.FreeList.{Pmem}
use daqdb.Requests.{Rqst, DeviceTask}
use daqdb.Pipeline.{World, returns, Spdk, enqueue_offload}
use daqdb.Pipeline.Bdev.Completion.{read_complete, write_complete, resume}
use daqdb.Pipeline.OffloadPoller.{process_rqst}
use daqdb.Pipeline.IoEngine
use daqdb.Pipeline.FinalizePoller

-- A completion goes to the finalizer's ring, of 16384 places; one that a full ring does not take is lost.
pub data Step (spdk : Spdk) (pm : Pmem) (pmem : Pmemobj) : World → World → Type 0 where
  offload_step :
      {w v : World} (r : Rqst) (rs : List Rqst)
      → w.offload ≡ r ∷ rs
      → process_rqst spdk pm pmem r.op r (record w { offload = rs }) ≡ returns tt v
      → Step spdk pm pmem w v
  engine_step :
      {w v : World} (t : DeviceTask) (ts : List DeviceTask)
      → w.io_engine ≡ t ∷ ts
      → IoEngine.process_task spdk pm t (record w { io_engine = ts }) ≡ returns tt v
      → Step spdk pm pmem w v
  read_step :
      {w v : World} (before : List DeviceTask) (t : DeviceTask) (after : List DeviceTask)
      (success : Bool)
      → w.reads ≡ before ++ t ∷ after
      → read_complete spdk success t (record w { reads = before ++ after }) ≡ returns tt v
      → Step spdk pm pmem w v
  write_step :
      {w v : World} (before : List DeviceTask) (t : DeviceTask) (after : List DeviceTask)
      (success : Bool)
      → w.writes ≡ before ++ t ∷ after
      → write_complete spdk success t (record w { writes = before ++ after }) ≡ returns tt v
      → Step spdk pm pmem w v
  resume_step :
      {w v : World} (t : DeviceTask) (ts : List DeviceTask)
      → w.waiting ≡ t ∷ ts
      → resume spdk t (record w { waiting = ts }) ≡ returns tt v
      → Step spdk pm pmem w v
  finalize_step :
      {w v : World} (t : DeviceTask) (ts : List DeviceTask)
      → w.finalizer ≡ t ∷ ts
      → FinalizePoller.process_task pmem t (record w { finalizer = ts }) ≡ returns tt v
      → Step spdk pm pmem w v

-- Some steps, with the requests that came in on the way, the first one first
pub data Reach (spdk : Spdk) (pm : Pmem) (pmem : Pmemobj) : List Rqst → World → World → Type 0 where
  done : {w : World} → Reach spdk pm pmem [] w w
  step :
      {rs : List Rqst} {w u v : World}
      → Step spdk pm pmem w u
      → Reach spdk pm pmem rs u v
      → Reach spdk pm pmem rs w v
  submit :
      {rs : List Rqst} {w u v : World} (r : Rqst)
      → enqueue_offload spdk r w ≡ (true, u)
      → Reach spdk pm pmem rs u v
      → Reach spdk pm pmem (r ∷ rs) w v

module _ {spdk : Spdk} {pm : Pmem} {pmem : Pmemobj} where
  -- At the step, if it is a completion, the finalizer's ring has room for it.
  unfoldable pub HasRoom : {w v : World} → Step spdk pm pmem w v → Type 0
  HasRoom (offload_step r rs e h) = Unit {0}
  HasRoom (engine_step t ts e h) = Unit {0}
  HasRoom (read_step {w = w} before t after success e h) =
      spdk.ring_takes (length w.finalizer) ≡ true
  HasRoom (write_step {w = w} before t after success e h) =
      spdk.ring_takes (length w.finalizer) ≡ true
  HasRoom (resume_step t ts e h) = Unit {0}
  HasRoom (finalize_step t ts e h) = Unit {0}

  -- No step of the run loses a completion.
  unfoldable pub NoneLost : {rs : List Rqst} {w v : World} → Reach spdk pm pmem rs w v → Type 0
  unfolding HasRoom
  NoneLost done = Unit {0}
  NoneLost (step s r) = HasRoom s × NoneLost r
  NoneLost (submit q e r) = NoneLost r
