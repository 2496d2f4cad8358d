-- ===== src/Pipeline/Steps/Conserved.antt =====
-- No request is lost, and none is settled twice, while the device is in service.
use daqdb.Base.{
  ℕ, ◌+◌, ◌≤◌, ◌≡◌, refl, subst, ap, ◌∙◌, Bool, true, false, List, [], ◌∷◌, ◌++◌, length, arith,
  if◌then◌else◌,
}
use daqdb.Pmem.ArTree.{Pmemobj}
use daqdb.Offload.FreeList.{Pmem}
use daqdb.Requests.{Rqst, DeviceTask}
use daqdb.Pipeline.{IoState, FinState, World, Ran, returns, Spdk, enqueue_offload}
use daqdb.Pipeline.IoEngine
use daqdb.Pipeline.FinalizePoller
use daqdb.Pipeline.FinalizePoller.{finalize, process_in}
use daqdb.Pipeline.Steps.{
  Step, offload_step, engine_step, read_step, write_step, resume_step, finalize_step, HasRoom,
  NoneLost, Reach, done, step, submit,
}
use daqdb.Pipeline.Tally.{
  Weight, Live, total, pending, rqsts, tasks, of_task, events, tasks-append, rqsts-append, returned,
  answered,
}
use daqdb.Pipeline.Tally.Pollers.{Totals, process_rqst-Totals}
use daqdb.Pipeline.Tally.Completions.{
  dispatch-Totals, finalize-Totals, read_complete-Totals, write_complete-Totals, resume-Totals,
}

module _ (wt : Weight) (spdk : Spdk) (pm : Pmem) (pmem : Pmemobj) where
  -- What a run that returned has left
  left :
      (k n : ℕ) (r : Ran (Unit {0})) (v : World)
      → r ≡ returns tt v
      → k ≡ n
      → Totals wt k r
      → Live wt n v
  left k n r v e h t = subst (λ m. Live wt m v) h (subst (Totals wt k) e t)

  -- To take one task out and settle it again leaves the total.
  taken_out :
      (before : List DeviceTask) (t : DeviceTask) (after ts : List DeviceTask)
      → ts ≡ before ++ t ∷ after
      → tasks wt ts ≡ tasks wt (before ++ after) + of_task wt t
  taken_out before t after ts e =
      ap (tasks wt) e
      ∙ omega (arith, tasks-append wt before (t ∷ after), tasks-append wt before after)

  finalize_ready :
      (n : ℕ) (s : FinState) (t : DeviceTask) (w : World)
      → s ≡ FinState.ready
      → Live wt n w
      → Totals wt (n + of_task wt t) (process_in pmem s t w)
  unfolding process_in
  finalize_ready n FinState.ready t w e live = finalize-Totals wt pmem n t.op t w live
  finalize_ready n FinState.quiescing t w e live = absurd (cc)
  finalize_ready n FinState.quiescent t w e live = absurd (cc)

  -- While the device and the finalizer are ready, a step keeps them so, and it keeps the total.
  pub Step-Live :
      (n : ℕ) (w v : World) (s : Step spdk pm pmem w v) → HasRoom s → Live wt n w → Live wt n v
  unfolding HasRoom IoEngine.process_task FinalizePoller.process_task
  Step-Live n w v (offload_step r rs e h) room (io, fin, k) =
      let u = record w { offload = rs } in
      left _ n _ v h (omega (arith, k, ap (rqsts wt) e))
        (process_rqst-Totals wt spdk pm pmem (total wt u) r.op r u (io, fin, refl))
  Step-Live n w v (engine_step t ts e h) room (io, fin, k) =
      let u = record w { io_engine = ts } in
      left _ n _ v h (omega (arith, k, ap (tasks wt) e)) (
        dispatch-Totals wt spdk (total wt u) pm t.op (record t { routing = false }) u refl
          (io, fin, refl))
  Step-Live n w v (read_step before t after s e h) room (io, fin, k) =
      let u = record w { reads = before ++ after } in
      left _ n _ v h (omega (arith, k, taken_out before t after w.reads e))
        (read_complete-Totals wt spdk (total wt u) s t u room (io, fin, refl))
  Step-Live n w v (write_step before t after s e h) room (io, fin, k) =
      let u = record w { writes = before ++ after } in
      left _ n _ v h (omega (arith, k, taken_out before t after w.writes e))
        (write_complete-Totals wt spdk (total wt u) s t u room (io, fin, refl))
  Step-Live n w v (resume_step t ts e h) room (io, fin, k) =
      let u = record w { waiting = ts } in
      left _ n _ v h (omega (arith, k, ap (tasks wt) e))
        (resume-Totals wt spdk (total wt u) t u (io, fin, refl))
  Step-Live n w v (finalize_step t ts e h) room (io, fin, k) =
      let u = record w { finalizer = ts } in
      left _ n _ v h (omega (arith, k, ap (tasks wt) e))
        (finalize_ready (total wt u) w.fin_state t u fin (io, fin, refl))

  put_in :
      (b : Bool) (x w v : World)
      → ◌≡◌ {A = Bool × World} (if b then (true, x) else (false, w)) (true, v)
      → x ≡ v
  put_in true x w v e = cc
  put_in false x w v e = absurd (cc)

  -- A request that the offload poller's ring takes
  submit-Live :
      (n : ℕ) (r : Rqst) (w v : World)
      → enqueue_offload spdk r w ≡ (true, v)
      → Live wt n w
      → Live wt (n + rqsts wt (r ∷ [])) v
  unfolding enqueue_offload
  submit-Live n r w v e (io, fin, k) =
      let u = record w { offload = w.offload ++ r ∷ [] } in
      subst (Live wt (n + rqsts wt (r ∷ []))) (put_in (spdk.ring_takes (length w.offload)) u w v e)
        (io, fin, omega (arith, k, rqsts-append wt w.offload (r ∷ [])))

  -- The total of a state that is reached counts what was there and what came in.
  pub Reach-Live :
      (n : ℕ) (rs : List Rqst) (w v : World)
      → (r : Reach spdk pm pmem rs w v) → NoneLost r
      → Live wt n w
      → Live wt (n + rqsts wt rs) v
  unfolding NoneLost
  Reach-Live n rs w v done kept (io, fin, k) = (io, fin, omega (arith, k))
  Reach-Live n rs w v (step {u = u} s r) kept live =
      Reach-Live n rs u v r kept.1 (Step-Live n w u s kept.0 live)
  Reach-Live n rs w v (submit {rs = qs} {u = u} q e r) kept live =
      let (io, fin, k) =
        Reach-Live (n + rqsts wt (q ∷ [])) qs u v r kept (submit-Live n q w u e live) in
      (io, fin, omega (arith, k))

-- No ring holds a request or a task, and SPDK holds none.
pub record Idle (w : World) : Type 0 where
  pub offload : w.offload ≡ []
  pub io_engine : w.io_engine ≡ []
  pub finalizer : w.finalizer ≡ []
  pub reads : w.reads ≡ []
  pub writes : w.writes ≡ []
  pub waiting : w.waiting ≡ []

Idle-pending : (wt : Weight) (w : World) → Idle w → pending wt w ≡ 0
Idle-pending wt w i = omega (
  arith,
  ap (rqsts wt) i.offload,
  ap (tasks wt) i.io_engine,
  ap (tasks wt) i.finalizer,
  ap (tasks wt) i.reads,
  ap (tasks wt) i.writes,
  ap (tasks wt) i.waiting,
)

module _ (spdk : Spdk) (pm : Pmem) (pmem : Pmemobj) where
  -- From an idle pipeline in service, whatever the steps and the answers of SPDK, as long as the finalizer's
  -- ring has room for each completion, if it is idle again
  -- then the request at each address was returned to a pool as often as it came in, and its callback,
  -- if it has one, was called as often.
  pub settled_once :
      (id : ℕ) (rs : List Rqst) (w v : World)
      → w.io_state ≡ IoState.ready
      → w.fin_state ≡ FinState.ready
      → Idle w
      → (r : Reach spdk pm pmem rs w v) → NoneLost r
      → Idle v
      → (events (returned id) v.log ≡ events (returned id) w.log + rqsts (returned id) rs)
        × (events (answered id) v.log ≡ events (answered id) w.log + rqsts (answered id) rs)
  settled_once id rs w v io fin idle r kept idle' = (counted (returned id), counted (answered id))
    where
      counted : (wt : Weight) → events wt v.log ≡ events wt w.log + rqsts wt rs
      counted wt =
          let (_, _, k) = Reach-Live wt spdk pm pmem (total wt w) rs w v r kept (io, fin, refl) in
          omega (arith, k, Idle-pending wt w idle, Idle-pending wt v idle')

  -- On the way, with that room, no request is returned or answered more often than it came in.
  pub settled_at_most :
      (id : ℕ) (rs : List Rqst) (w v : World)
      → w.io_state ≡ IoState.ready
      → w.fin_state ≡ FinState.ready
      → Idle w
      → (r : Reach spdk pm pmem rs w v) → NoneLost r
      → (events (returned id) v.log ≤ events (returned id) w.log + rqsts (returned id) rs)
        × (events (answered id) v.log ≤ events (answered id) w.log + rqsts (answered id) rs)
  settled_at_most id rs w v io fin idle r kept = (counted (returned id), counted (answered id))
    where
      counted : (wt : Weight) → events wt v.log ≤ events wt w.log + rqsts wt rs
      counted wt =
          let (_, _, k) = Reach-Live wt spdk pm pmem (total wt w) rs w v r kept (io, fin, refl) in
          omega (arith, k, Idle-pending wt w idle)
