-- ===== src/Pipeline/Tally/Pollers.antt =====
-- The offload poller settles each request or hands it to the device: lib/offload/OffloadPoller.cpp.
use daqdb.Base.{
  ℕ, ◌+◌, ◌≡◌, refl, subst, Bool, true, false, ◌∷◌, arith, ltb, ◌==◌, if◌then◌else◌, Bool-cases,
  inl, inr,
}
use daqdb.Pmem.ArTree.{Location, Pmemobj, Outcome, ok, throws, fault, out_of_fuel, is_pmem}
use daqdb.Pmem.ArTree.Operations.{ArTree, Entry, get}
use daqdb.Offload.FreeList.{Pmem}
use daqdb.Requests.{
  StatusCode, Operation, Rqst, DeviceTask, Pool, get_pool, update_pool, remove_pool, Answer,
  callback, in_pmem,
}
use daqdb.Pipeline.{World, Ran, Run, and_then, Spdk, rqst_clb, call, put_rqst, log_event}
use daqdb.Pipeline.Bdev.{get_optimal_size}
use daqdb.Pipeline.Bdev.Io.{read}
use daqdb.Pipeline.OffloadPoller.{
  answer, drop_value, answer_remove, unless_queued, new_task, with_val_ctx, read_value, process_get,
  update_task, write_task, update_at, process_update, remove_value, process_remove, process_rqst,
}
use daqdb.Pipeline.Tally.{
  Weight, Gives, and_then-Gives, Live, of_task, weigh, settle_lem, events_if, events_deleted,
}
use daqdb.Pipeline.Tally.Devices.{read-Taken, write-Taken, remove-Taken}

-- A run that has brought the total to `n`
abbrev pub Totals : Weight → ℕ → Ran (Unit {0}) → Type 0
Totals wt n r = Gives (λ _. Live wt n) r

module _ (wt : Weight) where
  answer-Totals :
      (n : ℕ) (pool : Pool) (r : Rqst) (s : StatusCode) (w : World)
      → Live wt n w
      → Totals wt (n + wt.of_rqst r) (answer pool r s w)
  unfolding answer rqst_clb
  answer-Totals n pool r s w live = settle_lem wt pool r s r.key r.key_size 0 n w live

  answer_remove-Totals :
      (n : ℕ) (r : Rqst) (s : StatusCode) (w : World)
      → Live wt n w
      → Totals wt (n + wt.of_rqst r) (answer_remove r s w)
  unfolding answer_remove rqst_clb drop_value put_rqst call log_event
  answer_remove-Totals n r s w (io, fin, e) =
      let a : Answer = record {
        id = r.id;
        status = s;
        key = r.key;
        key_size = r.key_size;
        value_size = 0;
      } in
      let called = if r.has_clb then callback a ∷ w.log else w.log in
      (
        io,
        fin,
        omega (
          arith,
          e,
          wt.settles r remove_pool a refl,
          events_if wt r.has_clb (callback a) w.log,
          events_deleted wt (ltb 0 r.value_size) r.value called,
        ),
      )

  unless_queued-Totals :
      (n : ℕ) (pool : Pool) (r : Rqst) (b : Bool) (w : World)
      → Live wt (n + (if b then wt.of_rqst r else 0)) w
      → Totals wt (n + wt.of_rqst r) (unless_queued pool r b w)
  unfolding unless_queued
  unless_queued-Totals n pool r true w live = live
  unless_queued-Totals n pool r false w (io, fin, e) =
      answer-Totals n pool r StatusCode.unknown_error w (io, fin, omega (arith, e))

  with_val_ctx-Totals :
      (n k : ℕ) (o : Outcome Entry × ArTree) (missing : Run (Unit {0})) (f : Entry → Run (Unit {0}))
      (w : World)
      → Live wt n w
      → ((v : World) → Live wt n v → Totals wt k (missing v))
      → ((x : Entry) (v : World) → Live wt n v → Totals wt k (f x v))
      → Totals wt k (with_val_ctx o missing f w)
  unfolding with_val_ctx
  with_val_ctx-Totals n k (ok x, t) missing f w live h g = g x (record w { tree = t }) live
  with_val_ctx-Totals n k (throws s, t) missing f w live h g = h (record w { tree = t }) live
  with_val_ctx-Totals n k (fault, t) missing f w live h g = tt
  with_val_ctx-Totals n k (out_of_fuel, t) missing f w live h g = tt

  module _ (spdk : Spdk) (pm : Pmem) (pmem : Pmemobj) where
    read_value-Totals :
        (n : ℕ) (r : Rqst) (v : Entry) (w : World)
        → Live wt n w
        → Totals wt (n + wt.of_rqst r) (read_value spdk pm pmem r v w)
    unfolding read_value new_task
    read_value-Totals n r v w live = elim (Bool-cases (is_pmem v.location)) [
      | inl h ↦ rw h (answer-Totals n get_pool r StatusCode.key_not_found w live)
      | inr h ↦ rw h (
          subst
            (λ k. Totals wt (n + k) (
              let r' = record r { value_size = v.size } in
              let task =
                new_task (get_optimal_size w.ctx v.size) 0 (in_pmem v.value) false r'
                  Operation.get in
              and_then (read spdk (record task { key = r.key }) w) (unless_queued get_pool r')))
            (wt.resized r v.size)
            (and_then-Gives _ _ _ _ (read-Taken wt spdk n _ w live)
              (unless_queued-Totals n get_pool (record r { value_size = v.size }))))
    ]

    process_get-Totals :
        (n : ℕ) (r : Rqst) (w : World)
        → Live wt n w
        → Totals wt (n + wt.of_rqst r) (process_get spdk pm pmem r w)
    unfolding process_get
    process_get-Totals n r w live =
        with_val_ctx-Totals n _ (get pmem r.key w.tree) _ _ w live
          (answer-Totals n get_pool r StatusCode.unknown_error) (read_value-Totals n r)

    write_task-Totals :
        (n : ℕ) (r : Rqst) (task : DeviceTask) (w : World)
        → of_task wt task ≡ wt.of_rqst r
        → Live wt n w
        → Totals wt (n + wt.of_rqst r) (write_task spdk pm pmem r task w)
    unfolding write_task
    write_task-Totals n r task w e live =
        and_then-Gives _ _ _ _ (write-Taken wt spdk n pm task w live) (λ b u t.
          unless_queued-Totals n update_pool r b u
            (subst (λ k. Live wt (n + (if b then k else 0)) u) e t))

    update_at-Totals :
        (n : ℕ) (loc : Location) (r : Rqst) (w : World)
        → Live wt n w
        → Totals wt (n + wt.of_rqst r) (update_at spdk pm pmem loc r w)
    unfolding update_at update_task new_task
    update_at-Totals n Location.pmem r w live = write_task-Totals n r _ w refl live
    update_at-Totals n Location.disk r w live = elim (Bool-cases (r.value_size == 0)) [
      | inl h ↦ rw h (answer-Totals n update_pool r StatusCode.ok w live)
      | inr h ↦ rw h (write_task-Totals n r _ w refl live)
    ]
    update_at-Totals n Location.empty r w live =
        answer-Totals n update_pool r StatusCode.key_not_found w live

    remove_value-Totals :
        (n : ℕ) (r : Rqst) (v : Entry) (w : World)
        → Live wt n w
        → Totals wt (n + wt.of_rqst r) (remove_value spdk pm pmem r v w)
    unfolding remove_value new_task
    remove_value-Totals n r v w live = elim (Bool-cases (is_pmem v.location)) [
      | inl h ↦ rw h (answer_remove-Totals n r StatusCode.key_not_found w live)
      | inr h ↦ rw h (
          and_then-Gives _ _ _ _ (remove-Taken wt spdk n pm _ w live)
            (unless_queued-Totals n remove_pool r))
    ]

    process_remove-Totals :
        (n : ℕ) (r : Rqst) (w : World)
        → Live wt n w
        → Totals wt (n + wt.of_rqst r) (process_remove spdk pm pmem r w)
    unfolding process_remove
    process_remove-Totals n r w live =
        with_val_ctx-Totals n _ (get pmem r.key w.tree) _ _ w live
          (answer_remove-Totals n r StatusCode.unknown_error) (remove_value-Totals n r)

    pub process_rqst-Totals :
        (n : ℕ) (op : Operation) (r : Rqst) (w : World)
        → Live wt n w
        → Totals wt (n + weigh op (wt.of_rqst r)) (process_rqst spdk pm pmem op r w)
    unfolding process_rqst process_update
    process_rqst-Totals n Operation.nop r w (io, fin, e) = (io, fin, omega (arith, e))
    process_rqst-Totals n Operation.get r w live = process_get-Totals n r w live
    process_rqst-Totals n Operation.update r w live = update_at-Totals n r.loc r w live
    process_rqst-Totals n Operation.remove r w live = process_remove-Totals n r w live
