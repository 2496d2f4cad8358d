-- ===== src/Pipeline/Tally.antt =====
-- The requests in the pipeline, counted. A weight counts some of the requests, those that wait in the
-- rings and at the device and those that the log has settled.
pub mod Devices
pub mod Pollers
pub mod Completions
use daqdb.Base.{
  ℕ, zero, suc, ◌+◌, ◌≡◌, refl, sym, ◌∙◌, Bool, true, false, List, [], ◌∷◌, ◌++◌, ◌==◌, arith,
  if◌then◌else◌, Bool-cases, ◌⊎◌, inl, inr,
}
use daqdb.Pmem.ArTree.{Key}
use daqdb.Requests.{
  StatusCode, Operation, Rqst, DeviceTask, Answer, Pool, Event, callback, put, delete_value,
  delete_rqst, Log,
}
use daqdb.Pipeline.{
  IoState, FinState, World, Stop, Ran, returns, stops, Run, and_then, call, put_rqst, log_event,
}

-- A returned request is settled by its `put`, an answered one by its callback.
pub record Weight : Type 0 where
  pub of_rqst : Rqst → ℕ
  pub of_event : Event → ℕ
  pub settles :
      (r : Rqst) (pool : Pool) (a : Answer)
      → a.id ≡ r.id
      → of_event (put pool r) + (if r.has_clb then of_event (callback a) else 0) ≡ of_rqst r
  pub deletes : (p : ℕ) → of_event (delete_value p) ≡ 0
  pub resized : (r : Rqst) (n : ℕ) → of_rqst (record r { value_size = n }) ≡ of_rqst r

-- What no switch has a case for does not count.
abbrev pub weigh : Operation → ℕ → ℕ
weigh Operation.nop n = 0
weigh Operation.get n = n
weigh Operation.update n = n
weigh Operation.remove n = n

abbrev pub one_if : Bool → ℕ
one_if b = if b then 1 else 0

abbrev pub put_weight : ℕ → Event → ℕ
put_weight id (callback a) = 0
put_weight id (put pool r) = one_if (r.id == id)
put_weight id (delete_value p) = 0
put_weight id (delete_rqst i) = 0

abbrev pub callback_weight : ℕ → Event → ℕ
callback_weight id (callback a) = one_if (a.id == id)
callback_weight id (put pool r) = 0
callback_weight id (delete_value p) = 0
callback_weight id (delete_rqst i) = 0

pub returned_settles : (n : ℕ) (b : Bool) → n + (if b then 0 else 0) ≡ n
returned_settles n true = omega arith
returned_settles n false = omega arith

-- Returns to a pool of the request at address `id`
abbrev pub returned : ℕ → Weight
returned id = record {
  of_rqst = λ r. one_if (r.id == id);
  of_event = put_weight id;
  settles = λ r pool a e. returned_settles (one_if (r.id == id)) r.has_clb;
  deletes = λ p. refl;
  resized = λ r n. refl;
}

pub answered_settles :
    (b : Bool) (i j id : ℕ)
    → i ≡ j
    → 0 + (if b then one_if (i == id) else 0) ≡ (if b then one_if (j == id) else 0)
answered_settles true i j id e = rw e (omega arith)
answered_settles false i j id e = refl

-- Calls of the callback of the request at address `id`, if it has one
abbrev pub answered : ℕ → Weight
answered id = record {
  of_rqst = λ r. if r.has_clb then one_if (r.id == id) else 0;
  of_event = callback_weight id;
  settles = λ r pool a e. answered_settles r.has_clb a.id r.id id e;
  deletes = λ p. refl;
  resized = λ r n. refl;
}

module _ (wt : Weight) where
  open wt use {of_rqst, of_event, settles, deletes}

  abbrev pub rqsts : List Rqst → ℕ
  rqsts [] = 0
  rqsts (r ∷ rs) = weigh r.op (of_rqst r) + rqsts rs

  abbrev pub of_task : DeviceTask → ℕ
  of_task t = weigh t.op (of_rqst t.rqst)

  abbrev pub tasks : List DeviceTask → ℕ
  tasks [] = 0
  tasks (t ∷ ts) = of_task t + tasks ts

  abbrev pub events : Log → ℕ
  events [] = 0
  events (e ∷ log) = of_event e + events log

  abbrev pub pending : World → ℕ
  pending w =
      rqsts w.offload
      + tasks w.io_engine
      + tasks w.finalizer
      + tasks w.reads
      + tasks w.writes
      + tasks w.waiting

  abbrev pub total : World → ℕ
  total w = pending w + events w.log

  pub tasks-append : (ts us : List DeviceTask) → tasks (ts ++ us) ≡ tasks ts + tasks us
  tasks-append [] us = omega arith
  tasks-append (t ∷ ts) us = omega (arith, tasks-append ts us)

  pub rqsts-append : (rs qs : List Rqst) → rqsts (rs ++ qs) ≡ rqsts rs + rqsts qs
  rqsts-append [] qs = omega arith
  rqsts-append (r ∷ rs) qs = omega (arith, rqsts-append rs qs)

  pub events_if :
      (b : Bool) (e : Event) (log : Log)
      → events (if b then e ∷ log else log) ≡ (if b then of_event e else 0) + events log
  events_if true e log = refl
  events_if false e log = omega arith

  pub events_deleted :
      (b : Bool) (p : ℕ) (log : Log) → events (if b then delete_value p ∷ log else log) ≡ events log
  events_deleted true p log = omega (arith, deletes p)
  events_deleted false p log = refl

-- What a run leaves when it returns
abbrev pub Gives {ℓ κ} : {A : Type ℓ} → (A → World → Type κ) → Ran A → Type κ
Gives P (returns a w) = P a w
Gives P (stops s w) = Unit

pub and_then-Gives {ℓ κ ι ν} :
    {A : Type ℓ} {B : Type κ} (P : A → World → Type ι) (Q : B → World → Type ν) (m : Ran A)
    (k : A → Run B)
    → Gives P m
    → ((a : A) (w : World) → P a w → Gives Q (k a w))
    → Gives Q (and_then m k)
unfolding and_then
and_then-Gives P Q (returns a w) k h g = g a w h
and_then-Gives P Q (stops s w) k h g = tt

-- The device and the finalizer take tasks, and the total is `n`.
abbrev pub Live : Weight → ℕ → World → Type 0
Live wt n w = (w.io_state ≡ IoState.ready) × (w.fin_state ≡ FinState.ready) × (total wt w ≡ n)

-- A call and the return to the pool settle a request of the weight.
pub settle_lem :
    (wt : Weight) (pool : Pool) (r : Rqst) (s : StatusCode) (key : Key) (ks vs n : ℕ) (w : World)
    → Live wt n w
    → Live wt (n + wt.of_rqst r) (put_rqst pool r (call r s key ks vs w))
unfolding put_rqst call log_event
settle_lem wt pool r s key ks vs n w (io, fin, e) =
    let a : Answer = record { id = r.id; status = s; key = key; key_size = ks; value_size = vs } in
    (io, fin, omega (arith, e, wt.settles r pool a refl, events_if wt r.has_clb (callback a) w.log))
