-- ===== src/KvStore.antt =====
-- lib/core/KVStore.cpp: the calls of the store on the node itself. A call for a value on disk hands a
-- request to the offload poller and waits at most a second for its callback; what the other threads do
-- in that time is a parameter, as is the object pool that a request comes from. The bytes of values
-- are left out.
pub mod Node
pub mod Rollback
pub mod Cluster
pub mod Async
pub mod Served
use daqdb.Base.{
  ℕ, Bool, true, false, Option, none, some, List, [], ◌∷◌, ◌++◌, ltb, ◌==◌, if◌then◌else◌, ◌≡◌,
}
use daqdb.Pmem.ArTree.{Location, Status, Outcome, ok, throws, fault, out_of_fuel}
use daqdb.Pmem.ArTree.Operations.{ArTree}
use daqdb.Requests.{
  StatusCode, Rqst, Pool, Answer, Event, callback, put, delete_value, delete_rqst, Log, Reply,
  gives, fails, undefined,
}
use daqdb.Pipeline.{World}
use daqdb.Primary.{PrimaryKey}

-- KVStore, with the state of the threads that it shares
pub record KvStore : Type 0 where
  pub world : World
  pub p_key : PrimaryKey
  pub offload_enabled : Bool

-- What happens while a call waits: the new events, and the state after them.
pub record Threads : Type 0 where
  pub news : World → Log
  pub elapse : World → World
  pub logs : (w : World) → (elapse w).log ≡ news w ++ w.log
  pub take_rqst : Pool → World → Rqst

unfoldable pub status_of : Status → StatusCode
status_of Status.key_not_found = StatusCode.key_not_found
status_of Status.pmem_allocation_error = StatusCode.pmem_allocation_error

-- The call of a request's callback among some events
unfoldable pub answer_of : ℕ → Log → Option Answer
answer_of id [] = none
answer_of id (callback a ∷ log) = let rest = answer_of id log in if a.id == id then some a else rest
answer_of id (put pool r ∷ log) = answer_of id log
answer_of id (delete_value p ∷ log) = answer_of id log
answer_of id (delete_rqst i ∷ log) = answer_of id log

abbrev pub set_world : KvStore → World → KvStore
set_world s w = record s { world = w }

abbrev pub set_tree : KvStore → ArTree → KvStore
set_tree s t = record s { world = record s.world { tree = t } }

-- An operation of the tree. Its exception is the call's, and a fault is undefined.
unfoldable pub with_tree {ℓ κ} :
    {A : Type ℓ} {B : Type κ}
    → Outcome A × ArTree
    → (A → KvStore → Reply B × KvStore)
    → KvStore
    → Reply B × KvStore
with_tree (ok a, t) k s = k a (set_tree s t)
with_tree (throws e, t) k s = (fails (status_of e), set_tree s t)
with_tree (fault, t) k s = (undefined, set_tree s t)
with_tree (out_of_fuel, t) k s = (undefined, set_tree s t)
