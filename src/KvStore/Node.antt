-- ===== src/KvStore/Node.antt =====
-- lib/core/KVStore.cpp: Put, Get, Remove and Update of raw keys, Alloc, GetAny and IsOffloaded.
use daqdb.Base.{ℕ, Bool, true, false, Option, none, some, ltb, if◌then◌else◌}
use daqdb.Pmem.ArTree.{Key, Location, Pmemobj, Outcome, ok, throws, fault, out_of_fuel}
use daqdb.Pmem.ArTree.Operations
use daqdb.Pmem.ArTree.Operations.{ArTree, Entry, alloc_value_for_key}
use daqdb.Requests.{
  StatusCode, Rqst, Pool, get_pool, update_pool, remove_pool, Answer, finalize_get, finalize_remove,
  finalize_update, Reply, gives, fails, undefined,
}
use daqdb.Pipeline.{World, Spdk, enqueue_offload, put_rqst}
use daqdb.Primary.{PrimaryKey, enqueue_next, dequeue_next}
use daqdb.KvStore.{KvStore, Threads, status_of, answer_of, set_world, set_tree, with_tree}

module _ (pmem : Pmemobj) (spdk : Spdk) (threads : Threads) where
  -- The exception that Put passes on after it has removed the key, or that of Remove
  unfoldable pub roll_back :
      StatusCode → Outcome (Unit {0}) × ArTree → KvStore → Reply (Unit {0}) × KvStore
  roll_back e (ok u, t) s = (fails e, set_tree s t)
  roll_back e (throws e', t) s = (fails (status_of e'), set_tree s t)
  roll_back e (fault, t) s = (undefined, set_tree s t)
  roll_back e (out_of_fuel, t) s = (undefined, set_tree s t)

  unfoldable pub after_enqueue :
      Key → Reply (Unit {0}) × PrimaryKey → KvStore → Reply (Unit {0}) × KvStore
  after_enqueue key (gives u, p) s = (gives tt, record s { p_key = p })
  after_enqueue key (fails e, p) s =
      roll_back e (Operations.remove pmem key s.world.tree) (record s { p_key = p })
  after_enqueue key (undefined, p) s = (undefined, record s { p_key = p })

  -- KVStore::Put, of a value that is in the tree's memory
  unfoldable pub put_value : Bool → Key → KvStore → Reply (Unit {0}) × KvStore
  put_value long_term key s =
      if long_term
      then (fails StatusCode.not_implemented, s)
      else with_tree (Operations.put pmem key s.world.tree)
          (λ _ s'. after_enqueue key (enqueue_next spdk.ring_takes key s'.p_key) s') s

  -- What the call makes of the callback, or TIME_OUT
  unfoldable pub after_wait {ℓ} :
      {A : Type ℓ} → (Answer → A) → Option Answer → KvStore → Reply A × KvStore
  after_wait f none s = (fails StatusCode.time_out, s)
  after_wait f (some a) s = (gives (f a), s)

  unfoldable pub after_offload {ℓ} :
      {A : Type ℓ} → Pool → Rqst → (Answer → A) → Bool × World → KvStore → Reply A × KvStore
  after_offload pool r f (true, w) s =
      after_wait f (answer_of r.id (threads.news w)) (set_world s (threads.elapse w))
  after_offload pool r f (false, w) s =
      (fails StatusCode.queue_full, set_world s (put_rqst pool r w))

  -- A request to the call_offload poller, made by `fill`, and the wait for it
  unfoldable pub call_offload {ℓ} :
      {A : Type ℓ} → Bool → Pool → (Rqst → Rqst) → (Answer → A) → KvStore → Reply A × KvStore
  call_offload false pool fill f s = (fails StatusCode.offload_disabled_error, s)
  call_offload true pool fill f s =
      let r = fill (threads.take_rqst pool s.world) in
      after_offload pool r f (enqueue_offload spdk r s.world) s

  -- _getOffloaded: the size that the callback brings. Its status is not looked at.
  unfoldable pub get_offloaded : Key → ℕ → KvStore → Reply ℕ × KvStore
  get_offloaded key key_size s =
      call_offload s.offload_enabled get_pool (finalize_get key key_size 0 0 true)
        (λ a. a.value_size) s

  -- KVStore::Get into a buffer of `capacity` bytes: the size of the value
  unfoldable pub get_at : Location → Key → ℕ → ℕ → ℕ → KvStore → Reply ℕ × KvStore
  get_at Location.pmem key key_size capacity size s =
      if ltb capacity size then (fails StatusCode.einval, s) else (gives size, s)
  get_at Location.disk key key_size capacity size s = get_offloaded key key_size s
  get_at Location.empty key key_size capacity size s = (fails StatusCode.einval, s)

  unfoldable pub get_into : Key → ℕ → ℕ → KvStore → Reply ℕ × KvStore
  get_into key key_size capacity s =
      with_tree (Operations.get pmem key s.world.tree)
        (λ v. get_at v.location key key_size capacity v.size) s

  -- KVStore::Get into new memory
  unfoldable pub get_new_at : Location → Key → ℕ → ℕ → KvStore → Reply ℕ × KvStore
  get_new_at Location.pmem key key_size size s = (gives size, s)
  get_new_at Location.disk key key_size size s = get_offloaded key key_size s
  get_new_at Location.empty key key_size size s = (fails StatusCode.einval, s)

  unfoldable pub get_new : Key → ℕ → KvStore → Reply ℕ × KvStore
  get_new key key_size s =
      with_tree (Operations.get pmem key s.world.tree)
        (λ v. get_new_at v.location key key_size v.size) s

  -- KVStore::Remove. The callback's status is not looked at.
  unfoldable pub remove_at : Location → Key → ℕ → KvStore → Reply (Unit {0}) × KvStore
  remove_at Location.disk key key_size s =
      call_offload s.offload_enabled remove_pool (finalize_remove key key_size 0 0 true) (λ a. tt) s
  remove_at Location.pmem key key_size s =
      with_tree (Operations.remove pmem key s.world.tree) (λ u s'. (gives tt, s')) s
  remove_at Location.empty key key_size s =
      with_tree (Operations.remove pmem key s.world.tree) (λ u s'. (gives tt, s')) s

  unfoldable pub remove_value : Key → ℕ → KvStore → Reply (Unit {0}) × KvStore
  remove_value key key_size s =
      with_tree (Operations.get pmem key s.world.tree) (λ v. remove_at v.location key key_size) s

  -- KVStore::Update, with the value that the tree has. Every exception of Get is KEY_NOT_FOUND.
  unfoldable pub update_found :
      Key → ℕ → Outcome Entry × ArTree → KvStore → Reply (Unit {0}) × KvStore
  update_found key key_size (ok v, t) s =
      call_offload true update_pool (finalize_update key key_size v.value v.size true v.location)
        (λ a. tt) (set_tree s t)
  update_found key key_size (throws e, t) s = (fails StatusCode.key_not_found, set_tree s t)
  update_found key key_size (fault, t) s = (undefined, set_tree s t)
  update_found key key_size (out_of_fuel, t) s = (undefined, set_tree s t)

  unfoldable pub update_value : Bool → Key → ℕ → KvStore → Reply (Unit {0}) × KvStore
  update_value long_term key key_size s =
      if long_term
      then if s.offload_enabled
        then update_found key key_size (Operations.get pmem key s.world.tree) s
        else (fails StatusCode.offload_disabled_error, s)
      else (fails StatusCode.not_implemented, s)

  -- KVStore::Alloc, for a value that the store buffers
  unfoldable pub alloc_value : Key → ℕ → KvStore → Reply ℕ × KvStore
  alloc_value key size s =
      with_tree (alloc_value_for_key pmem key size s.world.tree) (λ v s'. (gives v, s')) s

  -- KVStore::GetAny
  unfoldable pub get_any : KvStore → Reply Key × KvStore
  get_any s = let r = dequeue_next s.p_key in (r.0, record s { p_key = r.1 })

  -- KVStore::IsOffloaded: an exception of the tree means no.
  unfoldable pub is_on_disk : Location → Bool
  is_on_disk Location.empty = false
  is_on_disk Location.pmem = false
  is_on_disk Location.disk = true

  unfoldable pub offloaded_by : Outcome Entry × ArTree → KvStore → Reply Bool × KvStore
  offloaded_by (ok v, t) s = (gives (is_on_disk v.location), set_tree s t)
  offloaded_by (throws e, t) s = (gives false, set_tree s t)
  offloaded_by (fault, t) s = (undefined, set_tree s t)
  offloaded_by (out_of_fuel, t) s = (undefined, set_tree s t)

  unfoldable pub is_offloaded : Key → KvStore → Reply Bool × KvStore
  is_offloaded key s = offloaded_by (Operations.get pmem key s.world.tree) s
