-- ===== src/Pmem/ArTree/Operations.antt =====
-- lib/pmem/ARTree.cpp: the constructor on a new pool and the operations of class ARTree. Each one
-- gives its answer and the tree that it leaves, also when it throws.
use daqdb.Base.{ℕ, suc, Bool, true, false, ◌&&◌, not, none, some, ◌==◌, if◌then◌else◌, update}
use daqdb.Pmem.ArTree.{
  Key, Location, is_empty, is_pmem, DeviceAddr, Action, ValueWrapper, Node, missing, node256, Store,
  Status, Outcome, ok, throws, fault, out_of_fuel, Pmemobj, levels, allocate_full_levels,
  find_value_in_node,
}

-- ARTreeRoot and the pool behind it
pub record ArTree : Type 0 where
  pub root_node : Node
  pub key_size : ℕ
  pub initialized : Bool
  pub store : Store

unfoldable pub empty_store : Store
empty_store = record { wrappers = λ p. none; iovs = λ p. none; node_arrays = 1 }

-- What Get hands back through `value`, `size` and `location`.
pub record Entry : Type 0 where
  pub value : ℕ
  pub size : ℕ
  pub location : Location

-- A change of the wrapper at a pointer, as the members of `*valPrstPtr` are assigned.
unfoldable pub set_wrapper : ℕ → ValueWrapper → ArTree → ArTree
set_wrapper p w t = record t {
  store = record t.store { wrappers = update t.store.wrappers p (some w) };
}

unfoldable pub free_wrapper : ℕ → ArTree → ArTree
free_wrapper p t = record t { store = record t.store { wrappers = update t.store.wrappers p none } }

-- `_isLocationReservedNotPublished`
abbrev pub is_location_reserved_not_published : ValueWrapper → Bool
is_location_reserved_not_published w = is_pmem w.location && not (is_empty w.location_volatile)

-- The answer of Get for the wrapper it has found
unfoldable pub read_wrapper : ValueWrapper → Outcome Entry
read_wrapper w = elim w.location [
  | Location.empty ↦ throws Status.key_not_found
  | Location.pmem ↦
      if not (is_empty w.location_volatile)
      then ok (record { value = w.location_ptr; size = w.size; location = Location.pmem })
      else throws Status.key_not_found
  | Location.disk ↦ ok (record { value = w.location_ptr; size = w.size; location = Location.disk })
]

-- The wrapper at the pointer that a search gives. A null pointer is answered by throwing `e`.
unfoldable pub use_pointer {ℓ} :
    {A : Type ℓ}
    → Status
    → (ℕ → ValueWrapper → ArTree → Outcome A × ArTree)
    → Outcome ℕ × ArTree
    → Outcome A × ArTree
use_pointer e f (ok p, t) =
    if p == 0
    then (throws e, t)
    else elim (t.store.wrappers p) [ none ↦ (fault, t) | some w ↦ f p w t ]
use_pointer e f (throws e', t) = (throws e', t)
use_pointer e f (fault, t) = (fault, t)
use_pointer e f (out_of_fuel, t) = (out_of_fuel, t)

module _ (pm : Pmemobj) where
  -- The constructor, for a pool that does not exist yet
  unfoldable pub create : ℕ → Outcome ArTree
  create key_size = elim (allocate_full_levels pm 1 0 (λ i. missing) empty_store) [
    | ok (children, s) ↦ ok (record {
      root_node = node256 0 children;
      key_size = key_size;
      initialized = false;
      store = s;
    })
    | throws e ↦ throws e
    | fault ↦ fault
    | out_of_fuel ↦ out_of_fuel
  ]

  -- The search from the root: nine rounds are enough.
  unfoldable pub find : Bool → Key → ArTree → Outcome ℕ × ArTree
  find allocate key t =
      let r = find_value_in_node pm (suc levels) allocate key t.key_size t.root_node t.store in
      (r.0, record t { root_node = r.1; store = r.2 })

  -- The search that each operation starts with
  unfoldable pub with_wrapper {ℓ} :
      {A : Type ℓ}
      → Bool
      → Key
      → Status
      → (ℕ → ValueWrapper → ArTree → Outcome A × ArTree)
      → ArTree
      → Outcome A × ArTree
  with_wrapper allocate key e f t = use_pointer e f (find allocate key t)

  unfoldable pub get : Key → ArTree → Outcome Entry × ArTree
  get key t = with_wrapper false key Status.key_not_found (λ p w t'. (read_wrapper w, t')) t

  unfoldable pub put : Key → ArTree → Outcome (Unit {0}) × ArTree
  put key t =
      with_wrapper false key Status.key_not_found
        (λ p w t'. (
          ok tt,
          record (set_wrapper p
              (record w { location_volatile = Location.pmem; location = Location.pmem }) t') {
                initialized = true;
              },
        ))
        t

  -- Cancelling an action that is not reserved goes through a null or deleted pointer.
  unfoldable pub remove_wrapper : ℕ → ValueWrapper → ArTree → Outcome (Unit {0}) × ArTree
  remove_wrapper p w t =
      if is_empty w.location
      then (throws Status.key_not_found, t)
      else if is_location_reserved_not_published w
      then elim w.action_value [
        | Action.reserved ↦ (ok tt, free_wrapper p t)
        | Action.null ↦ (fault, t)
        | Action.deleted ↦ (fault, t)
      ]
      else (ok tt, set_wrapper p (record w { location = Location.empty }) t)

  unfoldable pub remove : Key → ArTree → Outcome (Unit {0}) × ArTree
  remove key t = with_wrapper false key Status.key_not_found remove_wrapper t

  unfoldable pub alloc_wrapper : ℕ → ℕ → ValueWrapper → ArTree → Outcome ℕ × ArTree
  alloc_wrapper size p w t =
      if not (is_empty w.location)
      then (throws Status.pmem_allocation_error, t)
      else elim (pm.reserve_value size t.store) [
        | none ↦ (
          throws Status.pmem_allocation_error,
          set_wrapper p (record w { action_value = Action.deleted; location_ptr = 0 }) t,
        )
        | some v ↦ (
          ok v,
          set_wrapper p (record w { action_value = Action.reserved; location_ptr = v; size = size })
              t,
        )
      ]

  unfoldable pub alloc_value_for_key : Key → ℕ → ArTree → Outcome ℕ × ArTree
  alloc_value_for_key key size t =
      with_wrapper true key Status.pmem_allocation_error (alloc_wrapper size) t

  unfoldable pub update_wrapper :
      ℕ → DeviceAddr → ℕ → ValueWrapper → ArTree → Outcome (Unit {0}) × ArTree
  update_wrapper size addr p w t = elim w.action_value [
    | Action.null ↦ (fault, t)
    | Action.deleted ↦ (fault, t)
    | Action.reserved ↦ elim (pm.reserve_value size t.store) [
      | none ↦ (fault, set_wrapper p (record w { action_value = Action.null; location_ptr = 0 }) t)
      | some v ↦
          let t' =
            set_wrapper p
              (record w { action_value = Action.null; location_ptr = v; location = Location.disk })
              t in
          (
            ok tt,
            record t' { store = record t'.store { iovs = update t'.store.iovs v (some addr) } },
          )
    ]
  ]

  unfoldable pub allocate_and_update_value_wrapper :
      Key → ℕ → DeviceAddr → ArTree → Outcome (Unit {0}) × ArTree
  allocate_and_update_value_wrapper key size addr t =
      with_wrapper false key Status.pmem_allocation_error (update_wrapper size addr) t
