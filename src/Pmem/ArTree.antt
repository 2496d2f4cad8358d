-- ===== src/Pmem/ArTree.antt =====
-- lib/pmem/ARTree.h and .cpp: a radix tree of eight levels, one byte of the key to a level, whose
-- leaves point to value wrappers. A node is reached through one parent only, so the tree is a value;
-- wrappers are named by pointers, since a freed one stays reachable. libpmemobj is a parameter.
pub mod Operations
pub mod Paths
pub mod Search
pub mod Allocate
pub mod Views
pub mod Effects
pub mod Fresh
pub mod Reserve
pub mod Lifecycle
pub mod Statistics
use daqdb.Base.{
  ℕ, zero, suc, ◌+◌, ◌-◌, ◌≡◌, ◌≢◌, Bool, true, false, ◌&&◌, ◌||◌, not, Option, none, some, ltb,
  ◌==◌, if◌then◌else◌, update,
}

abbrev pub Key : Type 0
Key = ℕ → ℕ

pub data Location : Type 0 where
  empty pmem disk : Location

abbrev pub is_empty : Location → Bool
is_empty Location.empty = true
is_empty Location.pmem = false
is_empty Location.disk = false

abbrev pub is_pmem : Location → Bool
is_pmem Location.empty = false
is_pmem Location.pmem = true
is_pmem Location.disk = false

pub record DeviceAddr : Type 0 where
  pub lba : ℕ
  pub bus_addr : ℕ

-- `actionValue`: null, a reservation that can be cancelled, or a pointer that was deleted.
pub data Action : Type 0 where
  null reserved deleted : Action

-- ValueWrapper. `location_ptr` is the union of the pointers to a value and to a DeviceAddr.
pub record ValueWrapper : Type 0 where
  pub location : Location
  pub location_ptr : ℕ
  pub size : ℕ
  pub location_volatile : Location
  pub action_value : Action

-- Node256, NodeLeafCompressed, and nullptr. A child of a leaf is a wrapper, or 0 for nullptr.
pub data Node : Type 0 where
  missing : Node
  node256 : ℕ → (ℕ → Node) → Node
  leaf : ℕ → ℕ → Node

abbrev pub is_missing : Node → Bool
is_missing missing = true
is_missing (node256 d ch) = false
is_missing (leaf d c) = false

-- The pool, less the nodes: of those it counts the arrays of 256.
pub record Store : Type 0 where
  pub wrappers : ℕ → Option ValueWrapper
  pub iovs : ℕ → Option DeviceAddr
  pub node_arrays : ℕ

pub data Status : Type 0 where
  key_not_found pmem_allocation_error : Status

-- `fault` is a use of a null, freed or foreign pointer.
pub data Outcome {ℓ} (A : Type ℓ) : Type ℓ where
  ok : A → Outcome A
  throws : Status → Outcome A
  fault : Outcome A
  out_of_fuel : Outcome A

-- Reservations of libpmemobj; `none` is a null pointer. The memory of a new wrapper holds anything.
pub record Pmemobj : Type 0 where
  pub reserve_nodes : Store → Bool
  pub reserve_wrapper : Store → Option (ℕ × ValueWrapper)
  pub reserve_value : ℕ → Store → Option ℕ
  pub wrapper_fresh :
      (s : Store) (p : ℕ) (w : ValueWrapper)
      → reserve_wrapper s ≡ some (p, w)
      → (p ≢ 0) × (s.wrappers p ≡ none)

-- sizeof(LEVEL_TYPE) / sizeof(int) - 1
abbrev pub levels : ℕ
levels = 8

abbrev pub node_size : ℕ
node_size = 256

-- What LEVEL_TYPE says of a depth decides what a new child is.
unfoldable pub new_node : ℕ → Node
new_node depth = if depth == levels then leaf depth 0 else node256 depth (λ i. missing)

unfoldable pub fill : ℕ → (ℕ → Node) → ℕ → Node
fill depth children i = if ltb i node_size then new_node (depth + 1) else children i

module _ (pm : Pmemobj) where
  -- With more than one level the call for the next one would read `children[256]`.
  unfoldable pub allocate_full_levels : ℕ → ℕ → (ℕ → Node) → Store → Outcome ((ℕ → Node) × Store)
  allocate_full_levels levels_to_allocate depth children s =
      if pm.reserve_nodes s
      then if ltb 1 levels_to_allocate
        then fault
        else ok (fill depth children, record s { node_arrays = s.node_arrays + 1 })
      else throws Status.pmem_allocation_error

  -- The end of the search: the leaf's child, made when asked for.
  unfoldable pub leaf_child : Bool → ℕ → ℕ → Store → Outcome ℕ × Node × Store
  leaf_child allocate depth child s =
      if child == 0 && allocate
      then elim (pm.reserve_wrapper s) [
        | none ↦ (throws Status.pmem_allocation_error, leaf depth child, s)
        | some (p, w) ↦ (
          ok p,
          leaf depth p,
          record s {
            wrappers = update s.wrappers p (some (record w { location = Location.empty }));
          },
        )
      ]
      else (ok child, leaf depth child, s)

  -- The children of a node before the search goes down into `keyCalc`; `none` when it ends here.
  unfoldable pub open_child :
      Bool → ℕ → ℕ → (ℕ → Node) → Store → Outcome (Option ((ℕ → Node) × Store))
  open_child allocate key_calc depth children s =
      if not (is_missing (children key_calc))
      then ok (some (children, s))
      else if allocate
      then elim (allocate_full_levels 1 depth children s) [
        | ok r ↦ ok (some r)
        | throws e ↦ throws e
        | fault ↦ fault
        | out_of_fuel ↦ out_of_fuel
      ]
      else ok none

  -- TreeImpl::findValueInNode, with the subtree as it leaves it. One round of the loop takes one
  -- unit of fuel.
  unfoldable pub find_value_in_node : ℕ → Bool → Key → ℕ → Node → Store → Outcome ℕ × Node × Store
  find_value_in_node zero allocate key key_size current s = (out_of_fuel, current, s)
  find_value_in_node (suc fuel) allocate key key_size missing s = (fault, missing, s)
  find_value_in_node (suc fuel) allocate key key_size (leaf depth child) s =
      if depth == levels
      then leaf_child allocate depth child s
      else find_value_in_node fuel allocate key key_size (leaf depth child) s
  find_value_in_node (suc fuel) allocate key key_size (node256 depth children) s =
      if depth == levels
      then (fault, node256 depth children, s)
      else elim (open_child allocate (key (key_size - depth - 1)) depth children s) [
        | ok none ↦ (ok 0, node256 depth children, s)
        | ok (some (opened, s')) ↦
            let key_calc = key (key_size - depth - 1) in
            let r = find_value_in_node fuel allocate key key_size (opened key_calc) s' in
            (r.0, node256 depth (update opened key_calc r.1), r.2)
        | throws e ↦ (throws e, node256 depth children, s)
        | fault ↦ (fault, node256 depth children, s)
        | out_of_fuel ↦ (out_of_fuel, node256 depth children, s)
      ]
