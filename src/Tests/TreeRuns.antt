-- ===== src/Tests/TreeRuns.antt =====
-- The operations of lib/pmem/ARTree.cpp on those trees.
use daqdb.Base.{ℕ, true, false, ◌≡◌, ◌≢◌, refl, some, arith}
use daqdb.Pmem.ArTree.{
  Location, Action, DeviceAddr, ValueWrapper, ok, fault, find_value_in_node, leaf_child, open_child,
  fill, new_node,
}
use daqdb.Pmem.ArTree.Operations.{
  find, with_wrapper, use_pointer, alloc_wrapper, set_wrapper, ArTree, get, put, remove,
  alloc_value_for_key, allocate_and_update_value_wrapper,
}
use daqdb.Pmem.ArTree.Search.{find-child_at}
use daqdb.Pmem.ArTree.Allocate.{Allocated, find-Allocated}
use daqdb.Pmem.ArTree.Paths.{child_at, route}
use daqdb.Pmem.ArTree.Views.{path, lookup, Valid}
use daqdb.Pmem.ArTree.Effects.{
  found, Puts, Sets, Removes, on_disk, get-lookup, put_lem, remove_lem, update_lem, get-remove,
}
use daqdb.Pmem.ArTree.Reserve.{Reserves, alloc_lem}
use daqdb.Pmem.ArTree.Lifecycle.{}
use daqdb.Tests.Trees.{tree_pool, key, key-Bytes, tree_with, tree_with-lookup, tree_with-Valid}

abbrev pub wrapper : Location → ValueWrapper
wrapper l = record {
  location = l;
  location_ptr = 512;
  size = 10;
  location_volatile = l;
  action_value = Action.reserved;
}

abbrev pub tree : Location → ArTree
tree l = tree_with (wrapper l)

pub tree-Valid : (l : Location) → Valid (tree l)
tree-Valid l = tree_with-Valid (wrapper l)

pub tree-lookup : (l : Location) → lookup (tree l) (path key) ≡ some (wrapper l)
tree-lookup l = tree_with-lookup (wrapper l)

find-child_at_example :
    find_value_in_node tree_pool 9 false key 8
      (tree Location.pmem).root_node
      (tree Location.pmem).store
    ≡ (
      ok (child_at (tree Location.pmem).root_node (route key 8 8 0)),
      (tree Location.pmem).root_node,
      (tree Location.pmem).store,
    )
find-child_at_example =
    find-child_at tree_pool key 8 key-Bytes 8 9 0 (tree Location.pmem).root_node
      (tree Location.pmem).store (omega arith) refl (tree-Valid Location.pmem).fits

find-Allocated_example :
    Allocated 8 (route key 8 8 0) (tree Location.pmem).root_node (tree Location.pmem).store (
      find_value_in_node tree_pool 9 true key 8
        (tree Location.pmem).root_node
        (tree Location.pmem).store)
find-Allocated_example =
    find-Allocated tree_pool key 8 key-Bytes 8 9 0 (tree Location.pmem).root_node
      (tree Location.pmem).store (omega arith) refl (tree-Valid Location.pmem).fits

get-lookup_example :
    get tree_pool key (tree Location.pmem)
    ≡ (found (lookup (tree Location.pmem) (path key)), tree Location.pmem)
get-lookup_example =
    get-lookup tree_pool key key-Bytes (tree Location.pmem) (tree-Valid Location.pmem)

put_lem_example :
    Puts tree_pool key key-Bytes
      (tree Location.empty)
      (tree-Valid Location.empty)
      (lookup (tree Location.empty) (path key))
      (put tree_pool key (tree Location.empty))
put_lem_example = put_lem tree_pool key key-Bytes (tree Location.empty) (tree-Valid Location.empty)

remove_lem_example :
    Removes tree_pool key key-Bytes
      (tree Location.disk)
      (tree-Valid Location.disk)
      (wrapper Location.disk)
      (remove tree_pool key (tree Location.disk))
      Location.disk
      Location.disk
      Action.reserved
remove_lem_example =
    remove_lem tree_pool key key-Bytes (tree Location.disk) (tree-Valid Location.disk)
      (wrapper Location.disk) (tree-lookup Location.disk)

get-remove_example :
    ((remove tree_pool key (tree Location.pmem)).0 ≡ ok tt)
    × ((get tree_pool key (remove tree_pool key (tree Location.pmem)).1).0 ≡ fault)
get-remove_example =
    get-remove tree_pool key key-Bytes (tree Location.pmem) (tree-Valid Location.pmem)
      (wrapper Location.pmem) (tree-lookup Location.pmem) refl refl refl

abbrev addr : DeviceAddr
addr = record { lba = 3; bus_addr = 4 }

update_lem_example :
    Sets tree_pool key key-Bytes
      (tree Location.pmem)
      (tree-Valid Location.pmem)
      tt
      (on_disk 4096 (wrapper Location.pmem))
      (allocate_and_update_value_wrapper tree_pool key 16 addr (tree Location.pmem))
    × ((allocate_and_update_value_wrapper tree_pool key 16 addr (tree Location.pmem)).1.store.iovs
          4096
        ≡ some addr)
    × ((j : ℕ)
        → 4096 ≢ j
        → (allocate_and_update_value_wrapper tree_pool key 16 addr
              (tree Location.pmem)).1.store.iovs
            j
          ≡ (tree Location.pmem).store.iovs j)
update_lem_example =
    update_lem tree_pool key key-Bytes (tree Location.pmem) (tree-Valid Location.pmem)
      (wrapper Location.pmem) 16 4096 addr (tree-lookup Location.pmem) refl refl

alloc_lem_example :
    Reserves tree_pool key key-Bytes
      (tree Location.empty)
      (tree-Valid Location.empty)
      10
      (alloc_value_for_key tree_pool key 10 (tree Location.empty))
alloc_lem_example =
    alloc_lem tree_pool key key-Bytes (tree Location.empty) (tree-Valid Location.empty) 10

abbrev allocated : ArTree
allocated = (alloc_value_for_key tree_pool key 10 (tree Location.empty)).1

allocates : alloc_value_for_key tree_pool key 10 (tree Location.empty) ≡ (ok 4096, allocated)
unfolding alloc_value_for_key with_wrapper find use_pointer alloc_wrapper find_value_in_node
    leaf_child open_child set_wrapper fill new_node
allocates = refl
