-- ===== src/Pmem/ArTree/Lifecycle.antt =====
-- lib/pmem/ARTree.cpp: sequences of operations on one key, from a new tree on.
use daqdb.Base.{ℕ, ◌≡◌, refl, ap, ◌∙◌, subst, inr, true, false, none, some, List, [], ◌∷◌, ◌+◌}
use daqdb.Pmem.ArTree.{
  Key, Location, Action, DeviceAddr, ValueWrapper, missing, node256, Status, Outcome, ok, throws,
  Pmemobj, levels, fill, allocate_full_levels,
}
use daqdb.Pmem.ArTree.Operations.{
  ArTree, Entry, empty_store, read_wrapper, create, get, put, remove, alloc_value_for_key,
  allocate_and_update_value_wrapper,
}
use daqdb.Pmem.ArTree.Paths.{child_at, child_at-fill, fill-Fits, Fits}
use daqdb.Pmem.ArTree.Search.{Bytes}
use daqdb.Pmem.ArTree.Views.{path, pointer, lookup, lookup_null, Valid}
use daqdb.Pmem.ArTree.Effects.{
  found, get-lookup, put_lem, update_lem, remove_lem, stored, emptied, on_disk, Puts, Removes,
}
use daqdb.Pmem.ArTree.Reserve.{holds, Reserves, alloc_lem, read_empty}

module _ (pm : Pmemobj) where
  fresh_tree : ArTree
  fresh_tree = record {
    root_node = node256 0 (fill 0 (λ i. missing));
    key_size = levels;
    initialized = false;
    store = record empty_store { node_arrays = empty_store.node_arrays + 1 };
  }

  fresh_pointer : (bytes : List ℕ) → pointer fresh_tree bytes ≡ 0
  unfolding child_at fresh_tree
  fresh_pointer [] = refl
  fresh_pointer (b ∷ bytes) = child_at-fill 0 (λ i. missing) b bytes (λ j lt. refl)

  fresh-Valid : Valid fresh_tree
  unfolding Fits fresh_tree
  fresh-Valid = record {
    fits = (refl, inr (λ i lt. fill-Fits 7 0 (λ j. missing) i refl lt));
    sized = refl;
    linked = λ bytes nz. absurd (nz (fresh_pointer bytes));
    apart = λ bytes other nz e. absurd (nz (fresh_pointer bytes));
  }

  creates : pm.reserve_nodes empty_store ≡ true → create pm levels ≡ ok fresh_tree
  unfolding create allocate_full_levels fresh_tree
  creates r = rw (r, create) refl

  -- When the first reservation of nodes succeeds, the constructor makes a valid tree that holds nothing.
  create_lem :
      pm.reserve_nodes empty_store ≡ true
      → (t : ArTree) × (create pm levels ≡ ok t)
        × Valid t
        × ((bytes : List ℕ) → lookup t bytes ≡ none)
  create_lem r = (
    fresh_tree,
    creates r,
    fresh-Valid,
    λ bytes. lookup_null fresh_tree bytes (fresh_pointer bytes),
  )

  read_stored :
      (w : ValueWrapper)
      → found (some (stored w))
        ≡ ok (record { value = w.location_ptr; size = w.size; location = Location.pmem })
  unfolding read_wrapper
  read_stored w = refl

  module _ (key : Key) (bounded : Bytes key) where
    get-put :
        (t : ArTree) (w : ValueWrapper)
        → Valid t
        → lookup t (path key) ≡ some w
        → (get pm key (put pm key t).1).0
          ≡ ok (record { value = w.location_ptr; size = w.size; location = Location.pmem })
    get-put t w v e =
        let p =
          subst (λ o. Puts pm key bounded t v o (put pm key t)) e (put_lem pm key bounded t v) in
        ap (λ r. r.0) (get-lookup pm key bounded (put pm key t).1 p.1)
        ∙ ap found p.2.0
        ∙ read_stored w

    -- On a valid tree, when AllocValueForKey gives an address, Put of the key and then Get of it give that
    -- address and size, in persistent memory.
    pub get-put-alloc :
        (t : ArTree) (size a : ℕ) (t' : ArTree)
        → Valid t
        → alloc_value_for_key pm key size t ≡ (ok a, t')
        → (get pm key (put pm key t').1).0
          ≡ ok (record { value = a; size = size; location = Location.pmem })
    unfolding Reserves
    get-put-alloc t size a t' v e =
        let (v', before, keeps, (w, empty, there)) =
          subst (Reserves pm key bounded t v size) e (alloc_lem pm key bounded t v size) in
        get-put t' (holds size a w) v' there

    found_of :
        (t : ArTree) (w : ValueWrapper) (o : Outcome Entry)
        → Valid t
        → lookup t (path key) ≡ some w
        → read_wrapper w ≡ o
        → (get pm key t).0 ≡ o
    found_of t w o v e r = ap (λ r. r.0) (get-lookup pm key bounded t v) ∙ ap found e ∙ r

    read_disk :
        (w : ValueWrapper)
        → w.location ≡ Location.disk
        → read_wrapper w
          ≡ ok (record { value = w.location_ptr; size = w.size; location = Location.disk })
    unfolding read_wrapper
    read_disk w e = rw e refl

    -- On a valid tree, when the key has a wrapper with a pending reservation and the vector is reserved at
    -- `iov`, Get after AllocateAndUpdateValueWrapper gives `iov`, the old size and the disk, and the device
    -- address stands at `iov`.
    get-update :
        (t : ArTree) (w : ValueWrapper) (size iov : ℕ) (addr : DeviceAddr)
        → Valid t
        → lookup t (path key) ≡ some w
        → w.action_value ≡ Action.reserved
        → pm.reserve_value size t.store ≡ some iov
        → (let t' = (allocate_and_update_value_wrapper pm key size addr t).1 in
            ((get pm key t').0
              ≡ ok (record { value = iov; size = w.size; location = Location.disk }))
            × (t'.store.iovs iov ≡ some addr))
    get-update t w size iov addr v e act res =
        let ((answer, v', (there, keeps)), at, elsewhere) =
          update_lem pm key bounded t v w size iov addr e act res in
        (
          found_of (allocate_and_update_value_wrapper pm key size addr t).1 (on_disk iov w) (ok _)
              v' there (read_disk (on_disk iov w) refl),
          at,
        )

    -- On a valid tree, when the key's value is on disk, Remove succeeds and Get after it throws
    -- KEY_NOT_FOUND.
    pub get-remove_disk :
        (t : ArTree) (w : ValueWrapper)
        → Valid t
        → lookup t (path key) ≡ some w
        → w.location ≡ Location.disk
        → ((remove pm key t).0 ≡ ok tt)
          × ((get pm key (remove pm key t).1).0 ≡ throws Status.key_not_found)
    get-remove_disk t w v e loc =
        let (answer, v', (there, keeps)) =
          subst
            (λ l.
              Removes pm key bounded t v w (remove pm key t) l w.location_volatile w.action_value)
            loc (remove_lem pm key bounded t v w e) in
        (
          answer,
          found_of (remove pm key t).1 (emptied w) (throws Status.key_not_found) v' there
              (read_empty (emptied w) refl),
        )
