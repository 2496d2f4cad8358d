-- ===== src/Pmem/ArTree/Effects.antt =====
-- lib/pmem/ARTree.cpp: Get, Put, Remove and AllocateAndUpdateValueWrapper on the map of a valid tree.
use daqdb.Base.{
  ℕ, ◌≡◌, ◌≢◌, refl, ap, ◌∙◌, sym, subst, inl, inr, true, false, Option, none, some, Option-cases,
  update, ==_false, ==_refl,
}
use daqdb.Pmem.ArTree.{
  Key, Location, Action, DeviceAddr, ValueWrapper, Status, Outcome, ok, throws, fault, Pmemobj,
}
use daqdb.Pmem.ArTree.Operations.{
  use_pointer, ArTree, Entry, set_wrapper, free_wrapper, read_wrapper, with_wrapper, get, put,
  remove_wrapper, remove, update_wrapper, allocate_and_update_value_wrapper,
}
use daqdb.Pmem.ArTree.Search.{Bytes}
use daqdb.Pmem.ArTree.Views.{
  path, pointer, lookup, lookup-some, find-pointer, Valid, Changed, set_wrapper-Valid,
  set_wrapper-Changed, with_wrapper-some, with_wrapper-none,
}

abbrev wrapper : Location → Location → Action → ℕ → ℕ → ValueWrapper
wrapper loc vol a ptr size = record {
  location = loc;
  location_ptr = ptr;
  size = size;
  location_volatile = vol;
  action_value = a;
}

-- What Get answers is decided by the wrapper that the tree holds for the key.
abbrev pub found : Option ValueWrapper → Outcome Entry
found none = throws Status.key_not_found
found (some w) = read_wrapper w

abbrev pub stored : ValueWrapper → ValueWrapper
stored w = record w { location_volatile = Location.pmem; location = Location.pmem }

abbrev pub emptied : ValueWrapper → ValueWrapper
emptied w = record w { location = Location.empty }

abbrev pub on_disk : ℕ → ValueWrapper → ValueWrapper
on_disk iov w = record w {
  action_value = Action.null;
  location_ptr = iov;
  location = Location.disk;
}

module _ (pm : Pmemobj) (key : Key) (bounded : Bytes key) (t : ArTree) (v : Valid t) where
  -- On a valid tree Get answers what the wrapper of the key says, or KEY_NOT_FOUND when there is none, and
  -- leaves the tree as it is.
  pub get-lookup : get pm key t ≡ (found (lookup t (path key)), t)
  unfolding get
  get-lookup = elim (Option-cases (lookup t (path key))) [
    | inl e ↦ rw e (
        with_wrapper-none pm key bounded Status.key_not_found (λ p w t'. (read_wrapper w, t')) t v
          e)
    | inr (w, e) ↦ rw e (
        with_wrapper-some pm key bounded Status.key_not_found (λ p w t'. (read_wrapper w, t')) t w v
          e)
  ]

  -- The operation answers `a` and sets the key's wrapper to `w`; every other key keeps its own.
  abbrev pub Sets : {A : Type 0} → A → ValueWrapper → Outcome A × ArTree → Type 0
  Sets a w r = (r.0 ≡ ok a) × Valid r.1 × Changed t r.1 (path key) (some w)

  Sets-by :
      {A : Type 0} (a : A) (w w' : ValueWrapper)
      → lookup t (path key) ≡ some w
      → Sets a w' (ok a, set_wrapper (pointer t (path key)) w' t)
  Sets-by a w w' e = (
    refl,
    set_wrapper-Valid t (pointer t (path key)) w' v,
    set_wrapper-Changed t (path key) w' v (lookup-some t (path key) w e).0,
  )

  abbrev pub Puts : Option ValueWrapper → Outcome (Unit {0}) × ArTree → Type 0
  Puts none r = r ≡ (throws Status.key_not_found, t)
  Puts (some w) r = Sets tt (stored w) r

  initialized-Sets :
      (w : ValueWrapper) (u : ArTree)
      → Sets tt w (ok tt, u)
      → Sets tt w (ok tt, record u { initialized = true })
  unfolding lookup
  initialized-Sets w u (e, u_valid, change) = (
    e,
    record {
      fits = u_valid.fits;
      sized = u_valid.sized;
      linked = u_valid.linked;
      apart = u_valid.apart;
    },
    change,
  )

  -- On a valid tree Put of a key without a wrapper throws KEY_NOT_FOUND and leaves the tree as it is. Put
  -- of a key with a wrapper marks its value as being in persistent memory, keeps the tree valid, and keeps
  -- the wrapper of every other path.
  pub put_lem : Puts (lookup t (path key)) (put pm key t)
  unfolding put
  put_lem = elim (Option-cases (lookup t (path key))) [
    | inl e ↦ rw e (
        with_wrapper-none pm key bounded Status.key_not_found
          (λ p w t'. (ok tt, record (set_wrapper p (stored w) t') { initialized = true })) t v e)
    | inr (w, e) ↦ rw e (
        subst (Sets tt (stored w))
          (sym (
            with_wrapper-some pm key bounded Status.key_not_found
              (λ p w t'. (ok tt, record (set_wrapper p (stored w) t') { initialized = true })) t w v
              e))
          (initialized-Sets (stored w) (set_wrapper (pointer t (path key)) (stored w) t)
            (Sets-by tt w (stored w) e)))
  ]

  -- A value in persistent memory is freed with its wrapper; the leaf still points to it.
  abbrev pub Removes :
      ValueWrapper → Outcome (Unit {0}) × ArTree → Location → Location → Action → Type 0
  Removes w r Location.empty vol a = r ≡ (throws Status.key_not_found, t)
  Removes w r Location.disk vol a = Sets tt (emptied w) r
  Removes w r Location.pmem Location.empty a = Sets tt (emptied w) r
  Removes w r Location.pmem vol Action.reserved = r ≡ (ok tt, free_wrapper (pointer t (path key)) t)
  Removes w r Location.pmem vol a = r ≡ (fault, t)

  removes :
      (loc vol : Location) (a : Action) (ptr size : ℕ)
      → lookup t (path key) ≡ some (wrapper loc vol a ptr size)
      → Removes
          (wrapper loc vol a ptr size)
          (remove_wrapper pm (pointer t (path key)) (wrapper loc vol a ptr size) t)
          loc
          vol
          a
  unfolding remove_wrapper
  removes Location.empty vol a ptr size e = refl
  removes Location.disk vol a ptr size e = Sets-by tt _ _ e
  removes Location.pmem Location.empty a ptr size e = Sets-by tt _ _ e
  removes Location.pmem Location.pmem Action.reserved ptr size e = refl
  removes Location.pmem Location.pmem Action.null ptr size e = refl
  removes Location.pmem Location.pmem Action.deleted ptr size e = refl
  removes Location.pmem Location.disk Action.reserved ptr size e = refl
  removes Location.pmem Location.disk Action.null ptr size e = refl
  removes Location.pmem Location.disk Action.deleted ptr size e = refl

  -- On a valid tree, for a key with a wrapper: Remove throws KEY_NOT_FOUND where the wrapper is empty;
  -- empties it where the value is on disk, or marked in memory only before a restart, and keeps the wrapper
  -- of every other path; and frees it where the value is reserved in memory, with the leaf as it was.
  pub remove_lem :
      (w : ValueWrapper)
      → lookup t (path key) ≡ some w
      → Removes w (remove pm key t) w.location w.location_volatile w.action_value
  unfolding remove
  remove_lem w e =
      subst (λ r. Removes w r w.location w.location_volatile w.action_value)
        (sym (with_wrapper-some pm key bounded Status.key_not_found (remove_wrapper pm) t w v e))
        (removes w.location w.location_volatile w.action_value w.location_ptr w.size e)

  pub remove-none : lookup t (path key) ≡ none → remove pm key t ≡ (throws Status.key_not_found, t)
  unfolding remove
  remove-none e = with_wrapper-none pm key bounded Status.key_not_found (remove_wrapper pm) t v e

  freed_pointer :
      {A : Type 0} (e : Status) (f : ℕ → ValueWrapper → ArTree → Outcome A × ArTree)
      → pointer t (path key) ≢ 0
      → (with_wrapper pm false key e f (free_wrapper (pointer t (path key)) t)).0 ≡ fault
  unfolding with_wrapper use_pointer free_wrapper
  freed_pointer e f nz =
      ap (λ r. (use_pointer e f r).0)
        (find-pointer pm key bounded (free_wrapper (pointer t (path key)) t) v.fits v.sized)
      ∙ rw (==_false (pointer t (path key)) 0 nz, ==_refl (pointer t (path key))) refl

  removes_reserved :
      (p : ℕ) (w : ValueWrapper)
      → w.location ≡ Location.pmem
      → w.location_volatile ≡ Location.pmem
      → w.action_value ≡ Action.reserved
      → remove_wrapper pm p w t ≡ (ok tt, free_wrapper p t)
  unfolding remove_wrapper
  removes_reserved p w loc vol act = rw (loc, vol, act) refl

  -- On a valid tree, when the key's value is in persistent memory with its reservation pending, Remove
  -- succeeds and a Get of the same key after it goes through a freed pointer.
  pub get-remove :
      (w : ValueWrapper)
      → lookup t (path key) ≡ some w
      → w.location ≡ Location.pmem
      → w.location_volatile ≡ Location.pmem
      → w.action_value ≡ Action.reserved
      → ((remove pm key t).0 ≡ ok tt) × ((get pm key (remove pm key t).1).0 ≡ fault)
  unfolding remove get
  get-remove w e loc vol act =
      let p = pointer t (path key) in
      let removed =
        with_wrapper-some pm key bounded Status.key_not_found (remove_wrapper pm) t w v e
        ∙ removes_reserved p w loc vol act in
      (
        ap (λ r. r.0) removed,
        ap (λ r. (get pm key r.1).0) removed
            ∙ freed_pointer Status.key_not_found (λ p w t'. (read_wrapper w, t'))
                (lookup-some t (path key) w e).0,
      )

  iovs_set :
      (w : ValueWrapper) (u : ArTree) (iov : ℕ) (addr : DeviceAddr)
      → Sets tt w (ok tt, u)
      → (Sets tt w (
        ok tt,
        record u { store = record u.store { iovs = update u.store.iovs iov (some addr) } },
      ))
        × (update u.store.iovs iov (some addr) iov ≡ some addr)
        × ((j : ℕ) → iov ≢ j → update u.store.iovs iov (some addr) j ≡ u.store.iovs j)
  unfolding lookup
  iovs_set w u iov addr (e, u_valid, change) = (
    (
      e,
      record {
        fits = u_valid.fits;
        sized = u_valid.sized;
        linked = u_valid.linked;
        apart = u_valid.apart;
      },
      change,
    ),
    rw (==_refl iov) refl,
    λ j ne. rw (==_false iov j ne) refl,
  )

  updates_reserved :
      (p size iov : ℕ) (addr : DeviceAddr) (w : ValueWrapper)
      → w.action_value ≡ Action.reserved
      → pm.reserve_value size t.store ≡ some iov
      → update_wrapper pm size addr p w t ≡ (
          let u = set_wrapper p (on_disk iov w) t in
          (
            ok tt,
            record u { store = record u.store { iovs = update u.store.iovs iov (some addr) } },
          ))
  unfolding update_wrapper
  updates_reserved p size iov addr w act res = rw (act, res, update_wrapper) refl

  -- On a valid tree, when the key has a wrapper with a pending reservation and the reservation of the new
  -- vector gives `iov`, AllocateAndUpdateValueWrapper puts the device address at `iov`, turns the wrapper to
  -- it and to the disk, keeps the tree valid, and keeps the wrapper of every other path and the device address
  -- at every other place.
  pub update_lem :
      (w : ValueWrapper) (size iov : ℕ) (addr : DeviceAddr)
      → lookup t (path key) ≡ some w
      → w.action_value ≡ Action.reserved
      → pm.reserve_value size t.store ≡ some iov
      → (let r = allocate_and_update_value_wrapper pm key size addr t in
          Sets tt (on_disk iov w) r
          × (r.1.store.iovs iov ≡ some addr)
          × ((j : ℕ) → iov ≢ j → r.1.store.iovs j ≡ t.store.iovs j))
  unfolding allocate_and_update_value_wrapper set_wrapper
  update_lem w size iov addr e act res =
      let p = pointer t (path key) in
      subst
        (λ r.
          Sets tt (on_disk iov w) r
          × (r.1.store.iovs iov ≡ some addr)
          × ((j : ℕ) → iov ≢ j → r.1.store.iovs j ≡ t.store.iovs j))
        (sym (
          with_wrapper-some pm key bounded Status.pmem_allocation_error
            (update_wrapper pm size addr) t w v e
          ∙ updates_reserved p size iov addr w act res))
        (iovs_set (on_disk iov w) (set_wrapper p (on_disk iov w) t) iov addr
          (Sets-by tt w (on_disk iov w) e))
