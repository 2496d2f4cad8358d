-- ===== src/Pmem/ArTree/Reserve.antt =====
-- ARTree::AllocValueForKey on the map of a valid tree, in every outcome of the reservations.
use daqdb.Base.{
  true_ne_false, ℕ, suc, ◌≡◌, ◌≢◌, refl, ap, ◌∙◌, sym, subst, ◌⊎◌, inl, inr, true, false, none,
  some, List, arith, Option-cases, ==_false, ==_refl,
}
use daqdb.Pmem.ArTree.{
  Key, Location, is_empty, Action, ValueWrapper, Node, Store, Status, Outcome, ok, throws, fault,
  out_of_fuel, Pmemobj, levels, find_value_in_node,
}
use daqdb.Pmem.ArTree.Operations.{
  ArTree, find, set_wrapper, use_pointer, with_wrapper, read_wrapper, alloc_wrapper,
  alloc_value_for_key,
}
use daqdb.Pmem.ArTree.Paths.{route, Fits}
use daqdb.Pmem.ArTree.Search.{Bytes}
use daqdb.Pmem.ArTree.Allocate.{Located, Allocated, find-Allocated}
use daqdb.Pmem.ArTree.Views.{
  path, pointer, lookup, lookup_there, lookup_null, Valid, set_wrapper-Valid, set_wrapper-Changed,
}
use daqdb.Pmem.ArTree.Fresh.{
  same_pointers-Valid, same_pointers-lookup, made-lookup, made-Valid, list_discrete,
}
use daqdb.Pmem.ArTree.Effects.{found}

-- The search gives a wrapper: the one that the key has, or a new one that is empty.
unfoldable pub Obtained : ArTree → List ℕ → Outcome ℕ × ArTree → Type 0
Obtained t bytes (ok p, t') =
    (p ≢ 0)
    × (pointer t' bytes ≡ p)
    × Valid t'
    × ((other : List ℕ) → other ≢ bytes → lookup t' other ≡ lookup t other)
    × ((w : ValueWrapper) × (t'.store.wrappers p ≡ some w)
        × ((lookup t bytes ≡ some w) ⊎ ((lookup t bytes ≡ none) × (w.location ≡ Location.empty))))
Obtained t bytes (throws e, t') =
    (e ≡ Status.pmem_allocation_error)
    × Valid t'
    × ((other : List ℕ) → lookup t' other ≡ lookup t other)
Obtained t bytes (fault, t') = ⊥
Obtained t bytes (out_of_fuel, t') = ⊥

-- One path as before, and all others: all paths
everywhere :
    (t t' : ArTree) (here : List ℕ)
    → ((bytes : List ℕ) → bytes ≢ here → pointer t' bytes ≡ pointer t bytes)
    → pointer t' here ≡ pointer t here
    → (bytes : List ℕ) → pointer t' bytes ≡ pointer t bytes
everywhere t t' here keeps same bytes = elim (list_discrete bytes here) [
  | yes e ↦ ap (pointer t') e ∙ same ∙ sym (ap (pointer t) e)
  | no ne ↦ keeps bytes ne
]

obtained :
    (t t' : ArTree) (here : List ℕ) (o : Outcome ℕ)
    → Valid t
    → Fits levels t'.root_node
    → t'.key_size ≡ t.key_size
    → ((bytes : List ℕ) → bytes ≢ here → pointer t' bytes ≡ pointer t bytes)
    → Located (pointer t here) (pointer t' here) t.store.wrappers t'.store.wrappers o
    → Obtained t here (o, t')
unfolding Located Obtained
obtained t t' here (ok p) v fits sized keeps (nz, after, inl (before, ws)) =
    let same = everywhere t t' here keeps (after ∙ sym before) in
    let (w, h) = v.linked here (λ z. nz (sym before ∙ z)) in
    let there = ap t.store.wrappers (sym before) ∙ h in
    (
      nz,
      after,
      same_pointers-Valid t t' v fits sized same ws,
      λ other ne. same_pointers-lookup t t' same ws other,
      (w, ap (λ f. f p) ws ∙ there, inl (lookup_there t here p nz before ∙ there)),
    )
obtained t t' here (ok p) v fits sized keeps (nz, after, inr (before, (w, empty, free, ws))) = (
  nz,
  after,
  made-Valid t t' v fits sized here p w keeps nz after free ws,
  made-lookup t t' v fits sized here p w keeps nz after free ws,
  (w, ap (λ f. f p) ws ∙ rw (==_refl p) refl, inr (lookup_null t here before, empty)),
)
obtained t t' here (throws e) v fits sized keeps (err, before, after, ws) =
    let same = everywhere t t' here keeps (after ∙ sym before) in
    (err, same_pointers-Valid t t' v fits sized same ws, same_pointers-lookup t t' same ws)
obtained t t' here fault v fits sized keeps l = elim l [ ]
obtained t t' here out_of_fuel v fits sized keeps l = elim l [ ]

-- A value of `size` bytes at `a` is reserved in the wrapper `w` of the path.
abbrev pub holds : ℕ → ℕ → ValueWrapper → ValueWrapper
holds size a w = record w { action_value = Action.reserved; location_ptr = a; size = size }

pub read_empty :
    (w : ValueWrapper) → w.location ≡ Location.empty → read_wrapper w ≡ throws Status.key_not_found
unfolding read_wrapper
read_empty w e = rw e refl

empty-cases : (l : Location) → (l ≡ Location.empty) ⊎ (is_empty l ≡ false)
empty-cases Location.empty = inl refl
empty-cases Location.pmem = inr refl
empty-cases Location.disk = inr refl

uses_pointer :
    (p : ℕ) (w : ValueWrapper) (t : ArTree)
    → p ≢ 0
    → t.store.wrappers p ≡ some w
    → (e : Status) (f : ℕ → ValueWrapper → ArTree → Outcome ℕ × ArTree)
    → use_pointer e f (ok p, t) ≡ f p w t
unfolding use_pointer
uses_pointer p w t nz h e f = rw (==_false p 0 nz, h) refl

module _ (pm : Pmemobj) (size p : ℕ) where
  alloc_occupied :
      (w : ValueWrapper) (t : ArTree)
      → is_empty w.location ≡ false
      → alloc_wrapper pm size p w t ≡ (throws Status.pmem_allocation_error, t)
  unfolding alloc_wrapper
  alloc_occupied w t e = rw e refl

  alloc_fails :
      (w : ValueWrapper) (t : ArTree)
      → w.location ≡ Location.empty
      → pm.reserve_value size t.store ≡ none
      → alloc_wrapper pm size p w t ≡ (
        throws Status.pmem_allocation_error,
        set_wrapper p (record w { action_value = Action.deleted; location_ptr = 0 }) t,
      )
  unfolding alloc_wrapper
  alloc_fails w t e r = rw (ap is_empty e, r) refl

  alloc_gives :
      (a : ℕ) (w : ValueWrapper) (t : ArTree)
      → w.location ≡ Location.empty
      → pm.reserve_value size t.store ≡ some a
      → alloc_wrapper pm size p w t ≡ (ok a, set_wrapper p (holds size a w) t)
  unfolding alloc_wrapper
  alloc_gives a w t e r = rw (ap is_empty e, r) refl

module _ (pm : Pmemobj) (key : Key) (bounded : Bytes key) (t : ArTree) (v : Valid t) where
  -- With an answer the key had no value, and has the reserved one; otherwise Get answers as before
  -- for every key.
  unfoldable pub Reserves : ℕ → Outcome ℕ × ArTree → Type 0
  Reserves size (ok a, t') =
      Valid t'
      × (found (lookup t (path key)) ≡ throws Status.key_not_found)
      × ((other : List ℕ) → other ≢ path key → lookup t' other ≡ lookup t other)
      × ((w : ValueWrapper) × (w.location ≡ Location.empty)
          × (lookup t' (path key) ≡ some (holds size a w)))
  Reserves size (throws e, t') =
      (e ≡ Status.pmem_allocation_error)
      × Valid t'
      × ((other : List ℕ) → found (lookup t' other) ≡ found (lookup t other))
  Reserves size (fault, t') = ⊥
  Reserves size (out_of_fuel, t') = ⊥

  from_Allocated :
      (r : Outcome ℕ × Node × Store)
      → Allocated levels (path key) t.root_node t.store r
      → Obtained t (path key) (r.0, record t { root_node = r.1; store = r.2 })
  from_Allocated (answer, node, s) a =
      obtained t (record t { root_node = node; store = s }) (path key) answer v a.fits refl a.keeps
        a.located

  find-Obtained : Obtained t (path key) (find pm true key t)
  unfolding find
  find-Obtained =
      let r = find_value_in_node pm (suc levels) true key t.key_size t.root_node t.store in
      from_Allocated r (
        subst (λ k. Allocated levels (route key k levels 0) t.root_node t.store r) v.sized
          (find-Allocated pm key t.key_size bounded levels (suc levels) 0 t.root_node t.store
            (omega arith) refl v.fits))

  abbrev Was : ValueWrapper → Type 0
  Was w =
      (lookup t (path key) ≡ some w)
      ⊎ ((lookup t (path key) ≡ none) × (w.location ≡ Location.empty))

  -- A key whose wrapper is empty is not found.
  found_before :
      (w : ValueWrapper)
      → w.location ≡ Location.empty
      → Was w
      → found (lookup t (path key)) ≡ throws Status.key_not_found
  found_before w e (inl h) = ap found h ∙ read_empty w e
  found_before w e (inr (h, e')) = ap found h

  found_everywhere :
      (t' : ArTree)
      → ((other : List ℕ) → other ≢ path key → lookup t' other ≡ lookup t other)
      → found (lookup t' (path key)) ≡ found (lookup t (path key))
      → (other : List ℕ) → found (lookup t' other) ≡ found (lookup t other)
  found_everywhere t' keeps e other = elim (list_discrete other (path key)) [
    | yes h ↦ ap (λ o. found (lookup t' o)) h ∙ e ∙ sym (ap (λ o. found (lookup t o)) h)
    | no ne ↦ ap found (keeps other ne)
  ]

  module _ (t' : ArTree) (size : ℕ) (w : ValueWrapper) (nz : pointer t' (path key) ≢ 0)
      (v' : Valid t')
      (keeps : (other : List ℕ) → other ≢ path key → lookup t' other ≡ lookup t other)
      (there : lookup t' (path key) ≡ some w) (was : Was w) where
    -- The wrapper of the key is set to `w'`, which is empty too.
    set_keeps :
        (w' : ValueWrapper) (other : List ℕ)
        → other ≢ path key
        → lookup (set_wrapper (pointer t' (path key)) w' t') other ≡ lookup t other
    set_keeps w' other ne = (set_wrapper-Changed t' (path key) w' v' nz).1 other ne ∙ keeps other ne

    occupied :
        is_empty w.location ≡ false
        → lookup t (path key) ≡ some w
        → Reserves size (alloc_wrapper pm size (pointer t' (path key)) w t')
    unfolding Reserves
    occupied e h =
        subst (Reserves size) (sym (alloc_occupied pm size (pointer t' (path key)) w t' e))
          (refl, v', found_everywhere t' keeps (ap found (there ∙ sym h)))

    vacant :
        w.location ≡ Location.empty
        → Reserves size (alloc_wrapper pm size (pointer t' (path key)) w t')
    unfolding Reserves
    vacant e = elim (Option-cases (pm.reserve_value size t'.store)) [
      | inl r ↦
          let p = pointer t' (path key) in
          let w' = record w { action_value = Action.deleted; location_ptr = 0 } in
          subst (Reserves size) (sym (alloc_fails pm size p w t' e r)) (
            refl,
            set_wrapper-Valid t' p w' v',
            found_everywhere (set_wrapper p w' t') (set_keeps w') (
                ap found (set_wrapper-Changed t' (path key) w' v' nz).0
                ∙ read_empty w' e
                ∙ sym (found_before w e was)),
          )
      | inr (a, r) ↦
          let p = pointer t' (path key) in
          subst (Reserves size) (sym (alloc_gives pm size p a w t' e r)) (
            set_wrapper-Valid t' p (holds size a w) v',
            found_before w e was,
            set_keeps (holds size a w),
            (w, e, (set_wrapper-Changed t' (path key) (holds size a w) v' nz).0),
          )
    ]

    Reserves-at : Reserves size (alloc_wrapper pm size (pointer t' (path key)) w t')
    Reserves-at = elim (empty-cases w.location) [
      | inl e ↦ vacant e
      | inr e ↦ elim was [
        | inl h ↦ occupied e h
        | inr (h, e') ↦ absurd (true_ne_false (sym (ap is_empty e') ∙ e))
      ]
    ]

  reserves :
      (r : Outcome ℕ × ArTree) (size : ℕ)
      → Obtained t (path key) r
      → Reserves size (use_pointer Status.pmem_allocation_error (alloc_wrapper pm size) r)
  unfolding Obtained use_pointer Reserves
  reserves (ok p, t') size (nz, after, v', keeps, (w, h, was)) =
      subst
        (λ q.
          Reserves size
            (use_pointer Status.pmem_allocation_error (alloc_wrapper pm size) (ok q, t')))
        after
        (subst (Reserves size)
          (sym (
            uses_pointer (pointer t' (path key)) w t' (λ z. nz (sym after ∙ z))
              (ap t'.store.wrappers after ∙ h) Status.pmem_allocation_error
              (alloc_wrapper pm size)))
          (Reserves-at t' size w (λ z. nz (sym after ∙ z)) v' keeps
            (lookup_there t' (path key) p nz after ∙ h) was))
  reserves (throws e, t') size (err, v', same) = (err, v', λ other. ap found (same other))
  reserves (fault, t') size o = elim o [ ]
  reserves (out_of_fuel, t') size o = elim o [ ]

  -- On a valid tree AllocValueForKey ends in one of two ways, and leaves a valid tree. It gives an address:
  -- then the key had no value, its wrapper holds the reservation of that address, and every other path
  -- keeps its wrapper. Or it throws PMEM_ALLOCATION_ERROR: then Get answers as before for every path.
  pub alloc_lem : (size : ℕ) → Reserves size (alloc_value_for_key pm key size t)
  unfolding alloc_value_for_key with_wrapper
  alloc_lem size = reserves (find pm true key t) size find-Obtained
