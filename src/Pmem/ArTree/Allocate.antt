-- ===== src/Pmem/ArTree/Allocate.antt =====
-- TreeImpl::findValueInNode with allocation: the path of the key comes to exist, the pointers of all
-- other paths stay, and a new wrapper is empty and at an address that was free.
use daqdb.Base.{
  ℕ, zero, suc, ◌+◌, ◌-◌, ◌<◌, ◌≡◌, ◌≢◌, refl, ap, ◌∙◌, sym, subst, ◌⊎◌, inl, inr, true, false,
  Option, none, some, List, [], ◌∷◌, arith, ==_refl, Bool-cases, Option-cases, ==_false, update,
  ℕ_discrete,
}
use daqdb.Pmem.ArTree.{
  Key, Location, ValueWrapper, Node, missing, node256, leaf, Store, Status, Outcome, ok, throws,
  fault, out_of_fuel, Pmemobj, levels, node_size, fill, find_value_in_node, open_child, leaf_child,
  allocate_full_levels,
}
use daqdb.Pmem.ArTree.Paths.{
  route, child_at, Fits, update_at, child_at-update_ne, fill-Fits, child_at-fill,
}
use daqdb.Pmem.ArTree.Search.{Bytes, Opens, step, open_present}

abbrev pub Wrappers : Type 0
Wrappers = ℕ → Option ValueWrapper

-- A new wrapper at `p`, empty and where none was
abbrev pub Made : ℕ → Wrappers → Wrappers → Type 0
Made p ws ws' =
    (w : ValueWrapper) × (w.location ≡ Location.empty)
    × (ws p ≡ none)
    × (ws' ≡ update ws p (some w))

-- What the search says of the pointer in the key's leaf, before and after
unfoldable pub Located : ℕ → ℕ → Wrappers → Wrappers → Outcome ℕ → Type 0
Located before after ws ws' (ok p) =
    (p ≢ 0) × (after ≡ p) × (((before ≡ p) × (ws' ≡ ws)) ⊎ ((before ≡ 0) × Made p ws ws'))
Located before after ws ws' (throws e) =
    (e ≡ Status.pmem_allocation_error) × (before ≡ 0) × (after ≡ 0) × (ws' ≡ ws)
Located before after ws ws' fault = ⊥
Located before after ws ws' out_of_fuel = ⊥

pub record Allocated (n : ℕ) (path : List ℕ) (node : Node) (s : Store)
    (r : Outcome ℕ × Node × Store) : Type 0 where
  pub fits : Fits n r.1
  pub keeps : (bytes : List ℕ) → bytes ≢ path → child_at r.1 bytes ≡ child_at node bytes
  pub located : Located (child_at node path) (child_at r.1 path) s.wrappers r.2.wrappers r.0
  pub iovs : r.2.iovs ≡ s.iovs

leaf_keeps :
    (c c' : ℕ) (bytes : List ℕ)
    → bytes ≢ []
    → child_at (leaf levels c') bytes ≡ child_at (leaf levels c) bytes
unfolding child_at
leaf_keeps c c' [] ne = absurd (ne refl)
leaf_keeps c c' (b ∷ bytes) ne = refl

module _ (pm : Pmemobj) where
  null-Allocated : (s : Store) → Allocated 0 [] (leaf levels 0) s (leaf_child pm true levels 0 s)
  unfolding leaf_child Fits child_at Located
  null-Allocated s = elim (Option-cases (pm.reserve_wrapper s)) [
    | inl e ↦ rw e (record {
      fits = refl;
      keeps = λ bytes ne. refl;
      located = (refl, refl, refl, refl);
      iovs = refl;
    })
    | inr ((p, w), e) ↦
        let (nz, free) = pm.wrapper_fresh s p w e in
        rw e (record {
          fits = refl;
          keeps = leaf_keeps 0 p;
          located =
              (nz, refl, inr (refl, (record w { location = Location.empty }, refl, free, refl)));
          iovs = refl;
        })
  ]

  leaf-Allocated :
      (c : ℕ) (s : Store) → Allocated 0 [] (leaf levels c) s (leaf_child pm true levels c s)
  unfolding leaf_child Fits child_at Located
  leaf-Allocated c s = elim (ℕ_discrete c 0) [
    | no nz ↦ rw (==_false c 0 nz) (record {
      fits = refl;
      keeps = λ bytes ne. refl;
      located = (nz, refl, inl (refl, refl));
      iovs = refl;
    })
    | yes z ↦
        subst (λ k. Allocated 0 [] (leaf levels k) s (leaf_child pm true levels k s)) (sym z)
          (null-Allocated s)
  ]

  child-Fits :
      (n b : ℕ) (o : ℕ → Node) (node : Node)
      → ((i : ℕ) → i < node_size → Fits n (o i))
      → Fits n node
      → (i : ℕ) → i < node_size
      → Fits n (update o b node i)
  child-Fits n b o node fit here i lt = elim (ℕ_discrete b i) [
    | yes e ↦ rw (e, ==_refl i) here
    | no ne ↦ rw (==_false b i ne) (fit i lt)
  ]

  node_keeps :
      (b d : ℕ) (path : List ℕ) (ch o : ℕ → Node) (node : Node)
      → ((i : ℕ) (bytes : List ℕ) → child_at (o i) bytes ≡ child_at (ch i) bytes)
      → ((bytes : List ℕ) → bytes ≢ path → child_at node bytes ≡ child_at (o b) bytes)
      → (bytes : List ℕ) → bytes ≢ b ∷ path
      → child_at (node256 d (update o b node)) bytes ≡ child_at (node256 d ch) bytes
  unfolding child_at
  node_keeps b d path ch o node same keep [] ne = refl
  node_keeps b d path ch o node same keep (j ∷ bytes) ne = elim (ℕ_discrete b j) [
    | no b_ne ↦ ap (λ x. child_at x bytes) (child_at-update_ne o b j node b_ne) ∙ same j bytes
    | yes e ↦
        subst (λ j. child_at (update o b node j) bytes ≡ child_at (ch j) bytes) e
          (ap (λ x. child_at x bytes) (update_at o b node)
            ∙ keep bytes (λ q. ne (cc))
            ∙ same b bytes)
  ]

  -- The step from a child to its node: `o` are the children once the one for `b` is open.
  node-Allocated :
      (n d b : ℕ) (path : List ℕ) (ch o : ℕ → Node) (s s' : Store) (r : Outcome ℕ × Node × Store)
      → d + suc n ≡ levels
      → ((i : ℕ) → i < node_size → Fits n (o i))
      → ((i : ℕ) (bytes : List ℕ) → child_at (o i) bytes ≡ child_at (ch i) bytes)
      → s'.wrappers ≡ s.wrappers
      → s'.iovs ≡ s.iovs
      → Allocated n path (o b) s' r
      → Allocated (suc n) (b ∷ path) (node256 d ch) s (r.0, node256 d (update o b r.1), r.2)
  unfolding child_at Fits
  node-Allocated n d b path ch o s s' (answer, node, s'') h fit same ws io a = record {
    fits = (h, inr (child-Fits n b o node fit a.fits));
    keeps = node_keeps b d path ch o node same a.keeps;
    located =
        subst (λ x. Located (child_at (ch b) path) (child_at x path) s.wrappers s''.wrappers answer)
          (sym (update_at o b node))
          (subst (λ q. Located q (child_at node path) s.wrappers s''.wrappers answer) (same b path)
            (subst (λ q. Located (child_at (o b) path) (child_at node path) q s''.wrappers answer)
              ws a.located));
    iovs = a.iovs ∙ io;
  }

  failed-Allocated :
      (n d b : ℕ) (path : List ℕ) (ch : ℕ → Node) (s : Store)
      → Fits (suc n) (node256 d ch)
      → ch b ≡ missing
      → Allocated
          (suc n)
          (b ∷ path)
          (node256 d ch)
          s
          (throws Status.pmem_allocation_error, node256 d ch, s)
  unfolding child_at Located
  failed-Allocated n d b path ch s h e = record {
    fits = h;
    keeps = λ bytes ne. refl;
    located = (refl, ap (λ x. child_at x path) e, ap (λ x. child_at x path) e, refl);
    iovs = refl;
  }

  module _ (key : Key) (size : ℕ) (bounded : Bytes key) where
    fails_node :
        (f d : ℕ) (ch : ℕ → Node) (s : Store)
        → d ≢ levels
        → ch (key (size - d - 1)) ≡ missing
        → pm.reserve_nodes s ≡ false
        → find_value_in_node pm (suc f) true key size (node256 d ch) s
          ≡ (throws Status.pmem_allocation_error, node256 d ch, s)
    unfolding find_value_in_node open_child allocate_full_levels
    fails_node f d ch s ne e r = rw (==_false d levels ne, e, r) refl

    opens_missing :
        (b d : ℕ) (ch : ℕ → Node) (s : Store)
        → ch b ≡ missing
        → pm.reserve_nodes s ≡ true
        → open_child pm true b d ch s
          ≡ ok (some (fill d ch, record s { node_arrays = s.node_arrays + 1 }))
    unfolding open_child allocate_full_levels
    opens_missing b d ch s e r = rw (e, r) refl

    find-leaf :
        (f c : ℕ) (s : Store)
        → find_value_in_node pm (suc f) true key size (leaf levels c) s
          ≡ leaf_child pm true levels c s
    unfolding find_value_in_node
    find-leaf f c s = refl

    allocates_node :
        (n f d : ℕ) (ch : ℕ → Node) (s : Store)
        → d + suc n ≡ levels
        → Opens n ch
        → ((node : Node) (s' : Store)
            → Fits n node
            → Allocated n
                (route key size n (suc d))
                node
                s'
                (find_value_in_node pm f true key size node s'))
        → Allocated
            (suc n)
            (route key size (suc n) d)
            (node256 d ch)
            s
            (find_value_in_node pm (suc f) true key size (node256 d ch) s)
    unfolding Fits
    allocates_node n f d ch s h (inr there) ih =
        let b = key (size - d - 1) in
        let fit = there b (bounded (size - d - 1)) in
        rw
          (step pm key size bounded f true d ch ch s s (λ p. omega (arith, h, p))
            (open_present pm key size bounded true n d b ch s fit))
          (node-Allocated n d b (route key size n (suc d)) ch ch s s
            (find_value_in_node pm f true key size (ch b) s) h there (λ i bytes. refl) refl refl
            (ih (ch b) s fit))
    allocates_node n f d ch s h (inl none_there) ih =
        let b = key (size - d - 1) in
        let e = none_there b (bounded (size - d - 1)) in
        elim (Bool-cases (pm.reserve_nodes s)) [
          | inl r ↦
              let s' = record s { node_arrays = s.node_arrays + 1 } in
              rw
                (step pm key size bounded f true d ch (fill d ch) s s' (λ p. omega (arith, h, p))
                  (opens_missing b d ch s e r))
                (node-Allocated n d b (route key size n (suc d)) ch (fill d ch) s s'
                  (find_value_in_node pm f true key size (fill d ch b) s') h
                  (λ i lt. fill-Fits n d ch i h lt)
                  (λ i bytes. child_at-fill d ch i bytes none_there) refl refl
                  (ih (fill d ch b) s' (fill-Fits n d ch b h (bounded (size - d - 1)))))
          | inr r ↦
              rw (fails_node f d ch s (λ p. omega (arith, h, p)) e r)
                (failed-Allocated n d b (route key size n (suc d)) ch s (h, inl none_there) e)
        ]

    -- In a subtree that fits, with more fuel than levels, a search with allocation leaves a subtree that
    -- fits and the pointers of all other paths. It gives the pointer of the key's path, or that of a new,
    -- empty wrapper at an address that was free; or a reservation failed, and there is still no pointer.
    pub find-Allocated :
        (n f d : ℕ) (node : Node) (s : Store)
        → n < f
        → d + n ≡ levels
        → Fits n node
        → Allocated n (route key size n d) node s (find_value_in_node pm f true key size node s)
    unfolding Fits
    find-Allocated n zero d node s lt dn h = absurd (omega (arith, lt))
    find-Allocated n (suc f) d missing s lt dn h = elim h [ ]
    find-Allocated zero (suc f) d (node256 e ch) s lt dn h = elim h [ ]
    find-Allocated (suc n) (suc f) d (leaf e c) s lt dn h = elim h [ ]
    find-Allocated zero (suc f) d (leaf e c) s lt dn h =
        rw (h, find-leaf f c s) (leaf-Allocated c s)
    find-Allocated (suc n) (suc f) d (node256 e ch) s lt dn h =
        subst
          (λ k.
            Allocated (suc n) (route key size (suc n) d) (node256 k ch) s
              (find_value_in_node pm (suc f) true key size (node256 k ch) s))
          (omega (arith, h.0, dn))
          (allocates_node n f d ch s dn h.1 (λ node s' fit.
            find-Allocated n f (suc d) node s' (omega (arith, lt)) (omega (arith, dn)) fit))
