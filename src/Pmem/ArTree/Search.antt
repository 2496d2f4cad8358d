-- ===== src/Pmem/ArTree/Search.antt =====
-- TreeImpl::findValueInNode: what a search without allocation reads, and what one with allocation
-- does to the tree.
use daqdb.Base.{
  ℕ, zero, suc, ◌+◌, ◌-◌, ◌<◌, ◌≡◌, ◌≢◌, refl, subst, ◌⊎◌, inl, inr, Bool, false, some, arith, ◌==◌,
  Bool-cases, ==_false, update,
}
use daqdb.Pmem.ArTree.{
  Key, Node, missing, node256, leaf, Store, ok, Pmemobj, levels, node_size, is_missing,
  find_value_in_node, open_child, leaf_child,
}
use daqdb.Pmem.ArTree.Paths.{route, child_at, Fits, update_self}

-- The bytes of a key are `unsigned char`.
abbrev pub Bytes : Key → Type 0
Bytes key = (i : ℕ) → key i < node_size

Fits-present : (n : ℕ) (node : Node) → Fits n node → is_missing node ≡ false
unfolding Fits
Fits-present n missing h = elim h [ ]
Fits-present n (node256 d ch) h = refl
Fits-present n (leaf d c) h = refl

-- The children of a node: all missing, or the one looked for is there.
abbrev pub Opens : ℕ → (ℕ → Node) → Type 0
Opens n ch = ((i : ℕ) → i < node_size → ch i ≡ missing) ⊎ ((i : ℕ) → i < node_size → Fits n (ch i))

module _ (pm : Pmemobj) (key : Key) (size : ℕ) (bounded : Bytes key) where
  pub step :
      (f : ℕ) (allocate : Bool) (d : ℕ) (ch o : ℕ → Node) (s s' : Store)
      → d ≢ levels
      → open_child pm allocate (key (size - d - 1)) d ch s ≡ ok (some (o, s'))
      → find_value_in_node pm (suc f) allocate key size (node256 d ch) s ≡ (
          let r = find_value_in_node pm f allocate key size (o (key (size - d - 1))) s' in
          (r.0, node256 d (update o (key (size - d - 1)) r.1), r.2))
  unfolding find_value_in_node
  step f allocate d ch o s s' ne e = rw (==_false d levels ne, e) refl

  pub open_present :
      (allocate : Bool) (n d b : ℕ) (ch : ℕ → Node) (s : Store)
      → Fits n (ch b)
      → open_child pm allocate b d ch s ≡ ok (some (ch, s))
  unfolding open_child
  open_present allocate n d b ch s h = rw (Fits-present n (ch b) h) refl

  reads_nothing :
      (f d : ℕ) (ch : ℕ → Node) (s : Store)
      → d ≢ levels
      → ch (key (size - d - 1)) ≡ missing
      → find_value_in_node pm (suc f) false key size (node256 d ch) s ≡ (ok 0, node256 d ch, s)
  unfolding find_value_in_node open_child
  reads_nothing f d ch s ne e = rw (==_false d levels ne, e) refl

  reads_leaf :
      (f c : ℕ) (s : Store)
      → find_value_in_node pm (suc f) false key size (leaf levels c) s ≡ (ok c, leaf levels c, s)
  unfolding find_value_in_node leaf_child
  reads_leaf f c s = elim (Bool-cases (c == 0)) [ inl e ↦ rw e refl | inr e ↦ rw e refl ]

  reads_node :
      (n f d : ℕ) (ch : ℕ → Node) (s : Store)
      → d + suc n ≡ levels
      → Opens n ch
      → ((node : Node)
          → Fits n node
          → find_value_in_node pm f false key size node s
            ≡ (ok (child_at node (route key size n (suc d))), node, s))
      → find_value_in_node pm (suc f) false key size (node256 d ch) s
        ≡ (ok (child_at (node256 d ch) (route key size (suc n) d)), node256 d ch, s)
  unfolding child_at
  reads_node n f d ch s h (inl none_there) ih =
      let e = none_there (key (size - d - 1)) (bounded (size - d - 1)) in
      rw (reads_nothing f d ch s (λ p. omega (arith, h, p)) e, e, child_at) refl
  reads_node n f d ch s h (inr all_there) ih =
      let there = all_there (key (size - d - 1)) (bounded (size - d - 1)) in
      rw
        (
          step f false d ch ch s s (λ p. omega (arith, h, p))
              (open_present false n d (key (size - d - 1)) ch s there),
          ih (ch (key (size - d - 1))) there,
          update_self ch (key (size - d - 1)),
        )
        refl

  -- In a subtree that fits, with more fuel than levels, a search without allocation gives the leaf pointer
  -- of the key's path, 0 when there is none, and changes nothing.
  pub find-child_at :
      (n f d : ℕ) (node : Node) (s : Store)
      → n < f
      → d + n ≡ levels
      → Fits n node
      → find_value_in_node pm f false key size node s
        ≡ (ok (child_at node (route key size n d)), node, s)
  unfolding Fits child_at
  find-child_at n zero d node s lt dn h = absurd (omega (arith, lt))
  find-child_at n (suc f) d missing s lt dn h = elim h [ ]
  find-child_at zero (suc f) d (node256 e ch) s lt dn h = elim h [ ]
  find-child_at (suc n) (suc f) d (leaf e c) s lt dn h = elim h [ ]
  find-child_at zero (suc f) d (leaf e c) s lt dn h = rw h (reads_leaf f c s)
  find-child_at (suc n) (suc f) d (node256 e ch) s lt dn h =
      subst
        (λ k.
          find_value_in_node pm (suc f) false key size (node256 k ch) s
          ≡ (ok (child_at (node256 k ch) (route key size (suc n) d)), node256 k ch, s))
        (omega (arith, h.0, dn))
        (reads_node n f d ch s dn h.1 (λ node fit.
          find-child_at n f (suc d) node s (omega (arith, lt)) (omega (arith, dn)) fit))
