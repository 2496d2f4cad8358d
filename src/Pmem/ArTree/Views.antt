-- ===== src/Pmem/ArTree/Views.antt =====
-- lib/pmem/ARTree.cpp: the tree as a map from paths to value wrappers, and what an assignment to a
-- wrapper does to that map.
use daqdb.Base.{
  ℕ, suc, ◌≡◌, ◌≢◌, refl, ap, ◌∙◌, sym, false, Option, none, some, List, arith, ==_refl, ◌==◌,
  if◌then◌else◌, ==_false, update, ℕ_discrete,
}
use daqdb.Pmem.ArTree.{Key, ValueWrapper, Status, Outcome, ok, throws, Pmemobj, levels}
use daqdb.Pmem.ArTree.Operations.{ArTree, set_wrapper, find, with_wrapper, use_pointer}
use daqdb.Pmem.ArTree.Paths.{route, child_at, Fits}
use daqdb.Pmem.ArTree.Search.{Bytes, find-child_at}

abbrev pub path : Key → List ℕ
path key = route key levels levels 0

abbrev pub pointer : ArTree → List ℕ → ℕ
pointer t bytes = child_at t.root_node bytes

-- What the tree holds at a path: nothing at a null or dangling pointer
unfoldable pub lookup : ArTree → List ℕ → Option ValueWrapper
lookup t bytes = if pointer t bytes == 0 then none else t.store.wrappers (pointer t bytes)

-- Every leaf pointer is null or that of a wrapper, and no two leaves share one.
pub record Valid (t : ArTree) : Type 0 where
  pub fits : Fits levels t.root_node
  pub sized : t.key_size ≡ levels
  pub linked :
      (bytes : List ℕ)
      → pointer t bytes ≢ 0
      → (w : ValueWrapper) × (t.store.wrappers (pointer t bytes) ≡ some w)
  pub apart :
      (bytes other : List ℕ)
      → pointer t bytes ≢ 0
      → pointer t bytes ≡ pointer t other
      → bytes ≡ other

-- The map of the second tree is that of the first with `v` at one path.
abbrev pub Changed : ArTree → ArTree → List ℕ → Option ValueWrapper → Type 0
Changed t t' bytes v =
    (lookup t' bytes ≡ v) × ((other : List ℕ) → other ≢ bytes → lookup t' other ≡ lookup t other)

pub lookup_there :
    (t : ArTree) (bytes : List ℕ) (p : ℕ)
    → p ≢ 0
    → pointer t bytes ≡ p
    → lookup t bytes ≡ t.store.wrappers p
unfolding lookup
lookup_there t bytes p nz e = rw (e, ==_false p 0 nz) refl

pub lookup_null : (t : ArTree) (bytes : List ℕ) → pointer t bytes ≡ 0 → lookup t bytes ≡ none
unfolding lookup
lookup_null t bytes e = rw e refl

-- A path that holds a wrapper ends in a leaf that points to it.
pub lookup-some :
    (t : ArTree) (bytes : List ℕ) (w : ValueWrapper)
    → lookup t bytes ≡ some w
    → (pointer t bytes ≢ 0) × (t.store.wrappers (pointer t bytes) ≡ some w)
lookup-some t bytes w e = elim (ℕ_discrete (pointer t bytes) 0) [
  | yes z ↦ absurd (let h = lookup_null t bytes z in cc)
  | no nz ↦ (nz, sym (lookup_there t bytes (pointer t bytes) nz refl) ∙ e)
]

pub lookup-none :
    (t : ArTree) → Valid t → (bytes : List ℕ) → lookup t bytes ≡ none → pointer t bytes ≡ 0
lookup-none t v bytes e = elim (ℕ_discrete (pointer t bytes) 0) [
  | yes z ↦ z
  | no nz ↦
      let (w, h) = v.linked bytes nz in
      absurd (let g = lookup_there t bytes (pointer t bytes) nz refl in cc)
]

update_there :
    (ws : ℕ → Option ValueWrapper) (p : ℕ) (o : Option ValueWrapper) → update ws p o p ≡ o
update_there ws p o = rw (==_refl p) refl

update_other :
    (ws : ℕ → Option ValueWrapper) (p q : ℕ) (o : Option ValueWrapper)
    → p ≢ q
    → update ws p o q ≡ ws q
update_other ws p q o ne = rw (==_false p q ne) refl

pub set_wrapper-Valid :
    (t : ArTree) (p : ℕ) (w : ValueWrapper) → Valid t → Valid (set_wrapper p w t)
unfolding set_wrapper
set_wrapper-Valid t p w v = record {
  fits = v.fits;
  sized = v.sized;
  linked = λ bytes nz. elim (ℕ_discrete p (pointer t bytes)) [
    | yes e ↦ (
      w,
      ap (update t.store.wrappers p (some w)) (sym e) ∙ update_there t.store.wrappers p (some w),
    )
    | no ne ↦
        let (w', h) = v.linked bytes nz in
        (w', update_other t.store.wrappers p (pointer t bytes) (some w) ne ∙ h)
  ];
  apart = v.apart;
}

pub set_wrapper-Changed :
    (t : ArTree) (bytes : List ℕ) (w : ValueWrapper)
    → Valid t
    → pointer t bytes ≢ 0
    → Changed t (set_wrapper (pointer t bytes) w t) bytes (some w)
unfolding set_wrapper lookup
set_wrapper-Changed t bytes w v nz = (
  rw (==_false (pointer t bytes) 0 nz) (update_there t.store.wrappers (pointer t bytes) (some w)),
  λ other ne. elim (ℕ_discrete (pointer t bytes) (pointer t other)) [
    | yes e ↦ absurd (ne (sym (v.apart bytes other nz e)))
    | no p_ne ↦ rw (==_false (pointer t bytes) (pointer t other) p_ne) refl
  ],
)

module _ (pm : Pmemobj) (key : Key) (bounded : Bytes key) where
  pub find-pointer :
      (t : ArTree)
      → Fits levels t.root_node
      → t.key_size ≡ levels
      → find pm false key t ≡ (ok (pointer t (path key)), t)
  unfolding find
  find-pointer t fits sized =
      rw
        (
          sized,
          find-child_at pm key levels bounded levels (suc levels) 0 t.root_node t.store
              (omega arith) refl fits,
        )
        refl

  pub with_wrapper-some {ℓ} :
      {A : Type ℓ} (e : Status) (f : ℕ → ValueWrapper → ArTree → Outcome A × ArTree) (t : ArTree)
      (w : ValueWrapper)
      → Valid t
      → lookup t (path key) ≡ some w
      → with_wrapper pm false key e f t ≡ f (pointer t (path key)) w t
  unfolding with_wrapper use_pointer
  with_wrapper-some e f t w v h =
      let (nz, g) = lookup-some t (path key) w h in
      ap (use_pointer e f) (find-pointer t v.fits v.sized)
      ∙ rw (==_false (pointer t (path key)) 0 nz, g) refl

  pub with_wrapper-none {ℓ} :
      {A : Type ℓ} (e : Status) (f : ℕ → ValueWrapper → ArTree → Outcome A × ArTree) (t : ArTree)
      → Valid t
      → lookup t (path key) ≡ none
      → with_wrapper pm false key e f t ≡ (throws e, t)
  unfolding with_wrapper use_pointer
  with_wrapper-none e f t v h =
      ap (use_pointer e f) (find-pointer t v.fits v.sized) ∙ rw (lookup-none t v (path key) h) refl
