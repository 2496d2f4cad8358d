-- ===== src/Pmem/ArTree/Fresh.antt =====
-- TreeImpl::findValueInNode with allocation, on the map of a valid tree: it stays valid, and at most
-- one key, that had none, gets a wrapper.
use daqdb.Base.{
  ℕ, ◌≡◌, ◌≢◌, refl, ap, ◌∙◌, sym, none, some, List, ◌==◌, if◌then◌else◌, update, ==_false, ==_refl,
  ℕ_discrete,
}
use daqdb.Pmem.ArTree.{ValueWrapper, levels}
use daqdb.Pmem.ArTree.Operations.{ArTree}
use daqdb.Pmem.ArTree.Paths.{Fits}
use daqdb.Pmem.ArTree.Views.{pointer, lookup, lookup_there, lookup_null, Valid}

pub list_discrete : Discrete (List ℕ)
list_discrete = hlevel ℕ_discrete

-- The same pointers to the same wrappers
pub same_pointers-Valid :
    (t t' : ArTree)
    → Valid t
    → Fits levels t'.root_node
    → t'.key_size ≡ t.key_size
    → ((bytes : List ℕ) → pointer t' bytes ≡ pointer t bytes)
    → t'.store.wrappers ≡ t.store.wrappers
    → Valid t'
same_pointers-Valid t t' v fits sized same ws = record {
  fits = fits;
  sized = sized ∙ v.sized;
  linked = λ bytes nz.
      let (w, h) = v.linked bytes (λ z. nz (same bytes ∙ z)) in
      (w, ap (λ f. f (pointer t' bytes)) ws ∙ ap t.store.wrappers (same bytes) ∙ h);
  apart = λ bytes other nz e.
      v.apart bytes other (λ z. nz (same bytes ∙ z)) (sym (same bytes) ∙ e ∙ same other);
}

pub same_pointers-lookup :
    (t t' : ArTree)
    → ((bytes : List ℕ) → pointer t' bytes ≡ pointer t bytes)
    → t'.store.wrappers ≡ t.store.wrappers
    → (bytes : List ℕ) → lookup t' bytes ≡ lookup t bytes
unfolding lookup
same_pointers-lookup t t' same ws bytes =
    ap (λ p. if p == 0 then none else t'.store.wrappers p) (same bytes)
    ∙ ap (λ f. if pointer t bytes == 0 then none else f (pointer t bytes)) ws

module _ (t t' : ArTree) (v : Valid t) (fits : Fits levels t'.root_node)
    (sized : t'.key_size ≡ t.key_size) (here : List ℕ) (p : ℕ) (w : ValueWrapper)
    (keeps : (bytes : List ℕ) → bytes ≢ here → pointer t' bytes ≡ pointer t bytes) (nz : p ≢ 0)
    (after : pointer t' here ≡ p) (free : t.store.wrappers p ≡ none)
    (ws : t'.store.wrappers ≡ update t.store.wrappers p (some w)) where
  wrapper_there : t'.store.wrappers p ≡ some w
  wrapper_there = ap (λ f. f p) ws ∙ rw (==_refl p) refl

  -- No leaf pointed to the free address.
  old_ne : (bytes : List ℕ) → pointer t bytes ≢ 0 → p ≢ pointer t bytes
  old_ne bytes b_nz e =
      let (w', h) = v.linked bytes b_nz in absurd (let g = ap t.store.wrappers e in cc)

  old_wrapper :
      (bytes : List ℕ)
      → pointer t bytes ≢ 0
      → t'.store.wrappers (pointer t bytes) ≡ t.store.wrappers (pointer t bytes)
  old_wrapper bytes b_nz =
      ap (λ f. f (pointer t bytes)) ws ∙ rw (==_false p (pointer t bytes) (old_ne bytes b_nz)) refl

  pub made-lookup : (bytes : List ℕ) → bytes ≢ here → lookup t' bytes ≡ lookup t bytes
  made-lookup bytes ne = elim (ℕ_discrete (pointer t bytes) 0) [
    | yes z ↦ lookup_null t' bytes (keeps bytes ne ∙ z) ∙ sym (lookup_null t bytes z)
    | no b_nz ↦
        lookup_there t' bytes (pointer t bytes) b_nz (keeps bytes ne)
        ∙ old_wrapper bytes b_nz
        ∙ sym (lookup_there t bytes (pointer t bytes) b_nz refl)
  ]

  made_linked :
      (bytes : List ℕ)
      → pointer t' bytes ≢ 0
      → (w : ValueWrapper) × (t'.store.wrappers (pointer t' bytes) ≡ some w)
  made_linked bytes b_nz = elim (list_discrete bytes here) [
    | yes e ↦ (w, ap t'.store.wrappers (ap (pointer t') e ∙ after) ∙ wrapper_there)
    | no ne ↦
        let old = keeps bytes ne in
        let old_nz = (λ (z : pointer t bytes ≡ 0). b_nz (old ∙ z)) in
        let (w', h) = v.linked bytes old_nz in
        (w', ap t'.store.wrappers old ∙ old_wrapper bytes old_nz ∙ h)
  ]

  made_apart :
      (bytes other : List ℕ)
      → pointer t' bytes ≢ 0
      → pointer t' bytes ≡ pointer t' other
      → bytes ≡ other
  made_apart bytes other b_nz e = elim (list_discrete bytes here) [
    | yes b_here ↦ elim (list_discrete other here) [
      | yes o_here ↦ b_here ∙ sym o_here
      | no ne ↦
          let q = sym after ∙ sym (ap (pointer t') b_here) ∙ e ∙ keeps other ne in
          absurd (old_ne other (λ z. nz (q ∙ z)) q)
    ]
    | no ne ↦ elim (list_discrete other here) [
      | yes o_here ↦
          let q = sym (keeps bytes ne) ∙ e ∙ ap (pointer t') o_here ∙ after in
          absurd (old_ne bytes (λ z. nz (sym q ∙ z)) (sym q))
      | no o_ne ↦
          v.apart bytes other (λ z. b_nz (keeps bytes ne ∙ z))
            (sym (keeps bytes ne) ∙ e ∙ keeps other o_ne)
    ]
  ]

  pub made-Valid : Valid t'
  made-Valid = record {
    fits = fits;
    sized = sized ∙ v.sized;
    linked = made_linked;
    apart = made_apart;
  }
