-- ===== src/Tests/Trees.antt =====
-- Trees of lib/pmem/ARTree.cpp that hold one wrapper, in a pool with 64 places.
use daqdb.Base.{
  ℕ, suc, ◌+◌, ◌<◌, ◌%◌, ◌≡◌, ◌≢◌, refl, Option, none, some, List, [], ◌∷◌, arith, ap, sym, ◌∙◌,
  inr, true, ==_refl, ==_false, ℕ_discrete, update, length,
}
use daqdb.Pmem.ArTree.{
  Key, Location, Action, ValueWrapper, Node, missing, node256, leaf, Pmemobj, levels, node_size,
  fill,
}
use daqdb.Pmem.ArTree.Operations.{ArTree}
use daqdb.Pmem.ArTree.Paths.{
  child_at, Fits, fill-Fits, child_at-fill, update_at, child_at-update_ne,
}
use daqdb.Pmem.ArTree.Search.{Bytes}
use daqdb.Pmem.ArTree.Views.{path, lookup, Valid}
use daqdb.Tests.Pools.{first_free, first_free-none}

abbrev pub blank : ValueWrapper
blank = record {
  location = Location.disk;
  location_ptr = 7;
  size = 7;
  location_volatile = Location.disk;
  action_value = Action.deleted;
}

abbrev pub with_blank : Option ℕ → Option (ℕ × ValueWrapper)
with_blank none = none
with_blank (some p) = some (p, blank)

pub with_blank-some :
    (o : Option ℕ) (p : ℕ) (w : ValueWrapper) → with_blank o ≡ some (p, w) → o ≡ some p
with_blank-some none p w e = absurd (cc)
with_blank-some (some q) p w e = cc

-- Wrappers with arbitrary contents, values at address 4096
abbrev pub tree_pool : Pmemobj
tree_pool = record {
  reserve_nodes = λ s. true;
  reserve_wrapper = λ s. with_blank (first_free 64 1 s.wrappers);
  reserve_value = λ size s. some 4096;
  wrapper_fresh = λ s p w e.
      first_free-none 64 0 s.wrappers p (with_blank-some (first_free 64 1 s.wrappers) p w e);
}

-- The nodes on the way to one leaf
abbrev pub branch : List ℕ → ℕ → ℕ → Node
branch [] d p = leaf d p
branch (b ∷ bytes) d p = node256 d (update (fill d (λ i. missing)) b (branch bytes (suc d) p))

abbrev AllBytes : List ℕ → Type 0
AllBytes [] = Unit {0}
AllBytes (b ∷ bytes) = (b < node_size) × AllBytes bytes

branch-Fits :
    (bytes : List ℕ) (d p : ℕ) → d + length bytes ≡ levels → Fits (length bytes) (branch bytes d p)
unfolding Fits
branch-Fits [] d p h = omega (arith, h)
branch-Fits (b ∷ bytes) d p h = (
  h,
  inr (λ i lt. elim (ℕ_discrete b i) [
    | yes e ↦ rw (e, ==_refl i) (branch-Fits bytes (suc d) p (omega (arith, h)))
    | no ne ↦ rw (==_false b i ne) (fill-Fits (length bytes) d (λ j. missing) i h lt)
  ]),
)

branch_pointer : (bytes : List ℕ) (d p : ℕ) → child_at (branch bytes d p) bytes ≡ p
unfolding child_at
branch_pointer [] d p = refl
branch_pointer (b ∷ bytes) d p =
    ap (λ x. child_at x bytes) (update_at (fill d (λ i. missing)) b (branch bytes (suc d) p))
    ∙ branch_pointer bytes (suc d) p

branch_only :
    (bytes other : List ℕ) (d p : ℕ) → child_at (branch bytes d p) other ≢ 0 → other ≡ bytes
unfolding child_at
branch_only [] [] d p nz = refl
branch_only [] (o ∷ other) d p nz = absurd (nz refl)
branch_only (b ∷ bytes) [] d p nz = absurd (nz refl)
branch_only (b ∷ bytes) (o ∷ other) d p nz = elim (ℕ_discrete b o) [
  | yes e ↦
      let empty = fill d (λ i. missing) in
      let sub = branch bytes (suc d) p in
      let same : update empty b sub o ≡ sub =
        ap (update empty b sub) (sym e) ∙ update_at empty b sub in
      let q : other ≡ bytes =
        branch_only bytes other (suc d) p (λ z. nz (ap (λ x. child_at x other) same ∙ z)) in
      cc
  | no ne ↦ absurd (
      nz (
        ap (λ x. child_at x other)
          (child_at-update_ne (fill d (λ i. missing)) b o (branch bytes (suc d) p) ne)
        ∙ child_at-fill d (λ j. missing) o other (λ j lt. refl)))
]

abbrev pub key : Key
key i = i % 256

pub key-Bytes : Bytes key
key-Bytes i = omega arith

-- The tree that holds `w` for the key, at pointer 1
abbrev pub tree_with : ValueWrapper → ArTree
tree_with w = record {
  root_node = branch (path key) 0 1;
  key_size = levels;
  initialized = true;
  store = record { wrappers = update (λ p. none) 1 (some w); iovs = λ p. none; node_arrays = 8 };
}

pub tree_with-lookup : (w : ValueWrapper) → lookup (tree_with w) (path key) ≡ some w
unfolding lookup
tree_with-lookup w = rw (branch_pointer (path key) 0 1) refl

pub tree_with-Valid : (w : ValueWrapper) → Valid (tree_with w)
tree_with-Valid w = record {
  fits = branch-Fits (path key) 0 1 refl;
  sized = refl;
  linked =
      λ bytes nz. (w, rw (branch_only (path key) bytes 0 1 nz, branch_pointer (path key) 0 1) refl);
  apart = λ bytes other nz e.
      branch_only (path key) bytes 0 1 nz
      ∙ sym (branch_only (path key) other 0 1 (λ z. nz (e ∙ z)));
}
