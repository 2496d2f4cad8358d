-- ===== src/Tests/Pools.antt =====
-- A persistent pool with 64 places, for lib/offload/OffloadFreeList.cpp, and free lists in it.
use daqdb.Base.{
  Option-cases, true_ne_false, ℕ, zero, suc, ◌≡◌, ◌≢◌, refl, Option, none, some, [], ◌∷◌, arith, ap,
  sym, ◌∙◌, inl, inr, Bool-cases, ==_iff, ◌==◌, true,
}
use daqdb.Base.Int.{ℤ}
use daqdb.Offload.FreeList.{
  Heap, FreeList, Pmem, Result, ok, throws, fault, out_of_fuel, update, write, cell,
}
use daqdb.Offload.FreeList.Links.{Chain, first, last, has, Links}
use daqdb.Offload.FreeList.Represents.{Represents}

-- The first of n places from p on that is free
abbrev pub first_free {ℓ} : {A : Type ℓ} → ℕ → ℕ → (ℕ → Option A) → Option ℕ
first_free zero p h = none
first_free (suc n) p h =
    let rest = first_free n (suc p) h in elim (h p) [ none ↦ some p | some c ↦ rest ]

some_injective {ℓ} : {A : Type ℓ} {a b : A} → some a ≡ some b → a ≡ b
some_injective e = cc

pub first_free-none {ℓ} :
    {A : Type ℓ} (n p : ℕ) (h : ℕ → Option A) (q : ℕ)
    → first_free n (suc p) h ≡ some q
    → (q ≢ 0) × (h q ≡ none)
first_free-none zero p h q e = absurd (cc)
first_free-none (suc n) p h q e = elim (Option-cases (h (suc p))) [
  | inl free ↦
      let found : some (suc p) ≡ some q = rw (free, first_free) at e in
      let same : suc p ≡ q = some_injective found in
      ((λ z. omega (arith, same, z)), ap h (sym same) ∙ free)
  | inr (c, used) ↦ first_free-none n (suc p) h q (rw (used, first_free) at e)
]

abbrev finish_tx : (A : Type 0) → FreeList → Result (A × FreeList) → Result A × FreeList
finish_tx A s (ok (a, t)) = (ok a, t)
finish_tx A s (throws e) = (throws e, s)
finish_tx A s fault = (fault, s)
finish_tx A s out_of_fuel = (out_of_fuel, s)

abbrev pub pool : Pmem
pool = record {
  alloc = first_free 64 1;
  exec_tx = λ A body s. finish_tx A s (body s);
  alloc_fresh = λ h p e. first_free-none 64 0 h p e;
  commits = λ A body s a t e. ap (finish_tx A s) e;
  rolls_back = λ A body s c e. ap (finish_tx A s) e;
}

-- A state whose list `i` is the chain, and whose other lists are empty
abbrev pub lone : ℕ → Chain → ℕ → Chain
lone i xs = update (λ j. []) i xs

abbrev pub lone_state : ℕ → Chain → Heap → ℕ → FreeList
lone_state i xs h max = record {
  cells = h;
  head = update (λ j. 0) i (first xs);
  tail = update (λ j. 0) i (last xs);
  max_lba = max;
}

owner : (i : ℕ) (xs : Chain) (j a : ℕ) → has a (lone i xs j) ≡ true → i ≡ j
owner i xs j a p = elim (Bool-cases (i == j)) [
  | inl e ↦ (==_iff i j).0 e
  | inr e ↦ absurd (true_ne_false (sym (rw e at p)))
]

pub lone-Represents :
    (i : ℕ) (xs : Chain) (h : Heap) (max : ℕ)
    → Links h xs
    → Represents (lone_state i xs h max) (lone i xs)
lone-Represents i xs h max l = record {
  links = λ j. elim (Bool-cases (i == j)) [ inl e ↦ rw e l | inr e ↦ rw e tt ];
  heads = λ j. elim (Bool-cases (i == j)) [ inl e ↦ rw e refl | inr e ↦ rw e refl ];
  tails = λ j. elim (Bool-cases (i == j)) [ inl e ↦ rw e refl | inr e ↦ rw e refl ];
  apart = λ j k a p q. sym (owner i xs j a p) ∙ owner i xs k a q;
}

abbrev pub two_cells : ℤ → ℤ → Heap
two_cells v w = write (write (λ p. none) 2 (some (cell w 0))) 1 (some (cell v 2))

abbrev pub two_chain : ℤ → ℤ → Chain
two_chain v w = (1, v) ∷ (2, w) ∷ []

pub two-Links : (v w : ℤ) → Links (two_cells v w) (two_chain v w)
two-Links v w = ((λ e. omega (arith, e)), refl, refl, ((λ e. omega (arith, e)), refl, refl, tt))

abbrev pub one_cell : ℤ → Heap
one_cell v = write (λ p. none) 1 (some (cell v 0))

pub one-Links : (v : ℤ) → Links (one_cell v) ((1, v) ∷ [])
one-Links v = ((λ e. omega (arith, e)), refl, refl, tt)
