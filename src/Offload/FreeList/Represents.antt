-- ===== src/Offload/FreeList/Represents.antt =====
-- What a free list in memory represents: one sequence of LBAs for each list, in cells that no two
-- lists share. Each lemma is about one change of the memory.
use daqdb.Base.{
  or_true_right, ℕ, ◌≡◌, ◌≢◌, refl, true, false, none, some, [], ◌∷◌, ap, sym, ◌∙◌, ◌==◌,
  if◌then◌else◌, arith, ==_iff, ==_refl, ==_false, inl, inr, Bool-cases,
}
use daqdb.Base.Int.{ℤ}
use daqdb.Offload.FreeList.{
  cell, Heap, update, FreeList, pop_head, set_head_lba, load, load-some, ok,
}
use daqdb.Offload.FreeList.Links.{Chain, has, first, last, Links, Links-write}

pub record Represents (s : FreeList) (f : ℕ → Chain) : Type 0 where
  pub links : (i : ℕ) → Links s.cells (f i)
  pub heads : (i : ℕ) → s.head i ≡ first (f i)
  pub tails : (i : ℕ) → s.tail i ≡ last (f i)
  pub apart : (i j a : ℕ) → has a (f i) ≡ true → has a (f j) ≡ true → i ≡ j

-- The new tail pointers after the head cell is unlinked.
tail-pop_head :
    (h : Heap) (tl : ℕ → ℕ) (i j a : ℕ) (v : ℤ) (xs : Chain)
    → Links h xs
    → tl i ≡ last ((a, v) ∷ xs)
    → (if first xs == 0 then update tl i 0 else tl) j ≡ (if i == j then last xs else tl j)
tail-pop_head h tl i j a v [] l e = refl
tail-pop_head h tl i j a v ((b, w) ∷ xs) l e = rw (==_false b 0 l.0) (elim (Bool-cases (i == j)) [
  | inl d ↦ rw d (ap tl (sym ((==_iff i j).0 d)) ∙ e)
  | inr d ↦ rw d
])

-- An end pointer of list `i` that a change leaves alone.
pub end_kept : (p : ℕ → ℕ) (i j : ℕ) {q : ℕ} → p i ≡ q → p j ≡ (if i == j then q else p j)
end_kept p i j e = elim (Bool-cases (i == j)) [
  | inl d ↦ rw d (ap p (sym ((==_iff i j).0 d)) ∙ e)
  | inr d ↦ rw d
]

-- The state `t` with the chain `ys` represents, in list `i`, and the same as before elsewhere.
module _ {s : FreeList} {f : ℕ → Chain} (r : Represents s f) where
  -- A change of the cells that spares every other list, with new ends for list `i`.
  pub Represents-change :
      (t : FreeList) (i : ℕ) (ys : Chain)
      → Links t.cells ys
      → ((j : ℕ) → i ≢ j → Links t.cells (f j))
      → ((j : ℕ) → t.head j ≡ (if i == j then first ys else s.head j))
      → ((j : ℕ) → t.tail j ≡ (if i == j then last ys else s.tail j))
      → ((j a : ℕ) → i ≢ j → has a ys ≡ true → has a (f j) ≡ false)
      → Represents t (update f i ys)
  Represents-change t i ys ly others hs ts out = record {
    links = λ j. elim (Bool-cases (i == j)) [
      | inl e ↦ rw e ly
      | inr e ↦ rw e (others j (ground (arith, ==_iff i j)))
    ];
    heads = λ j. elim (Bool-cases (i == j)) [
      | inl e ↦ rw e (hs j ∙ rw e)
      | inr e ↦ rw e (hs j ∙ rw e (r.heads j))
    ];
    tails = λ j. elim (Bool-cases (i == j)) [
      | inl e ↦ rw e (ts j ∙ rw e)
      | inr e ↦ rw e (ts j ∙ rw e (r.tails j))
    ];
    apart = λ j k a m n. ground (arith, ==_iff i j, ==_iff i k, r.apart j k a, out j a, out k a);
  }

  pub other_out : (i j a : ℕ) → has a (f i) ≡ true → i ≢ j → has a (f j) ≡ false
  other_out i j a m d = elim (Bool-cases (has a (f j))) [
    | inl e ↦ absurd (d (r.apart i j a m e))
    | inr e ↦ e
  ]

  module _ (i : ℕ) {a : ℕ} {v : ℤ} {xs : Chain} (e : f i ≡ (a, v) ∷ xs) where
    head-Links : Links s.cells ((a, v) ∷ xs)
    head-Links = rw e at (r.links i)

    pub head_ptr : s.head i ≡ a
    head_ptr = r.heads i ∙ ap first e

    pub head_nz : a ≢ 0
    head_nz = head-Links.0

    pub head_cell : s.cells a ≡ some (cell v (first xs))
    head_cell = head-Links.1

    pub head_pos : (s.head i == 0) ≡ false
    head_pos = ==_false (s.head i) 0 (λ q. head_nz (sym head_ptr ∙ q))

    pub load-head : load s.cells (s.head i) ≡ ok (cell v (first xs))
    load-head =
        load-some s.cells (λ q. head_nz (sym head_ptr ∙ q)) (ap s.cells head_ptr ∙ head_cell)

    head_mem : (b : ℕ) → has b ((a, v) ∷ xs) ≡ true → has b (f i) ≡ true
    head_mem b m = rw e m

    head_out : has (s.head i) xs ≡ false
    head_out = rw head_ptr head-Links.2

    other_head : (j : ℕ) → i ≢ j → has (s.head i) (f j) ≡ false
    other_head j d = rw head_ptr (other_out i j a (head_mem a (ground (arith, ==_refl a))) d)

    -- The head cell is unlinked.
    pub Represents-pop : Represents (pop_head i (cell v (first xs)) s) (update f i xs)
    unfolding pop_head
    Represents-pop =
        Represents-change (pop_head i (cell v (first xs)) s) i xs
          (Links-write s.cells (s.head i) none xs head_out head-Links.3)
          (λ j d. Links-write s.cells (s.head i) none (f j) (other_head j d) (r.links j))
          (λ j. refl)
          (λ j. tail-pop_head s.cells s.tail i j a v xs head-Links.3 (r.tails i ∙ ap last e))
          (λ j b d m. other_out i j b (head_mem b (or_true_right (b == a) _ m)) d)

    -- The LBA of the head cell is overwritten.
    pub Represents-set_head_lba :
        (w : ℤ) → Represents (set_head_lba i (cell v (first xs)) w s) (update f i ((a, w) ∷ xs))
    Represents-set_head_lba w =
        Represents-change (set_head_lba i (cell v (first xs)) w s) i ((a, w) ∷ xs)
          (
            head-Links.0,
            ground (arith, ==_refl a, head_ptr),
            head-Links.2,
            Links-write s.cells (s.head i) _ xs head_out head-Links.3,
          )
          (λ j d. Links-write s.cells (s.head i) _ (f j) (other_head j d) (r.links j))
          (λ j. end_kept s.head i j (r.heads i ∙ ap first e))
          (λ j. end_kept s.tail i j (r.tails i ∙ ap last e ∙ last_lba xs))
          (λ j b d m. other_out i j b (head_mem b m) d)
      where
        last_lba : (ys : Chain) → last ((a, v) ∷ ys) ≡ last ((a, w) ∷ ys)
        last_lba [] = refl
        last_lba (y ∷ ys) = refl
