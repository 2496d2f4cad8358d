-- ===== src/Offload/FreeList/Push.antt =====
-- Appending to a list: the common body of push and pushBlock, and its effect on what is represented.
use daqdb.Base.{
  true_ne_false, ℕ, ◌≡◌, ◌≢◌, refl, true, false, ◌||◌, some, none, [], ◌∷◌, ap, sym, ◌∙◌, ◌++◌,
  ◌==◌, arith, ==_iff, ==_refl, ==_false, inl, inr, ◌⊎◌,
}
use daqdb.Base.Int.{ℤ}
use daqdb.Offload.FreeList.{
  cell, Heap, write, update, FreeList, Pmem, push_cell, load, load-some, push_body, push,
  push_block, single, block, Result, ok,
}
use daqdb.Offload.FreeList.Links.{
  Chain, has, first, last, Links, Links-write, not-has_of_none, has-append, has-last, last-snoc,
  last-cell, Links-snoc,
}
use daqdb.Offload.FreeList.Represents.{Represents, Represents-change, other_out, end_kept}

-- Membership in a chain that grew by the cell `n`.
has-snoc_cases :
    (a n : ℕ) (v : ℤ) (xs : Chain) → has a (xs ++ (n, v) ∷ []) ≡ true → (has a xs ≡ true) ⊎ (a ≡ n)
has-snoc_cases a n v xs m =
    let m' : (has a xs || has a ((n, v) ∷ [])) ≡ true = sym (has-append a xs ((n, v) ∷ [])) ∙ m in
    ground (arith, ==_iff a n)

-- A fresh cell at the end of list `i`.
abbrev pub grown : (ℕ → Chain) → ℕ → ℕ → ℤ → ℕ → Chain
grown f i n v = update f i (f i ++ (n, v) ∷ [])

abbrev Appends : FreeList → (ℕ → Chain) → ℕ → ℤ → ℕ → Type 0
Appends s f i v n =
    (t : FreeList) × (push_cell i v n s ≡ ok (tt, t))
    × Represents t (grown f i n v)
    × (t.max_lba ≡ s.max_lba)

module _ {s : FreeList} {f : ℕ → Chain} (r : Represents s f) (i : ℕ) (v : ℤ) {n : ℕ} (nz : n ≢ 0)
    (free : s.cells n ≡ none) where
  abbrev fresh : Heap
  fresh = write s.cells n (some (cell v 0))

  unused : (j : ℕ) → has n (f j) ≡ false
  unused j = not-has_of_none s.cells n (f j) free (r.links j)

  fresh-Links : (j : ℕ) → Links fresh (f j)
  fresh-Links j = Links-write s.cells n _ (f j) (unused j) (r.links j)

  grown_out :
      (xs : Chain)
      → f i ≡ xs
      → (j a : ℕ) → i ≢ j
      → has a (xs ++ (n, v) ∷ []) ≡ true
      → has a (f j) ≡ false
  grown_out xs e j a d m = elim (has-snoc_cases a n v xs m) [
    | inl q ↦ other_out r i j a (rw e q) d
    | inr q ↦ rw q (unused j)
  ]

  push_cell-empty : f i ≡ [] → Appends s f i v n
  unfolding push_cell
  push_cell-empty e = (
    record s { cells = fresh; head = update s.head i n; tail = update s.tail i n },
    rw (r.heads i, r.tails i, e),
    rw e (
        Represents-change r
          (record s { cells = fresh; head = update s.head i n; tail = update s.tail i n }) i
          ((n, v) ∷ []) (nz, ground (arith, ==_refl n), refl, tt) (λ j d. fresh-Links j) (λ j. refl)
          (λ j. refl) (grown_out [] e)),
    refl,
  )

  module _ (x : ℕ × ℤ) (xs : Chain) (e : f i ≡ x ∷ xs) where
    tail_ptr : s.tail i ≡ last (x ∷ xs)
    tail_ptr = r.tails i ∙ ap last e

    tail-Links : Links s.cells (x ∷ xs)
    tail-Links = rw e at (r.links i)

    appended : ℤ → FreeList
    appended w = record s {
      cells = write fresh (s.tail i) (some (cell w n));
      tail = update s.tail i n;
    }

    tail_cell : (w : ℤ) × (s.cells (s.tail i) ≡ some (cell w 0)) × (s.tail i ≢ 0)
    tail_cell = rw tail_ptr (last-cell s.cells x xs tail-Links)

    tail_mem : has (s.tail i) (x ∷ xs) ≡ true
    tail_mem = ap (λ c. has c (x ∷ xs)) tail_ptr ∙ has-last x xs

    tail_ne : n ≢ s.tail i
    tail_ne q =
        true_ne_false
          (sym tail_mem ∙ ap (λ c. has c (x ∷ xs)) (sym q) ∙ ap (has n) (sym e) ∙ unused i)

    head_ne : s.head i ≢ 0
    head_ne q = tail-Links.0 (sym (r.heads i ∙ ap first e) ∙ q)

    mem_ne : (a : ℕ) → has a (x ∷ xs) ≡ true → n ≢ a
    mem_ne a m q =
        true_ne_false (sym m ∙ ap (λ c. has c (x ∷ xs)) (sym q) ∙ ap (has n) (sym e) ∙ unused i)

    kept :
        (w : ℤ) (a : ℕ)
        → has a (x ∷ xs) ≡ true
        → last (x ∷ xs) ≢ a
        → (appended w).cells a ≡ s.cells a
    unfolding appended
    kept w a m d = rw (==_false (s.tail i) a (λ q. d (sym tail_ptr ∙ q)), ==_false n a (mem_ne a m))

    linked :
        (w u : ℤ)
        → s.cells (s.tail i) ≡ some (cell w 0)
        → s.cells (s.tail i) ≡ some (cell u 0)
        → (appended w).cells (s.tail i) ≡ some (cell u n)
    unfolding appended
    linked w u p q = rw (==_refl (s.tail i)) (cc (p, q))

    appended-Links :
        (w : ℤ)
        → s.cells (s.tail i) ≡ some (cell w 0)
        → Links (appended w).cells (x ∷ xs ++ (n, v) ∷ [])
    unfolding appended
    appended-Links w p =
        Links-snoc s.cells (appended w).cells n v x xs tail-Links nz (ap (has n) (sym e) ∙ unused i)
          (rw (==_false (s.tail i) n (λ q. tail_ne (sym q)), ==_refl n))
          (λ a m d.
            kept w a m (λ q. true_ne_false (sym (==_refl a) ∙ ap (λ c. a == c) (sym q) ∙ d)))
          (λ u q. ap (appended w).cells (sym tail_ptr) ∙ linked w u p (ap s.cells tail_ptr ∙ q))

    load-fresh :
        (w : ℤ)
        → s.cells (s.tail i) ≡ some (cell w 0)
        → s.tail i ≢ 0
        → load fresh (s.tail i) ≡ ok (cell w 0)
    load-fresh w q nt = load-some fresh nt (rw (==_false n (s.tail i) tail_ne) q)

    push_cell-more : Appends s f i v n
    unfolding push_cell appended
    push_cell-more =
        let (w, q, nt) = tail_cell in
        (
          appended w,
          rw (==_false (s.head i) 0 head_ne, load-fresh w q nt),
          rw e (
              Represents-change r (appended w) i (x ∷ xs ++ (n, v) ∷ []) (appended-Links w q)
                (λ j d.
                  Links-write fresh (s.tail i) _ (f j)
                    (other_out r i j (s.tail i) (rw e tail_mem) d) (fresh-Links j))
                (λ j. end_kept s.head i j (r.heads i ∙ ap first e))
                (λ j. rw (last-snoc (x ∷ xs) n v)) (grown_out (x ∷ xs) e)),
          refl,
        )

module _ (pm : Pmem) {s : FreeList} {f : ℕ → Chain} (r : Represents s f) (v : ℤ) (n : ℕ)
    (room : pm.alloc s.cells ≡ some n) where
  abbrev pub Appended : ℕ → Result (Unit {0}) × FreeList → Type 0
  Appended i out =
      (t : FreeList) × (out ≡ (ok tt, t)) × Represents t (grown f i n v) × (t.max_lba ≡ s.max_lba)

  push_body-Appended : (i : ℕ) → Appended i (pm.exec_tx Unit (push_body pm i v) s)
  unfolding push_body
  push_body-Appended i =
      let (nz, free) = pm.alloc_fresh s.cells n room in
      let (t, e, rt, m) = pushed (f i) refl nz free in
      (t, pm.commits Unit (push_body pm i v) s tt t (rw (room, push_body) e), rt, m)
    where
      pushed : (xs : Chain) → f i ≡ xs → n ≢ 0 → s.cells n ≡ none → Appends s f i v n
      pushed [] e nz free = push_cell-empty r i v nz free e
      pushed (x ∷ xs) e nz free = push_cell-more r i v nz free x xs e

  -- On a state that represents lists, when the allocator gives a cell, push succeeds, puts the value behind
  -- all others of the single list and leaves the block lists and the size of the drive alone.
  pub push-Appended : Appended single (push pm v s)
  unfolding push
  push-Appended = push_body-Appended single

  -- Under the same conditions pushBlock succeeds, puts the value behind all others of the block list of its
  -- slot, and leaves all other lists and the size of the drive alone.
  pub push_block-Appended : (slot : ℕ) → Appended (block slot) (push_block pm v slot s)
  unfolding push_block
  push_block-Appended slot = push_body-Appended (block slot)
