-- ===== src/Offload/FreeList/Blocks/Rounds.antt =====
-- What getBlock puts into the buffer. Its first loop never reads the next entry into `ret`, and its
-- second loop overwrites the first address and tests only the first one against `maxLba`.
use mathlib.Core.List.{append_assoc}
use native.Mathlib.Nat.{le_trans, zero-add}
use daqdb.Base.{
  ℕ, zero, suc, ◌+◌, ◌≤◌, ◌≡◌, ◌≢◌, refl, List, [], ◌∷◌, ◌++◌, arith, ap, sym, ◌∙◌, ◌==◌, ==_false,
  length, length-snoc, set-append, drop-nil, and_false, subst, set, drop, replicate, true,
}
use daqdb.Base.Int.{ℤ, pos}
use daqdb.Offload.FreeList.{FreeLba, cell, update, FreeList, Pmem, Result, ok, pop_head, block}
use daqdb.Offload.FreeList.Links.{Chain, first}
use daqdb.Offload.FreeList.Represents.{Represents, Represents-pop, head_pos, load-head}
use daqdb.Offload.FreeList.Blocks.{take_rounds, get_block_body, get_block}
use daqdb.Offload.FreeList.Blocks.Clear.{update_twice, update_at, update_self}

-- Writing `m` times the value `v` from position `cnt` on.
fill : ℕ → ℕ → ℤ → List ℤ → List ℤ
fill cnt zero v buf = buf
fill cnt (suc m) v buf = fill (suc cnt) m v (set buf cnt v)

fill-replicate :
    (m : ℕ) (v : ℤ) (xs ys : List ℤ)
    → m ≤ length ys
    → fill (length xs) m v (xs ++ ys) ≡ xs ++ (replicate m v ++ drop m ys)
unfolding fill
fill-replicate zero v xs ys h = refl
fill-replicate (suc m) v xs [] h = absurd (omega arith)
fill-replicate (suc m) v xs (y ∷ ys) h =
    ap (fill (suc (length xs)) m v) (set-append xs ys y v ∙ sym (append_assoc xs (v ∷ []) ys))
    ∙ ap (λ n. fill n m v ((xs ++ v ∷ []) ++ ys)) (sym (length-snoc xs v))
    ∙ fill-replicate m v (xs ++ v ∷ []) ys (omega arith)
    ∙ append_assoc xs (v ∷ []) (replicate m v ++ drop m ys)

max-lba-pop_head : (i : ℕ) (c : FreeLba) (s : FreeList) → (pop_head i c s).max_lba ≡ s.max_lba
unfolding pop_head
max-lba-pop_head i c s = refl

-- `cnt` entries of list `i` went, and the buffer holds `buf`.
abbrev Took :
    (ℕ → Chain) → ℕ → Chain → ℕ → List ℤ → FreeList → Result ((ℕ × List ℤ) × FreeList) → Type 0
Took f i rest cnt buf s out =
    (t : FreeList) × (out ≡ ok ((cnt, buf), t))
    × Represents t (update f i rest)
    × (t.max_lba ≡ s.max_lba)

-- The number of rounds of the first loop.
pub rounds : ℕ → Chain → ℕ
rounds zero xs = 0
rounds (suc k) [] = 0
rounds (suc k) (x ∷ xs) = suc (rounds k xs)

rounds-nil : (k : ℕ) → rounds k [] ≡ 0
unfolding rounds
rounds-nil zero = refl
rounds-nil (suc k) = refl

rounds-le : (k : ℕ) (xs : Chain) → rounds k xs ≤ k
unfolding rounds
rounds-le zero xs = omega arith
rounds-le (suc k) [] = omega arith
rounds-le (suc k) (x ∷ xs) = omega (arith, rounds-le k xs)

take_rounds-Took :
    (k i n cnt : ℕ) (buf : List ℤ) {s : FreeList} {f : ℕ → Chain} (x : ℕ × ℤ) (xs : Chain)
    → Represents s f
    → f i ≡ x ∷ xs
    → Took f i
        (drop k (x ∷ xs))
        (cnt + rounds k (x ∷ xs))
        (fill cnt (rounds k (x ∷ xs)) (pos n) buf)
        s
        (take_rounds k i (pos n) cnt buf s)
unfolding take_rounds fill rounds
take_rounds-Took zero i n cnt buf {s} {f} x xs r e = (
  s,
  ap (λ c. ok ((c, buf), s)) (omega arith),
  subst (Represents s) (sym (update_self f i (x ∷ xs) e)) r,
  refl,
)
take_rounds-Took (suc k) i n cnt buf {s} {f} (a, v) [] r e =
    let r' = Represents-pop r i e in
    (
      pop_head i (cell v 0) s,
      rw (load-head r i e, popped_null r', rounds-nil k)
          (ap (λ c. ok ((c, set buf cnt (pos n)), pop_head i (cell v 0) s)) (omega arith)),
      rw drop-nil r',
      max-lba-pop_head i (cell v 0) s,
    )
  where
    popped_null :
        Represents (pop_head i (cell v 0) s) (update f i [])
        → ((pop_head i (cell v 0) s).head i == 0) ≡ true
    popped_null q = rw (q.heads i ∙ ap first (update_at f i []))
take_rounds-Took (suc k) i n cnt buf {s} {f} (a, v) ((b, w) ∷ xs) r e =
    let r' = Represents-pop r i e in
    let (t, q, rt, m) =
      take_rounds-Took k i n (suc cnt) (set buf cnt (pos n)) (b, w) xs r'
        (update_at f i ((b, w) ∷ xs)) in
    (
      t,
      rw (load-head r i e, head_pos r' i (update_at f i ((b, w) ∷ xs)))
          (q
            ∙ ap
                (λ c.
                  ok
                    ((c, fill (suc cnt) (rounds k ((b, w) ∷ xs)) (pos n) (set buf cnt (pos n))), t))
                (omega arith)),
      subst (Represents t) (update_twice f i _ (drop k ((b, w) ∷ xs))) rt,
      m ∙ max-lba-pop_head i _ s,
    )

module _ (pm : Pmem) {s : FreeList} {f : ℕ → Chain} (r : Represents s f) (size slot : ℕ)
    (buf : List ℤ) where
  -- On a state that represents lists and has a drive, with a block list whose first entry is the free address
  -- `n` and a buffer of at least `size` places, getBlock reports as many addresses as the list has entries,
  -- `size` at most, all of them `n`, and drops that many entries.
  get_block_repeats :
      (a n : ℕ) (xs : Chain)
      → f (block slot) ≡ (a, pos n) ∷ xs
      → s.max_lba ≢ 0
      → size ≤ length buf
      → let m = rounds size ((a, pos n) ∷ xs) in
        (t : FreeList) × (get_block pm buf size slot s
          ≡ (ok (m, replicate m (pos n) ++ drop m buf), t))
        × Represents t (update f (block slot) (drop size ((a, pos n) ∷ xs)))
  unfolding get_block get_block_body
  get_block_repeats a n xs e mz fits =
      let (t, q, rt, m) = take_rounds-Took size (block slot) n 0 buf (a, pos n) xs r e in
      let full =
        fill-replicate (rounds size ((a, pos n) ∷ xs)) (pos n) [] buf
          (le_trans (rounds-le size ((a, pos n) ∷ xs)) fits) in
      (
        t,
        pm.commits (ℕ × List ℤ) (get_block_body size slot buf) s _ t (
            rw (
              head_pos r (block slot) e,
              ==_false s.max_lba 0 mz,
              load-head r (block slot) e,
              q,
              and_false,
              full,
              zero-add,
            )),
        rt,
      )
