-- ===== src/Offload/FreeList/Blocks/Counting.antt =====
-- What getBlock gives out when the first entry of the list is a counter below zero.
use mathlib.Core.List.{append_assoc}
use native.Mathlib.Nat.{zero-add, sub-zero}
use daqdb.Base.{
  get_elem?, some, ℕ, zero, suc, ◌+◌, ◌*◌, ◌<◌, ◌≤◌, ◌≡◌, ◌≢◌, refl, List, [], ◌∷◌, ◌++◌, arith, ap,
  sym, ◌∙◌, ==_false, length, length-snoc, set-append, subst, drop, le→leb, lt→ltb,
}
use daqdb.Base.Int.{ℤ, pos, negsuc, int_limit, abs_int-small}
use daqdb.Offload.FreeList.{update, FreeList, Pmem, ok, block}
use daqdb.Offload.FreeList.Links.{Chain}
use daqdb.Offload.FreeList.Represents.{Represents, Represents-set_head_lba, head_pos, load-head}
use daqdb.Offload.FreeList.Blocks.{
  take_rounds, count_rounds, get_block_body, get_block, counter_limit,
}
use daqdb.Offload.FreeList.Blocks.Clear.{update_twice, update_at, update_self}

-- m addresses behind c + 1, d apart
pub steps : ℕ → ℕ → ℕ → List ℤ
steps zero c d = []
steps (suc m) c d = pos (suc (c + d)) ∷ steps m (c + d) d

pub get_elem?-steps :
    (m k c d : ℕ) → k < m → get_elem? (steps m c d) k ≡ some (pos (suc (c + suc k * d)))
unfolding steps
get_elem?-steps zero k c d h = elim h [ ]
get_elem?-steps (suc m) zero c d h = ap (λ n. some (pos n)) (omega arith)
get_elem?-steps (suc m) (suc k) c d h =
    get_elem?-steps m k (c + d) d (omega arith) ∙ ap (λ n. some (pos n)) (omega arith)

pub length-steps : (m c d : ℕ) → length (steps m c d) ≡ m
unfolding steps
length-steps zero c d = refl
length-steps (suc m) c d = ap suc (length-steps m (c + d) d)

-- The counter after m steps of width d.
pub counted : ℕ → ℕ → ℕ → ℕ
counted zero c d = c
counted (suc m) c d = counted m (c + d) d

pub counted-mul : (m c d : ℕ) → counted m c d ≡ c + m * d
unfolding counted
counted-mul zero c d = omega arith
counted-mul (suc m) c d = counted-mul m (c + d) d ∙ omega arith

below : (k slot c : ℕ) → suc (c + suc k * (slot + 1)) < int_limit → suc (c + (slot + 1)) < int_limit
below k slot c h = omega (arith, h)

count_rounds-steps :
    (k slot c a : ℕ) (pre ys : List ℤ) (xs : Chain) {s : FreeList} {f : ℕ → Chain}
    → Represents s f
    → f (block slot) ≡ (a, negsuc c) ∷ xs
    → k ≤ length ys
    → suc (c + k * (slot + 1)) < int_limit
    → (t : FreeList) × (count_rounds k slot (length pre) (pre ++ ys) s
        ≡ ok ((length pre + k, pre ++ (steps k c (slot + 1) ++ drop k ys)), t))
      × Represents t (update f (block slot) ((a, negsuc (counted k c (slot + 1))) ∷ xs))
unfolding count_rounds steps counted
count_rounds-steps zero slot c a pre ys xs {s} {f} r e h small = (
  s,
  ap (λ n. ok ((n, pre ++ ys), s)) (omega arith),
  subst (Represents s) (sym (update_self f (block slot) _ e)) r,
)
count_rounds-steps (suc k) slot c a pre [] xs {s} {f} r e h small = absurd (omega arith)
count_rounds-steps (suc k) slot c a pre (y ∷ ys) xs {s} {f} r e h small =
    let v = negsuc (c + (slot + 1)) in
    let w = pos (suc (c + (slot + 1))) in
    let r' = Represents-set_head_lba r (block slot) e v in
    let (t, q, rt) =
      count_rounds-steps k slot (c + (slot + 1)) a (pre ++ w ∷ []) ys xs r'
        (update_at f (block slot) _) (omega arith) (omega (arith, small)) in
    (
      t,
      rw
          (
            load-head r (block slot) e,
            abs_int-small (c + (slot + 1)) (below k slot c small),
            set-append pre ys y w,
            ==_false (suc (c + (slot + 1))) 0 (λ p. omega arith),
          )
          ((rw
              (
                length-snoc pre w,
                append_assoc pre (w ∷ []) ys,
                append_assoc pre (w ∷ []) (steps k (c + (slot + 1)) (slot + 1) ++ drop k ys),
              )
              at q)
            ∙ ap (λ n. ok ((n, pre ++ (w ∷ steps k (c + (slot + 1)) (slot + 1) ++ drop k ys)), t))
                (omega arith)),
      subst (Represents t) (update_twice f (block slot) _ _) rt,
    )

module _ (pm : Pmem) {s : FreeList} {f : ℕ → Chain} (r : Represents s f) (slot : ℕ) where
  -- On a state that represents lists and has a drive, with a buffer of at least `size > 0` places and a block
  -- list that starts with the counter -(c + 1), not above the limit, where the counter moves through numbers
  -- that an int holds, getBlock reports `size` places with the addresses c + 1 + (slot + 1),
  -- c + 1 + 2 * (slot + 1), …, and moves the counter to the last of them.
  pub get_block_counts :
      (a c : ℕ) (buf : List ℤ) (xs : Chain)
      → f (block slot) ≡ (a, negsuc c) ∷ xs
      → s.max_lba ≢ 0
      → suc c ≤ counter_limit s.max_lba slot
      → (size : ℕ) → 0 < size
      → size ≤ length buf
      → suc (c + size * (slot + 1)) < int_limit
      → (t : FreeList) × (get_block pm buf size slot s
          ≡ (ok (size, steps size c (slot + 1) ++ drop size buf), t))
        × Represents t (update f (block slot) ((a, negsuc (c + size * (slot + 1))) ∷ xs))
  unfolding get_block get_block_body take_rounds
  get_block_counts a c buf xs e mz lim zero h fits small = absurd (omega arith)
  get_block_counts a c [] xs e mz lim (suc size) h fits small = absurd (omega arith)
  get_block_counts a c (z ∷ buf) xs e mz lim (suc size) h fits small =
      let (t, q, rt) =
        count_rounds-steps (suc size) slot c a [] (pos (suc c) ∷ buf) xs r e fits small in
      let full = steps (suc size) c (slot + 1) ++ drop size buf in
      (
        t,
        pm.commits (ℕ × List ℤ) (get_block_body (suc size) slot (z ∷ buf)) s _ t (
            rw
              (
                head_pos r (block slot) e,
                ==_false s.max_lba 0 mz,
                load-head r (block slot) e,
                lt→ltb 0 (suc size) h,
                abs_int-small c (omega (arith, small)),
                le→leb (suc c) _ lim,
                head_pos r (block slot) e,
                sub-zero (suc size),
              )
              (q ∙ ap (λ n. ok ((n, full), t)) (zero-add (suc size)))),
        rw (← counted-mul (suc size) c (slot + 1)) rt,
      )
