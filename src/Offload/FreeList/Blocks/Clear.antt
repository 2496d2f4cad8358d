-- ===== src/Offload/FreeList/Blocks/Clear.antt =====
-- clear and clearBlock empty their list, and putBlock fills it.
use mathlib.Core.Path.{fun_ext}
use mathlib.Core.List.{append_assoc, append-nil}
use daqdb.Base.{
  none, ℕ, zero, suc, ◌<◌, ◌≡◌, refl, List, [], ◌∷◌, ◌++◌, arith, ap, sym, ◌∙◌, ◌==◌, ==_refl,
  ==_iff, Bool-cases, inl, inr, length, subst, Option-cases,
}
use daqdb.Base.Int.{ℤ}
use daqdb.Offload.FreeList.{
  update, FreeList, Pmem, Result, ok, throws, alloc_error, block, single, push_block, push_body,
}
use daqdb.Offload.FreeList.Links.{Chain, lbas, lbas-snoc}
use daqdb.Offload.FreeList.Represents.{Represents, Represents-pop, head_pos, load-head}
use daqdb.Offload.FreeList.Push.{push_block-Appended}
use daqdb.Offload.FreeList.Blocks.{clear_rounds, clear, clear_block, put_block}

pub update_twice :
    (f : ℕ → Chain) (i : ℕ) (xs ys : Chain) → update (update f i xs) i ys ≡ update f i ys
update_twice f i xs ys = fun_ext (λ j. elim (Bool-cases (i == j)) [ inl e ↦ rw e | inr e ↦ rw e ])

pub update_at : (f : ℕ → Chain) (i : ℕ) (xs : Chain) → update f i xs i ≡ xs
update_at f i xs = rw ==_refl

pub update_self : (f : ℕ → Chain) (i : ℕ) (xs : Chain) → f i ≡ xs → update f i xs ≡ f
update_self f i xs e = fun_ext (λ j. elim (Bool-cases (i == j)) [
  | inl d ↦ rw d (sym e ∙ ap f ((==_iff i j).0 d))
  | inr d ↦ rw d
])

clear_rounds-empties :
    (fuel i : ℕ) {s : FreeList} {f : ℕ → Chain} (xs : Chain)
    → Represents s f
    → f i ≡ xs
    → length xs < fuel
    → (t : FreeList) × (clear_rounds fuel i s ≡ ok (tt, t)) × Represents t (update f i [])
unfolding clear_rounds
clear_rounds-empties zero i xs r e h = elim h [ ]
clear_rounds-empties (suc fuel) i {s} {f} [] r e h =
    (s, rw (r.heads i, e), subst (Represents s) (sym (update_self f i [] e)) r)
clear_rounds-empties (suc fuel) i {s} {f} ((a, v) ∷ xs) r e h =
    let (t, q, rt) =
      clear_rounds-empties fuel i xs (Represents-pop r i e) (update_at f i xs) (omega arith) in
    (t, rw (head_pos r i e, load-head r i e) q, subst (Represents t) (update_twice f i xs []) rt)

-- What a call leaves of a list when it empties list `i`.
abbrev pub Empties : (ℕ → Chain) → ℕ → Result (Unit {0}) × FreeList → Type 0
Empties f i out = (t : FreeList) × (out ≡ (ok tt, t)) × Represents t (update f i [])

module _ (pm : Pmem) {s : FreeList} {f : ℕ → Chain} (r : Represents s f) where
  -- On a state that represents lists, with more fuel than the single list has cells, `clear` ends, leaves
  -- that list empty and does not touch the others.
  pub clear-Empties : (fuel : ℕ) → length (f single) < fuel → Empties f single (clear pm fuel s)
  unfolding clear
  clear-Empties fuel h =
      let (t, q, rt) = clear_rounds-empties fuel single (f single) r refl h in
      (t, pm.commits Unit (clear_rounds fuel single) s tt t q, rt)

  -- On a state that represents lists, with more fuel than the block list of the slot has cells, clearBlock
  -- ends, leaves that list empty and does not touch the others.
  clear_block-Empties :
      (fuel slot : ℕ)
      → length (f (block slot)) < fuel
      → Empties f (block slot) (clear_block pm fuel slot s)
  unfolding clear_block
  clear_block-Empties fuel slot h =
      let (t, q, rt) = clear_rounds-empties fuel (block slot) (f (block slot)) r refl h in
      (t, pm.commits Unit (clear_rounds fuel (block slot)) s tt t q, rt)

-- A call that left list `i` longer by the values `vs`, and all other lists as they were.
abbrev Extends : (ℕ → Chain) → ℕ → List ℤ → FreeList → Type 0
Extends f i vs t = (ys : Chain) × Represents t (update f i ys) × (lbas ys ≡ lbas (f i) ++ vs)

ok_state :
    {x : Result (Unit {0}) × FreeList} {t u : FreeList} → x ≡ (ok tt, t) → x ≡ (ok tt, u) → t ≡ u
ok_state p q = ap (λ (y : Result (Unit {0}) × FreeList). y.1) (sym p ∙ q)

throws_ne_ok :
    {t u : FreeList} → ◌≡◌ {A = Result (Unit {0}) × FreeList} (throws alloc_error, t) (ok tt, u) → ⊥
throws_ne_ok p = differ (ap (λ (y : Result (Unit {0}) × FreeList). y.0) p)
  where
    differ : ◌≡◌ {A = Result (Unit {0})} (throws alloc_error) (ok tt) → ⊥
    differ q = cc

module _ (pm : Pmem) where
  push_block_full :
      (v : ℤ) (slot : ℕ) (s : FreeList)
      → pm.alloc s.cells ≡ none
      → push_block pm v slot s ≡ (throws alloc_error, s)
  unfolding push_block
  push_block_full v slot s full =
      pm.rolls_back Unit (push_body pm (block slot) v) s alloc_error
        (unfold push_body in rw (full, push_body))

  -- On a state that represents lists, a putBlock that succeeds has appended every LBA of the buffer, in
  -- order, to the block list of its slot, and left the others as they were.
  put_block-Extends :
      (vs : List ℤ) (slot : ℕ) {s t : FreeList} {f : ℕ → Chain}
      → Represents s f
      → put_block pm vs slot s ≡ (ok tt, t)
      → Extends f (block slot) vs t
  unfolding put_block
  put_block-Extends [] slot {s} {t} {f} r e = (
    f (block slot),
    subst (λ x. Represents x (update f (block slot) (f (block slot)))) (ok_state refl e)
        (rw (update_self f (block slot) _ refl) r),
    rw append-nil,
  )
  put_block-Extends (v ∷ vs) slot {s} {t} {f} r e = elim (Option-cases (pm.alloc s.cells)) [
    | inl full ↦ absurd (throws_ne_ok (rw (push_block_full v slot s full, put_block) at e))
    | inr (n, room) ↦
        let (u, out, ru, m) = push_block-Appended pm r v n room slot in
        let (ys, rt, q) = put_block-Extends vs slot ru (rw (out, put_block) at e) in
        (
          ys,
          subst (Represents t) (update_twice f (block slot) _ ys) rt,
          q
              ∙ rw
                  (
                    update_at f (block slot) (f (block slot) ++ (n, v) ∷ []),
                    lbas-snoc,
                    append_assoc,
                  )
                  refl,
        )
  ]
