-- ===== src/Offload/FreeList/Get.antt =====
-- OffloadFreeList::get hands out the next available address, on every branch.
use daqdb.Base.{
  add-one, lt→ltb, ltb-false, ==_iff, cons_head, cons_tail, subst₂, dec_lt, ℕ, suc, ◌-◌, ◌<◌, ◌≤◌,
  ◌≡◌, ◌≢◌, refl, List, [], ◌∷◌, ap, sym, ◌∙◌, ◌++◌, arith, ==_false, Bool, true, false,
  if◌then◌else◌, ltb, ◌==◌,
}
use daqdb.Base.Int.{ℤ, pos, negsuc, int_limit, abs_int-small, abs_int_least, sub_nat}
use daqdb.Offload.FreeList.{
  FreeLba, cell, update, FreeList, Pmem, Result, ok, throws, einval, get, get_body, get_head,
  count_on, pop_head, set_head_lba, single,
}
use daqdb.Offload.FreeList.Links.{Chain, first, lbas}
use daqdb.Offload.FreeList.Represents.{
  Represents, head_pos, load-head, Represents-pop, Represents-set_head_lba,
}
use daqdb.Offload.FreeList.Supply.{available, InDrive, AllInDrive, supply-next, supply_last}

-- A state in which the single list has lost its first available address, and nothing else.
abbrev pub Serves : FreeList → (ℕ → Chain) → ℕ → List ℕ → Result ℤ × FreeList → Type 0
Serves s f l rest out =
    (t : FreeList) × (ys : Chain) × (out ≡ (ok (pos l), t))
    × Represents t (update f single ys)
    × (t.max_lba ≡ s.max_lba)
    × (available s.max_lba (lbas ys) ≡ rest)
    × AllInDrive s.max_lba (lbas ys)

differ : {z l : ℕ} → ok (negsuc z) ≡ ok (pos l) → ⊥
differ e = cc

fails : {l : ℕ} → throws einval ≡ ok (pos l) → ⊥
fails e = cc

-- The counter at the head, if the head is one, is a number whose opposite an int has.
abbrev pub Countable : List ℤ → Type 0
Countable [] = Unit {0}
Countable (pos n ∷ vs) = Unit {0}
Countable (negsuc k ∷ vs) = suc k < int_limit

module _ {s : FreeList} {f : ℕ → Chain} (r : Represents s f) {a : ℕ} {v : ℤ} {xs : Chain}
    (e : f single ≡ (a, v) ∷ xs) where
  -- The guard of `get` passes on a list with a first cell, which is then read.
  get_body-head : s.max_lba ≢ 0 → get_body s ≡ get_head (cell v (first xs)) s
  unfolding get_body
  get_body-head mz = rw (head_pos r single e, ==_false s.max_lba 0 mz, load-head r single e)

max-lba-pop_head : (c : FreeLba) (s : FreeList) → (pop_head single c s).max_lba ≡ s.max_lba
unfolding pop_head
max-lba-pop_head c s = refl

module _ (pm : Pmem) {s : FreeList} {f : ℕ → Chain} (r : Represents s f) where
  serve :
      (t : FreeList) (l : ℕ) (rest : List ℕ) (ys : Chain)
      → get_body s ≡ ok (pos l, t)
      → Represents t (update f single ys)
      → t.max_lba ≡ s.max_lba
      → available s.max_lba (lbas ys) ≡ rest
      → AllInDrive s.max_lba (lbas ys)
      → Serves s f l rest (get pm s)
  unfolding get
  serve t l rest ys b rt m q w = (t, ys, pm.commits ℤ get_body s (pos l) t b, rt, m, q, w)

  get_entry :
      (a n : ℕ) (xs : Chain)
      → f single ≡ (a, pos n) ∷ xs
      → AllInDrive s.max_lba (lbas ((a, pos n) ∷ xs))
      → Serves s f n (available s.max_lba (lbas xs)) (get pm s)
  unfolding get_head
  get_entry a n xs e w =
      serve (pop_head single (cell (pos n) (first xs)) s) n _ xs (get_body-head r e (omega arith))
        (Represents-pop r single e) (max-lba-pop_head _ s) refl w.1

  get_counter :
      (a k : ℕ) (xs : Chain) (v : ℤ)
      → f single ≡ (a, negsuc k) ∷ xs
      → AllInDrive s.max_lba (lbas xs)
      → InDrive s.max_lba v
      → s.max_lba ≢ 0
      → get_head (cell (negsuc k) (first xs)) s
        ≡ ok (pos (suc k), set_head_lba single (cell (negsuc k) (first xs)) v s)
      → Serves s f (suc k) (available s.max_lba (v ∷ lbas xs)) (get pm s)
  get_counter a k xs v e w wv mz h =
      serve (set_head_lba single (cell (negsuc k) (first xs)) v s) (suc k) _ ((a, v) ∷ xs)
        (get_body-head r e mz ∙ h) (Represents-set_head_lba r single e v) refl refl (wv, w)

  get_head-next :
      (k n : ℕ)
      → suc (suc k) < s.max_lba
      → suc k < int_limit
      → get_head (cell (negsuc k) n) s
        ≡ ok (pos (suc k), set_head_lba single (cell (negsuc k) n) (negsuc (suc k)) s)
  unfolding get_head count_on
  get_head-next k n h small =
      rw (abs_int-small k small, lt→ltb (suc k) (s.max_lba - 1) (omega arith), add-one k)

  get_head_last :
      (k n : ℕ)
      → suc (suc k) ≡ s.max_lba
      → suc k < int_limit
      → get_head (cell (negsuc k) n) s
        ≡ ok (pos (suc k), set_head_lba single (cell (negsuc k) n) (pos 0) s)
  unfolding get_head count_on
  get_head_last k n h small = rw (
    abs_int-small k small,
    ltb-false (suc k) (s.max_lba - 1) (omega arith),
    (==_iff (suc k) (s.max_lba - 1)).1 (omega arith),
  )

  -- What get_head comes to where `ret` is the least int
  abbrev Least : ℕ → FreeLba → Bool → Bool → Result (ℤ × FreeList)
  Least z c a b =
      if a
      then ok (negsuc z, set_head_lba single c (sub_nat c.lba 1) s)
      else if b
      then ok (negsuc z, set_head_lba single c (pos 0) s)
      else throws einval

  no_address :
      (z l : ℕ) (c : FreeLba) (a b : Bool) (t : FreeList)
      → get_body s ≡ Least z c a b
      → get pm s ≡ (ok (pos l), t)
      → ⊥
  unfolding get
  no_address z l c true b t e q =
      differ (ap (λ (y : Result ℤ × FreeList). y.0) (sym (pm.commits ℤ get_body s _ _ e) ∙ q))
  no_address z l c false true t e q =
      differ (ap (λ (y : Result ℤ × FreeList). y.0) (sym (pm.commits ℤ get_body s _ _ e) ∙ q))
  no_address z l c false false t e q =
      fails (ap (λ (y : Result ℤ × FreeList). y.0) (sym (pm.rolls_back ℤ get_body s einval e) ∙ q))

  get_head-least :
      (k n : ℕ)
      → suc k ≡ int_limit
      → get_head (cell (negsuc k) n) s
        ≡ Least 2147483647
            (cell (negsuc k) n)
            (ltb 18446744071562067968 (s.max_lba - 1))
            (18446744071562067968 == s.max_lba - 1)
  unfolding get_head count_on
  get_head-least k n e = rw (abs_int_least k e) refl

  -- Where get gives an address, an int can count the head on.
  Countable-cases :
      (xs : Chain)
      → f single ≡ xs
      → AllInDrive s.max_lba (lbas xs)
      → s.max_lba ≢ 0
      → (l : ℕ) (t : FreeList) → get pm s ≡ (ok (pos l), t)
      → Countable (lbas xs)
  Countable-cases [] e w mz l t q = tt
  Countable-cases ((a, pos n) ∷ xs) e w mz l t q = tt
  Countable-cases ((a, negsuc k) ∷ xs) e w mz l t q = elim (dec_lt (suc k) int_limit) [
    | yes h ↦ h
    | no h ↦ absurd (
        no_address 2147483647 l (cell (negsuc k) (first xs))
          (ltb 18446744071562067968 (s.max_lba - 1)) (18446744071562067968 == s.max_lba - 1) t
          (get_body-head r e mz ∙ get_head-least k (first xs) (omega (arith, w.0.1))) q)
  ]

  pub get-Countable :
      (l : ℕ) (t : FreeList)
      → AllInDrive s.max_lba (lbas (f single))
      → s.max_lba ≢ 0
      → get pm s ≡ (ok (pos l), t)
      → Countable (lbas (f single))
  get-Countable l t w mz q = Countable-cases (f single) refl w mz l t q

  get_cases :
      (xs : Chain)
      → f single ≡ xs
      → AllInDrive s.max_lba (lbas xs)
      → Countable (lbas xs)
      → (l : ℕ) (rest : List ℕ) → available s.max_lba (lbas xs) ≡ l ∷ rest
      → Serves s f l rest (get pm s)
  get_cases [] e w c l rest q = absurd (cc)
  get_cases ((a, pos n) ∷ xs) e w c l rest q =
      subst₂ (λ l rest. Serves s f l rest (get pm s)) (cons_head q) (cons_tail q)
        (get_entry a n xs e w)
  get_cases ((a, negsuc k) ∷ xs) e w c l rest q = elim (dec_lt (suc (suc k)) s.max_lba) [
    | yes h ↦
        let q' =
          ap (λ c. c ++ available s.max_lba (lbas xs)) (sym (supply-next s.max_lba k h)) ∙ q in
        subst₂ (λ l rest. Serves s f l rest (get pm s)) (cons_head q') (cons_tail q')
          (get_counter a k xs (negsuc (suc k)) e w.1 (h, omega (arith, c)) (omega arith)
            (get_head-next k (first xs) h c))
    | no h ↦
        let h' : suc (suc k) ≡ s.max_lba = omega (arith, w.0.0, h) in
        let q' =
          ap (λ c. c ++ available s.max_lba (lbas xs)) (sym (supply_last s.max_lba k h')) ∙ q in
        subst₂ (λ l rest. Serves s f l rest (get pm s)) (cons_head q') (cons_tail q')
          (get_counter a k xs (pos 0) e w.1 (omega arith) (omega arith)
            (get_head_last k (first xs) h' c))
  ]

  -- `get-Serves` where the int can count the head on
  pub get_counts :
      (l : ℕ) (rest : List ℕ)
      → AllInDrive s.max_lba (lbas (f single))
      → Countable (lbas (f single))
      → available s.max_lba (lbas (f single)) ≡ l ∷ rest
      → Serves s f l rest (get pm s)
  get_counts l rest w c q = get_cases (f single) refl w c l rest q

  countable : (max : ℕ) (vs : List ℤ) → max ≤ int_limit → AllInDrive max vs → Countable vs
  countable max [] h w = tt
  countable max (pos n ∷ vs) h w = tt
  countable max (negsuc k ∷ vs) h w = omega (arith, w.0.0, h)

  -- On a state that represents lists, with every entry of the single list inside the drive, on a drive of at
  -- most 2 ^ 31 addresses, when an address is available, `get` returns the first one and leaves the rest
  -- available, in order and inside the drive; the block lists stay as they were.
  pub get-Serves :
      (l : ℕ) (rest : List ℕ)
      → s.max_lba ≤ int_limit
      → AllInDrive s.max_lba (lbas (f single))
      → available s.max_lba (lbas (f single)) ≡ l ∷ rest
      → Serves s f l rest (get pm s)
  get-Serves l rest h w q = get_counts l rest w (countable s.max_lba (lbas (f single)) h w) q

  -- On a state that represents lists, with nothing on the single list, `get` throws and changes nothing.
  pub get_empty : f single ≡ [] → get pm s ≡ (throws einval, s)
  unfolding get
  get_empty e = pm.rolls_back ℤ get_body s einval (unfold get_body in rw (r.heads single, e))
