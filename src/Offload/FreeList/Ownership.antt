-- ===== src/Offload/FreeList/Ownership.antt =====
-- Who holds an address: the calls of one client of the single list, in any order.
use mathlib.Core.Logic.Or
use mathlib.Core.List.{
  Perm, perm_middle, append_assoc, Mem, mem-cons, mem-append, not-mem-nil, mem-append_right,
  mem-cons_self,
}
use native.Mathlib.Bridge.{le_prop}
use mathlib.Core.List.Perm
use daqdb.Base.{
  ℕ, zero, suc, ◌+◌, ◌-◌, ◌<◌, ◌≡◌, refl, List, [], ◌∷◌, ap, sym, ◌∙◌, ◌++◌, subst, ◌⊎◌, arith, inl,
  inr, Option-cases,
}
use daqdb.Base.Int.{ℤ, pos, negsuc}
use daqdb.Offload.FreeList.{
  TxError, FreeList, update, Pmem, Result, ok, throws, alloc_error, get, push, push_body, single,
}
use daqdb.Offload.FreeList.Links.{Chain, lbas, lbas-snoc}
use daqdb.Offload.FreeList.Represents.{Represents}
use daqdb.Offload.FreeList.Supply.{
  range_from, available, AllInDrive, available-snoc, AllInDrive-snoc,
}
use daqdb.Offload.FreeList.Push.{push-Appended, grown}
use daqdb.Offload.FreeList.Get.{Countable, get_counts, get-Countable, get_empty}

pub record Client : Type 0 where
  pub free : FreeList
  pub in_use : List ℕ

-- A successful get adds the address to those in use; a push gives one of them back.
pub data Step (pm : Pmem) : Client → Client → Type 0 where
  takes :
      (s t : FreeList) (used : List ℕ) (l : ℕ)
      → get pm s ≡ (ok (pos l), t)
      → Step pm (record { free = s; in_use = used }) (record { free = t; in_use = l ∷ used })
  gives :
      (s t : FreeList) (before after : List ℕ) (l : ℕ)
      → push pm (pos l) s ≡ (ok tt, t)
      → Step pm
          (record { free = s; in_use = before ++ l ∷ after })
          (record { free = t; in_use = before ++ after })

pub data Reach (pm : Pmem) (c : Client) : Client → Type 0 where
  here : Reach pm c c
  next : {d e : Client} → Reach pm c d → Step pm d e → Reach pm c e

-- The addresses 0 … max - 1 of a drive, in the order in which a new list hands them out.
abbrev pub addresses : ℕ → List ℕ
addresses max = range_from 1 (max - 1) ++ 0 ∷ []

-- Every address of a drive of `max` addresses is either available or in use, and only once.
pub record Accounts (max : ℕ) (c : Client) : Type 0 where
  pub chains : ℕ → Chain
  pub represents : Represents c.free chains
  pub size : c.free.max_lba ≡ max
  pub in_drive : AllInDrive max (lbas (chains single))
  pub positive : 0 < max
  pub once : Perm (available max (lbas (chains single)) ++ c.in_use) (addresses max)

mem-range_from-lt : {a : ℕ} (k n : ℕ) → Mem a (range_from k n) → a < k + n
mem-range_from-lt k zero m = absurd (not-mem-nil m)
mem-range_from-lt {a} k (suc n) m =
    Or.elim le_prop (mem-cons.0 m) (λ e. rw e (omega arith))
      (λ r. let h : a < suc k + n = mem-range_from-lt (suc k) n r in omega arith)

mem-addresses-lt : {a : ℕ} (max : ℕ) → 0 < max → Mem a (addresses max) → a < max
mem-addresses-lt {a} max h m =
    Or.elim le_prop (mem-append.0 m)
      (λ r. let q : a < 1 + (max - 1) = mem-range_from-lt 1 (max - 1) r in omega arith)
      (λ r. Or.elim le_prop (mem-cons.0 r) (λ e. rw e h) (λ n. absurd (not-mem-nil n)))

-- An empty supply means an empty list: every entry supplies something.
none_available :
    (max : ℕ) (xs : Chain)
    → (xs ≡ []) ⊎ ((l : ℕ) × (rest : List ℕ) × (available max (lbas xs) ≡ l ∷ rest))
none_available max [] = inl refl
none_available max ((a, pos n) ∷ xs) = inr (n, available max (lbas xs), refl)
none_available max ((a, negsuc k) ∷ xs) = inr (more (range_from (suc k) (max - suc k)))
  where
    more :
        (r : List ℕ)
        → (l : ℕ) × (rest : List ℕ) × ((r ++ 0 ∷ []) ++ available max (lbas xs) ≡ l ∷ rest)
    more [] = (0, available max (lbas xs), refl)
    more (x ∷ r) = (x, (r ++ 0 ∷ []) ++ available max (lbas xs), refl)

same_answer :
    {x : Result ℤ × FreeList} {k l : ℕ} {u t : FreeList}
    → x ≡ (ok (pos k), u)
    → x ≡ (ok (pos l), t)
    → (k ≡ l) × (u ≡ t)
same_answer p q = (
  ok_pos (ap (λ (y : Result ℤ × FreeList). y.0) (sym p ∙ q)),
  ap (λ (y : Result ℤ × FreeList). y.1) (sym p ∙ q),
)
  where
    ok_pos : {k l : ℕ} → ok (pos k) ≡ ok (pos l) → k ≡ l
    ok_pos p = cc

no_answer {ℓ} :
    {A : Type ℓ} {x : Result A × FreeList} {a : A} {c : TxError} {t u : FreeList}
    → x ≡ (ok a, t)
    → x ≡ (throws c, u)
    → ⊥
no_answer {A} p q = differ (ap (λ (y : Result A × FreeList). y.0) (sym p ∙ q))
  where
    differ : {a : A} {c : TxError} → ok a ≡ throws c → ⊥
    differ p = cc

-- `get_counts` for a drive of `max` addresses.
get_counts_at :
    (pm : Pmem) {s : FreeList} {f : ℕ → Chain}
    → Represents s f
    → (max l : ℕ) (rest : List ℕ) → s.max_lba ≡ max
    → AllInDrive max (lbas (f single))
    → Countable (lbas (f single))
    → available max (lbas (f single)) ≡ l ∷ rest
    → (t : FreeList) × (ys : Chain) × (get pm s ≡ (ok (pos l), t))
      × Represents t (update f single ys)
      × (t.max_lba ≡ max)
      × (available max (lbas ys) ≡ rest)
      × AllInDrive max (lbas ys)
get_counts_at pm {s} {f} r max l rest size =
    subst
      (λ m.
        AllInDrive m (lbas (f single))
        → Countable (lbas (f single))
        → available m (lbas (f single)) ≡ l ∷ rest
        → (t : FreeList) × (ys : Chain) × (get pm s ≡ (ok (pos l), t))
          × Represents t (update f single ys)
          × (t.max_lba ≡ m)
          × (available m (lbas ys) ≡ rest)
          × AllInDrive m (lbas ys))
      size (λ w c q. get_counts pm r l rest w c q)

module _ (pm : Pmem) (max : ℕ) where
  takes-Accounts :
      (s t : FreeList) (used : List ℕ) (l : ℕ)
      → get pm s ≡ (ok (pos l), t)
      → Accounts max (record { free = s; in_use = used })
      → Accounts max (record { free = t; in_use = l ∷ used })
  takes-Accounts s t used l e v = elim (none_available max (v.chains single)) [
    | inl empty ↦ absurd (no_answer e (get_empty pm v.represents empty))
    | inr (k, rest, q) ↦
        let (u, ys, out, ru, m, a, w) =
          get_counts_at pm v.represents max k rest v.size v.in_drive
            (get-Countable pm v.represents l t
              (subst (λ m. AllInDrive m (lbas (v.chains single))) (sym v.size) v.in_drive)
              (λ z. omega (arith, z, v.size, v.positive)) e)
            q in
        let (same, eq) = same_answer out e in
        record {
          chains = update v.chains single ys;
          represents = subst (λ x. Represents x (update v.chains single ys)) eq ru;
          size = ap (λ (x : FreeList). x.max_lba) (sym eq) ∙ m;
          in_drive = w;
          positive = v.positive;
          once =
              rw (a, ← same)
                (Perm.trans (perm_middle rest used)
                  (subst (λ (x : List ℕ). Perm (x ++ used) (addresses max)) q v.once));
        }
  ]

  gives-Accounts :
      (s t : FreeList) (before after : List ℕ) (l : ℕ)
      → push pm (pos l) s ≡ (ok tt, t)
      → Accounts max (record { free = s; in_use = before ++ l ∷ after })
      → Accounts max (record { free = t; in_use = before ++ after })
  unfolding push push_body
  gives-Accounts s t before after l e v = elim (Option-cases (pm.alloc s.cells)) [
    | inl full ↦ absurd (
        no_answer e
          (pm.rolls_back Unit (push_body pm single (pos l)) s alloc_error (rw (full, push_body))))
    | inr (n, room) ↦
        let (u, out, ru, m) = push-Appended pm v.represents (pos l) n room in
        let eq : u ≡ t = ap (λ (y : Result (Unit {0}) × FreeList). y.1) (sym out ∙ e) in
        let xs = v.chains single in
        record {
          chains = grown v.chains single n (pos l);
          represents = subst (λ x. Represents x (grown v.chains single n (pos l))) eq ru;
          size = ap (λ (x : FreeList). x.max_lba) (sym eq) ∙ m ∙ v.size;
          in_drive = rw lbas-snoc (
              AllInDrive-snoc max l (lbas xs)
                (mem-addresses-lt max v.positive (
                  Perm.subset v.once _ (
                    mem-append_right (available max (lbas xs))
                      (mem-append_right before mem-cons_self))))
                v.in_drive);
          positive = v.positive;
          once =
              rw (lbas-snoc, available-snoc, append_assoc)
                (Perm.trans
                  (Perm.append_left (available max (lbas xs))
                    (Perm.symm (perm_middle before after)))
                  v.once);
        }
  ]

  Step-Accounts : {c d : Client} → Step pm c d → Accounts max c → Accounts max d
  Step-Accounts (takes s t used l e) v = takes-Accounts s t used l e v
  Step-Accounts (gives s t before after l e) v = gives-Accounts s t before after l e v

  -- From a state in which each address of the drive is either available or in use, and once, every sequence
  -- of successful gets and pushes of addresses in use leads to such a state.
  pub Reach-Accounts : {c d : Client} → Reach pm c d → Accounts max c → Accounts max d
  Reach-Accounts here v = v
  Reach-Accounts (next r st) v = Step-Accounts st (Reach-Accounts r v)
