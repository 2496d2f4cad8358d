-- ===== src/Offload/FreeList/Links.antt =====
-- Chains of cells in the heap: what the pointers of a free list stand for.
use daqdb.Base.{
  sym, inl, inr, Bool-cases, true_ne_false, or_false_right, or_true_right, ℕ, ◌≡◌, ◌≢◌, refl, Bool,
  true, false, ◌||◌, Option, none, some, List, [], ◌∷◌, ◌++◌, ◌==◌, arith, ==_iff, ==_refl, ◌∙◌, ap,
}
use daqdb.Base.Int.{ℤ}
use daqdb.Offload.FreeList.{FreeLba, cell, Heap, write}

-- Address and LBA of each cell, first to last.
abbrev pub Chain : Type 0
Chain = List (ℕ × ℤ)

abbrev pub has : ℕ → Chain → Bool
has a [] = false
has a ((p, _) ∷ xs) = (a == p) || has a xs

abbrev pub first : Chain → ℕ
first [] = 0
first ((a, _) ∷ xs) = a

abbrev pub last : Chain → ℕ
last [] = 0
last ((a, _) ∷ []) = a
last ((a, _) ∷ x ∷ xs) = last (x ∷ xs)

abbrev pub lbas : Chain → List ℤ
lbas [] = []
lbas ((_, v) ∷ xs) = v ∷ lbas xs

-- The cells are distinct, non-null, hold the LBAs, and lead to one another and then to nullptr.
abbrev pub Links : Heap → Chain → Type 0
Links h [] = Unit {0}
Links h ((a, v) ∷ xs) = (a ≢ 0) × (h a ≡ some (cell v (first xs))) × (has a xs ≡ false) × Links h xs

pub Links-frame :
    (h g : Heap) (xs : Chain) → ((a : ℕ) → has a xs ≡ true → g a ≡ h a) → Links h xs → Links g xs
Links-frame h g [] same l = tt
Links-frame h g ((a, v) ∷ xs) same l = (
  l.0,
  same a (ground (arith, ==_refl a)) ∙ l.1,
  l.2,
  Links-frame h g xs (λ b m. same b (ground arith)) l.3,
)

-- A cell that no chain uses may be written.
pub Links-write :
    (h : Heap) (a : ℕ) (c : Option FreeLba) (xs : Chain)
    → has a xs ≡ false
    → Links h xs
    → Links (write h a c) xs
Links-write h a c xs out l = Links-frame h _ xs (λ b m. ground arith) l

pub not-has_of_none : (h : Heap) (a : ℕ) (xs : Chain) → h a ≡ none → Links h xs → has a xs ≡ false
not-has_of_none h a [] e l = refl
not-has_of_none h a ((b, v) ∷ xs) e l = ground (arith, not-has_of_none h a xs e l.3)

pub has-append : (a : ℕ) (xs ys : Chain) → has a (xs ++ ys) ≡ (has a xs || has a ys)
has-append a [] ys = refl
has-append a ((b, v) ∷ xs) ys = ground (arith, has-append a xs ys)

pub has-last : (x : ℕ × ℤ) (xs : Chain) → has (last (x ∷ xs)) (x ∷ xs) ≡ true
has-last (a, v) [] = ground (arith, ==_refl a)
has-last (a, v) (y ∷ xs) = ground (arith, has-last y xs)

pub lbas-snoc : (xs : Chain) (n : ℕ) (v : ℤ) → lbas (xs ++ (n, v) ∷ []) ≡ lbas xs ++ v ∷ []
lbas-snoc [] n v = refl
lbas-snoc ((a, w) ∷ xs) n v = ap (λ r. w ∷ r) (lbas-snoc xs n v)

pub last-snoc : (xs : Chain) (n : ℕ) (v : ℤ) → last (xs ++ (n, v) ∷ []) ≡ n
last-snoc [] n v = refl
last-snoc ((a, w) ∷ []) n v = refl
last-snoc ((a, w) ∷ y ∷ xs) n v = last-snoc (y ∷ xs) n v

-- The cell that the tail pointer shows.
pub last-cell :
    (h : Heap) (x : ℕ × ℤ) (xs : Chain)
    → Links h (x ∷ xs)
    → (w : ℤ) × (h (last (x ∷ xs)) ≡ some (cell w 0)) × (last (x ∷ xs) ≢ 0)
last-cell h (a, v) [] l = (v, l.1, l.0)
last-cell h (a, v) (y ∷ xs) l = last-cell h y xs l.3

-- Appending a fresh cell `n` behind the last one.
pub Links-snoc :
    (h g : Heap) (n : ℕ) (u : ℤ) (x : ℕ × ℤ) (xs : Chain)
    → Links h (x ∷ xs)
    → n ≢ 0
    → has n (x ∷ xs) ≡ false
    → g n ≡ some (cell u 0)
    → ((a : ℕ) → has a (x ∷ xs) ≡ true → (a == last (x ∷ xs)) ≡ false → g a ≡ h a)
    → ((w : ℤ) → h (last (x ∷ xs)) ≡ some (cell w 0) → g (last (x ∷ xs)) ≡ some (cell w n))
    → Links g (x ∷ xs ++ (n, u) ∷ [])
Links-snoc h g n u (a, v) [] l nz out e same link =
    (l.0, link v l.1, ground (arith, ==_iff a n, ==_iff n a), (nz, e, refl, tt))
Links-snoc h g n u (a, v) ((b, w) ∷ xs) l nz out e same link = (
  l.0,
  same a (ground (arith, ==_refl a)) (first_ne_last l.2) ∙ l.1,
  rw (has-append a ((b, w) ∷ xs) ((n, u) ∷ [])) (ground (arith, ==_iff a n, ==_iff n a)),
  Links-snoc h g n u (b, w) xs l.3 nz (or_false_right (n == a) _ out) e
      (λ c m d. same c (or_true_right (c == a) _ m) d) link,
)
  where
    first_ne_last : has a ((b, w) ∷ xs) ≡ false → (a == last ((b, w) ∷ xs)) ≡ false
    first_ne_last m = elim (Bool-cases (a == last ((b, w) ∷ xs))) [
      | inl q ↦ absurd (
          true_ne_false
            (sym (has-last (b, w) xs) ∙ ap (λ c. has c ((b, w) ∷ xs)) (sym ((==_iff a _).0 q)) ∙ m))
      | inr q ↦ q
    ]
