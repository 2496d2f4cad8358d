-- ===== src/Offload/FreeList/Supply.antt =====
-- The addresses that a list of LBAs can still hand out, in order: an entry `n ≥ 0` stands for itself,
-- and `-c` stands for c, c + 1, … up to the last address of the drive, and then 0.
use daqdb.Base.{ℕ, zero, suc, ◌-◌, ◌<◌, ◌≤◌, ◌≡◌, refl, List, [], ◌∷◌, ◌++◌, arith, ap}
use daqdb.Base.Int.{ℤ, pos, negsuc, int_limit}
use mathlib.Core.List.{append_assoc}

-- n numbers from k on
abbrev pub range_from : ℕ → ℕ → List ℕ
range_from k zero = []
range_from k (suc n) = k ∷ range_from (suc k) n

abbrev pub supply : ℕ → ℤ → List ℕ
supply max (pos n) = n ∷ []
supply max (negsuc k) = range_from (suc k) (max - suc k) ++ 0 ∷ []

abbrev pub available : ℕ → List ℤ → List ℕ
available max [] = []
available max (v ∷ vs) = supply max v ++ available max vs

-- Every entry and every counter is an address of the drive, and no counter is below the least int.
abbrev pub InDrive : ℕ → ℤ → Type 0
InDrive max (pos n) = n < max
InDrive max (negsuc k) = (suc k < max) × (suc k ≤ int_limit)

abbrev pub AllInDrive : ℕ → List ℤ → Type 0
AllInDrive max [] = Unit {0}
AllInDrive max (v ∷ vs) = InDrive max v × AllInDrive max vs

pub range_from-pos : (k n : ℕ) → 0 < n → range_from k n ≡ k ∷ range_from (suc k) (n - 1)
range_from-pos k zero h = elim h [ ]
range_from-pos k (suc n) h = ap (λ m. k ∷ range_from (suc k) m) (omega arith)

-- A counter that is not at its end hands out its value and moves on by one.
pub supply-next :
    (max k : ℕ) → suc (suc k) < max → supply max (negsuc k) ≡ suc k ∷ supply max (negsuc (suc k))
supply-next max k h =
    rw (range_from-pos (suc k) (max - suc k) (omega arith))
      (ap (λ m. suc k ∷ range_from (suc (suc k)) m ++ 0 ∷ []) (omega arith))

spent : (max k : ℕ) → suc (suc k) ≡ max → max - suc k - 1 ≡ 0
spent max k h = omega arith

-- At its end it hands out its value, and address 0 is left.
pub supply_last :
    (max k : ℕ) → suc (suc k) ≡ max → supply max (negsuc k) ≡ suc k ∷ supply max (pos 0)
supply_last max k h = rw (range_from-pos (suc k) (max - suc k) (omega arith)) (rw (spent max k h))

pub available-snoc :
    (max n : ℕ) (vs : List ℤ) → available max (vs ++ pos n ∷ []) ≡ available max vs ++ n ∷ []
available-snoc max n [] = refl
available-snoc max n (v ∷ vs) = rw (available-snoc max n vs, append_assoc)

pub AllInDrive-snoc :
    (max n : ℕ) (vs : List ℤ) → n < max → AllInDrive max vs → AllInDrive max (vs ++ pos n ∷ [])
AllInDrive-snoc max n [] h a = (h, tt)
AllInDrive-snoc max n (v ∷ vs) h a = (a.0, AllInDrive-snoc max n vs h a.1)
