-- ===== src/Common/Bucket/Gets.antt =====
-- get of lib/common/GeneralPoolBucket.h on a queue, with the refill.
use mathlib.Core.List.{cons≢nil}
use daqdb.Base.{
  ℕ, zero, suc, ◌+◌, ◌<◌, ◌≤◌, ◌≡◌, refl, ap, sym, ◌∙◌, inl, inr, true, false, none, some, List, [],
  ◌∷◌, ◌==◌, ==_false, if◌then◌else◌, arith, length,
}
use daqdb.Common.Bucket.{Bucket, take_object, get, make}
use daqdb.Common.Bucket.Takes.{take_object-Ring}
use daqdb.Common.Bucket.Ring.{Keeps}
use daqdb.Common.Bucket.Fifo.{capacity, IsQueue, numbers, make-IsQueue}

-- The objects of a bucket before a get: its own, or as many new ones as the strategy says.
abbrev pub supplied : Bucket → List ℕ → List ℕ
supplied b [] = numbers b.made b.quant_inc
supplied b (x ∷ q) = x ∷ q

is_suc : (n : ℕ) → 0 < n → (m : ℕ) × (n ≡ suc m)
is_suc zero h = absurd (omega arith)
is_suc (suc n) h = (n, refl)

-- The oldest object is taken.
take_object-IsQueue :
    (b : Bucket) (x : ℕ) (q : List ℕ)
    → IsQueue b (x ∷ q)
    → (c : Bucket) × (take_object b ≡ some (x, c)) × IsQueue c q × Keeps b c
unfolding IsQueue
take_object-IsQueue b x q (inl r) = let (c, e, s, k) = take_object-Ring b x q r in (c, e, inl s, k)
take_object-IsQueue b x q (inr (f, z)) = absurd (cons≢nil z)

empty_at : (b : Bucket) (q : List ℕ) → IsQueue b q → b.empty ≡ length q == 0
unfolding IsQueue
empty_at b q (inl r) = r.empty_at
empty_at b q (inr (f, z)) = f.is_empty ∙ ap (λ l. length l == 0) (sym z)

get_takes : (b : Bucket) → b.empty ≡ false → get b ≡ take_object b
unfolding get
get_takes b t =
    ap
      (λ x.
        if x
        then elim (make b.quant_inc b) [ none ↦ none | some c ↦ take_object c ]
        else take_object b)
      t

get_refills : (b c : Bucket) → b.empty ≡ true → make b.quant_inc b ≡ some c → get b ≡ take_object c
unfolding get
get_refills b c t e =
    ap
      (λ x.
        if x
        then elim (make b.quant_inc b) [ none ↦ none | some d ↦ take_object d ]
        else take_object b)
      t
    ∙ ap (λ o. elim o [ none ↦ none | some d ↦ take_object d ]) e

get_made :
    (b : Bucket) (n : ℕ)
    → b.empty ≡ true
    → b.quant_inc ≡ suc n
    → IsQueue b []
    → suc n ≤ capacity
    → (c : Bucket) × (get b ≡ some (b.made, c))
      × IsQueue c (numbers (b.made + 1) n)
      × (c.made ≡ b.made + suc n)
      × (c.quant_inc ≡ b.quant_inc)
get_made b n t i r h =
    let (c, e, s, k, l) = make-IsQueue (suc n) b [] r (omega arith) in
    let (d, f, u, v) = take_object-IsQueue c b.made (numbers (b.made + 1) n) s in
    (d, get_refills b c t (ap (λ k. make k b) i ∙ e) ∙ f, u, omega (arith, k, v.0), v.1 ∙ l)

-- The objects made before a get
abbrev pub refills : Bucket → List ℕ → ℕ
refills b [] = b.quant_inc
refills b (x ∷ q) = 0

-- A get succeeds, when the strategy makes at least one object and no more than fit. Its answer is the
-- first of the objects supplied, and the others are left in their order.
pub get-IsQueue :
    (b : Bucket) (q : List ℕ)
    → IsQueue b q
    → 0 < b.quant_inc
    → b.quant_inc ≤ capacity
    → (x : ℕ) × (rest : List ℕ) × (c : Bucket) × (supplied b q ≡ x ∷ rest)
      × (get b ≡ some (x, c))
      × IsQueue c rest
      × (c.made ≡ b.made + refills b q)
      × (c.quant_inc ≡ b.quant_inc)
get-IsQueue b [] r p h =
    let (n, i) = is_suc b.quant_inc p in
    let (c, e, s, k, l) = get_made b n (empty_at b [] r) i r (omega (arith, i, h)) in
    (b.made, numbers (b.made + 1) n, c, ap (numbers b.made) i, e, s, omega (arith, k, i), l)
get-IsQueue b (x ∷ q) r p h =
    let (c, e, s, k) = take_object-IsQueue b x q r in
    (
      x,
      q,
      c,
      refl,
      get_takes b (empty_at b (x ∷ q) r ∙ ==_false (length (x ∷ q)) 0 (λ z. omega (arith, z))) ∙ e,
      s,
      omega (arith, k.0),
      k.1,
    )
