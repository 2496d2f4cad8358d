-- ===== src/Common/Bucket/Fifo.antt =====
-- The bucket of lib/common/GeneralPoolBucket.h as a first-in first-out queue of free objects.
use mathlib.Core.List.{append_assoc, append-nil}
use daqdb.Base.{
  ℕ, zero, suc, ◌+◌, ◌<◌, ◌≤◌, ◌≡◌, refl, ap, sym, ◌∙◌, ◌⊎◌, inl, inr, true, false, none, some,
  List, [], ◌∷◌, ◌++◌, ◌==◌, ==_false, ◌||◌, if◌then◌else◌, arith, length, length-snoc, dec_lt,
}
use daqdb.Common.Bucket.{
  Bucket, max_buffer_slots, max_bucket_buffers, store_object, put, make, make_buffer, new_bucket,
}
use daqdb.Common.Bucket.Growth.{grown, make_buffer-grown}
use daqdb.Common.Bucket.Stores.{store_object-Ring}
use daqdb.Common.Bucket.Grows.{grown-Ring, Fresh, grown-Fresh}
use daqdb.Common.Bucket.Ring.{Ring, Keeps}

-- What 256 buffers of 1024 slots hold
abbrev pub capacity : ℕ
capacity = 262144

-- The bucket holds the objects of q, the oldest first.
unfoldable pub IsQueue : Bucket → List ℕ → Type 0
IsQueue b q = Ring b q ⊎ (Fresh b × (q ≡ []))

-- A bucket of the constructor, with any quanta, is empty.
pub new_bucket-IsQueue :
    (made inc dec : ℕ) → IsQueue (record (new_bucket made) { quant_inc = inc; quant_dec = dec }) []
unfolding new_bucket IsQueue
new_bucket-IsQueue made inc dec = inr (
  record {
    no_buffers = refl;
    none_counted = refl;
    no_slots = refl;
    head_zero = refl;
    tail_zero = refl;
    not_full = refl;
    is_empty = refl;
  },
  refl,
)

-- What a put leaves: the object behind the others, and no object made
abbrev Puts : ℕ → Bucket → List ℕ → Type 0
Puts obj b q = (c : Bucket) × (put obj b ≡ some c) × Ring c (q ++ obj ∷ []) × Keeps b c

put_grows :
    (b : Bucket) (q : List ℕ) (obj : ℕ)
    → (b.full || b.num_buffers == 0) ≡ true
    → b.num_buffers < max_bucket_buffers
    → Ring (grown b) q
    → length q < b.current_max + max_buffer_slots
    → Puts obj b q
unfolding put
put_grows b q obj t h r l =
    let (c, e, s, m) = store_object-Ring (grown b) q obj r (omega (arith, l, r.room)) in
    (c, rw (put, t, make_buffer-grown b h) e, s, m)

put_stores :
    (b : Bucket) (obj : ℕ) → (b.full || b.num_buffers == 0) ≡ false → put obj b ≡ store_object obj b
unfolding put
put_stores b obj t =
    ap
      (λ x.
        if x
        then elim (make_buffer b) [ none ↦ none | some c ↦ store_object obj c ]
        else store_object obj b)
      t

put-Ring : (b : Bucket) (q : List ℕ) (obj : ℕ) → Ring b q → length q < capacity → Puts obj b q
put-Ring b q obj r h = elim (dec_lt 0 r.free) [
  | yes f ↦
      let (c, e, s, m) = store_object-Ring b q obj r f in
      (
        c,
        put_stores b obj (
              ap (λ x. x || b.num_buffers == 0)
                (r.full_at ∙ ==_false r.free 0 (λ z. omega (arith, z, f)))
              ∙ ==_false b.num_buffers 0 (λ z. omega (arith, z, r.max_at, r.tail_in)))
            ∙ e,
        s,
        m,
      )
  | no f ↦
      let z : r.free ≡ 0 = omega arith in
      put_grows b q obj (ap (λ x. x || b.num_buffers == 0) (r.full_at ∙ ap (λ k. k == 0) z))
        (omega (arith, r.max_at, r.room, z, h)) (grown-Ring b q r z) (omega (arith, r.room))
]

put-Fresh : (b : Bucket) (obj : ℕ) → Fresh b → Puts obj b []
put-Fresh b obj f =
    put_grows b [] obj (ap (λ k. b.full || k == 0) f.none_counted ∙ ap (λ x. x || true) f.not_full)
      (omega (arith, f.none_counted)) (grown-Fresh b f) (omega arith)

-- While the bucket has fewer objects than its 256 buffers hold, a put succeeds, makes no object, and
-- leaves the queue with the object behind the others.
pub put-IsQueue :
    (b : Bucket) (q : List ℕ) (obj : ℕ)
    → IsQueue b q
    → length q < capacity
    → (c : Bucket) × (put obj b ≡ some c) × IsQueue c (q ++ obj ∷ []) × Keeps b c
unfolding IsQueue
put-IsQueue b q obj (inl r) h = let (c, e, s, m) = put-Ring b q obj r h in (c, e, inl s, m)
put-IsQueue b q obj (inr (f, z)) h = let (c, e, s, m) = put-Fresh b obj f in (c, e, inl (rw z s), m)

-- The numbers of the next n objects
abbrev pub numbers : ℕ → ℕ → List ℕ
numbers m zero = []
numbers m (suc n) = m ∷ numbers (m + 1) n

-- The bucket with its count of made objects moved on
abbrev counted : Bucket → Bucket
counted b = record b { made = b.made + 1 }

counted-IsQueue : (b : Bucket) (q : List ℕ) → IsQueue b q → IsQueue (counted b) q
unfolding IsQueue
counted-IsQueue b q (inl r) = inl (record {
  before = r.before;
  after = r.after;
  free = r.free;
  sized = r.sized;
  buffers_at = r.buffers_at;
  max_at = r.max_at;
  line_at = r.line_at;
  tail_at = r.tail_at;
  tail_in = r.tail_in;
  ring = r.ring;
  room = r.room;
  head_in = r.head_in;
  head_at = r.head_at;
  full_at = r.full_at;
  empty_at = r.empty_at;
})
counted-IsQueue b q (inr (f, z)) = inr (
  record {
    no_buffers = f.no_buffers;
    none_counted = f.none_counted;
    no_slots = f.no_slots;
    head_zero = f.head_zero;
    tail_zero = f.tail_zero;
    not_full = f.not_full;
    is_empty = f.is_empty;
  },
  z,
)

-- While there is room for them, n made objects stand behind the others.
pub make-IsQueue :
    (n : ℕ) (b : Bucket) (q : List ℕ)
    → IsQueue b q
    → length q + n ≤ capacity
    → (c : Bucket) × (make n b ≡ some c)
      × IsQueue c (q ++ numbers b.made n)
      × (c.made ≡ b.made + n)
      × (c.quant_inc ≡ b.quant_inc)
unfolding make
make-IsQueue zero b q r h = (b, refl, rw (append-nil q) r, omega arith, refl)
make-IsQueue (suc n) b q r h =
    let (c, e, s, m) = put-IsQueue (counted b) q b.made (counted-IsQueue b q r) (omega arith) in
    let (d, f, t, k, l) =
      make-IsQueue n c (q ++ b.made ∷ []) s (omega (arith, length-snoc q b.made)) in
    (
      d,
      rw (make, e) f,
      rw (sym (append_assoc q (b.made ∷ []) (numbers (b.made + 1) n)), sym m.0) t,
      omega (arith, k, m.0),
      l ∙ m.1,
    )
