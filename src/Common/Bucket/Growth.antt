-- ===== src/Common/Bucket/Growth.antt =====
-- makeBuffer of lib/common/GeneralPoolBucket.h: a buffer of NULL slots is put in at the head.
use mathlib.Core.List.{append_assoc}
use daqdb.Base.{
  ℕ, zero, suc, ◌+◌, ◌-◌, ◌*◌, ◌/◌, ◌%◌, ◌<◌, ◌≤◌, ◌≡◌, refl, ap, sym, ◌∙◌, none, some, List, [],
  ◌∷◌, ◌++◌, arith, take, drop, drop-nil, length, leb, false,
}
use daqdb.Common.Bucket.{
  Slot, Bucket, max_buffer_slots, max_bucket_buffers, nulls, split_buffer, make_buffer,
}
use daqdb.Common.Bucket.Buffers.{line, AllSized}

take-nil : (n : ℕ) → ◌≡◌ {A = List Slot} (take n []) []
take-nil zero = refl
take-nil (suc n) = refl

suc_add : (m n : ℕ) → suc (m + n) ≡ suc m + n
suc_add m n = omega arith

pub nulls-append : (m n : ℕ) → nulls m ++ nulls n ≡ nulls (m + n)
unfolding nulls
nulls-append zero n = ap nulls (omega arith)
nulls-append (suc m) n = ap (λ r. none ∷ r) (nulls-append m n) ∙ ap nulls (suc_add m n)

take-append_left : (xs ys : List Slot) (n : ℕ) → n ≤ length xs → take n (xs ++ ys) ≡ take n xs
take-append_left xs ys zero h = refl
take-append_left [] ys (suc n) h = absurd (omega (arith, h))
take-append_left (x ∷ xs) ys (suc n) h =
    ap (λ r. x ∷ r) (take-append_left xs ys n (omega (arith, h)))

drop-append_left : (xs ys : List Slot) (n : ℕ) → n ≤ length xs → drop n (xs ++ ys) ≡ drop n xs ++ ys
drop-append_left xs ys zero h = refl
drop-append_left [] ys (suc n) h = absurd (omega (arith, h))
drop-append_left (x ∷ xs) ys (suc n) h = drop-append_left xs ys n (omega (arith, h))

pub take-append_right :
    (xs ys : List Slot) (n : ℕ) → length xs ≤ n → take n (xs ++ ys) ≡ xs ++ take (n - length xs) ys
take-append_right [] ys n h = ap (λ k. take k ys) (omega arith)
take-append_right (x ∷ xs) ys zero h = absurd (omega (arith, h))
take-append_right (x ∷ xs) ys (suc n) h =
    ap (λ r. x ∷ r)
      (take-append_right xs ys n (omega (arith, h)) ∙ ap (λ k. xs ++ take k ys) (omega arith))

pub drop-append_right :
    (xs ys : List Slot) (n : ℕ) → length xs ≤ n → drop n (xs ++ ys) ≡ drop (n - length xs) ys
drop-append_right [] ys n h = ap (λ k. drop k ys) (omega arith)
drop-append_right (x ∷ xs) ys zero h = absurd (omega (arith, h))
drop-append_right (x ∷ xs) ys (suc n) h =
    drop-append_right xs ys n (omega (arith, h)) ∙ ap (λ k. drop k ys) (omega arith)

-- The line with a buffer of NULL slots put in before slot `h`
abbrev pub opened : ℕ → List Slot → List Slot
opened h l = take h l ++ (nulls max_buffer_slots ++ drop h l)

opened-nil : (h : ℕ) → nulls max_buffer_slots ++ [] ≡ opened h []
opened-nil h =
    ap (λ r. nulls max_buffer_slots ++ r) (sym (drop-nil h))
    ∙ ap (λ r. r ++ (nulls max_buffer_slots ++ drop h [])) (sym (take-nil h))

split_first :
    (b : List Slot) (l : List Slot) (off : ℕ)
    → length b ≡ max_buffer_slots
    → off < max_buffer_slots
    → (take off b ++ nulls (max_buffer_slots - off)) ++ ((nulls off ++ drop off b) ++ l)
      ≡ opened off (b ++ l)
split_first b l off len h =
    append_assoc (take off b) (nulls (max_buffer_slots - off)) ((nulls off ++ drop off b) ++ l)
    ∙ ap (λ r. take off b ++ r)
        (ap (λ r. nulls (max_buffer_slots - off) ++ r) (append_assoc (nulls off) (drop off b) l)
          ∙ sym (append_assoc (nulls (max_buffer_slots - off)) (nulls off) (drop off b ++ l))
          ∙ ap (λ r. r ++ (drop off b ++ l))
              (nulls-append (max_buffer_slots - off) off ∙ ap nulls (omega (arith, h))))
    ∙ ap (λ r. take off b ++ (nulls max_buffer_slots ++ r))
        (sym (drop-append_left b l off (omega (arith, len, h))))
    ∙ ap (λ r. r ++ (nulls max_buffer_slots ++ drop off (b ++ l)))
        (sym (take-append_left b l off (omega (arith, len, h))))

opened-append :
    (b l : List Slot) (h : ℕ)
    → length b ≡ max_buffer_slots
    → max_buffer_slots ≤ h
    → b ++ opened (h - max_buffer_slots) l ≡ opened h (b ++ l)
opened-append b l h len le =
    sym (
      append_assoc b (take (h - max_buffer_slots) l)
        (nulls max_buffer_slots ++ drop (h - max_buffer_slots) l))
    ∙ ap (λ r. r ++ (nulls max_buffer_slots ++ drop (h - max_buffer_slots) l))
        (ap (λ k. b ++ take (h - k) l) (sym len)
          ∙ sym (take-append_right b l h (omega (arith, len, le))))
    ∙ ap (λ r. take h (b ++ l) ++ (nulls max_buffer_slots ++ r))
        (ap (λ k. drop (h - k) l) (sym len)
          ∙ sym (drop-append_right b l h (omega (arith, len, le))))

pub split_buffer-line :
    (bufs : List (List Slot)) (pos off : ℕ)
    → AllSized bufs
    → off < max_buffer_slots
    → line (split_buffer bufs pos off) ≡ opened (pos * max_buffer_slots + off) (line bufs)
unfolding split_buffer
split_buffer-line [] pos off a h = opened-nil (pos * max_buffer_slots + off)
split_buffer-line (b ∷ bufs) zero off a h =
    split_first b (line bufs) off a.0 h ∙ ap (λ k. opened k (b ++ line bufs)) (omega arith)
split_buffer-line (b ∷ bufs) (suc pos) off a h =
    ap (λ r. b ++ r) (split_buffer-line bufs pos off a.1 h)
    ∙ ap (λ k. b ++ opened k (line bufs)) (omega arith)
    ∙ opened-append b (line bufs) (suc pos * max_buffer_slots + off) a.0 (omega arith)

pub leb-false : (a b : ℕ) → b < a → leb a b ≡ false
leb-false a b h = ground arith

pub whole : (h : ℕ) → h / max_buffer_slots * max_buffer_slots + h % max_buffer_slots ≡ h
whole h = omega arith

abbrev pub grown : Bucket → Bucket
grown b = record b {
  buffers = split_buffer b.buffers (b.head / max_buffer_slots) (b.head % max_buffer_slots);
  num_buffers = b.num_buffers + 1;
  current_max = b.current_max + max_buffer_slots;
  tail = (b.tail + max_buffer_slots) % (b.current_max + max_buffer_slots);
  full = false;
}

pub make_buffer-grown :
    (b : Bucket) → b.num_buffers < max_bucket_buffers → make_buffer b ≡ some (grown b)
unfolding make_buffer
make_buffer-grown b h = rw (leb-false max_bucket_buffers b.num_buffers h, make_buffer) refl

-- With whole buffers, fewer than the limit, makeBuffer succeeds: the line is the same with 1024 NULL slots
-- put in before the head, the head stays, and there is one buffer more.
pub make_buffer-line :
    (b : Bucket)
    → AllSized b.buffers
    → b.num_buffers < max_bucket_buffers
    → (c : Bucket) × (make_buffer b ≡ some c)
      × (line c.buffers ≡ opened b.head (line b.buffers))
      × (c.head ≡ b.head)
      × (c.num_buffers ≡ b.num_buffers + 1)
make_buffer-line b a h = (
  grown b,
  make_buffer-grown b h,
  split_buffer-line b.buffers (b.head / max_buffer_slots) (b.head % max_buffer_slots) a
        (omega arith)
      ∙ ap (λ k. opened k (line b.buffers)) (whole b.head),
  refl,
  refl,
)
