-- ===== src/Common/Bucket/Grows.antt =====
-- makeBuffer of lib/common/GeneralPoolBucket.h on a full ring, and on the bucket of the constructor.
use mathlib.Core.List.{append_assoc, append-nil}
use native.Mathlib.Nat.{mod-eq_of_lt}
use daqdb.Base.{
  ℕ, zero, suc, ◌+◌, ◌-◌, ◌/◌, ◌%◌, ◌<◌, ◌≡◌, refl, ap, sym, ◌∙◌, inl, inr, true, false, List, [],
  ◌∷◌, ◌++◌, arith, length, length-append, take, drop, length-take, length-drop,
}
use daqdb.Common.Bucket.{Slot, Bucket, max_buffer_slots, nulls, split_buffer}
use daqdb.Common.Bucket.Buffers.{line, AllSized, length-nulls}
use daqdb.Common.Bucket.Growth.{
  nulls-append, take-append_right, drop-append_right, split_buffer-line, whole, grown, opened,
}
use daqdb.Common.Bucket.Ring.{occupied, Behind, Ring}

split_buffer-AllSized :
    (bufs : List (List Slot)) (pos off : ℕ)
    → AllSized bufs
    → off < max_buffer_slots
    → AllSized (split_buffer bufs pos off)
      × (length (split_buffer bufs pos off) ≡ suc (length bufs))
unfolding split_buffer
split_buffer-AllSized [] pos off a h = ((length-nulls max_buffer_slots, tt), refl)
split_buffer-AllSized (b ∷ bufs) zero off a h = (
  (
    length-append (take off b) (nulls (max_buffer_slots - off))
        ∙ omega (
          arith,
          length-take off b (omega (arith, a.0, h)),
          length-nulls (max_buffer_slots - off),
          h,
        ),
    (
      length-append (nulls off) (drop off b)
          ∙ omega (arith, length-drop off b, length-nulls off, a.0, h),
      a.1,
    ),
  ),
  refl,
)
split_buffer-AllSized (b ∷ bufs) (suc pos) off a h =
    let (s, e) = split_buffer-AllSized bufs pos off a.1 h in ((a.0, s), ap suc e)

-- The line opened between its two parts
opened_between :
    (xs ys : List Slot) (t : ℕ)
    → length xs ≡ t
    → opened t (xs ++ ys) ≡ (xs ++ nulls max_buffer_slots) ++ ys
opened_between xs ys t e =
    ap (λ l. l ++ (nulls max_buffer_slots ++ drop t (xs ++ ys)))
      (take-append_right xs ys t (omega (arith, e))
        ∙ ap (λ k. xs ++ take k ys) {y = 0} (omega (arith, e))
        ∙ append-nil xs)
    ∙ ap (λ l. xs ++ (nulls max_buffer_slots ++ l))
        (drop-append_right xs ys t (omega (arith, e))
          ∙ ap (λ k. drop k ys) {y = 0} (omega (arith, e)))
    ∙ sym (append_assoc xs (nulls max_buffer_slots) ys)

-- On a full ring the head stands at the tail.
head_at_tail : (m t n h : ℕ) → h < m → n ≡ m → Behind m t n h → h ≡ t
head_at_tail m t n h hm e (inl a) = absurd (omega arith)
head_at_tail m t n h hm e (inr a) = omega arith

pub grown-Ring : (b : Bucket) (q : List ℕ) (r : Ring b q) → r.free ≡ 0 → Ring (grown b) q
grown-Ring b q r z =
    let s =
      split_buffer-AllSized b.buffers (b.head / max_buffer_slots) (b.head % max_buffer_slots)
        r.sized (omega arith) in
    let ht =
      head_at_tail b.current_max b.tail (length q) b.head r.head_in (omega (arith, r.room, z))
        r.head_at in
    let moved : (b.tail + max_buffer_slots) % (b.current_max + max_buffer_slots)
        ≡ b.tail + max_buffer_slots =
      mod-eq_of_lt (omega (arith, r.tail_in)) in
    record {
      before = r.before ++ nulls max_buffer_slots;
      after = r.after;
      free = max_buffer_slots;
      sized = s.0;
      buffers_at = omega (arith, s.1, r.buffers_at);
      max_at = omega (arith, r.max_at);
      line_at =
          split_buffer-line b.buffers (b.head / max_buffer_slots) (b.head % max_buffer_slots)
            r.sized (omega arith)
          ∙ ap (λ k. opened k (line b.buffers)) (whole b.head ∙ ht)
          ∙ ap (opened b.tail) r.line_at
          ∙ opened_between r.before r.after b.tail r.tail_at;
      tail_at =
          length-append r.before (nulls max_buffer_slots)
          ∙ omega (arith, r.tail_at, length-nulls max_buffer_slots, moved);
      tail_in = omega (arith, moved, r.tail_in);
      ring =
          sym (append_assoc r.after r.before (nulls max_buffer_slots))
          ∙ ap (λ l. l ++ nulls max_buffer_slots) r.ring
          ∙ append_assoc (occupied q) (nulls r.free) (nulls max_buffer_slots)
          ∙ ap (λ l. occupied q ++ l)
              (nulls-append r.free max_buffer_slots ∙ ap nulls (omega (arith, z)));
      room = omega (arith, r.room, z);
      head_in = omega (arith, r.head_in);
      head_at = inr (omega (arith, moved, ht, r.room, z));
      full_at = refl;
      empty_at = r.empty_at;
    }

-- A bucket without buffers, as its constructor leaves it
pub record Fresh (b : Bucket) : Type 0 where
  pub no_buffers : b.buffers ≡ []
  pub none_counted : b.num_buffers ≡ 0
  pub no_slots : b.current_max ≡ 0
  pub head_zero : b.head ≡ 0
  pub tail_zero : b.tail ≡ 0
  pub not_full : b.full ≡ false
  pub is_empty : b.empty ≡ true

pub grown-Fresh : (b : Bucket) → Fresh b → Ring (grown b) []
unfolding split_buffer
grown-Fresh b f =
    let whole_buffer : split_buffer b.buffers (b.head / max_buffer_slots)
          (b.head % max_buffer_slots)
        ≡ nulls max_buffer_slots ∷ [] =
      ap (λ l. split_buffer l (b.head / max_buffer_slots) (b.head % max_buffer_slots))
        f.no_buffers in
    let moved : (b.tail + max_buffer_slots) % (b.current_max + max_buffer_slots) ≡ 0 =
      ap (λ k. (k + max_buffer_slots) % (b.current_max + max_buffer_slots)) f.tail_zero
      ∙ ap (λ k. max_buffer_slots % (k + max_buffer_slots)) f.no_slots in
    record {
      before = [];
      after = nulls max_buffer_slots;
      free = max_buffer_slots;
      sized = rw f.no_buffers (length-nulls max_buffer_slots, tt);
      buffers_at = omega (arith, ap length whole_buffer, f.none_counted);
      max_at = omega (arith, f.no_slots, f.none_counted);
      line_at = ap line whole_buffer ∙ append-nil (nulls max_buffer_slots);
      tail_at = sym moved;
      tail_in = omega (arith, moved, f.no_slots);
      ring = append-nil (nulls max_buffer_slots);
      room = omega (arith, f.no_slots);
      head_in = omega (arith, f.head_zero);
      head_at = inl (omega (arith, moved, f.head_zero));
      full_at = refl;
      empty_at = f.is_empty;
    }
