-- ===== src/Common/Bucket/Stores.antt =====
-- putNoLock of lib/common/GeneralPoolBucket.h on a ring with a free slot.
use daqdb.Base.{
  ℕ, zero, suc, ◌+◌, ◌-◌, ◌*◌, ◌%◌, ◌<◌, ◌≡◌, refl, ap, sym, ◌∙◌, Bool, true, false, none, some,
  List, [], ◌∷◌, ◌++◌, ◌==◌, ==_false, ◌||◌, arith, length, length-append, length-snoc, get_elem?,
  set,
}
use daqdb.Common.Bucket.{Slot, Bucket, max_buffer_slots, nulls, read_slot, write_slot, store_object}
use daqdb.Common.Bucket.Buffers.{length-line, read_slot-line, write_slot-line}
use daqdb.Common.Bucket.Ring.{
  occupied, Keeps, Ring, get_elem?-ring, set-ring, write_slot-AllSized, step_cases, step_lt,
  head_moves, same_distance, meet_full,
}

nulls_free : (f : ℕ) → 0 < f → nulls f ≡ none ∷ nulls (f - 1)
unfolding nulls
nulls_free zero h = absurd (omega arith)
nulls_free (suc f) h = ap (λ n. none ∷ nulls n) (omega arith)

get_elem?-occupied :
    (q : List ℕ) (v : Slot) (r : List Slot) → get_elem? (occupied q ++ v ∷ r) (length q) ≡ some v
get_elem?-occupied [] v r = refl
get_elem?-occupied (x ∷ q) v r = get_elem?-occupied q v r

set-occupied :
    (q : List ℕ) (v w : Slot) (r : List Slot)
    → set (occupied q ++ v ∷ r) (length q) w ≡ occupied q ++ w ∷ r
set-occupied [] v w r = refl
set-occupied (x ∷ q) v w r = ap (λ l. some x ∷ l) (set-occupied q v w r)

occupied-snoc :
    (q : List ℕ) (x : ℕ) (r : List Slot) → occupied q ++ some x ∷ r ≡ occupied (q ++ x ∷ []) ++ r
occupied-snoc [] x r = refl
occupied-snoc (y ∷ q) x r = ap (λ l. some y ∷ l) (occupied-snoc q x r)

pub parts-length :
    (b : Bucket) (q : List ℕ) (r : Ring b q) → length r.before + length r.after ≡ b.current_max
parts-length b q r =
    sym (length-append r.before r.after)
    ∙ ap length (sym r.line_at)
    ∙ length-line b.buffers r.sized
    ∙ ap (λ k. max_buffer_slots * k) (sym r.buffers_at)
    ∙ sym r.max_at

-- The slot at the head is NULL.
head_slot :
    (b : Bucket) (q : List ℕ) (r : Ring b q) → 0 < r.free → read_slot b.buffers b.head ≡ some none
head_slot b q r h =
    read_slot-line b.buffers b.head r.sized
    ∙ ap (λ l. get_elem? l b.head) r.line_at
    ∙ get_elem?-ring r.before r.after b.current_max b.tail (length q) b.head (parts-length b q r)
        r.tail_at r.head_at r.head_in (omega (arith, r.room, h))
    ∙ ap (λ l. get_elem? l (length q)) (r.ring ∙ ap (λ n. occupied q ++ n) (nulls_free r.free h))
    ∙ get_elem?-occupied q none (nulls (r.free - 1))

pub or_false : (x : Bool) → (x || false) ≡ x
or_false true = refl
or_false false = refl

abbrev pub stored : ℕ → Bucket → Bucket
stored obj b =
    let head = (b.head + 1) % b.current_max in
    record b {
      buffers = write_slot b.buffers b.head (some obj);
      head = head;
      full = head == b.tail || b.full;
      empty = false;
    }

stored-Ring :
    (b : Bucket) (q : List ℕ) (obj : ℕ) (r : Ring b q)
    → 0 < r.free
    → Ring (stored obj b) (q ++ obj ∷ [])
stored-Ring b q obj r h =
    let n = step_cases b.current_max b.head r.head_in in
    let w = write_slot-AllSized b.buffers b.head (some obj) r.sized in
    let fits : length q < b.current_max = omega (arith, r.room, h) in
    let e =
      set-ring r.before r.after b.current_max b.tail (length q) b.head (some obj)
        (parts-length b q r) r.tail_at r.head_at r.head_in fits in
    record {
      before = e.0;
      after = e.1;
      free = r.free - 1;
      sized = w.0;
      buffers_at = r.buffers_at ∙ sym w.1;
      max_at = r.max_at;
      line_at =
          write_slot-line b.buffers b.head (some obj) r.sized
          ∙ ap (λ l. set l b.head (some obj)) r.line_at
          ∙ e.2;
      tail_at = e.3 ∙ r.tail_at;
      tail_in = r.tail_in;
      ring =
          e.4
          ∙ ap (λ l. set l (length q) (some obj))
              (r.ring ∙ ap (λ n. occupied q ++ n) (nulls_free r.free h))
          ∙ set-occupied q none (some obj) (nulls (r.free - 1))
          ∙ occupied-snoc q obj (nulls (r.free - 1));
      room = omega (arith, length-snoc q obj, r.room, h);
      head_in = step_lt b.current_max b.head _ n;
      head_at =
          same_distance b.current_max b.tail (length-snoc q obj)
            (head_moves b.current_max b.tail (length q) b.head _ r.tail_in fits n r.head_at);
      full_at =
          ap (λ f. (b.head + 1) % b.current_max == b.tail || f)
            (r.full_at ∙ ==_false r.free 0 (λ z. omega (arith, z, h)))
          ∙ or_false ((b.head + 1) % b.current_max == b.tail)
          ∙ meet_full b.current_max b.tail (length q) (r.free - 1) _ r.tail_in
              (step_lt b.current_max b.head _ n) (omega (arith, r.room, h))
              (head_moves b.current_max b.tail (length q) b.head _ r.tail_in fits n r.head_at);
      empty_at = sym (==_false _ 0 (λ z. omega (arith, length-snoc q obj, z)));
    }

-- A bucket with a free slot stores the object behind the others.
pub store_object-Ring :
    (b : Bucket) (q : List ℕ) (obj : ℕ) (r : Ring b q)
    → 0 < r.free
    → (c : Bucket) × (store_object obj b ≡ some c) × Ring c (q ++ obj ∷ []) × Keeps b c
unfolding store_object
store_object-Ring b q obj r h =
    (stored obj b, rw (head_slot b q r h, store_object) refl, stored-Ring b q obj r h, (refl, refl))
