-- ===== src/Common/Bucket/Takes.antt =====
-- getNoLock of lib/common/GeneralPoolBucket.h on a ring with an object, behind the refill.
use mathlib.Core.List.{append_assoc}
use daqdb.Base.{
  ℕ, ◌+◌, ◌%◌, ◌<◌, ◌≡◌, refl, ap, sym, ◌∙◌, inl, false, none, some, List, [], ◌∷◌, ◌++◌, ◌==◌,
  ==_false, ◌||◌, arith, length, get_elem?, set,
}
use daqdb.Common.Bucket.{Bucket, nulls, read_slot, write_slot, take_object}
use daqdb.Common.Bucket.Buffers.{read_slot-line, write_slot-line}
use daqdb.Common.Bucket.Growth.{nulls-append}
use daqdb.Common.Bucket.Stores.{parts-length, or_false}
use daqdb.Common.Bucket.Ring.{
  occupied, Keeps, Ring, get_elem?-ring, set-ring, write_slot-AllSized, step_cases, step_lt,
  tail_moves, meet_empty, tail-ring,
}

abbrev pub taken : Bucket → Bucket
taken b =
    let tail = (b.tail + 1) % b.current_max in
    record b {
      buffers = write_slot b.buffers b.tail none;
      tail = tail;
      empty = tail == b.head || b.empty;
      full = false;
    }

tail_slot :
    (b : Bucket) (x : ℕ) (q : List ℕ) (r : Ring b (x ∷ q))
    → read_slot b.buffers b.tail ≡ some (some x)
tail_slot b x q r =
    read_slot-line b.buffers b.tail r.sized
    ∙ ap (λ l. get_elem? l b.tail) r.line_at
    ∙ get_elem?-ring r.before r.after b.current_max b.tail 0 b.tail (parts-length b (x ∷ q) r)
        r.tail_at (inl (omega arith)) r.tail_in (omega (arith, r.tail_in))
    ∙ ap (λ l. get_elem? l 0) r.ring

taken-Ring : (b : Bucket) (x : ℕ) (q : List ℕ) → Ring b (x ∷ q) → Ring (taken b) q
unfolding nulls
taken-Ring b x q r =
    let n = step_cases b.current_max b.tail r.tail_in in
    let w = write_slot-AllSized b.buffers b.tail none r.sized in
    let some_in : 0 < b.current_max = omega (arith, r.tail_in) in
    let m = parts-length b (x ∷ q) r in
    let e =
      set-ring r.before r.after b.current_max b.tail 0 b.tail none m r.tail_at (inl (omega arith))
        r.tail_in some_in in
    let t =
      tail-ring e.0 e.1 b.current_max b.tail _ none (occupied q ++ nulls r.free)
        (omega (arith, m, e.3, e.5)) (e.3 ∙ r.tail_at) r.tail_in n
        (e.4 ∙ ap (λ l. set l 0 none) r.ring) in
    let at =
      tail_moves b.current_max b.tail (length q) b.head _ r.head_in (omega (arith, r.room)) n
        r.head_at in
    record {
      before = t.0;
      after = t.1;
      free = r.free + 1;
      sized = w.0;
      buffers_at = r.buffers_at ∙ sym w.1;
      max_at = r.max_at;
      line_at =
          write_slot-line b.buffers b.tail none r.sized
          ∙ ap (λ l. set l b.tail none) r.line_at
          ∙ e.2
          ∙ t.2;
      tail_at = t.3;
      tail_in = step_lt b.current_max b.tail _ n;
      ring =
          t.4
          ∙ append_assoc (occupied q) (nulls r.free) (none ∷ [])
          ∙ ap (λ l. occupied q ++ l) (nulls-append r.free 1);
      room = omega (arith, r.room);
      head_in = r.head_in;
      head_at = at;
      full_at = sym (==_false (r.free + 1) 0 (λ z. omega (arith, z)));
      empty_at =
          ap (λ f. (b.tail + 1) % b.current_max == b.head || f)
            (r.empty_at ∙ ==_false (length (x ∷ q)) 0 (λ z. omega (arith, z)))
          ∙ or_false ((b.tail + 1) % b.current_max == b.head)
          ∙ meet_empty b.current_max _ (length q) r.free b.head (step_lt b.current_max b.tail _ n)
              r.head_in (omega (arith, r.room)) at;
    }

-- A bucket takes the oldest object.
pub take_object-Ring :
    (b : Bucket) (x : ℕ) (q : List ℕ)
    → Ring b (x ∷ q)
    → (c : Bucket) × (take_object b ≡ some (x, c)) × Ring c q × Keeps b c
unfolding take_object
take_object-Ring b x q r =
    (taken b, rw (tail_slot b x q r, take_object) refl, taken-Ring b x q r, (refl, refl))
