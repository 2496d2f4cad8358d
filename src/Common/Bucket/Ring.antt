-- ===== src/Common/Bucket/Ring.antt =====
-- The slots of lib/common/GeneralPoolBucket.h read from the tail, as a ring: the objects that wait,
-- then the free slots.
use mathlib.Core.List.{append_assoc, append-nil}
use native.Mathlib.Nat.{mod-eq_of_lt, mod_self}
use daqdb.Base.{
  dec_lt, cons_head, cons_tail, length-snoc, ℕ, zero, suc, ◌+◌, ◌*◌, ◌%◌, ◌<◌, ◌≡◌, refl, ap, sym,
  ◌∙◌, ◌⊎◌, inl, inr, some, List, [], ◌∷◌, ◌++◌, ◌==◌, arith, length, get_elem?, set,
  get_elem?-append_left, length-set,
}
use daqdb.Common.Bucket.{Slot, Bucket, max_buffer_slots, nulls, write_slot, write_at}
use daqdb.Common.Bucket.Buffers.{
  line, AllSized, get_elem?-append_right, set-append_left, set-append_right,
}

-- The slots that hold the objects of a queue
abbrev pub occupied : List ℕ → List Slot
occupied [] = []
occupied (x ∷ q) = some x ∷ occupied q

-- Slot i of a ring of m slots is n slots behind slot t.
abbrev pub Behind : ℕ → ℕ → ℕ → ℕ → Type 0
Behind m t n i = (i ≡ t + n) ⊎ (i + m ≡ t + n)

-- No object is made, and the quantum stays.
abbrev pub Keeps : Bucket → Bucket → Type 0
Keeps b c = (c.made ≡ b.made) × (c.quant_inc ≡ b.quant_inc)

-- The bucket holds the objects q, the oldest first: the slots from the tail to the end, then those before
-- the tail, are the objects and then `free` NULL slots; the head is behind the objects, and the flags say
-- whether a slot, or an object, is left.
pub record Ring (b : Bucket) (q : List ℕ) : Type 0 where
  pub before : List Slot
  pub after : List Slot
  pub free : ℕ
  pub sized : AllSized b.buffers
  pub buffers_at : b.num_buffers ≡ length b.buffers
  pub max_at : b.current_max ≡ max_buffer_slots * b.num_buffers
  pub line_at : line b.buffers ≡ before ++ after
  pub tail_at : length before ≡ b.tail
  pub tail_in : b.tail < b.current_max
  pub ring : after ++ before ≡ occupied q ++ nulls free
  pub room : length q + free ≡ b.current_max
  pub head_in : b.head < b.current_max
  pub head_at : Behind b.current_max b.tail (length q) b.head
  pub full_at : b.full ≡ free == 0
  pub empty_at : b.empty ≡ length q == 0

-- A slot of the line is the slot of the ring as far behind the tail.
pub get_elem?-ring :
    (xs ys : List Slot) (m t n i : ℕ)
    → length xs + length ys ≡ m
    → length xs ≡ t
    → Behind m t n i
    → i < m
    → n < m
    → get_elem? (xs ++ ys) i ≡ get_elem? (ys ++ xs) n
get_elem?-ring xs ys m t n i len at (inl e) im nm =
    get_elem?-append_right xs ys i (omega arith)
    ∙ ap (get_elem? ys) (omega arith)
    ∙ sym (get_elem?-append_left ys xs n (omega arith))
get_elem?-ring xs ys m t n i len at (inr e) im nm =
    get_elem?-append_left xs ys i (omega arith)
    ∙ ap (get_elem? xs) (omega arith)
    ∙ sym (get_elem?-append_right ys xs n (omega arith))

-- A write to the line is a write to one of its two parts, and to the ring.
pub set-ring :
    (xs ys : List Slot) (m t n i : ℕ) (v : Slot)
    → length xs + length ys ≡ m
    → length xs ≡ t
    → Behind m t n i
    → i < m
    → n < m
    → (xs' : List Slot) × (ys' : List Slot) × (set (xs ++ ys) i v ≡ xs' ++ ys')
      × (length xs' ≡ length xs)
      × (ys' ++ xs' ≡ set (ys ++ xs) n v)
      × (length ys' ≡ length ys)
set-ring xs ys m t n i v len at (inl e) im nm = (
  xs,
  set ys n v,
  set-append_right xs ys i v (omega arith) ∙ ap (λ k. xs ++ set ys k v) (omega arith),
  refl,
  sym (set-append_left ys xs n v (omega arith)),
  length-set ys n v,
)
set-ring xs ys m t n i v len at (inr e) im nm = (
  set xs i v,
  ys,
  set-append_left xs ys i v (omega arith),
  length-set xs i v,
  ap (λ k. ys ++ set xs k v) (omega arith) ∙ sym (set-append_right ys xs n v (omega arith)),
  refl,
)

set-AllSized :
    (bufs : List (List Slot)) (pos off : ℕ) (v : Slot)
    → AllSized bufs
    → AllSized (write_at bufs pos off v) × (length (write_at bufs pos off v) ≡ length bufs)
set-AllSized [] pos off v a = (a, refl)
set-AllSized (b ∷ bufs) zero off v a = ((length-set b off v ∙ a.0, a.1), refl)
set-AllSized (b ∷ bufs) (suc pos) off v a =
    let (s, e) = set-AllSized bufs pos off v a.1 in ((a.0, s), ap suc e)

-- A write keeps the buffers' sizes and their number.
pub write_slot-AllSized :
    (bufs : List (List Slot)) (i : ℕ) (v : Slot)
    → AllSized bufs
    → AllSized (write_slot bufs i v) × (length (write_slot bufs i v) ≡ length bufs)
unfolding write_slot
write_slot-AllSized bufs i v a = set-AllSized bufs _ _ v a

-- The slot that follows slot i on a ring of m slots
abbrev pub Next : ℕ → ℕ → ℕ → Type 0
Next m i j = ((j ≡ i + 1) × (i + 1 < m)) ⊎ ((j ≡ 0) × (i + 1 ≡ m))

pub step_cases : (m i : ℕ) → i < m → Next m i ((i + 1) % m)
step_cases m i h = elim (dec_lt (i + 1) m) [
  | yes l ↦ inl (mod-eq_of_lt l, l)
  | no n ↦ let e : i + 1 ≡ m = omega arith in inr (ap (λ k. k % m) e ∙ mod_self m, e)
]

pub step_lt : (m i j : ℕ) → Next m i j → j < m
step_lt m i j (inl (e, l)) = omega arith
step_lt m i j (inr (e, l)) = omega arith

-- The head's move
pub head_moves :
    (m t n h j : ℕ) → t < m → n < m → Next m h j → Behind m t n h → Behind m t (suc n) j
head_moves m t n h j tm nm (inl (e, l)) (inl a) = inl (omega arith)
head_moves m t n h j tm nm (inl (e, l)) (inr a) = inr (omega arith)
head_moves m t n h j tm nm (inr (e, l)) (inl a) = inr (omega arith)
head_moves m t n h j tm nm (inr (e, l)) (inr a) = absurd (omega arith)

pub same_distance : (m t : ℕ) {n k i : ℕ} → n ≡ k → Behind m t k i → Behind m t n i
same_distance m t e (inl a) = inl (omega arith)
same_distance m t e (inr a) = inr (omega arith)

-- The tail's move
pub tail_moves :
    (m t n h j : ℕ) → h < m → n < m → Next m t j → Behind m t (suc n) h → Behind m j n h
tail_moves m t n h j hm nm (inl (e, l)) (inl a) = inl (omega arith)
tail_moves m t n h j hm nm (inl (e, l)) (inr a) = inr (omega arith)
tail_moves m t n h j hm nm (inr (e, l)) (inl a) = absurd (omega arith)
tail_moves m t n h j hm nm (inr (e, l)) (inr a) = inl (omega arith)

-- With an object in the ring, head and tail meet when no slot is free.
pub meet_full :
    (m t n f h : ℕ) → t < m → h < m → suc n + f ≡ m → Behind m t (suc n) h → (h == t) ≡ (f == 0)
meet_full m t n f h tm hm e (inl a) = ground arith
meet_full m t n f h tm hm e (inr a) = ground arith

-- With a free slot, they meet when no object waits.
pub meet_empty :
    (m t n f h : ℕ) → t < m → h < m → n + suc f ≡ m → Behind m t n h → (t == h) ≡ (n == 0)
meet_empty m t n f h tm hm e (inl a) = ground arith
meet_empty m t n f h tm hm e (inr a) = ground arith

-- The tail steps over the slot it stands at: the ring is turned by one slot.
pub tail-ring :
    (xs ys : List Slot) (m t j : ℕ) (v : Slot) (l : List Slot)
    → length xs + length ys ≡ m
    → length xs ≡ t
    → t < m
    → Next m t j
    → ys ++ xs ≡ v ∷ l
    → (xs' : List Slot) × (ys' : List Slot) × (xs ++ ys ≡ xs' ++ ys')
      × (length xs' ≡ j)
      × (ys' ++ xs' ≡ l ++ v ∷ [])
tail-ring xs [] m t j v l len at tm n e = absurd (omega arith)
tail-ring xs (y ∷ ys) m t j v l len at tm (inl (n, k)) e = (
  xs ++ y ∷ [],
  ys,
  sym (append_assoc xs (y ∷ []) ys),
  length-snoc xs y ∙ omega arith,
  sym (append_assoc ys xs (y ∷ []))
      ∙ ap (λ r. r ++ y ∷ []) (cons_tail e)
      ∙ ap (λ u. l ++ u ∷ []) (cons_head e),
)
tail-ring xs (y ∷ []) m t j v l len at tm (inr (n, k)) e = (
  [],
  xs ++ y ∷ [],
  refl,
  sym n,
  append-nil (xs ++ y ∷ [])
      ∙ ap (λ r. r ++ y ∷ []) (cons_tail e)
      ∙ ap (λ u. l ++ u ∷ []) (cons_head e),
)
tail-ring xs (y ∷ z ∷ ys) m t j v l len at tm (inr (n, k)) e = absurd (omega arith)
