-- ===== src/Common/Bucket/Buffers.antt =====
-- The slots of the buffers in one line: reads, writes and the split of a buffer, seen as list
-- operations on it.
use daqdb.Base.{
  ℕ, zero, suc, ◌-◌, ◌*◌, ◌/◌, ◌%◌, ◌<◌, ◌≤◌, ◌≡◌, refl, List, [], ◌∷◌, ◌++◌, arith, ap, sym, ◌∙◌,
  get_elem?, set, length, length-append, dec_lt, get_elem?-append_left,
}
use daqdb.Common.Bucket.{read_at, write_at, Slot, max_buffer_slots, nulls, read_slot, write_slot}

abbrev pub line : List (List Slot) → List Slot
line [] = []
line (b ∷ bufs) = b ++ line bufs

-- Every buffer has its 1024 slots.
abbrev pub AllSized : List (List Slot) → Type 0
AllSized [] = Unit {0}
AllSized (b ∷ bufs) = (length b ≡ max_buffer_slots) × AllSized bufs

pub length-nulls : (n : ℕ) → length (nulls n) ≡ n
unfolding nulls
length-nulls zero = refl
length-nulls (suc n) = ap suc (length-nulls n)

pub length-line :
    (bufs : List (List Slot)) → AllSized bufs → length (line bufs) ≡ max_buffer_slots * length bufs
length-line [] a = omega arith
length-line (b ∷ bufs) a = omega (arith, length-append b (line bufs), length-line bufs a.1, a.0)

pub get_elem?-append_right :
    (xs ys : List Slot) (i : ℕ)
    → length xs ≤ i
    → get_elem? (xs ++ ys) i ≡ get_elem? ys (i - length xs)
get_elem?-append_right [] ys i h = ap (get_elem? ys) (omega arith)
get_elem?-append_right (x ∷ xs) ys zero h = absurd (omega arith)
get_elem?-append_right (x ∷ xs) ys (suc i) h =
    get_elem?-append_right xs ys i (omega arith) ∙ ap (get_elem? ys) (omega arith)

pub set-append_left :
    (xs ys : List Slot) (i : ℕ) (v : Slot) → i < length xs → set (xs ++ ys) i v ≡ set xs i v ++ ys
set-append_left [] ys i v h = elim h [ ]
set-append_left (x ∷ xs) ys zero v h = refl
set-append_left (x ∷ xs) ys (suc i) v h = ap (λ r. x ∷ r) (set-append_left xs ys i v (omega arith))

pub set-append_right :
    (xs ys : List Slot) (i : ℕ) (v : Slot)
    → length xs ≤ i
    → set (xs ++ ys) i v ≡ xs ++ set ys (i - length xs) v
set-append_right [] ys i v h = ap (λ k. set ys k v) (omega arith)
set-append_right (x ∷ xs) ys zero v h = absurd (omega arith)
set-append_right (x ∷ xs) ys (suc i) v h =
    ap (λ r. x ∷ r)
      (set-append_right xs ys i v (omega arith) ∙ ap (λ k. xs ++ set ys k v) (omega arith))

-- The first buffer, or one further on.
div_small : (i : ℕ) → i < max_buffer_slots → (i / max_buffer_slots ≡ 0) × (i % max_buffer_slots ≡ i)
div_small i h = (omega arith, omega arith)

div_large :
    (i : ℕ)
    → max_buffer_slots ≤ i
    → (i / max_buffer_slots ≡ suc ((i - max_buffer_slots) / max_buffer_slots))
      × (i % max_buffer_slots ≡ (i - max_buffer_slots) % max_buffer_slots)
div_large i h = (omega arith, omega arith)

-- A read of a slot is a read of the line.
pub read_slot-line :
    (bufs : List (List Slot)) (i : ℕ) → AllSized bufs → read_slot bufs i ≡ get_elem? (line bufs) i
unfolding read_slot
read_slot-line [] i a = refl
read_slot-line (b ∷ bufs) i a = elim (dec_lt i max_buffer_slots) [
  | yes h ↦
      let (d, m) = div_small i h in
      ap (λ q. read_at (b ∷ bufs) q (i % max_buffer_slots)) d
      ∙ ap (get_elem? b) m
      ∙ sym (get_elem?-append_left b (line bufs) i (omega (arith, a.0, h)))
  | no h ↦
      let (d, m) = div_large i (omega arith) in
      let j = i - max_buffer_slots in
      ap (λ q. read_at (b ∷ bufs) q (i % max_buffer_slots)) d
      ∙ ap (read_at bufs (j / max_buffer_slots)) m
      ∙ read_slot-line bufs j a.1
      ∙ ap (get_elem? (line bufs)) (omega (arith, a.0))
      ∙ sym (get_elem?-append_right b (line bufs) i (omega (arith, a.0, h)))
]

-- A write to a slot is a write to the line.
pub write_slot-line :
    (bufs : List (List Slot)) (i : ℕ) (v : Slot)
    → AllSized bufs
    → line (write_slot bufs i v) ≡ set (line bufs) i v
unfolding write_slot
write_slot-line [] i v a = refl
write_slot-line (b ∷ bufs) i v a = elim (dec_lt i max_buffer_slots) [
  | yes h ↦
      let (d, m) = div_small i h in
      ap (λ q. line (write_at (b ∷ bufs) q (i % max_buffer_slots) v)) d
      ∙ ap (λ r. set b r v ++ line bufs) m
      ∙ sym (set-append_left b (line bufs) i v (omega (arith, a.0, h)))
  | no h ↦
      let (d, m) = div_large i (omega arith) in
      let j = i - max_buffer_slots in
      ap (λ q. line (write_at (b ∷ bufs) q (i % max_buffer_slots) v)) d
      ∙ ap (λ r. b ++ line (write_at bufs (j / max_buffer_slots) r v)) m
      ∙ ap (λ r. b ++ r) (write_slot-line bufs j v a.1)
      ∙ ap (λ k. b ++ set (line bufs) k v) (omega (arith, a.0))
      ∙ sym (set-append_right b (line bufs) i v (omega (arith, a.0, h)))
]
