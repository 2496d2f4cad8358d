-- ===== src/Common/Bucket.antt =====
-- lib/common/GeneralPoolBucket.h and GeneralPoolBuffer.h, without the compile-time debug options: a
-- growing ring of free objects in buffers of 1024 slots. An object is named by a number; a slot of
-- `none` is NULL. The answer `none` of an operation is abort(), or a read behind the buffers.
pub mod Buffers
pub mod Growth
pub mod Ring
pub mod Stores
pub mod Takes
pub mod Grows
pub mod Fifo
pub mod Gets
pub mod Traces
use daqdb.Base.{
  ℕ, zero, suc, ◌+◌, ◌-◌, ◌*◌, ◌/◌, ◌%◌, ◌^◌, Bool, true, false, ◌||◌, not, Option, none, some,
  List, [], ◌∷◌, ◌++◌, ltb, leb, ◌==◌, if◌then◌else◌, get_elem?, set, take, drop,
}

abbrev pub Slot : Type 0
Slot = Option ℕ

abbrev pub max_buffer_slots : ℕ
max_buffer_slots = 1024

abbrev pub max_bucket_buffers : ℕ
max_bucket_buffers = 256

-- n slots that hold NULL
unfoldable pub nulls : ℕ → List Slot
nulls zero = []
nulls (suc n) = none ∷ nulls n

-- `made` counts the objects that Alloc::New gave this bucket: the next one has that number.
pub record Bucket : Type 0 where
  pub head : ℕ
  pub tail : ℕ
  pub full : Bool
  pub empty : Bool
  pub quant_inc : ℕ
  pub quant_dec : ℕ
  pub num_buffers : ℕ
  pub current_max : ℕ
  pub buffers : List (List Slot)
  pub made : ℕ

-- The constructor
unfoldable pub new_bucket : ℕ → Bucket
new_bucket made = record {
  head = 0;
  tail = 0;
  full = false;
  empty = true;
  quant_inc = 0;
  quant_dec = 0;
  num_buffers = 0;
  current_max = 0;
  buffers = [];
  made = made;
}

abbrev pub read_at : List (List Slot) → ℕ → ℕ → Option Slot
read_at [] pos off = none
read_at (b ∷ bufs) zero off = get_elem? b off
read_at (b ∷ bufs) (suc pos) off = read_at bufs pos off

abbrev pub write_at : List (List Slot) → ℕ → ℕ → Slot → List (List Slot)
write_at [] pos off v = []
write_at (b ∷ bufs) zero off v = set b off v ∷ bufs
write_at (b ∷ bufs) (suc pos) off v = b ∷ write_at bufs pos off v

-- `buffers[i / MAX_BUFFER_SLOTS]->slots[i % MAX_BUFFER_SLOTS]`
unfoldable pub read_slot : List (List Slot) → ℕ → Option Slot
read_slot bufs i = read_at bufs (i / max_buffer_slots) (i % max_buffer_slots)

unfoldable pub write_slot : List (List Slot) → ℕ → Slot → List (List Slot)
write_slot bufs i v = write_at bufs (i / max_buffer_slots) (i % max_buffer_slots) v

-- makeBuffer's memmove, with rellocate and zeroOut: the buffer at `pos` is split at slot `off`.
unfoldable pub split_buffer : List (List Slot) → ℕ → ℕ → List (List Slot)
split_buffer [] pos off = nulls max_buffer_slots ∷ []
split_buffer (b ∷ bufs) zero off =
    (take off b ++ nulls (max_buffer_slots - off)) ∷ (nulls off ++ drop off b) ∷ bufs
split_buffer (b ∷ bufs) (suc pos) off = b ∷ split_buffer bufs pos off

unfoldable pub make_buffer : Bucket → Option Bucket
make_buffer b =
    if leb max_bucket_buffers b.num_buffers
    then none
    else some (record b {
      buffers = split_buffer b.buffers (b.head / max_buffer_slots) (b.head % max_buffer_slots);
      num_buffers = b.num_buffers + 1;
      current_max = b.current_max + max_buffer_slots;
      tail = (b.tail + max_buffer_slots) % (b.current_max + max_buffer_slots);
      full = false;
    })

-- putNoLock behind the guard that makes room
unfoldable pub store_object : ℕ → Bucket → Option Bucket
store_object obj b = elim (read_slot b.buffers b.head) [
  | none ↦ none
  | some (some taken) ↦ none
  | some none ↦
      let head = (b.head + 1) % b.current_max in
      some (record b {
        buffers = write_slot b.buffers b.head (some obj);
        head = head;
        full = head == b.tail || b.full;
        empty = false;
      })
]

unfoldable pub put : ℕ → Bucket → Option Bucket
put obj b =
    if b.full || b.num_buffers == 0
    then elim (make_buffer b) [ none ↦ none | some c ↦ store_object obj c ]
    else store_object obj b

-- `count` rounds of Alloc::New and putNoLock
unfoldable pub make : ℕ → Bucket → Option Bucket
make zero b = some b
make (suc count) b = elim (put b.made (record b { made = b.made + 1 })) [
  | none ↦ none
  | some c ↦ make count c
]

-- getNoLock behind the refill
unfoldable pub take_object : Bucket → Option (ℕ × Bucket)
take_object b = elim (read_slot b.buffers b.tail) [
  | none ↦ none
  | some none ↦ none
  | some (some obj) ↦
      let tail = (b.tail + 1) % b.current_max in
      some (
        obj,
        record b {
          buffers = write_slot b.buffers b.tail none;
          tail = tail;
          empty = tail == b.head || b.empty;
          full = false;
        },
      )
]

unfoldable pub get : Bucket → Option (ℕ × Bucket)
get b =
    if b.empty
    then elim (make b.quant_inc b) [ none ↦ none | some c ↦ take_object c ]
    else take_object b

pub size : Bucket → ℕ
size b =
    if b.full
    then b.current_max
    else if leb b.tail b.head
    then b.head - b.tail
    else b.current_max - (b.tail - b.head)

-- What setStrategy reads of an AllocStrategy; counts are divided by the object size.
pub record AllocStrategy : Type 0 where
  pub preallocate_count : ℕ
  pub increment_quant : ℕ
  pub decrement_quant : ℕ
  pub min_inc_quant : ℕ
  pub max_inc_quant : ℕ
  pub min_dec_quant : ℕ
  pub max_dec_quant : ℕ

abbrev pub clamp : ℕ → ℕ → ℕ → ℕ
clamp lo hi x = let y = if leb x lo then lo else x in if leb hi y then hi else y

-- The quanta are set, and the preallocated objects made.
unfoldable pub set_strategy : ℕ → AllocStrategy → Bucket → Option Bucket
set_strategy obj_size s b = make (s.preallocate_count / obj_size) (record b {
  quant_inc = clamp s.min_inc_quant s.max_inc_quant (s.increment_quant / obj_size);
  quant_dec = clamp s.min_dec_quant s.max_dec_quant (s.decrement_quant / obj_size);
})
