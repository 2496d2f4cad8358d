-- ===== src/Offload/LbaAlloc.antt =====
-- lib/offload/OffloadLbaAlloc.h and .cpp: LBAs by size class, in buckets that are refilled from the
-- block lists of the free list. An array access out of range is a fault.
pub mod Stack
pub mod Refill
use daqdb.Base.{
  ℕ, suc, ◌+◌, ◌-◌, ◌/◌, ◌%◌, ◌^◌, Option, none, some, List, ltb, leb, ◌==◌, if◌then◌else◌, set,
  length, get_elem?, replicate, take,
}
use daqdb.Base.Int.{ℤ, pos, negsuc}
use daqdb.Offload.FreeList.{
  FreeList, Pmem, Result, ok, throws, fault, out_of_fuel, push, push_block, update,
}
use daqdb.Offload.FreeList.Blocks.{get_block, put_block}

abbrev pub lbas_size : ℕ
lbas_size = 1024

abbrev pub max_buckets : ℕ
max_buckets = 8

abbrev pub num_slots : ℕ
num_slots = 8

pub record LbaBucket : Type 0 where
  pub size_bracket : ℕ
  pub lbas : List ℤ
  pub level : ℕ

pub record LbaAlloc : Type 0 where
  pub buckets : ℕ → LbaBucket
  pub free : FreeList

abbrev minus_one : ℤ
minus_one = negsuc 0

-- LbaBucket::get
unfoldable pub bucket_get : LbaBucket → Option (ℤ × LbaBucket)
bucket_get b = if b.level == 0 then some (minus_one, b) else elim (get_elem? b.lbas (b.level - 1)) [
  | none ↦ none
  | some lba ↦ some (lba, record b { level = b.level - 1 })
]

-- LbaBucket::put
pub bucket_put : LbaBucket → ℤ → Option LbaBucket
bucket_put b lba =
    if leb lbas_size b.level
    then some b
    else if ltb (suc b.level) (length b.lbas)
    then some (record b { level = suc b.level; lbas = set b.lbas (suc b.level) lba })
    else none

-- `uint32_t bucketNum = ioSize / 4096`
abbrev pub bucket_num : ℕ → ℕ
bucket_num io_size = io_size / 4096 % 2 ^ 32

abbrev set_bucket : LbaAlloc → ℕ → LbaBucket → LbaAlloc
set_bucket a i b = record a { buckets = update a.buckets i b }

abbrev finish_get : LbaAlloc → ℕ → Option (ℤ × LbaBucket) → Result ℤ × LbaAlloc
finish_get a i none = (fault, a)
finish_get a i (some (lba, b)) = (ok lba, set_bucket a i b)

abbrev finish_put : LbaAlloc → ℕ → Option LbaBucket → Result (Unit {0}) × LbaAlloc
finish_put a i none = (fault, a)
finish_put a i (some b) = (ok tt, set_bucket a i b)

-- The buffer and the level after a refill. The count is at most lbasSize, so it is never below zero.
abbrev refilled : LbaAlloc → ℕ → Result (ℕ × List ℤ) × FreeList → Result ℤ × LbaAlloc
refilled a i (ok (cnt, lbas), t) = (
  ok (pos cnt),
  set_bucket (record a { free = t }) i (record (a.buckets i) { lbas = lbas; level = cnt }),
)
refilled a i (throws e, t) = (throws e, record a { free = t })
refilled a i (fault, t) = (fault, record a { free = t })
refilled a i (out_of_fuel, t) = (out_of_fuel, record a { free = t })

abbrev emptied : LbaAlloc → ℕ → Result (Unit {0}) × FreeList → Result (Unit {0}) × LbaAlloc
emptied a i (ok u, t) =
    (ok u, set_bucket (record a { free = t }) i (record (a.buckets i) { level = 0 }))
emptied a i (throws e, t) = (throws e, record a { free = t })
emptied a i (fault, t) = (fault, record a { free = t })
emptied a i (out_of_fuel, t) = (out_of_fuel, record a { free = t })

abbrev and_then {ℓ κ} :
    {A : Type ℓ} {B : Type κ}
    → Result A × LbaAlloc
    → (A → LbaAlloc → Result B × LbaAlloc)
    → Result B × LbaAlloc
and_then (ok a, s) k = k a s
and_then (throws e, s) k = (throws e, s)
and_then (fault, s) k = (fault, s)
and_then (out_of_fuel, s) k = (out_of_fuel, s)

module _ (pm : Pmem) where
  -- OffloadLbaAlloc::getBlock
  pub refill : ℕ → LbaAlloc → Result ℤ × LbaAlloc
  refill i a = refilled a i (get_block pm (a.buckets i).lbas lbas_size i a.free)

  -- OffloadLbaAlloc::putBlock
  pub give_back : ℕ → LbaAlloc → Result (Unit {0}) × LbaAlloc
  give_back i a = emptied a i (put_block pm (a.buckets i).lbas i a.free)

  -- OffloadLbaAlloc::getLba
  unfoldable pub get_lba : ℕ → LbaAlloc → Result ℤ × LbaAlloc
  get_lba io_size a =
      let i = bucket_num io_size in
      if leb max_buckets i
      then (ok minus_one, a)
      else if (a.buckets i).level == 0
      then and_then (refill i a) (λ _ b. finish_get b i (bucket_get (b.buckets i)))
      else finish_get a i (bucket_get (a.buckets i))

  -- OffloadLbaAlloc::putLba
  pub put_lba : ℤ → ℕ → LbaAlloc → Result (Unit {0}) × LbaAlloc
  put_lba lba io_size a =
      let i = bucket_num io_size in
      if leb max_buckets i
      then (ok tt, a)
      else if leb lbas_size (a.buckets i).level
      then and_then (give_back i a) (λ _ b. finish_put b i (bucket_put (b.buckets i) lba))
      else finish_put a i (bucket_put (a.buckets i) lba)
