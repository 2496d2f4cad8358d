-- ===== src/Common/Pool.antt =====
-- lib/common/GeneralPool.h, without the compile-time debug options: 64 buckets that serve in turn, and
-- a stamp beside each object that says which bucket made it.
pub mod Turns
use daqdb.Base.{
  ℕ, zero, suc, ◌+◌, ◌*◌, ◌/◌, ◌%◌, ◌<◌, ◌≡◌, not, Option, none, some, List, [], ◌∷◌, ◌++◌, ltb,
  leb, ◌==◌, if◌then◌else◌, get_elem?, set,
}
use daqdb.Common.Bucket.{Bucket, AllocStrategy, new_bucket, set_strategy}
use daqdb.Common.Bucket.{get as get_object, put as put_object}

abbrev pub max_pool_buckets : ℕ
max_pool_buckets = 64

-- 2 ^ BUCKET_NUMBER_SHIFT, one more than BUCKET_SIZE_MASK
abbrev pub size_range : ℕ
size_range = 16777216

-- one more than BUCKET_NUMBER_MASK
abbrev pub number_range : ℕ
number_range = 256

-- 2 ^ 32, the range of unsigned int
abbrev pub word_range : ℕ
word_range = 4294967296

-- makeStamp: `(bucketNum << BUCKET_NUMBER_SHIFT) + objSize`
abbrev pub make_stamp : ℕ → ℕ → ℕ
make_stamp obj_size n = ((n * size_range) % word_range + obj_size) % word_range

abbrev pub stamp_size : ℕ → ℕ
stamp_size stamp = stamp % size_range

abbrev pub stamp_bucket : ℕ → ℕ
stamp_bucket stamp = (stamp / size_range) % number_range

-- An object as the pool sees it: the stamp in its padding, and its number within its bucket. Nothing but
-- make writes a stamp, and put files an object under its stamp, so that all objects in a bucket have the
-- bucket's stamp.
pub record Object : Type 0 where
  pub stamp : ℕ
  pub number : ℕ

pub record ObjectPool : Type 0 where
  pub counter : ℕ
  pub obj_size : ℕ
  pub buckets : List Bucket

-- The rounds of the constructor; the answer `none` is abort() in the preallocation.
pub new_buckets : ℕ → ℕ → AllocStrategy → Option (List Bucket)
new_buckets zero obj_size s = some []
new_buckets (suc n) obj_size s = elim (new_buckets n obj_size s) [
  | none ↦ none
  | some bs ↦ elim (set_strategy obj_size s (new_bucket 0)) [
    | none ↦ none
    | some b ↦ some (bs ++ b ∷ [])
  ]
]

-- The constructor
pub new_pool : ℕ → AllocStrategy → Option ObjectPool
new_pool obj_size s = elim (new_buckets max_pool_buckets obj_size s) [
  | none ↦ none
  | some bs ↦ some (record { counter = 0; obj_size = obj_size; buckets = bs })
]

-- get of the bucket with this number
unfoldable pub get_from_bucket : ℕ → ObjectPool → Option (Object × ObjectPool)
get_from_bucket n p = elim (get_elem? p.buckets n) [
  | none ↦ none
  | some b ↦ elim (get_object b) [
    | none ↦ none
    | some (number, c) ↦ some (
      record { stamp = make_stamp p.obj_size n; number = number },
      record p { buckets = set p.buckets n c },
    )
  ]
]

unfoldable pub get : ObjectPool → Option (Object × ObjectPool)
get p =
    get_from_bucket (p.counter % max_pool_buckets)
      (record p { counter = (p.counter + 1) % word_range })

-- get with the number of a bucket
pub get_pool : ℕ → ObjectPool → Option (Object × ObjectPool)
get_pool n p = if ltb n max_pool_buckets then get_from_bucket n p else none

-- put of the bucket with this number
pub put_to_bucket : ℕ → ℕ → ObjectPool → Option ObjectPool
put_to_bucket n number p = elim (get_elem? p.buckets n) [
  | none ↦ none
  | some b ↦ elim (put_object number b) [
    | none ↦ none
    | some c ↦ some (record p { buckets = set p.buckets n c })
  ]
]

pub put : Object → ObjectPool → Option ObjectPool
put o p =
    if not (stamp_size o.stamp == p.obj_size)
    then none
    else if leb max_pool_buckets (stamp_bucket o.stamp)
    then none
    else put_to_bucket (stamp_bucket o.stamp) o.number p

-- put with the number of a bucket, which is read in the assertion only
pub put_pool : Object → ℕ → ObjectPool → Option ObjectPool
put_pool o n p = if ltb n max_pool_buckets then put o p else none
