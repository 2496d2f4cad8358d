-- ===== src/Tests/ObjectPools.antt =====
-- A pool of lib/common/GeneralPool.h whose counter is about to wrap around.
use daqdb.Base.{◌%◌, ◌≡◌, refl, none, some, [], ◌∷◌, true, false, arith, replicate, set, get_elem?}
use daqdb.Common.Bucket.{Bucket, nulls, take_object, read_slot, write_slot}
use daqdb.Common.Bucket.{get as get_object}
use daqdb.Common.Pool.{
  Object, ObjectPool, make_stamp, get_from_bucket, get, put, put_to_bucket, put_pool,
}
use daqdb.Common.Pool.Turns.{put-get}

abbrev stocked : Bucket
stocked = record {
  head = 1;
  tail = 0;
  full = false;
  empty = false;
  quant_inc = 3;
  quant_dec = 3;
  num_buffers = 1;
  current_max = 1024;
  buffers = (some 7 ∷ nulls 1023) ∷ [];
  made = 8;
}

abbrev taken : Bucket
taken = record stocked { tail = 1; empty = true; buffers = (none ∷ nulls 1023) ∷ [] }

abbrev last_turn : ObjectPool
last_turn = record { counter = 4294967295; obj_size = 48; buckets = replicate 64 stocked }

abbrev first_turn : ObjectPool
first_turn = record { counter = 0; obj_size = 48; buckets = set (replicate 64 stocked) 63 taken }

abbrev other_sizes : ObjectPool
other_sizes = record last_turn { obj_size = 32 }

abbrev seventh : Object
seventh = record { stamp = make_stamp 48 63; number = 7 }

get-last_turn : get last_turn ≡ some (seventh, first_turn)
unfolding get get_from_bucket get_object take_object read_slot write_slot
get-last_turn = refl

put-get_example :
    (b : Bucket) × (c : Bucket) × (get_elem? (replicate 64 stocked) 63 ≡ some b)
    × (get_object b ≡ some (7, c))
    × (first_turn.buckets ≡ set (replicate 64 stocked) 63 c)
    × (first_turn.counter % 64 ≡ 0)
    × (put seventh first_turn ≡ put_to_bucket 63 7 first_turn)
    × (put_pool seventh 5 first_turn ≡ put_to_bucket 63 7 first_turn)
put-get_example = put-get last_turn seventh first_turn 5 (omega arith) (omega arith) get-last_turn
