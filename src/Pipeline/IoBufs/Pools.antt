-- ===== src/Pipeline/IoBufs/Pools.antt =====
-- The pools of lib/common/GeneralPool.h as those of the buffers of lib/spdk/SpdkIoBuf.h. A number stands for the
-- pointer to an object: that of the object in its bucket, and the stamp.
use daqdb.Base.{ℕ, ◌+◌, ◌*◌, ◌/◌, ◌%◌, ◌<◌, ◌≡◌, ap, ◌∙◌, none, some, arith}
use daqdb.Common.Pool.{Object, ObjectPool, word_range}
use daqdb.Common.Pool.{get as get_from_pool, put as put_to_pool}
use daqdb.Pipeline.IoBufs.{PoolOps}

abbrev pointer_of : Object → ℕ
pointer_of o = o.number * word_range + o.stamp

abbrev object_at : ℕ → Object
object_at n = record { stamp = n % word_range; number = n / word_range }

abbrev general_pool : PoolOps ObjectPool
general_pool = record {
  get = λ p. elim (get_from_pool p) [ none ↦ none | some (o, q) ↦ some (pointer_of o, q) ];
  put = λ n p. put_to_pool (object_at n) p;
}

object_at-pointer_of : (o : Object) → o.stamp < word_range → object_at (pointer_of o) ≡ o
object_at-pointer_of o h =
    ap (λ s. record { stamp = s; number = pointer_of o / word_range }) (omega (arith, h))
    ∙ ap (λ n. record { stamp = o.stamp; number = n }) (omega (arith, h))
