-- ===== src/Tests/Buckets.antt =====
-- A bucket of lib/common/GeneralPoolBucket.h that hands out objects.
use daqdb.Base.{◌≡◌, some, List, [], ◌∷◌, arith}
use daqdb.Common.Bucket.{Bucket, new_bucket}
use daqdb.Common.Bucket.Fifo.{new_bucket-IsQueue}
use daqdb.Common.Bucket.Traces.{BucketOp, putting, getting, served, served-queued}

abbrev two_at_once : Bucket
two_at_once = record (new_bucket 0) { quant_inc = 2; quant_dec = 2 }

-- Two objects are made, the first comes back, and a third get is answered with it.
abbrev taken_and_returned : List BucketOp
taken_and_returned = getting ∷ getting ∷ putting 0 ∷ getting ∷ getting ∷ []

served-queued_example : served taken_and_returned two_at_once ≡ some (0 ∷ 1 ∷ 0 ∷ 2 ∷ [])
unfolding new_bucket
served-queued_example =
    served-queued taken_and_returned two_at_once [] (new_bucket-IsQueue 0 2 2) (omega arith)
      (omega arith) (omega arith)
