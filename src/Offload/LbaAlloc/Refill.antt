-- ===== src/Offload/LbaAlloc/Refill.antt =====
-- getLba on an empty bucket whose block list starts with a counter.
use daqdb.Base.{
  ℕ, suc, ◌+◌, ◌*◌, ◌<◌, ◌≤◌, ◌≡◌, ◌≢◌, refl, some, List, ◌∷◌, ◌++◌, arith, leb, length,
  get_elem?-append_left, drop, ==_refl, false,
}
use daqdb.Base.Int.{ℤ, pos, negsuc, int_limit}
use daqdb.Offload.FreeList.{FreeList, update, Pmem, ok, block}
use daqdb.Offload.FreeList.Links.{Chain}
use daqdb.Offload.FreeList.Represents.{Represents}
use daqdb.Offload.FreeList.Blocks.{counter_limit}
use daqdb.Offload.FreeList.Blocks.Counting.{steps, get_elem?-steps, length-steps, get_block_counts}
use daqdb.Offload.LbaAlloc.{
  LbaAlloc, lbas_size, max_buckets, bucket_num, bucket_get, get_lba, refill,
}

leb-false : (a b : ℕ) → b < a → leb a b ≡ false
leb-false a b h = ground arith

size_pos : 0 < lbas_size
size_pos = omega arith

size_fits : {n : ℕ} → n ≡ lbas_size → lbas_size ≤ n
size_fits e = omega arith

bucket_get-steps :
    (k c d : ℕ) (rest : List ℤ)
    → let L = steps lbas_size c d ++ rest in
      bucket_get (record { size_bracket = k; lbas = L; level = lbas_size })
      ≡ some (pos (suc (c + lbas_size * d)), record { size_bracket = k; lbas = L; level = 1023 })
unfolding bucket_get
bucket_get-steps k c d rest = rw (
  get_elem?-append_left (steps lbas_size c d) rest 1023
      (rw (length-steps lbas_size c d) (omega arith)),
  get_elem?-steps lbas_size 1023 c d (omega arith),
)

module _ (pm : Pmem) (a : LbaAlloc) {f : ℕ → Chain} (r : Represents a.free f) where
  -- The state after a refill of bucket `i` and a get.
  abbrev after_get : ℕ → FreeList → List ℤ → LbaAlloc
  after_get i t L = record a {
    free = t;
    buckets =
        update
          (update a.buckets i
            (record { size_bracket = (a.buckets i).size_bracket; lbas = L; level = lbas_size }))
          i (record { size_bracket = (a.buckets i).size_bracket; lbas = L; level = 1023 });
  }

  -- With an empty bucket of 1024 places, on a drive with addresses whose block list for the bucket starts with
  -- the counter -(c + 1), not above the limit that getBlock sets, where the counter moves through numbers that
  -- an int holds, getLba returns the address 1024 steps of the slot's width further on, which need not be one
  -- of the drive, and leaves level 1023.
  pub get_lba_refills :
      (io_size i p c : ℕ) (xs : Chain)
      → bucket_num io_size ≡ i
      → i < max_buckets
      → (a.buckets i).level ≡ 0
      → length (a.buckets i).lbas ≡ lbas_size
      → f (block i) ≡ (p, negsuc c) ∷ xs
      → a.free.max_lba ≢ 0
      → suc c ≤ counter_limit a.free.max_lba i
      → suc (c + lbas_size * (i + 1)) < int_limit
      → (b : LbaAlloc) × (get_lba pm io_size a ≡ (ok (pos (suc (c + lbas_size * (i + 1)))), b))
        × ((b.buckets i).level ≡ 1023)
  unfolding get_lba refill
  get_lba_refills io_size i p c xs num h empty len e mz lim small =
      let L = steps lbas_size c (i + 1) ++ drop lbas_size (a.buckets i).lbas in
      let (t, q, rt) =
        get_block_counts pm r i p c (a.buckets i).lbas xs e mz lim lbas_size size_pos
          (size_fits len) small in
      (
        after_get i t L,
        rw (
          num,
          leb-false max_buckets i h,
          empty,
          q,
          ==_refl i,
          bucket_get-steps (a.buckets i).size_bracket c (i + 1) (drop lbas_size (a.buckets i).lbas),
        ),
        rw ==_refl refl,
      )
