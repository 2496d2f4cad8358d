-- ===== src/Tests/LbaBuckets.antt =====
-- The buckets of lib/offload/OffloadLbaAlloc.cpp: what they do at the start, and when almost full.
use daqdb.Base.{ℕ, suc, ◌+◌, ◌*◌, ◌≡◌, refl, [], ◌∷◌, arith, replicate, length-replicate}
use daqdb.Base.Int.{pos, negsuc}
use daqdb.Offload.FreeList.{FreeList, ok, block}
use daqdb.Offload.FreeList.Represents.{Represents}
use daqdb.Offload.LbaAlloc.{LbaBucket, LbaAlloc, lbas_size, get_lba}
use daqdb.Offload.LbaAlloc.Refill.{get_lba_refills}
use daqdb.Tests.Pools.{pool, lone, lone_state, lone-Represents, one_cell, one-Links}

abbrev pub bucket_at : ℕ → LbaBucket
bucket_at n = record { size_bracket = 4096; lbas = replicate 1024 (pos 7); level = n }

-- A new drive of 64 addresses: the block list of slot 0 starts at 1, and its bucket is empty.
abbrev pub new_drive : FreeList
new_drive = lone_state (block 0) ((1, negsuc 0) ∷ []) (one_cell (negsuc 0)) 64

new_drive-Represents : Represents new_drive (lone (block 0) ((1, negsuc 0) ∷ []))
new_drive-Represents =
    lone-Represents (block 0) ((1, negsuc 0) ∷ []) (one_cell (negsuc 0)) 64 (one-Links (negsuc 0))

abbrev new_alloc : LbaAlloc
new_alloc = record { buckets = λ i. bucket_at 0; free = new_drive }

get_lba_refills_example :
    (b : LbaAlloc) × (get_lba pool 512 new_alloc ≡ (ok (pos (suc (0 + lbas_size * (0 + 1)))), b))
    × ((b.buckets 0).level ≡ 1023)
get_lba_refills_example =
    get_lba_refills pool new_alloc new_drive-Represents 512 0 1 0 [] refl (omega arith) refl
      (length-replicate 1024 (pos 7)) refl (λ e. omega (arith, e)) (omega arith) (omega arith)
