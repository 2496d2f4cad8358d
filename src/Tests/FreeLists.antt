-- ===== src/Tests/FreeLists.antt =====
-- The free list of lib/offload/OffloadFreeList.cpp on small drives.
use daqdb.Base.{◌≡◌, refl, none, [], ◌∷◌, ◌++◌, arith, ap, sym, ◌∙◌, replicate}
use daqdb.Base.Int.{ℤ, pos, negsuc}
use daqdb.Offload.FreeList.{
  FreeList, Result, ok, get, push_block, push_body, push_cell, single, block, update,
}
use daqdb.Offload.FreeList.Represents.{Represents}
use daqdb.Offload.FreeList.Get.{Serves, get-Serves}
use daqdb.Offload.FreeList.Ownership.{takes, here, next, Accounts, Reach-Accounts}
use daqdb.Offload.FreeList.Blocks.{get_block, put_block, clear}
use daqdb.Offload.FreeList.Blocks.Clear.{Empties, clear-Empties}
use daqdb.Offload.FreeList.Blocks.Counting.{get_block_counts, steps}
use daqdb.Tests.Pools.{
  pool, lone, lone_state, lone-Represents, two_cells, two_chain, two-Links, one_cell, one-Links,
}
use mathlib.Core.List.Perm

-- A new drive of four addresses: one counter that starts at 1
abbrev new_drive : FreeList
new_drive = lone_state single ((1, negsuc 0) ∷ []) (one_cell (negsuc 0)) 4

new_drive-Represents : Represents new_drive (lone single ((1, negsuc 0) ∷ []))
new_drive-Represents =
    lone-Represents single ((1, negsuc 0) ∷ []) (one_cell (negsuc 0)) 4 (one-Links (negsuc 0))

get-Serves_example :
    Serves new_drive (lone single ((1, negsuc 0) ∷ [])) 1 (2 ∷ 3 ∷ 0 ∷ []) (get pool new_drive)
get-Serves_example =
    get-Serves pool new_drive-Represents 1 (2 ∷ 3 ∷ 0 ∷ []) (omega arith)
      ((omega arith, omega arith), tt) refl

-- A drive on which everything is in use
abbrev full_drive : FreeList
full_drive = lone_state (block 0) [] (λ p. none) 4

abbrev after_get : FreeList
after_get = (get pool new_drive).1

takes_one : get pool new_drive ≡ (ok (pos 1), after_get)
takes_one =
    let (t, ys, e, rt, m, a, w) =
      get-Serves pool new_drive-Represents 1 (2 ∷ 3 ∷ 0 ∷ []) (omega arith)
        ((omega arith, omega arith), tt) refl in
    e ∙ ap (λ u. (ok (pos 1), u)) (sym (ap (λ (r : Result ℤ × FreeList). r.1) e))

new_drive-Accounts : Accounts 4 (record { free = new_drive; in_use = [] })
new_drive-Accounts = record {
  chains = lone single ((1, negsuc 0) ∷ []);
  represents = new_drive-Represents;
  size = refl;
  in_drive = ((omega arith, omega arith), tt);
  positive = omega arith;
  once = Perm.refl _;
}

Reach-Accounts_example : Accounts 4 (record { free = after_get; in_use = 1 ∷ [] })
Reach-Accounts_example =
    Reach-Accounts pool 4 (next here (takes new_drive after_get [] 1 takes_one)) new_drive-Accounts

-- Two free addresses on the block list of slot 0
abbrev two_free : FreeList
two_free = lone_state (block 0) (two_chain (pos 5) (pos 6)) (two_cells (pos 5) (pos 6)) 64

two_free-Represents : Represents two_free (lone (block 0) (two_chain (pos 5) (pos 6)))
two_free-Represents =
    lone-Represents (block 0) (two_chain (pos 5) (pos 6)) (two_cells (pos 5) (pos 6)) 64
      (two-Links (pos 5) (pos 6))

clear-Empties_example : Empties (lone single ((1, negsuc 0) ∷ [])) single (clear pool 2 new_drive)
clear-Empties_example = clear-Empties pool new_drive-Represents 2 (omega arith)

-- A counter on the block list of slot 1
abbrev counting : FreeList
counting = lone_state (block 1) ((1, negsuc 0) ∷ []) (one_cell (negsuc 0)) 64

counting-Represents : Represents counting (lone (block 1) ((1, negsuc 0) ∷ []))
counting-Represents =
    lone-Represents (block 1) ((1, negsuc 0) ∷ []) (one_cell (negsuc 0)) 64 (one-Links (negsuc 0))

get_block_counts_example :
    (t : FreeList) × (get_block pool (replicate 3 (pos 0)) 3 1 counting
      ≡ (ok (3, steps 3 0 2 ++ []), t))
    × Represents t (update (lone (block 1) ((1, negsuc 0) ∷ [])) (block 1) ((1, negsuc 6) ∷ []))
get_block_counts_example =
    get_block_counts pool counting-Represents 1 1 0 (replicate 3 (pos 0)) [] refl
      (λ e. omega (arith, e)) (omega arith) 3 (omega arith) (omega arith) (omega arith)

abbrev after_put : FreeList
after_put = (put_block pool (pos 2 ∷ []) 3 new_drive).1

puts_one : put_block pool (pos 2 ∷ []) 3 new_drive ≡ (ok tt, after_put)
unfolding put_block push_block push_body push_cell
puts_one = refl
