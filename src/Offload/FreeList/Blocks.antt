-- ===== src/Offload/FreeList/Blocks.antt =====
-- OffloadFreeList::getBlock, putBlock, clear and clearBlock. The code asserts `slot < numSlots`.
-- In getBlock a run of the first loop takes free entries, and a run of the second counts on from an
-- entry below zero. Where getBlock throws it has not written to `lbas`, so the buffer comes back with a
-- result only.
pub mod Rounds
pub mod Counting
pub mod Clear
use daqdb.Base.{
  ℕ, zero, suc, ◌+◌, ◌-◌, ◌%◌, ◌^◌, not, ◌&&◌, ◌||◌, List, [], ◌∷◌, ltb, leb, ◌==◌, if◌then◌else◌,
  set, Option, none, some,
}
use daqdb.Base.Int.{ℤ, pos, is_neg, abs_int, as_uint64, sub_nat}
use daqdb.Offload.FreeList.{
  FreeLba, FreeList, Body, Pmem, Result, ok, throws, fault, out_of_fuel, einval, ◌>>=◌, load,
  pop_head, set_head_lba, block, single, push_block,
}

-- `for (ret = _heads[slot]->lba;;)`, with the rounds that `cnt < lbasSize` leaves; `ret` stays as it is.
take_rounds : ℕ → ℕ → ℤ → ℕ → List ℤ → Body (ℕ × List ℤ)
take_rounds zero i ret cnt lbas s = ok ((cnt, lbas), s)
take_rounds (suc k) i ret cnt lbas s = if is_neg ret then ok ((cnt, lbas), s) else do
  c ← load s.cells (s.head i)
  let t = pop_head i c s
  let rest = take_rounds k i ret (suc cnt) (set lbas cnt ret) t
  if t.head i == 0 then ok ((suc cnt, set lbas cnt ret), t) else rest

-- `for (; cnt < lbasSize; cnt++)`
count_rounds : ℕ → ℕ → ℕ → List ℤ → Body (ℕ × List ℤ)
count_rounds zero slot cnt lbas s = ok ((cnt, lbas), s)
count_rounds (suc k) slot cnt lbas s = do
  c ← load s.cells (s.head (block slot))
  let v = sub_nat c.lba (slot + 1)
  let t = set_head_lba (block slot) c v s
  let ret = abs_int v
  let lbas' = set lbas cnt ret
  let rest = count_rounds k slot (suc cnt) lbas' t
  if as_uint64 ret == 0 then ok ((cnt, lbas'), t) else rest

-- uint64_t `maxLba - (slot + 1)`
abbrev pub counter_limit : ℕ → ℕ → ℕ
counter_limit max slot = (max + 2 ^ 64 - (slot + 1)) % 2 ^ 64

get_block_body : ℕ → ℕ → List ℤ → Body (ℕ × List ℤ)
get_block_body size slot lbas s =
    if s.head (block slot) == 0 || s.max_lba == 0 then throws einval else do
      c ← load s.cells (s.head (block slot))
      (out, t) ← take_rounds size (block slot) c.lba 0 lbas s
      let cnt = out.0
      let taken = out.1
      if ltb cnt size && is_neg c.lba && not (t.head (block slot) == 0)
          then if leb (as_uint64 (abs_int c.lba)) (counter_limit t.max_lba slot)
            then count_rounds (size - cnt) slot cnt (set taken cnt (abs_int c.lba)) t
            else throws einval
          else ok ((cnt, taken), t)

-- `while (head != nullptr)`
clear_rounds : ℕ → ℕ → Body (Unit {0})
clear_rounds zero i s = out_of_fuel
clear_rounds (suc fuel) i s =
    let more = (do c ← load s.cells (s.head i); clear_rounds fuel i (pop_head i c s)) in
    if s.head i == 0 then ok (tt, s) else more

-- A transaction that throws ends the loop around it, and keeps what earlier ones committed.
abbrev and_then :
    Result (Unit {0}) × FreeList
    → (FreeList → Result (Unit {0}) × FreeList)
    → Result (Unit {0}) × FreeList
and_then (ok _, t) k = k t
and_then (throws e, t) k = (throws e, t)
and_then (fault, t) k = (fault, t)
and_then (out_of_fuel, t) k = (out_of_fuel, t)

module _ (pm : Pmem) where
  -- The number of LBAs and the buffer. `size` is lbasSize.
  pub get_block : List ℤ → ℕ → ℕ → FreeList → Result (ℕ × List ℤ) × FreeList
  get_block lbas size slot s = pm.exec_tx (ℕ × List ℤ) (get_block_body size slot lbas) s

  -- One transaction for each LBA: those before one that throws stay.
  unfoldable pub put_block : List ℤ → ℕ → FreeList → Result (Unit {0}) × FreeList
  put_block [] slot s = (ok tt, s)
  put_block (v ∷ vs) slot s = and_then (push_block pm v slot s) (λ t. put_block vs slot t)

  pub clear : ℕ → FreeList → Result (Unit {0}) × FreeList
  clear fuel s = pm.exec_tx Unit (clear_rounds fuel single) s

  pub clear_block : ℕ → ℕ → FreeList → Result (Unit {0}) × FreeList
  clear_block fuel slot s = pm.exec_tx Unit (clear_rounds fuel (block slot)) s
