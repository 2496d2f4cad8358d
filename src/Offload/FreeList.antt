-- ===== src/Offload/FreeList.antt =====
-- lib/offload/OffloadFreeList.h and .cpp: lists of free logical block addresses (LBAs), kept as
-- linked lists in persistent memory. The single list is `_head`, `_tail`; the eight block lists are
-- `_heads[slot]`, `_tails[slot]`. Here list 0 is the single one and list `slot + 1` is a block list.
-- libpmemobj is a parameter: its allocator, and transactions that commit or roll back.
pub mod Links
pub mod Represents
pub mod Push
pub mod Supply
pub mod Get
pub mod Ownership
pub mod Blocks
use daqdb.Base.{
  ℕ, suc, ◌-◌, ◌≡◌, ◌≢◌, ◌&&◌, ◌||◌, not, Option, none, some, ltb, ==_false, ◌==◌, if◌then◌else◌,
}
pub use daqdb.Base.{update}
use daqdb.Base.Int.{ℤ, pos, is_neg, abs_int, as_uint64, sub_nat}

-- FreeLba. A `next` of 0 is nullptr.
pub record FreeLba : Type 0 where
  pub next : ℕ
  pub lba : ℤ

abbrev pub cell : ℤ → ℕ → FreeLba
cell v n = record { next = n; lba = v }

abbrev pub Heap : Type 0
Heap = ℕ → Option FreeLba

abbrev pub write : Heap → ℕ → Option FreeLba → Heap
write h a c b = if a == b then c else h b

-- OffloadFreeList, with the persistent cells that it points to
pub record FreeList : Type 0 where
  pub cells : Heap
  pub head : ℕ → ℕ
  pub tail : ℕ → ℕ
  pub max_lba : ℕ

abbrev pub single : ℕ
single = 0

abbrev pub block : ℕ → ℕ
block slot = suc slot

-- Exceptions of a transaction: the code's own abort(EINVAL), and an allocation that fails.
pub data TxError : Type 0 where
  einval alloc_error : TxError

-- `fault` is a read through a null or dangling pointer. Only `clear` and `clear_block` take fuel.
pub data Result {ℓ} (A : Type ℓ) : Type ℓ where
  ok : A → Result A
  throws : TxError → Result A
  fault : Result A
  out_of_fuel : Result A

infixl 5 ◌>>=◌
abbrev pub ◌>>=◌ {ℓ κ} : {A : Type ℓ} {B : Type κ} → Result A → (A → Result B) → Result B
ok a >>= f = f a
throws e >>= f = throws e
fault >>= f = fault
out_of_fuel >>= f = out_of_fuel

-- A read through a pointer.
unfoldable pub load : Heap → ℕ → Result FreeLba
load h p = if p == 0 then fault else elim (h p) [ none ↦ fault | some c ↦ ok c ]

pub load-some : (h : Heap) {p : ℕ} {c : FreeLba} → p ≢ 0 → h p ≡ some c → load h p ≡ ok c
unfolding load
load-some h {p} nz e = rw (==_false p 0 nz, e)

abbrev pub Body : Type 0 → Type 0
Body A = FreeList → Result (A × FreeList)

-- What the code uses of libpmemobj. `alloc` answers `none` when the pool is full.
pub record Pmem : Type 1 where
  pub alloc : Heap → Option ℕ
  pub exec_tx : (A : Type 0) → Body A → FreeList → Result A × FreeList
  pub alloc_fresh : (h : Heap) (p : ℕ) → alloc h ≡ some p → (p ≢ 0) × (h p ≡ none)
  pub commits :
      (A : Type 0) (body : Body A) (s : FreeList) (a : A) (s' : FreeList)
      → body s ≡ ok (a, s')
      → exec_tx A body s ≡ (ok a, s')
  pub rolls_back :
      (A : Type 0) (body : Body A) (s : FreeList) (e : TxError)
      → body s ≡ throws e
      → exec_tx A body s ≡ (throws e, s)

-- Unlinks the head cell `c` of list `i`: the common lines of `get`, `getBlock` and `clear`.
unfoldable pub pop_head : ℕ → FreeLba → FreeList → FreeList
pop_head i c s = record s {
  cells = write s.cells (s.head i) none;
  head = update s.head i c.next;
  tail = if c.next == 0 then update s.tail i 0 else s.tail;
}

abbrev pub set_head_lba : ℕ → FreeLba → ℤ → FreeList → FreeList
set_head_lba i c v s = record s { cells = write s.cells (s.head i) (some (cell v c.next)) }

-- Fills the cell `n` that was just allocated, and appends it to list `i`.
unfoldable pub push_cell : ℕ → ℤ → ℕ → Body (Unit {0})
push_cell i value n s =
    let fresh = write s.cells n (some (cell value 0)) in
    if s.head i == 0 && s.tail i == 0
    then ok (tt, record s { cells = fresh; head = update s.head i n; tail = update s.tail i n })
    else do
      c ← load fresh (s.tail i)
      ok (
        tt,
        record s { cells = write fresh (s.tail i) (some (cell c.lba n)); tail = update s.tail i n },
      )

-- A head below zero stands for the addresses that were never given out. The `abs` of the source is that of
-- an int, and `ret` is compared with a uint64_t.
count_on : ℤ → FreeLba → Body ℤ
count_on ret c s =
    if ltb (as_uint64 ret) (s.max_lba - 1)
    then ok (ret, set_head_lba single c (sub_nat c.lba 1) s)
    else if as_uint64 ret == s.max_lba - 1
    then ok (ret, set_head_lba single c (pos 0) s)
    else throws einval

get_head : FreeLba → Body ℤ
unfolding count_on
get_head c s =
    if not (is_neg c.lba) then ok (c.lba, pop_head single c s) else count_on (abs_int c.lba) c s

get_body : Body ℤ
unfolding get_head
get_body s =
    if s.head single == 0 || s.max_lba == 0
    then throws einval
    else do c ← load s.cells (s.head single); get_head c s

module _ (pm : Pmem) where
  unfoldable pub push_body : ℕ → ℤ → Body (Unit {0})
  push_body i value s = elim (pm.alloc s.cells) [
    | none ↦ throws alloc_error
    | some n ↦ push_cell i value n s
  ]

  -- OffloadFreeList::push
  pub push : ℤ → FreeList → Result (Unit {0}) × FreeList
  push value s = pm.exec_tx Unit (push_body single value) s

  -- OffloadFreeList::pushBlock
  unfoldable pub push_block : ℤ → ℕ → FreeList → Result (Unit {0}) × FreeList
  push_block value slot s = pm.exec_tx Unit (push_body (block slot) value) s

  -- OffloadFreeList::get
  pub get : FreeList → Result ℤ × FreeList
  get s = pm.exec_tx ℤ get_body s
