-- ===== src/Pipeline/IoBufs.antt =====
-- lib/spdk/SpdkIoBuf.h and SpdkIoBuf.cpp: buffers for the I/O of SPDK, in pools by size class, each with memory
-- that it gets when it is first used. A buffer is named by its class and a pointer. The pools are parameters of
-- the manager here, and so is spdk_dma_zmalloc.
pub mod Sizes
pub mod Reuse
pub mod Pools
use daqdb.Base.{
  ℕ, ◌+◌, ◌*◌, ◌/◌, Bool, true, false, Option, none, some, ltb, ◌==◌, if◌then◌else◌, update,
}
use daqdb.Base.Int.{ℤ, pos, negsuc}

-- The calls of GeneralPool: the answer `none` is abort().
pub record PoolOps (P : Type 0) : Type 0 where
  pub get : P → Option (ℕ × P)
  pub put : ℕ → P → Option P

-- The pool for writes and the pool for reads of a class
pub data Direction : Type 0 where
  writing reading : Direction

-- SpdkIoSizedBuf: memory is known by its size.
pub record SpdkIoSizedBuf : Type 0 where
  pub spdk_dma_buf : Option ℕ
  pub back_idx : ℤ

-- What the pools' allocator makes
abbrev pub new_buf : SpdkIoSizedBuf
new_buf = record { spdk_dma_buf = none; back_idx = pos 0 }

-- SpdkIoBufMgr: the static pools of its classes, and the buffers that they made
pub record SpdkIoBufMgr (P : Type 0) : Type 0 where
  pub write_pools : ℕ → P
  pub read_pools : ℕ → P
  pub bufs : ℕ → ℕ → SpdkIoSizedBuf

abbrev pub new_mgr : {P : Type 0} → (ℕ → P) → (ℕ → P) → SpdkIoBufMgr P
new_mgr writes reads = record { write_pools = writes; read_pools = reads; bufs = λ k n. new_buf }

-- SpdkIoBuf*: a buffer of a pool, of a class and by its pointer, or one that `new` made for large sizes
pub data SpdkIoBuf : Type 0 where
  pooled : ℕ → ℕ → SpdkIoBuf
  single : Option ℕ → SpdkIoBuf

-- Whether spdk_dma_zmalloc gives memory of a size and an alignment
abbrev pub DmaZmalloc : Type 0 → Type 0
DmaZmalloc P = ℕ → ℕ → SpdkIoBufMgr P → Bool

abbrev pub block_size : ℕ
block_size = 8

abbrev pub is_minus_one : ℤ → Bool
is_minus_one (pos n) = false
is_minus_one (negsuc n) = n == 0

-- getSpdkDmaBuf
unfoldable pub memory_of : {P : Type 0} → SpdkIoBuf → SpdkIoBufMgr P → Option ℕ
memory_of (pooled k n) m = (m.bufs k n).spdk_dma_buf
memory_of (single s) m = s

unfoldable pub set_buf : {P : Type 0} → ℕ → ℕ → SpdkIoSizedBuf → SpdkIoBufMgr P → SpdkIoBufMgr P
set_buf k n b m = record m {
  bufs = λ j i. if k == j then (if n == i then b else m.bufs j i) else m.bufs j i;
}

unfoldable pub set_pool : {P : Type 0} → Direction → ℕ → P → SpdkIoBufMgr P → SpdkIoBufMgr P
set_pool Direction.writing k p m = record m { write_pools = update m.write_pools k p }
set_pool Direction.reading k p m = record m { read_pools = update m.read_pools k p }

abbrev pub pool_of : {P : Type 0} → Direction → ℕ → SpdkIoBufMgr P → P
pool_of Direction.writing k m = m.write_pools k
pool_of Direction.reading k m = m.read_pools k

-- A buffer for reads gets the index of its class.
abbrev pub index_buf : Direction → ℕ → SpdkIoSizedBuf → SpdkIoSizedBuf
index_buf Direction.writing k b = b
index_buf Direction.reading k b = record b { back_idx = pos k }

abbrev pub zmalloced : ℕ → Bool → Option ℕ
zmalloced size given = if given then some size else none

-- `if (!buf->getSpdkDmaBuf()) buf->setSpdkDmaBuf(...)`
abbrev pub with_memory : ℕ → Bool → SpdkIoSizedBuf → SpdkIoSizedBuf
with_memory size given b = record b {
  spdk_dma_buf = elim b.spdk_dma_buf [ none ↦ zmalloced size given | some s ↦ some s ];
}

-- The buffer that a pool gives, with memory
unfoldable pub pooled_buf :
    {P : Type 0}
    → Direction
    → ℕ
    → Bool
    → SpdkIoBufMgr P
    → Option (ℕ × P)
    → Option (SpdkIoBuf × SpdkIoBufMgr P)
unfolding set_buf set_pool
pooled_buf d io_size given m none = none
pooled_buf d io_size given m (some (n, p)) =
    let k = io_size / 4096 in
    some (
      pooled k n,
      set_buf k n (with_memory io_size given (index_buf d k (m.bufs k n))) (set_pool d k p m),
    )

unfoldable pub taken_back :
    {P : Type 0} → Direction → ℕ → SpdkIoBufMgr P → Option P → Option (SpdkIoBufMgr P)
unfolding set_pool
taken_back d k m none = none
taken_back d k m (some p) = some (set_pool d k p m)

module _ {P : Type 0} (ops : PoolOps P) (dma : DmaZmalloc P) where
  -- getIoWriteBuf and getIoReadBuf: of the pools below eight pages, or a new one for this use
  unfoldable pub get_io_buf :
      Direction → ℕ → ℕ → SpdkIoBufMgr P → Option (SpdkIoBuf × SpdkIoBufMgr P)
  unfolding pooled_buf
  get_io_buf d io_size align m =
      if ltb (io_size / 4096) block_size
      then pooled_buf d io_size (dma io_size align m) m (ops.get (pool_of d (io_size / 4096) m))
      else some (single (zmalloced io_size (dma io_size align m)), m)

module _ {P : Type 0} (ops : PoolOps P) where
  -- putIoWriteBuf and putIoReadBuf. The answer `none` is abort(), or `delete` of a buffer of a pool.
  unfoldable pub put_io_buf : Direction → SpdkIoBuf → SpdkIoBufMgr P → Option (SpdkIoBufMgr P)
  unfolding taken_back
  put_io_buf d (single s) m = some m
  put_io_buf d (pooled k n) m =
      if is_minus_one (m.bufs k n).back_idx
      then none
      else taken_back d k m (ops.put n (pool_of d k m))
