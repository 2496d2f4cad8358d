-- ===== src/Pipeline/Bdev.antt =====
-- lib/spdk/SpdkBdev.h and .cpp: how a device takes reads, writes and removals, and what it does when
-- SPDK completes one. Each runs on the engine's thread, so deinit, which waits for that thread, hangs.
pub mod Io
pub mod Completion
use Prim.Native.Nat.{bit_and}
use daqdb.Base.{
  ℕ, ◌+◌, ◌-◌, ◌*◌, ◌/◌, ◌%◌, ◌^◌, Bool, true, false, ◌&&◌, Option, none, some, [], ◌∷◌, ◌++◌, ltb,
  ◌==◌, if◌then◌else◌,
}
use daqdb.Base.Int.{ℤ, pos, negsuc}
use daqdb.Pmem.ArTree.{DeviceAddr, is_pmem}
use daqdb.Offload.FreeList.{Pmem, ok, throws, fault, out_of_fuel}
use daqdb.Offload.LbaAlloc.{get_lba, put_lba}
use daqdb.Requests.{AddrPtr, null, in_pmem, in_rqst, DeviceTask, Pool, remove_pool}
use daqdb.Pipeline.{
  IoState, FinState, BdevCtx, World, Stop, hangs, uncaught, undefined, Ran, returns, stops, Run,
  and_then, ◌>>=◌, Rc, accepted, no_memory, failed, Spdk, inc32, dec32, inc64, dec64, put_rqst,
  enqueue_finalizer, enqueue_io_engine,
}

-- SpdkBdev::getOptimalSize, on size_t
unfoldable pub get_optimal_size : BdevCtx → ℕ → ℕ
get_optimal_size c size = if size == 0 then 0 else ((size - 1) / 4096 + 1) * c.io_min_size % 2 ^ 64

-- SpdkBdev::getAlignedSize. The mask is a uint32_t.
unfoldable pub get_aligned_size : BdevCtx → ℕ → ℕ
get_aligned_size c size =
    bit_and ((get_optimal_size c size + c.blk_size + (2 ^ 64 - 1)) % 2 ^ 64)
      (2 ^ 32 - 1 - (c.blk_size + (2 ^ 32 - 1)) % 2 ^ 32)

-- SpdkBdev::getSizeInBlk, returned as uint32_t
unfoldable pub get_size_in_blk : BdevCtx → ℕ → ℕ
get_size_in_blk c size = get_optimal_size c size / c.blk_size % 2 ^ 32

-- SpdkBdev::canQueue, with `maxIoBufs` as bdevInit sets it
unfoldable pub can_queue : World → ℕ
can_queue w =
    if ltb w.io_bufs_in_use w.ctx.io_pool_size then w.ctx.io_pool_size - w.io_bufs_in_use else 0

-- SpdkBdev::IOQuiesce, isIOQuiescent and IOAbort
unfoldable pub io_quiesce : World → World
io_quiesce w = record w { fin_state = FinState.quiescing; io_state = IoState.quiescing }

abbrev pub is_fin_quiescent : FinState → Bool
is_fin_quiescent FinState.ready = false
is_fin_quiescent FinState.quiescing = false
is_fin_quiescent FinState.quiescent = true

abbrev pub is_io_state_quiescent : IoState → Bool
is_io_state_quiescent IoState.init = false
is_io_state_quiescent IoState.ready = false
is_io_state_quiescent IoState.error = false
is_io_state_quiescent IoState.quiescing = false
is_io_state_quiescent IoState.quiescent = true
is_io_state_quiescent IoState.stopped = false
is_io_state_quiescent IoState.aborted = true

unfoldable pub is_io_quiescent : World → Bool
is_io_quiescent w = is_io_state_quiescent w.io_state && is_fin_quiescent w.fin_state

unfoldable pub io_abort : World → World
io_abort w = record w { io_state = IoState.aborted }

-- SpdkBdev::stateMachine
unfoldable pub state_machine : Run Bool
state_machine w = elim w.io_state [
  | IoState.init ↦ returns false w
  | IoState.ready ↦ returns false w
  | IoState.error ↦ stops hangs w
  | IoState.quiescing ↦
      if w.stats.outstanding_io_cnt == 0
      then returns true (record w { io_state = IoState.quiescent })
      else returns false w
  | IoState.quiescent ↦ returns true w
  | IoState.stopped ↦ returns false w
  | IoState.aborted ↦ stops hangs w
]

-- `*task->bdevAddr`
unfoldable pub load_addr : AddrPtr → World → Option DeviceAddr
load_addr null w = none
load_addr (in_pmem p) w = w.tree.store.iovs p
load_addr (in_rqst a) w = a

-- An int64_t as uint64_t
unfoldable pub to_uint64 : ℤ → ℕ
to_uint64 (pos n) = n % 2 ^ 64
to_uint64 (negsuc n) = 2 ^ 64 - 1 - n % 2 ^ 64

-- A uint64_t as int64_t
unfoldable pub to_int64 : ℕ → ℤ
to_int64 n =
    if ltb (n % 2 ^ 64) (2 ^ 63) then pos (n % 2 ^ 64) else negsuc (2 ^ 64 - 1 - n % 2 ^ 64)

abbrev pub count_outstanding : World → World
count_outstanding w = record w {
  stats = record w.stats { outstanding_io_cnt = inc64 w.stats.outstanding_io_cnt };
}

abbrev pub count_read_err : World → World
count_read_err w = record w { stats = record w.stats { read_err_cnt = inc64 w.stats.read_err_cnt } }

abbrev pub count_write_err : World → World
count_write_err w = record w {
  stats = record w.stats { write_err_cnt = inc64 w.stats.write_err_cnt };
}

abbrev pub take_buffer : World → World
take_buffer w = record w { io_bufs_in_use = inc32 w.io_bufs_in_use }

abbrev pub drop_buffer : World → World
drop_buffer w = record w { io_bufs_in_use = dec32 w.io_bufs_in_use }
