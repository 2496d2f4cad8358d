-- ===== src/Pipeline.antt =====
-- The way of a request through the offload threads: lib/offload/OffloadPoller.cpp hands it to
-- lib/spdk/SpdkBdev.cpp, SPDK completes it, and lib/offload/FinalizePoller.cpp answers it. Here are the
-- state that the threads share and the operations on it. SPDK is a parameter.
pub mod Bdev
pub mod IoEngine
pub mod OffloadPoller
pub mod FinalizePoller
pub mod Tally
pub mod Steps
pub mod Shortage
pub mod PmemPoller
pub mod Jbod
pub mod IoBufs
use daqdb.Base.{
  ℕ, suc, ◌+◌, ◌-◌, ◌%◌, ◌^◌, Bool, true, false, Option, none, some, List, [], ◌∷◌, ◌++◌, length,
  if◌then◌else◌,
}
use daqdb.Pmem.ArTree.{Key}
use daqdb.Pmem.ArTree.Operations.{ArTree}
use daqdb.Offload.LbaAlloc.{LbaAlloc}
use daqdb.Requests.{Rqst, DeviceTask, StatusCode, Answer, Pool, Event, callback, put, Log}

-- SpdkBdev::IOState
pub data IoState : Type 0 where
  init ready error quiescing quiescent stopped aborted : IoState

-- FinalizePoller::State
pub data FinState : Type 0 where
  ready quiescing quiescent : FinState

-- SpdkBdevCtx, as far as the requests use it
pub record BdevCtx : Type 0 where
  pub blk_size : ℕ
  pub io_min_size : ℕ
  pub pci_addr : ℕ
  pub io_pool_size : ℕ

-- BdevStats, less what is only printed
pub record BdevStats : Type 0 where
  pub outstanding_io_cnt : ℕ
  pub read_compl_cnt : ℕ
  pub write_compl_cnt : ℕ
  pub read_err_cnt : ℕ
  pub write_err_cnt : ℕ

-- The rings of the three pollers, and the tasks that SPDK holds: reads and writes that it works on, and
-- tasks that wait for one of its buffers.
pub record World : Type 0 where
  pub tree : ArTree
  pub lba_allocator : LbaAlloc
  pub ctx : BdevCtx
  pub io_state : IoState
  pub fin_state : FinState
  pub stats : BdevStats
  pub io_bufs_in_use : ℕ
  pub offload : List Rqst
  pub io_engine : List DeviceTask
  pub finalizer : List DeviceTask
  pub reads : List DeviceTask
  pub writes : List DeviceTask
  pub waiting : List DeviceTask
  pub log : Log

-- How a thread ends: deinit waits for the thread that runs it, an exception is caught nowhere, or
-- memory is used that is not there.
pub data Stop : Type 0 where
  hangs uncaught undefined : Stop

pub data Ran {ℓ} (A : Type ℓ) : Type ℓ where
  returns : A → World → Ran A
  stops : Stop → World → Ran A

abbrev pub Run {ℓ} : Type ℓ → Type ℓ
Run A = World → Ran A

unfoldable pub and_then {ℓ κ} : {A : Type ℓ} {B : Type κ} → Ran A → (A → Run B) → Ran B
and_then (returns a w) k = k a w
and_then (stops s w) k = stops s w

infixl 5 ◌>>=◌
abbrev pub ◌>>=◌ {ℓ κ} : {A : Type ℓ} {B : Type κ} → Run A → (A → Run B) → Run B
(m >>= k) w = and_then (m w) k

infixl 5 ◌>>◌
abbrev pub ◌>>◌ {ℓ κ} : {A : Type ℓ} {B : Type κ} → Run A → Run B → Run B
(m >> k) w = and_then (m w) (λ _. k)

-- What spdk_bdev_read_blocks and spdk_bdev_write_blocks answer: 0, -ENOMEM, or another error
pub data Rc : Type 0 where
  accepted no_memory failed : Rc

-- What the code uses of SPDK. The arguments are the offset in blocks and the number of blocks. Answers
-- may depend on everything that happened. A ring is full when it holds so many elements.
pub record Spdk : Type 0 where
  pub read_blocks : ℕ → ℕ → World → Rc
  pub write_blocks : ℕ → ℕ → World → Rc
  pub queue_io_wait : World → Bool
  pub ring_takes : ℕ → Bool

-- Arithmetic on uint32_t and uint64_t counters
abbrev pub inc32 : ℕ → ℕ
inc32 n = (n + 1) % 2 ^ 32

abbrev pub dec32 : ℕ → ℕ
dec32 n = (n + (2 ^ 32 - 1)) % 2 ^ 32

abbrev pub inc64 : ℕ → ℕ
inc64 n = (n + 1) % 2 ^ 64

abbrev pub dec64 : ℕ → ℕ
dec64 n = (n + (2 ^ 64 - 1)) % 2 ^ 64

unfoldable pub log_event : Event → World → World
log_event e w = record w { log = e ∷ w.log }

-- `rqst->clb(...)`, if there is a callback
unfoldable pub call : Rqst → StatusCode → Key → ℕ → ℕ → World → World
call r status key key_size value_size w = record w {
  log =
      if r.has_clb
      then callback (record {
        id = r.id;
        status = status;
        key = key;
        key_size = key_size;
        value_size = value_size;
      })
        ∷ w.log
      else w.log;
}

-- _rqstClb of OffloadPoller and rqstClb of SpdkIoEngine
unfoldable pub rqst_clb : Rqst → StatusCode → World → World
rqst_clb r status w = call r status r.key r.key_size 0 w

unfoldable pub put_rqst : Pool → Rqst → World → World
put_rqst pool r w = log_event (put pool r) w

-- Poller::enqueue on the rings of the finalizer, the engine and the offload poller
module _ (spdk : Spdk) where
  unfoldable pub enqueue_finalizer : DeviceTask → World → Bool × World
  enqueue_finalizer task w =
      if spdk.ring_takes (length w.finalizer)
      then (true, record w { finalizer = w.finalizer ++ task ∷ [] })
      else (false, w)

  unfoldable pub enqueue_io_engine : DeviceTask → World → Bool × World
  enqueue_io_engine task w =
      if spdk.ring_takes (length w.io_engine)
      then (true, record w { io_engine = w.io_engine ++ task ∷ [] })
      else (false, w)

  unfoldable pub enqueue_offload : Rqst → World → Bool × World
  enqueue_offload r w =
      if spdk.ring_takes (length w.offload)
      then (true, record w { offload = w.offload ++ r ∷ [] })
      else (false, w)
