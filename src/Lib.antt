-- ===== src/Lib.antt =====
-- DAQDB: a distributed key value store for data acquisition. Keys are indexed by a radix tree in
-- persistent memory; values live in persistent memory until they are moved to disk, at block addresses
-- (LBAs) that a free list in persistent memory hands out. Object pools recycle requests and buffers.
--
-- Pmem models lib/pmem. Pmem.ArTree is the tree of ARTree.h and ARTree.cpp: a node is a value, since each
-- has one parent; value wrappers are named by pointers into a store, since the code frees them while a
-- leaf still points to them. `find_value_in_node` is TreeImpl::findValueInNode and `allocate_full_levels`
-- is TreeImpl::allocateFullLevels; Pmem.ArTree.Operations has the operations of class ARTree: `get`, `put`,
-- `remove`, `alloc_value_for_key` and `allocate_and_update_value_wrapper`, each with the tree it leaves,
-- also where it throws. The search takes fuel: nine rounds, one more than the tree has levels.
--
-- Offload models lib/offload. Offload.FreeList is the free list of OffloadFreeList.h and
-- OffloadFreeList.cpp: cells in a heap, with the single list at index 0 and the block list of a slot at
-- index slot + 1. `push`, `push_block` and `get` are the methods of those names; Offload.FreeList.Blocks
-- has `get_block`, `put_block`, `clear` and `clear_block`. The two loops of clear take fuel: one round for
-- each cell and one more. Offload.LbaAlloc is OffloadLbaAlloc.cpp: buckets of addresses by size class, which
-- are refilled from the block lists: `get_lba`, `put_lba`, and of a bucket `bucket_get` and `bucket_put`.
--
-- Common models lib/common. Common.Bucket is GeneralPoolBucket.h and GeneralPoolBuffer.h: a ring of free
-- objects in buffers of 1024 slots that grows at its head. Common.Bucket.Fifo relates it to the queue of its
-- objects, and Common.Bucket.Traces runs puts and gets on both. Common.Pool is GeneralPool.h: 64 buckets that
-- serve in turn, and the stamp by which `put` finds the bucket of an object; locks are not modelled.
--
-- Dht models lib/dht. Dht.Core is DhtCore.cpp: `gen_hash` is _genHash, `get_host_for_key` is getHostForKey, and
-- `create` the constructor with _initNeighbors and _initRangeToHost. Ints are kept as their 32 bits, and
-- are widened to uint64_t where the source compares them. Dht.Wire has the messages of DhtTypes.h, with
-- memory as a function from offsets to bytes; Dht.Server the request handlers of DhtServer.cpp, over the
-- interface `KvStoreOps` of the store; Dht.Client is DhtClient.cpp, with `initialize` and `ping` in its child
-- Sessions and `alloc_key` and `alloc_value` in Buffers. eRPC is the parameter `Erpc`: that the response of a
-- handler comes back is a hypothesis. The bytes behind a key that is shorter than the mask of the hash, or than
-- the tree's keys, count as 0, and what is shown is about keys that have those bytes. Thin is lib/thin/KVStoreThin.cpp. KvStore.Served makes a `KvStoreOps` of the
-- store's own calls.
--
-- Base has the library's names, lists and integers over the native numbers, and Boolean tests. Tests has
-- concrete pools, lists and trees, and applies the theorems to them.
--
-- Requests has what the threads exchange, of lib/common/Rqst.h and lib/spdk/SpdkDevice.h: requests, the tasks
-- made of them, and the log of callbacks and of returns to the pools. Pipeline is the way of a request for a
-- value on disk: Pipeline.OffloadPoller is lib/offload/OffloadPoller.cpp, Pipeline.Bdev is SpdkBdev.h and
-- SpdkBdev.cpp of lib/spdk, Pipeline.IoEngine is SpdkIoEngine.cpp, and Pipeline.FinalizePoller is
-- lib/offload/FinalizePoller.cpp; Pipeline.PmemPoller is PmemPoller.cpp of lib/pmem. They share a `World`:
-- the tree, the allocator of addresses, the rings, and what SPDK holds. A function on it returns with the state that it leaves, or stops, where the thread hangs,
-- ends by an exception, or uses memory that is not there. Pipeline.Steps has the interleavings as steps, and
-- Pipeline.Tally counts requests in a state. Pipeline.Jbod is SpdkJBODBdev.cpp of lib/spdk, several devices as
-- one: how it chooses the device of a task, over the interface `BdevOps` of a single device. Pipeline.IoBufs is
-- SpdkIoBuf.h and SpdkIoBuf.cpp, over the interface `PoolOps` of a pool: `get_io_buf` is getIoWriteBuf and
-- getIoReadBuf.
--
-- Primary models lib/primary: the layout of keys, which node a key belongs to, and the queue of ready keys.
-- KvStore models lib/core/KVStore.cpp: `put_value`, `get_into`, `get_new`, `remove_value` and `update_value` in
-- KvStore.Node are Put, Get, Remove and Update of raw keys; KvStore.Cluster has the calls for keys of any node,
-- and KvStore.Async PutAsync, GetAsync and UpdateAsync.
--
-- libpmemobj is a parameter: `Pmem` for transactions that commit or roll back and an allocator of free cells,
-- `Pmemobj` for reservations. Addresses and sizes are natural numbers; the limit of getBlock and
-- the hash of a key, which are computed in uint64_t, the free list's abs, which is that of an int, and the depth of the tree, a uint8_t, wrap around. SPDK is the parameter
-- `Spdk`, whose answers may depend on the whole state; a ring is a list, which refuses an element when SPDK
-- does. What other threads do while a call of the store waits is the parameter `Threads`. Locks are not
-- modelled, nor are the bytes of values, the threads of the server of the hash table, and the start of the threads.
pub mod Base
pub mod Common
pub mod Dht
pub mod KvStore
pub mod Offload
pub mod Pipeline
pub mod Pmem
pub mod Primary
pub mod Requests
pub mod Tests
pub mod Thin
