-- ===== src/Requests.antt =====
-- lib/common/Rqst.h, lib/spdk/SpdkDevice.h and include/daqdb/Status.h: requests for offloaded values,
-- the tasks made of them for a device, and what becomes of a request. A request is known by its
-- address. Its value is a pointer, and its callback is either set or empty.
use daqdb.Base.{ℕ, Bool, Option, List}
use daqdb.Pmem.ArTree.{Key, Location, DeviceAddr}

-- With the errno values that a Status is made of. `no_code` is what an enumerator becomes that an
-- OperationFailedException takes as an int: it is sign-extended to a number that no enumerator has. Two
-- exceptions without a status stand here too: `out_of_range` of `at`, and `queue_full`, QueueFullException.
pub data StatusCode : Type 0 where
  ok key_not_found pmem_allocation_error offload_disabled_error queue_full_error time_out
        not_implemented not_supported unknown_error einval out_of_range dht_allocation_error
        dht_disabled_error dht_connect_error max_errno no_code queue_full :
      StatusCode

-- OffloadOperation
pub data Operation : Type 0 where
  nop get update remove : Operation

-- Rqst<OffloadOperation>
pub record Rqst : Type 0 where
  pub id : ℕ
  pub op : Operation
  pub key : Key
  pub key_size : ℕ
  pub value : ℕ
  pub value_size : ℕ
  pub has_clb : Bool
  pub loc : Location

-- `bdevAddr` of a task: nullptr, a pointer to a DeviceAddr in persistent memory, or the copy of one in
-- `devAddrBuf`, which is `none` where the copied memory held no DeviceAddr.
pub data AddrPtr : Type 0 where
  null : AddrPtr
  in_pmem : ℕ → AddrPtr
  in_rqst : Option DeviceAddr → AddrPtr

-- `cb_fn` of `bdev_io_wait`: the callback that resumes a task which waits for a buffer of SPDK
pub data IoWaitCb : Type 0 where
  no_callback read_queue_io_wait write_queue_io_wait : IoWaitCb

-- The task's callback is that of its request.
pub record DeviceTask : Type 0 where
  pub size : ℕ
  pub block_size : ℕ
  pub key : Key
  pub key_size : ℕ
  pub bdev_addr : AddrPtr
  pub update_pmem_iov : Bool
  pub rqst : Rqst
  pub op : Operation
  pub result : Bool
  pub free_lba : ℕ
  pub routing : Bool
  pub bdev_io_wait : IoWaitCb

pub data Pool : Type 0 where
  get_pool update_pool remove_pool : Pool

-- A call of a request's callback, with the key and the size of the value handed over
pub record Answer : Type 0 where
  pub id : ℕ
  pub status : StatusCode
  pub key : Key
  pub key_size : ℕ
  pub value_size : ℕ

-- What becomes visible of a request, the latest first.
pub data Event : Type 0 where
  callback : Answer → Event
  put : Pool → Rqst → Event
  delete_value : ℕ → Event
  delete_rqst : ℕ → Event

abbrev pub Log : Type 0
Log = List Event

unfoldable pub finalize_update : Key → ℕ → ℕ → ℕ → Bool → Location → Rqst → Rqst
finalize_update key key_size value value_size has_clb loc r = record r {
  op = Operation.update;
  key = key;
  key_size = key_size;
  value = value;
  value_size = value_size;
  has_clb = has_clb;
  loc = loc;
}

unfoldable pub finalize_get : Key → ℕ → ℕ → ℕ → Bool → Rqst → Rqst
finalize_get key key_size value value_size has_clb r = record r {
  op = Operation.get;
  key = key;
  key_size = key_size;
  value = value;
  value_size = value_size;
  has_clb = has_clb;
}

unfoldable pub finalize_remove : Key → ℕ → ℕ → ℕ → Bool → Rqst → Rqst
finalize_remove key key_size value value_size has_clb r = record r {
  op = Operation.remove;
  key = key;
  key_size = key_size;
  value = value;
  value_size = value_size;
  has_clb = has_clb;
}

-- What a call of the store gives back: a result, an exception with its status, or undefined behaviour.
pub data Reply {ℓ} (A : Type ℓ) : Type ℓ where
  gives : A → Reply A
  fails : StatusCode → Reply A
  undefined : Reply A
