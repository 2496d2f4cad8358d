-- ===== src/Primary.antt =====
-- lib/primary: the primary part of a key, the node that it belongs to, and the queue of keys that are
-- ready to be processed. A key is its bytes. The queue's ring is that of SPDK.
pub mod Fifo
use Prim.Native.Nat.{bit_or}
use daqdb.Base.{
  ℕ, zero, suc, ◌+◌, ◌-◌, ◌*◌, ◌%◌, ◌^◌, Bool, true, false, ◌&&◌, List, [], ◌∷◌, ◌++◌, ltb, leb,
  ◌==◌, if◌then◌else◌, length,
}
use daqdb.Pmem.ArTree.{Key}
use daqdb.Requests.{StatusCode, Reply, gives, fails, undefined}

pub record KeyFieldDescriptor : Type 0 where
  pub size : ℕ
  pub is_primary : Bool

-- PrimaryKeyBase and PrimaryKeyNextQueue. `has_queue` tells which one PrimaryKeyEngine::open made.
pub record PrimaryKey : Type 0 where
  pub key_size : ℕ
  pub p_key_size : ℕ
  pub p_key_offset : ℕ
  pub local_node_id : ℕ
  pub n_nodes : ℕ
  pub has_queue : Bool
  pub ready_keys : List Key

-- `size`, then `offset` and `size` of the primary part
pub record Layout : Type 0 where
  pub total : ℕ
  pub offset : ℕ
  pub primary : ℕ

unfoldable pub layout : List KeyFieldDescriptor → Layout → Layout
layout [] l = l
layout (f ∷ fs) l = layout fs (record {
  total = l.total + f.size;
  offset = if f.is_primary then l.total else l.offset;
  primary = if f.is_primary then f.size else l.primary;
})

-- PrimaryKeyEngine::open with the constructors. The ring of the queue could be made.
unfoldable pub open_engine : List KeyFieldDescriptor → ℕ → ℕ → ℕ → Reply PrimaryKey
open_engine fields local_node_id n_nodes max_ready_keys =
    let l = layout fields (record { total = 0; offset = 0; primary = 0 }) in
    if ltb 8 l.primary
    then fails StatusCode.no_code
    else gives (record {
      key_size = l.total;
      p_key_size = l.primary;
      p_key_offset = l.offset;
      local_node_id = local_node_id;
      n_nodes = n_nodes;
      has_queue = ltb 0 max_ready_keys;
      ready_keys = [];
    })

-- The loop of `modulo`, from the last byte to the first
unfoldable pub modulo_rounds : ℕ → Key → ℕ → ℕ
modulo_rounds zero arr val = val
modulo_rounds (suc size) arr val = modulo_rounds size arr (bit_or val (arr size * 2 ^ size))

-- A division by zero is undefined.
unfoldable pub modulo : Key → ℕ → ℕ → Reply ℕ
modulo arr size div = if div == 0 then undefined else gives (modulo_rounds size arr 0 % div)

unfoldable pub is_node : ℕ → Reply ℕ → Reply Bool
is_node id (gives n) = gives (n == id)
is_node id (fails e) = fails e
is_node id undefined = undefined

-- PrimaryKeyBase::isLocal
unfoldable pub is_local : PrimaryKey → Key → Reply Bool
is_local p key =
    is_node p.local_node_id (modulo (λ i. key (p.p_key_offset + i)) p.p_key_size p.n_nodes)

-- _createPKeyBuff
unfoldable pub create_p_key_buff : PrimaryKey → Key → Key
create_p_key_buff p key i = key (p.p_key_offset + i)

-- The ring takes an element when it holds so many.
module _ (ring_takes : ℕ → Bool) where
  unfoldable pub enqueue_local : Reply Bool → Key → PrimaryKey → Reply (Unit {0}) × PrimaryKey
  enqueue_local (gives false) key p = (gives tt, p)
  enqueue_local (gives true) key p =
      if ring_takes (length p.ready_keys)
      then (gives tt, record p { ready_keys = p.ready_keys ++ create_p_key_buff p key ∷ [] })
      else (fails StatusCode.no_code, p)
  enqueue_local (fails e) key p = (fails e, p)
  enqueue_local undefined key p = (undefined, p)

  -- enqueueNext of PrimaryKeyNextQueue, and of PrimaryKeyBase
  unfoldable pub enqueue_by : Bool → Key → PrimaryKey → Reply (Unit {0}) × PrimaryKey
  enqueue_by true key p = enqueue_local (is_local p key) key p
  enqueue_by false key p = (gives tt, p)

  unfoldable pub enqueue_next : Key → PrimaryKey → Reply (Unit {0}) × PrimaryKey
  enqueue_next key p = enqueue_by p.has_queue key p

-- The bytes of a dequeued key: zero, but for the primary part
unfoldable pub padded : PrimaryKey → Key → Key
padded p part i =
    if leb p.p_key_offset i && ltb i (p.p_key_offset + p.p_key_size)
    then part (i - p.p_key_offset)
    else 0

unfoldable pub dequeue_from : List Key → PrimaryKey → Reply Key × PrimaryKey
dequeue_from [] p = (fails StatusCode.key_not_found, p)
dequeue_from (part ∷ parts) p = (gives (padded p part), record p { ready_keys = parts })

-- dequeueNext of PrimaryKeyNextQueue, and of PrimaryKeyBase
unfoldable pub dequeue_by : Bool → PrimaryKey → Reply Key × PrimaryKey
dequeue_by true p = dequeue_from p.ready_keys p
dequeue_by false p = (fails StatusCode.not_supported, p)

unfoldable pub dequeue_next : PrimaryKey → Reply Key × PrimaryKey
dequeue_next p = dequeue_by p.has_queue p
