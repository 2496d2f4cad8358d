-- ===== src/KvStore/Served.antt =====
-- The calls of lib/core/KVStore.cpp that a server of the hash table makes, with the bytes of the values. A
-- value in persistent memory has its bytes at its address; the bytes of a value on disk are those that the
-- callback of its request hands over, a parameter.
pub mod Remote
use daqdb.Base.{ℕ, Bool, true, false, ◌==◌, if◌then◌else◌, length, take, List, [], ◌∷◌}
use daqdb.Pmem.ArTree.{Key, Location, Pmemobj, Outcome, ok, throws, fault, out_of_fuel}
use daqdb.Pmem.ArTree.Operations
use daqdb.Pmem.ArTree.Operations.{Entry}
use daqdb.Requests.{StatusCode}
use daqdb.Requests
use daqdb.Pipeline.{Spdk}
use daqdb.KvStore.{KvStore, Threads}
use daqdb.KvStore.Node.{put_value, get_into, remove_value, alloc_value, get_any}
use daqdb.Dht.Wire.{
  Bytes, Called, gives, fails, throws as throws_other, undefined, store_bytes, load_bytes,
}
use daqdb.Dht.Server.{KvStoreOps}

pub record Hosted : Type 0 where
  pub store : KvStore
  pub memory : ℕ → Bytes

-- A key in a message. The tree reads as many bytes as its keys have: those behind a shorter key count as 0,
-- so what is shown of a node is about keys of the tree's size.
abbrev pub key_at : Bytes → Key
key_at bs = store_bytes 0 bs (λ i. 0)

-- The exceptions that are no OperationFailedException: QueueFullException of the calls that go to the offload
-- poller, and FUNC_NOT_IMPLEMENTED of Put
unfoldable pub called_offload : {A : Type 0} → Requests.Reply A → Called A
called_offload (Requests.gives a) = gives a
called_offload (Requests.fails StatusCode.queue_full) = throws_other
called_offload (Requests.fails e) = fails e
called_offload Requests.undefined = undefined

unfoldable pub called_put : Requests.Reply (Unit {0}) → Called (Unit {0})
called_put (Requests.gives u) = gives u
called_put (Requests.fails StatusCode.not_implemented) = throws_other
called_put (Requests.fails e) = fails e
called_put Requests.undefined = undefined

abbrev pub called : {A : Type 0} → Requests.Reply A → Called A
called (Requests.gives a) = gives a
called (Requests.fails e) = fails e
called Requests.undefined = undefined

abbrev pub with_bytes : (ℕ → Bytes) → Called ℕ → Called Bytes
with_bytes f (gives n) = gives (f n)
with_bytes f (fails e) = fails e
with_bytes f throws_other = throws_other
with_bytes f undefined = undefined

module _ (pmem : Pmemobj) (spdk : Spdk) (threads : Threads)
    (handed : KvStore → Key → ℕ → Bytes) where
  -- The bytes that Get copies, for what the tree says of the key
  unfoldable pub held : Key → Hosted → Outcome Entry → ℕ → Bytes
  held key h (ok e) n = elim e.location [
    | Location.pmem ↦ take n (h.memory e.value)
    | Location.disk ↦ handed h.store key n
    | Location.empty ↦ []
  ]
  held key h (throws e) n = []
  held key h fault n = []
  held key h out_of_fuel n = []

  unfoldable pub served_get : Bytes → ℕ → Hosted → Called Bytes × Hosted
  served_get ks capacity h =
      let r = get_into pmem spdk threads (key_at ks) (length ks) capacity h.store in
      (
        with_bytes (held (key_at ks) h (Operations.get pmem (key_at ks) h.store.world.tree).0)
            (called_offload r.0),
        record h { store = r.1 },
      )

  unfoldable pub served_alloc : Bytes → ℕ → Hosted → Called ℕ × Hosted
  served_alloc ks size h =
      let r = alloc_value pmem spdk threads (key_at ks) size h.store in
      (called r.0, record h { store = r.1 })

  unfoldable pub served_put : Bytes → ℕ → ℕ → Hosted → Called (Unit {0}) × Hosted
  served_put ks value size h =
      let r = put_value pmem spdk threads false (key_at ks) h.store in
      (called_put r.0, record h { store = r.1 })

  unfoldable pub served_remove : Bytes → Hosted → Called (Unit {0}) × Hosted
  served_remove ks h =
      let r = remove_value pmem spdk threads (key_at ks) (length ks) h.store in
      (called_offload r.0, record h { store = r.1 })

  unfoldable pub served_get_any : ℕ → Hosted → Called Bytes × Hosted
  served_get_any size h =
      let r = get_any pmem spdk threads h.store in
      (
        elim r.0 [
          | Requests.gives k ↦ gives (load_bytes 0 size k)
          | Requests.fails e ↦ fails e
          | Requests.undefined ↦ undefined
        ],
        record h { store = r.1 },
      )

  -- KVStore, as the handlers of DhtServer use it, with keys of this size
  abbrev pub kv_store_ops : ℕ → KvStoreOps Hosted
  kv_store_ops key_size = record {
    key_size = key_size;
    get = served_get;
    get_any = served_get_any;
    alloc = served_alloc;
    copy_value = λ p bs h. record h { memory = λ q. if q == p then bs else h.memory q };
    put = served_put;
    remove = served_remove;
  }
