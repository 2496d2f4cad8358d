-- ===== src/Thin.antt =====
-- lib/thin/KVStoreThin.cpp: the store without a node of its own, over the client of the hash table. The calls
-- that throw FUNC_NOT_IMPLEMENTED or FUNC_NOT_SUPPORTED whatever they are given are left out.
pub mod Aliasing
use daqdb.Base.{
  ℕ, zero, suc, ◌+◌, ◌%◌, ◌^◌, ◌==◌, Bool, true, false, List, [], ◌∷◌, replicate, if◌then◌else◌,
}
use daqdb.Requests.{StatusCode}
use daqdb.Dht.Core.{DhtCore}
use daqdb.Dht.Wire.{Bytes, Called, gives, fails, throws, undefined}
use daqdb.Dht.Server.{KvStoreOps}
use daqdb.Dht.Client
use daqdb.Dht.Client.{Key, own, in_msg, Value, DhtClient, Erpc, Outcome, returns, waits, Sites}
use daqdb.Dht.Client.Buffers.{alloc_key, alloc_value, free_key, free_value}

-- DEFAULT_KEY_SIZE
abbrev pub default_key_size : ℕ
default_key_size = 16

abbrev pub sum : List ℕ → ℕ
sum [] = 0
sum (x ∷ xs) = x + sum xs

-- What the constructor makes of the sizes of the key's fields. It adds to a member that has no initial
-- value: what was there is the first argument. size_t wraps around.
unfoldable pub thin_key_size : ℕ → List ℕ → ℕ
thin_key_size before fields = if (before + sum fields) % 2 ^ 64 == 0 then 0 else default_key_size

-- What `new char[]` gives; its bytes count as 0.
abbrev pub new_bytes : ℕ → Bytes
new_bytes n = replicate n 0

-- KVStoreThin::Alloc
unfoldable pub thin_alloc : Bool → Key → ℕ → DhtClient → Called Value × DhtClient
thin_alloc kvs_buffered k size c =
    if size == 0
    then (fails StatusCode.einval, c)
    else if kvs_buffered
    then alloc_value k size c
    else (gives (Value.own (new_bytes size)), c)

-- KVStoreThin::AllocKey
unfoldable pub thin_alloc_key : Bool → ℕ → DhtClient → Called Key × DhtClient
thin_alloc_key kvs_buffered size c =
    if kvs_buffered then alloc_key size c else (gives (own (new_bytes size)), c)

-- KVStoreThin::Free. Memory of the caller's leaves no trace in the client.
unfoldable pub thin_free_value : Value → DhtClient → DhtClient
thin_free_value (Value.own bs) c = c
thin_free_value (Value.in_msg off n) c = free_value c

unfoldable pub thin_free_key : Key → DhtClient → DhtClient
thin_free_key (own bs) c = c
thin_free_key (in_msg n) c = free_key c

-- Put, once the client's put has come back: both buffers are freed, also before an exception is passed on.
unfoldable pub after_thin_put :
    {S : Type 0}
    → Outcome (Unit {0}) × DhtClient × Sites S
    → Outcome (Unit {0}) × DhtClient × Sites S
after_thin_put (returns (gives u), c, sites) = (returns (gives u), free_key (free_value c), sites)
after_thin_put (returns (fails e), c, sites) = (returns (fails e), free_key (free_value c), sites)
after_thin_put (returns throws, c, sites) = (returns throws, free_key (free_value c), sites)
after_thin_put (returns undefined, c, sites) = (returns undefined, c, sites)
after_thin_put (waits, c, sites) = (waits, c, sites)

module _ {S : Type 0} (kvs : KvStoreOps S) (erpc : Erpc S) (dht : DhtCore) where
  -- KVStoreThin::Get
  abbrev pub thin_get : Key → DhtClient → Sites S → Outcome Bytes × DhtClient × Sites S
  thin_get k c sites = Client.get kvs erpc dht k c sites

  -- KVStoreThin::GetAny
  abbrev pub thin_get_any : DhtClient → Sites S → Outcome Bytes × DhtClient × Sites S
  thin_get_any c sites = Client.get_any kvs erpc dht c sites

  -- KVStoreThin::Put
  unfoldable pub thin_put :
      Key → Value → DhtClient → Sites S → Outcome (Unit {0}) × DhtClient × Sites S
  thin_put k v c sites = after_thin_put (Client.put kvs erpc dht k v c sites)

  -- KVStoreThin::Remove
  abbrev pub thin_remove : Key → DhtClient → Sites S → Outcome (Unit {0}) × DhtClient × Sites S
  thin_remove k c sites = Client.remove kvs erpc dht k c sites
