-- ===== src/Dht/Wire.antt =====
-- The messages of lib/dht/DhtTypes.h between a client and a server of the hash table, in message buffers
-- of the sizes of lib/dht/DhtCore.h, and what a call can come to.
pub mod Copies
use daqdb.Base.{ℕ, zero, suc, ◌+◌, ◌==◌, if◌then◌else◌, List, [], ◌∷◌}
use daqdb.Requests.{StatusCode}

abbrev pub Bytes : Type 0
Bytes = List ℕ

abbrev pub Memory : Type 0
Memory = ℕ → ℕ

-- memcpy to an offset
unfoldable pub store_bytes : ℕ → Bytes → Memory → Memory
store_bytes off [] m i = m i
store_bytes off (b ∷ bs) m i =
    let rest = store_bytes (suc off) bs m i in if i == off then b else rest

-- The bytes from an offset on
unfoldable pub load_bytes : ℕ → ℕ → Memory → Bytes
load_bytes off zero m = []
load_bytes off (suc n) m = m off ∷ load_bytes (suc off) n m

-- ERPC_MAX_REQUEST_SIZE and ERPC_MAX_RESPONSE_SIZE
abbrev pub max_request_size : ℕ
max_request_size = 65600

abbrev pub max_response_size : ℕ
max_response_size = 65600

-- DaqdbDhtMsg. `msg` is the memory behind the two sizes.
pub record DaqdbDhtMsg : Type 0 where
  pub key_size : ℕ
  pub val_size : ℕ
  pub msg : Memory

-- sizeof(DaqdbDhtMsg) and sizeof(DaqdbDhtResult)
abbrev pub msg_header : ℕ
msg_header = 16

abbrev pub result_header : ℕ
result_header = 16

-- DaqdbDhtResult
pub record DaqdbDhtResult : Type 0 where
  pub status : StatusCode
  pub msg_size : ℕ
  pub msg : Memory

-- ErpRequestType
pub data ErpRequestType : Type 0 where
  get get_any put remove : ErpRequestType

-- What a call comes to: a result, an OperationFailedException with its status, another exception, or
-- undefined behaviour.
pub data Called {ℓ} (A : Type ℓ) : Type ℓ where
  gives : A → Called A
  fails : StatusCode → Called A
  throws : Called A
  undefined : Called A
