-- ===== src/Dht/Client/Buffers.antt =====
-- lib/dht/DhtClient.cpp: the key and the value that a client hands out in its request message.
use daqdb.Base.{ℕ, ◌+◌, true, false, Option, none, some, length, leb, if◌then◌else◌}
use daqdb.Requests.{StatusCode}
use daqdb.Dht.Wire.{Called, gives, fails, store_bytes, Bytes, msg_header, max_request_size}
use daqdb.Dht.Client.{Key, in_msg, Value, key_size, DhtClient}

-- DhtClient::allocKey, which does not compare the size with the message's buffer
unfoldable pub alloc_key : ℕ → DhtClient → Called Key × DhtClient
alloc_key n c = if c.req_msg_buf_in_use then (fails StatusCode.dht_allocation_error, c) else (
  gives (in_msg n),
  record c { req_msg_buf_in_use = true; req_msg = record c.req_msg { key_size = n } },
)

-- DhtClient::alloc, which does not compare the sizes either
unfoldable pub alloc_value : Key → ℕ → DhtClient → Called Value × DhtClient
alloc_value k n c =
    if c.req_msg_buf_val_in_use then (fails StatusCode.dht_allocation_error, c) else (
      gives (Value.in_msg (key_size k) n),
      record c { req_msg_buf_val_in_use = true; req_msg = record c.req_msg { val_size = n } },
    )

-- The two forms of DhtClient::free
abbrev pub free_key : DhtClient → DhtClient
free_key c = record c { req_msg_buf_in_use = false }

abbrev pub free_value : DhtClient → DhtClient
free_value c = record c { req_msg_buf_val_in_use = false }

-- What a caller does with a key or a value in the message: it fills in the bytes. Bytes behind the end of the
-- buffer, which has the size of the largest request, are written to other memory: undefined, so nothing.
unfoldable pub write_at : ℕ → Bytes → DhtClient → Option DhtClient
write_at off bs c =
    if leb (msg_header + off + length bs) max_request_size
    then some (record c { req_msg = record c.req_msg { msg = store_bytes off bs c.req_msg.msg } })
    else none
