-- ===== src/Dht/Client/Filled.antt =====
-- The request that fillReqMsg of lib/dht/DhtClient.cpp writes, as the server reads it.
use daqdb.Base.{◌≡◌, refl, sym, ap, ◌∙◌, length, none, some, ==_refl, arith}
use daqdb.Dht.Wire.{Bytes, store_bytes, load_bytes, DaqdbDhtMsg}
use daqdb.Dht.Wire.Copies.{load-store, load-store_below, load-store_behind}
use daqdb.Dht.Server.{key_of, value_of}
use daqdb.Dht.Client.{
  Key, own, in_msg, Value, key_size, value_size, fill_key, fill_value, fill_req_msg, key_data,
}

-- The bytes of a key and of a value, for a client with this message
abbrev pub key_bytes : Key → DaqdbDhtMsg → Bytes
key_bytes (own bs) m = bs
key_bytes (in_msg n) m = load_bytes 0 n m.msg

abbrev pub value_bytes : Value → DaqdbDhtMsg → Bytes
value_bytes (Value.own bs) m = bs
value_bytes (Value.in_msg at n) m = load_bytes at n m.msg

-- A key of the client's memory has the size that allocKey wrote, and a value of it lies behind the key. A
-- value of the client's memory goes with a key of it: another key is copy_if_ok over it.
abbrev pub Placed : Key → DaqdbDhtMsg → Type 0
Placed (own bs) m = Unit
Placed (in_msg n) m = m.key_size ≡ n

abbrev pub PlacedBehind : Key → Value → Type 0
PlacedBehind k (Value.own bs) = Unit
PlacedBehind (own ks) (Value.in_msg at n) = at ≡ length ks
PlacedBehind (in_msg ks) (Value.in_msg at n) = at ≡ ks

-- The message with the key in it
abbrev pub with_key : Key → DaqdbDhtMsg → DaqdbDhtMsg
with_key (own bs) m = record m { key_size = length bs; msg = store_bytes 0 bs m.msg }
with_key (in_msg n) m = m

pub fill-with_key : (k : Key) (m : DaqdbDhtMsg) → fill_req_msg (some k) none m ≡ some (with_key k m)
unfolding fill_req_msg fill_value fill_key
fill-with_key (own bs) m = refl
fill-with_key (in_msg n) m = refl

pub key_of-with_key :
    (k : Key) (m : DaqdbDhtMsg) → Placed k m → key_of (with_key k m) ≡ key_bytes k m
key_of-with_key (own bs) m p = load-store 0 bs m.msg
key_of-with_key (in_msg n) m p = ap (λ n. load_bytes 0 n m.msg) p

pub key_data-with_key : (k : Key) (m : DaqdbDhtMsg) → key_data k (with_key k m) ≡ key_data k m
key_data-with_key (own bs) m = refl
key_data-with_key (in_msg n) m = refl

-- The message with the key and the value in it
abbrev pub with_value : Key → Value → DaqdbDhtMsg → DaqdbDhtMsg
with_value k (Value.own bs) m = record (with_key k m) {
  val_size = length bs;
  msg = store_bytes (key_size k) bs (with_key k m).msg;
}
with_value k (Value.in_msg at n) m = record (with_key k m) { val_size = n }

pub fill-with_value :
    (k : Key) (v : Value) (m : DaqdbDhtMsg)
    → PlacedBehind k v
    → fill_req_msg (some k) (some v) m ≡ some (with_value k v m)
unfolding fill_req_msg fill_value fill_key
fill-with_value (own ks) (Value.own bs) m p = refl
fill-with_value (in_msg ks) (Value.own bs) m p = refl
fill-with_value (own ks) (Value.in_msg at n) m p = rw (p, ==_refl (length ks))
fill-with_value (in_msg ks) (Value.in_msg at n) m p = rw (p, ==_refl ks)

key_size-with_key : (k : Key) (m : DaqdbDhtMsg) → Placed k m → (with_key k m).key_size ≡ key_size k
key_size-with_key (own bs) m p = refl
key_size-with_key (in_msg n) m p = p

pub key_of-with_value :
    (k : Key) (v : Value) (m : DaqdbDhtMsg) → Placed k m → key_of (with_value k v m) ≡ key_bytes k m
key_of-with_value k (Value.own bs) m p =
    load-store_below 0 (with_key k m).key_size (key_size k) bs (with_key k m).msg
      (omega (arith, key_size-with_key k m p))
    ∙ key_of-with_key k m p
key_of-with_value k (Value.in_msg at n) m p = key_of-with_key k m p

pub value_of-with_value :
    (k : Key) (v : Value) (m : DaqdbDhtMsg)
    → Placed k m
    → PlacedBehind k v
    → value_of (with_value k v m) ≡ value_bytes v m
value_of-with_value k (Value.own bs) m p b =
    ap (λ off. load_bytes off (length bs) (store_bytes (key_size k) bs (with_key k m).msg))
      (key_size-with_key k m p)
    ∙ load-store (key_size k) bs (with_key k m).msg
value_of-with_value (own ks) (Value.in_msg at n) m p b =
    ap (λ off. load_bytes off n (store_bytes 0 ks m.msg)) (sym b)
    ∙ load-store_behind at n 0 ks m.msg (omega (arith, b))
value_of-with_value (in_msg ks) (Value.in_msg at n) m p b =
    ap (λ off. load_bytes off n m.msg) (p ∙ sym b)

pub val_size-with_value :
    (k : Key) (v : Value) (m : DaqdbDhtMsg) → (with_value k v m).val_size ≡ value_size v
val_size-with_value k (Value.own bs) m = refl
val_size-with_value k (Value.in_msg at n) m = refl
