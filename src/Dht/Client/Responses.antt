-- ===== src/Dht/Client/Responses.antt =====
-- What a response of lib/dht/DhtServer.cpp holds, and what lib/dht/DhtClient.cpp makes of it.
use daqdb.Base.{ℕ, ◌+◌, ◌-◌, ◌≡◌, ◌≢◌, ◌≤◌, refl, ap, [], length, none, le→leb}
use daqdb.Requests.{StatusCode}
use daqdb.Dht.Core.{DhtCore}
use daqdb.Dht.Wire.{
  Bytes, store_bytes, load_bytes, max_response_size, result_header, DaqdbDhtResult, Called, gives,
  fails, throws, undefined,
}
use daqdb.Dht.Wire.Copies.{load-store}
use daqdb.Dht.Server.{
  KvStoreOps, responds, RespBuf, erpc_prepare_msgbuf, bare_result, respond_bare, respond_bytes,
  answer_bare, answer_value,
}
use daqdb.Dht.Client.{
  DhtClient, answered, Erpc, returns, Sites, set_site, clb_get, clb_put, check_status, no_result,
  pointed, and_read, copy_if_ok, run_to_response,
}

-- What a handler of the server can answer, with room for so many bytes
abbrev pub Answerable : Called Bytes → Type 0
Answerable (gives bs) = length bs ≤ max_response_size - result_header
Answerable (fails e) = e ≢ StatusCode.ok
Answerable throws = ⊥
Answerable undefined = ⊥

abbrev pub AnswerableBare : Called (Unit {0}) → Type 0
AnswerableBare (gives u) = Unit
AnswerableBare (fails e) = e ≢ StatusCode.ok
AnswerableBare throws = ⊥
AnswerableBare undefined = ⊥

check_status-fails : (e : StatusCode) → e ≢ StatusCode.ok → check_status e ≡ fails e
unfolding check_status
check_status-fails StatusCode.ok h = absurd (h refl)
check_status-fails _ h = refl

-- What the handlers answer, and what the client makes of it
abbrev pub value_result : Called Bytes → DaqdbDhtResult
value_result (gives bs) = record {
  status = StatusCode.ok;
  msg_size = length bs;
  msg = store_bytes 0 bs (λ i. 0);
}
value_result (fails e) = bare_result e
value_result throws = bare_result StatusCode.unknown_error
value_result undefined = bare_result StatusCode.unknown_error

abbrev pub unit_result : Called (Unit {0}) → DaqdbDhtResult
unit_result (gives u) = bare_result StatusCode.ok
unit_result (fails e) = bare_result e
unit_result throws = bare_result StatusCode.unknown_error
unit_result undefined = bare_result StatusCode.unknown_error

module _ {S : Type 0} where
  pub answer_value_lem :
      (q : Called Bytes) (s : S)
      → Answerable q
      → (buf : RespBuf) × (size : ℕ) × (answer_value (q, s) ≡ responds buf size (value_result q) s)
  unfolding answer_value respond_bytes respond_bare
  answer_value_lem (gives bs) s h = (
    erpc_prepare_msgbuf max_response_size,
    result_header + length bs,
    rw (le→leb (length bs) (max_response_size - result_header) h),
  )
  answer_value_lem (fails e) s h = (_, _, refl)
  answer_value_lem throws s h = absurd h
  answer_value_lem undefined s h = absurd h

  pub answer_bare_lem :
      (q : Called (Unit {0})) (s : S)
      → AnswerableBare q
      → (buf : RespBuf) × (size : ℕ) × (answer_bare (q, s) ≡ responds buf size (unit_result q) s)
  unfolding answer_bare respond_bare
  answer_bare_lem (gives u) s h = (_, _, refl)
  answer_bare_lem (fails e) s h = (_, _, refl)
  answer_bare_lem throws s h = absurd h
  answer_bare_lem undefined s h = absurd h

module _ {S : Type 0} (kvs : KvStoreOps S) (erpc : Erpc S) (dht : DhtCore) where
  pub run-value :
      (node : ℕ) (q : Called Bytes) (s : S) (c : DhtClient) (sites : Sites S)
      → Answerable q
      → (let out =
            run_to_response kvs erpc dht node clb_get
              (λ ctx. pointed ctx.value)
              (answered (value_result q) s)
              c
              sites in
          (out.0 ≡ returns q) × (out.2 ≡ set_site node s sites))
  unfolding run_to_response clb_get copy_if_ok and_read pointed check_status load_bytes
  run-value node (gives bs) s c sites h =
      (ap (λ bs. returns (gives bs)) (load-store 0 bs (λ i. 0)), refl)
  run-value node (fails e) s c sites h = (
    ap (λ t. returns (and_read t (pointed (copy_if_ok e [] none)))) (check_status-fails e h),
    refl,
  )
  run-value node throws s c sites h = absurd h
  run-value node undefined s c sites h = absurd h

  pub run-unit :
      (node : ℕ) (q : Called (Unit {0})) (s : S) (c : DhtClient) (sites : Sites S)
      → AnswerableBare q
      → (let out =
            run_to_response kvs erpc dht node clb_put no_result
              (answered (unit_result q) s)
              c
              sites in
          (out.0 ≡ returns q) × (out.2 ≡ set_site node s sites))
  unfolding run_to_response clb_put and_read check_status
  run-unit node (gives u) s c sites h = (refl, refl)
  run-unit node (fails e) s c sites h =
      (ap (λ t. returns (and_read t (gives tt))) (check_status-fails e h), refl)
  run-unit node throws s c sites h = absurd h
  run-unit node undefined s c sites h = absurd h
