-- ===== src/Dht/Client/Sessions.antt =====
-- lib/dht/DhtClient.cpp: initialize, which opens a session with each neighbor, and ping. What eRPC says of a
-- session is a parameter: the number it gives, and whether it is connected after so many runs of the loop.
use daqdb.Base.{
  ℕ, zero, suc, ◌+◌, ◌%◌, ◌^◌, ◌≡◌, ◌≤◌, ◌≢◌, inl, inr, refl, ap, sym, ◌∙◌, Bool, true, false, List,
  [], ◌∷◌, ◌==◌, if◌then◌else◌, Option, none, some, arith, Bool-cases, dec_lt, true_ne_false, map,
  ◌++◌, ==_false,
}
use daqdb.Requests.{StatusCode}
use daqdb.Dht.Wire.{Called, gives, fails, throws, undefined}

-- DhtClientState
pub data ClientState : Type 0 where
  init ready error stopped : ClientState

-- A neighbor, as the client sees it: `none` is ERPC_SESSION_NOT_SET.
pub record Peer : Type 0 where
  pub uri : ℕ
  pub session_id : Option ℕ

-- Sessions: create_session and is_connected
pub record SessionOps : Type 0 where
  pub create_session : ℕ → ℕ
  pub connected_after : ℕ → ℕ → Bool

-- WAIT_FOR_NEIGHBOUR_RETRIES
abbrev pub wait_for_neighbour_retries : ℕ
wait_for_neighbour_retries = 10

-- The loop of _initializeNode, with so many retries left and after `i` runs: the runs in the end
unfoldable pub wait_for_node : (ℕ → Bool) → ℕ → ℕ → ℕ
wait_for_node connected zero i = i
wait_for_node connected (suc retries) i =
    let rest = wait_for_node connected retries (suc i) in if connected i then i else rest

unfoldable pub initialize_node : SessionOps → Peer → Called (Unit {0}) × Peer
initialize_node ops p =
    let session = ops.create_session p.uri in
    let connected = ops.connected_after session in
    if connected (wait_for_node connected wait_for_neighbour_retries 0)
    then (gives tt, record p { session_id = some session })
    else (fails StatusCode.dht_connect_error, p)

-- The loop of initialize over the neighbors: an exception ends it. First a round of it.
unfoldable pub next_node :
    Called (Unit {0}) × Peer
    → List Peer
    → Called (Unit {0}) × List Peer
    → Called (Unit {0}) × List Peer
next_node (gives u, p) ps rest = (rest.0, p ∷ rest.1)
next_node (fails e, p) ps rest = (fails e, p ∷ ps)
next_node (throws, p) ps rest = (throws, p ∷ ps)
next_node (undefined, p) ps rest = (undefined, p ∷ ps)

unfoldable pub initialize_nodes : SessionOps → List Peer → Called (Unit {0}) × List Peer
unfolding next_node
initialize_nodes ops [] = (gives tt, [])
initialize_nodes ops (p ∷ ps) = next_node (initialize_node ops p) ps (initialize_nodes ops ps)

-- The server thread that a client talks to, as uint8_t; the seed is a uint64_t.
unfoldable pub remote_rpc_id : ℕ → ℕ → ℕ → ℕ → Option ℕ
remote_rpc_id base seed i threads =
    if threads == 0 then none else some ((base + ((seed + i) % 2 ^ 64) % threads) % 256)

abbrev pub state_after : Called (Unit {0}) → ClientState
state_after (gives u) = ClientState.ready
state_after (fails e) = ClientState.error
state_after throws = ClientState.error
state_after undefined = ClientState.error

-- initialize: what it comes to, with the state of the client, the id of its server thread and the neighbors.
-- It runs on the parameters of the hash table and the number of clients before it.
unfoldable pub initialize :
    SessionOps → ℕ → ℕ → ℕ → ℕ → List Peer → Called (Unit {0}) × ClientState × Option ℕ × List Peer
initialize ops base seed i threads ps = elim (remote_rpc_id base seed i threads) [
  | none ↦ (undefined, ClientState.init, none, ps)
  | some id ↦ let r = initialize_nodes ops ps in (r.0, state_after r.0, some id, r.1)
]

abbrev pub is_client_ready : ClientState → Bool
is_client_ready ClientState.init = false
is_client_ready ClientState.ready = true
is_client_ready ClientState.error = false
is_client_ready ClientState.stopped = false

-- ping, after so many runs of the loop
unfoldable pub ping : SessionOps → ClientState → ℕ → Peer → Called Bool × Peer
ping ops state now p =
    if is_client_ready state
    then elim p.session_id [
      | some session ↦ (gives (ops.connected_after session now), p)
      | none ↦
          let r = initialize_node ops p in
          elim r.0 [
            | gives u ↦ (gives true, r.1)
            | fails e ↦ (fails e, r.1)
            | throws ↦ (throws, r.1)
            | undefined ↦ (undefined, r.1)
          ]
    ]
    else (fails StatusCode.dht_disabled_error, p)

after :
    (connected : ℕ → Bool) (i m : ℕ) → i ≤ m → connected m ≡ true → connected i ≡ false → suc i ≤ m
after connected i m low yet later = elim (dec_lt i m) [
  | yes h ↦ h
  | no h ↦
      let same : m ≡ i = omega (arith, low, h) in
      absurd (true_ne_false (sym yet ∙ ap connected same ∙ later))
]

-- The loop stops where the session is connected, or after all its retries without it.
wait_for_node_ends :
    (connected : ℕ → Bool) (retries i m : ℕ)
    → i ≤ m
    → m ≤ i + retries
    → connected m ≡ true
    → connected (wait_for_node connected retries i) ≡ true
unfolding wait_for_node
wait_for_node_ends connected zero i m low high yet =
    let same : m ≡ i = omega (arith, low, high) in ap connected (sym same) ∙ yet
wait_for_node_ends connected (suc retries) i m low high yet = elim (Bool-cases (connected i)) [
  | inl now ↦ rw (now, now)
  | inr later ↦ rw later (
      wait_for_node_ends connected retries (suc i) m (after connected i m low yet later)
        (omega (arith, high)) yet)
]

wait_for_node_range :
    (connected : ℕ → Bool) (retries i : ℕ)
    → (i ≤ wait_for_node connected retries i) × (wait_for_node connected retries i ≤ i + retries)
unfolding wait_for_node
wait_for_node_range connected zero i = (omega arith, omega arith)
wait_for_node_range connected (suc retries) i =
    ground (arith, wait_for_node_range connected retries (suc i))

-- The session is connected after at most ten runs of the loop, or after none of these.
abbrev pub Reachable : SessionOps → Peer → Type 0
Reachable ops p =
    (m : ℕ) × (m ≤ wait_for_neighbour_retries)
    × (ops.connected_after (ops.create_session p.uri) m ≡ true)

abbrev pub Unreachable : SessionOps → Peer → Type 0
Unreachable ops p =
    (m : ℕ)
    → m ≤ wait_for_neighbour_retries
    → ops.connected_after (ops.create_session p.uri) m ≡ false

abbrev pub connect : SessionOps → Peer → Peer
connect ops p = record p { session_id = some (ops.create_session p.uri) }

initialize_node-Reachable :
    (ops : SessionOps) (p : Peer)
    → Reachable ops p
    → initialize_node ops p ≡ (gives tt, connect ops p)
unfolding initialize_node
initialize_node-Reachable ops p (m, low, yet) =
    let connected = ops.connected_after (ops.create_session p.uri) in
    rw (
      wait_for_node_ends connected wait_for_neighbour_retries 0 m (omega arith) (omega (arith, low))
        yet)

initialize_node-Unreachable :
    (ops : SessionOps) (p : Peer)
    → Unreachable ops p
    → initialize_node ops p ≡ (fails StatusCode.dht_connect_error, p)
unfolding initialize_node
initialize_node-Unreachable ops p never =
    let connected = ops.connected_after (ops.create_session p.uri) in
    let (low, high) = wait_for_node_range connected wait_for_neighbour_retries 0 in
    rw (never (wait_for_node connected wait_for_neighbour_retries 0) (omega (arith, high)))

abbrev pub All : (Peer → Type 0) → List Peer → Type 0
All P [] = Unit
All P (p ∷ ps) = P p × All P ps

initialize_nodes-Reachable :
    (ops : SessionOps) (ps : List Peer)
    → All (Reachable ops) ps
    → initialize_nodes ops ps ≡ (gives tt, map (connect ops) ps)
unfolding initialize_nodes
initialize_nodes-Reachable ops [] h = refl
initialize_nodes-Reachable ops (p ∷ ps) (h, hs) =
    rw (initialize_nodes, initialize_node-Reachable ops p h, initialize_nodes-Reachable ops ps hs)

initialize_nodes-Unreachable :
    (ops : SessionOps) (ps rest : List Peer) (p : Peer)
    → All (Reachable ops) ps
    → Unreachable ops p
    → initialize_nodes ops (ps ++ p ∷ rest)
      ≡ (fails StatusCode.dht_connect_error, map (connect ops) ps ++ p ∷ rest)
unfolding initialize_nodes
initialize_nodes-Unreachable ops [] rest p h never =
    rw (initialize_nodes, initialize_node-Unreachable ops p never)
initialize_nodes-Unreachable ops (q ∷ ps) rest p (h, hs) never = rw (
  initialize_nodes,
  initialize_node-Reachable ops q h,
  initialize_nodes-Unreachable ops ps rest p hs never,
)

module _ (ops : SessionOps) (base seed i threads : ℕ) (some_threads : threads ≢ 0) where
  abbrev id : ℕ
  id = (base + ((seed + i) % 2 ^ 64) % threads) % 256

  -- Where each neighbor is connected after at most ten runs of the loop, the client is ready, with a session
  -- for each neighbor. Otherwise the first that is not ends the start: the client is in error, and this
  -- neighbor and those after it keep the sessions that they had.
  pub initialize_lem :
      (ps rest : List Peer) (p : Peer)
      → All (Reachable ops) ps
      → Unreachable ops p
      → (initialize ops base seed i threads ps
          ≡ (gives tt, ClientState.ready, some id, map (connect ops) ps))
        × (initialize ops base seed i threads (ps ++ p ∷ rest) ≡ (
          fails StatusCode.dht_connect_error,
          ClientState.error,
          some id,
          map (connect ops) ps ++ p ∷ rest,
        ))
  unfolding remote_rpc_id initialize
  initialize_lem ps rest p h never = (
    rw (initialize, ==_false threads 0 some_threads, initialize_nodes-Reachable ops ps h),
    rw (
      initialize,
      ==_false threads 0 some_threads,
      initialize_nodes-Unreachable ops ps rest p h never,
    ),
  )
