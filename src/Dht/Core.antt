-- ===== src/Dht/Core.antt =====
-- lib/dht/DhtCore.cpp: the hash of a key, and the map from ranges of hashes to nodes. The fields of a
-- neighbor's range are what stoi gives for them, as unsigned int; `none` is invalid_argument. Clients,
-- sessions and the seed are left out.
pub mod Hash
pub mod Hosts
pub mod Routing
pub mod Rotation
use daqdb.Base.{
  ℕ, zero, suc, ◌+◌, ◌-◌, ◌*◌, ◌%◌, ◌^◌, Bool, true, false, ◌&&◌, ◌||◌, Option, none, some, List,
  [], ◌∷◌, ◌++◌, ltb, leb, ◌==◌, if◌then◌else◌, get_elem?, length,
}

abbrev pub Key : Type 0
Key = ℕ → ℕ

pub record KeyRange : Type 0 where
  pub start : Option ℕ
  pub end : Option ℕ

pub record DhtNeighbor : Type 0 where
  pub uri : ℕ
  pub local : Bool
  pub key_range : KeyRange

-- `_start` and `_end` are unsigned int, 0 until they are set.
pub record DhtNode : Type 0 where
  pub uri : ℕ
  pub start : ℕ
  pub end : ℕ

pub data Outcome {ℓ} (A : Type ℓ) : Type ℓ where
  ok : A → Outcome A
  key_not_found : Outcome A
  not_supported : Outcome A
  undefined : Outcome A

-- An int that is widened to uint64_t: below zero it wraps around. Ints are given by their 32 bits.
abbrev pub widen : ℕ → ℕ
widen x = if ltb x (2 ^ 31) then x else x + 2 ^ 64 - 2 ^ 32

-- The order of ints, on their bits
abbrev pub signed : ℕ → ℕ
signed x = (x + 2 ^ 31) % 2 ^ 32

-- `uint8_t << shift`, an int; `none` where the shift is not smaller than its width.
unfoldable pub shift_left : ℕ → ℕ → Option ℕ
shift_left b shift = if ltb shift 32 then some (b * 2 ^ shift % 2 ^ 32) else none

-- The loop of `_genHash` from `i` on, with `n` rounds left
unfoldable pub hash_rounds : ℕ → Key → ℕ → ℕ → ℕ → Option ℕ
hash_rounds zero key mask_offset i sub_key = some sub_key
hash_rounds (suc n) key mask_offset i sub_key = elim (shift_left (key (mask_offset + i)) (i * 8)) [
  | none ↦ none
  | some v ↦ hash_rounds n key mask_offset (suc i) ((sub_key + widen v) % 2 ^ 64)
]

unfoldable pub gen_hash : ℕ → ℕ → Key → Option ℕ
gen_hash mask_length mask_offset key = hash_rounds mask_length key mask_offset 0 0

-- std::map<pair<int, int>, DhtNode *>, in the order of its keys
abbrev pub RangeToHost : Type 0
RangeToHost = List ((ℕ × ℕ) × DhtNode)

abbrev pub less : ℕ × ℕ → ℕ × ℕ → Bool
less (a, b) (c, d) = ltb (signed a) (signed c) || ((a == c) && ltb (signed b) (signed d))

-- `_rangeToHost[key] = neighbor`
unfoldable pub set_range : ℕ × ℕ → DhtNode → RangeToHost → RangeToHost
set_range k v [] = (k, v) ∷ []
set_range k v ((j, w) ∷ m) =
    let rest = set_range k v m in
    if (k.0 == j.0) && (k.1 == j.1)
    then (j, v) ∷ m
    else if less k j
    then (k, v) ∷ (j, w) ∷ m
    else (j, w) ∷ rest

unfoldable pub init_range_to_host : List DhtNode → RangeToHost → RangeToHost
init_range_to_host [] m = m
init_range_to_host (n ∷ ns) m = init_range_to_host ns (set_range (n.start, n.end) n m)

-- DhtCore
pub record DhtCore : Type 0 where
  pub mask_length : ℕ
  pub mask_offset : ℕ
  pub local_node : DhtNode
  pub neighbors : List DhtNode
  pub range_to_host : RangeToHost

-- The two calls of stoi stand in one try block: without a start the end is not set.
abbrev pub make_node : DhtNeighbor → DhtNode
make_node o = elim o.key_range.start [
  | none ↦ record { uri = o.uri; start = 0; end = 0 }
  | some s ↦ elim o.key_range.end [
    | none ↦ record { uri = o.uri; start = s; end = 0 }
    | some e ↦ record { uri = o.uri; start = s; end = e }
  ]
]

-- The node for localhost is there when no option is local; a later local option replaces an earlier one.
unfoldable pub init_neighbors : List DhtNeighbor → DhtNode → List DhtNode → DhtNode × List DhtNode
init_neighbors [] local ns = (local, ns)
init_neighbors (o ∷ os) local ns =
    let as_local = init_neighbors os (make_node o) ns in
    let as_neighbor = init_neighbors os local (ns ++ make_node o ∷ []) in
    if o.local then as_local else as_neighbor

-- The constructor. `localhost` is the default node.
unfoldable pub create : ℕ → ℕ → List DhtNeighbor → DhtNode → Outcome DhtCore
create mask_length mask_offset options localhost =
    if ltb 8 mask_length
    then not_supported
    else let (local, ns) = init_neighbors options localhost [] in
      ok (record {
        mask_length = mask_length;
        mask_offset = mask_offset;
        local_node = local;
        neighbors = ns;
        range_to_host = init_range_to_host ns [];
      })

unfoldable pub first_match : ℕ → RangeToHost → Outcome DhtNode
first_match h [] = key_not_found
first_match h ((k, v) ∷ m) =
    let rest = first_match h m in if leb (widen k.0) h && leb h (widen k.1) then ok v else rest

unfoldable pub get_host_for_key : Key → DhtCore → Outcome DhtNode
get_host_for_key key c =
    if c.mask_length == 0 then key_not_found else elim (gen_hash c.mask_length c.mask_offset key) [
      | none ↦ undefined
      | some h ↦ first_match h c.range_to_host
    ]

-- The index of the thread's last call comes along. Modulo zero is undefined.
unfoldable pub get_host_any : ℕ → DhtCore → Outcome (DhtNode × ℕ)
get_host_any idx c =
    let max_idx = length c.neighbors in
    if max_idx == 0 then undefined else elim (get_elem? c.neighbors ((idx + 1) % max_idx)) [
      | none ↦ undefined
      | some n ↦ ok (n, (idx + 1) % max_idx)
    ]

unfoldable pub is_local_key : Key → DhtCore → Outcome Bool
is_local_key key c =
    if ltb 0 c.mask_length
    then elim (gen_hash c.mask_length c.mask_offset key) [
      | none ↦ undefined
      | some h ↦ ok (leb c.local_node.start h && leb h c.local_node.end)
    ]
    else ok true
