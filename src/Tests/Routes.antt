-- ===== src/Tests/Routes.antt =====
-- The routing of lib/dht/DhtCore.cpp between two nodes that share the values of one byte.
use daqdb.Base.{ℕ, ◌+◌, ◌*◌, ◌%◌, ◌≡◌, refl, false, some, List, [], ◌∷◌, arith}
use daqdb.Dht.Core.{
  Key, DhtNeighbor, DhtNode, DhtCore, ok, undefined, create, init_neighbors, init_range_to_host,
  get_host_for_key, gen_hash, is_local_key,
}
use daqdb.Dht.Core.Hash.{Bytes, little_endian, gen_hash-little_endian}
use daqdb.Dht.Core.Hosts.{any_serves, Answers}
use daqdb.Dht.Core.Routing.{get_host_for_key-Answers, wide_mask_undefined}

abbrev key : Key
key i = (i * 7 + 200) % 256

key-Bytes : Bytes key
key-Bytes i = omega arith

abbrev option_at : ℕ → ℕ → ℕ → DhtNeighbor
option_at uri a b = record {
  uri = uri;
  local = false;
  key_range = record { start = some a; end = some b };
}

abbrev pub node_at : ℕ → ℕ → ℕ → DhtNode
node_at uri a b = record { uri = uri; start = a; end = b }

abbrev options : List DhtNeighbor
options = option_at 1 128 255 ∷ option_at 2 0 127 ∷ []

abbrev nodes : List DhtNode
nodes = node_at 1 128 255 ∷ node_at 2 0 127 ∷ []

abbrev pub core : DhtCore
core = record {
  mask_length = 1;
  mask_offset = 0;
  local_node = node_at 0 0 0;
  neighbors = nodes;
  range_to_host = init_range_to_host nodes [];
}

makes_core : create 1 0 options (node_at 0 0 0) ≡ ok core
unfolding create init_neighbors
makes_core = refl

get_host_for_key-Answers_example :
    Answers
      (little_endian 1 key 0)
      nodes
      (any_serves (little_endian 1 key 0) nodes)
      (get_host_for_key key core)
get_host_for_key-Answers_example =
    get_host_for_key-Answers 1 0 options (node_at 0 0 0) key core makes_core (omega arith)
      (omega arith) key-Bytes

wide_mask_undefined_example :
    (c : DhtCore) × (create 8 0 options (node_at 0 0 0) ≡ ok c)
    × (get_host_for_key key c ≡ undefined)
    × (is_local_key key c ≡ undefined)
wide_mask_undefined_example =
    wide_mask_undefined 8 0 options (node_at 0 0 0) key (omega arith) (omega arith)

gen_hash-little_endian_example : gen_hash 3 2 key ≡ some (little_endian 3 key 2)
gen_hash-little_endian_example = gen_hash-little_endian 3 2 key (omega arith) key-Bytes
