-- ===== src/Dht/Core/Routing.antt =====
-- DhtCore from its options to the node for a key.
use daqdb.Base.{ℕ, ◌<◌, ◌≡◌, refl, ◌∙◌, sym, subst, List, [], arith, lt→ltb, ltb-false, ==_false}
use daqdb.Dht.Core.{
  Key, DhtNeighbor, DhtNode, DhtCore, ok, undefined, create, init_neighbors, init_range_to_host,
  get_host_for_key, is_local_key,
}
use daqdb.Dht.Core.Hash.{Bytes, little_endian, gen_hash-little_endian, gen_hash_undefined}
use daqdb.Dht.Core.Hosts.{any_serves, Answers, init-Answers}

module _ (mask offset : ℕ) (options : List DhtNeighbor) (localhost : DhtNode) where
  built : DhtCore
  built = record {
    mask_length = mask;
    mask_offset = offset;
    local_node = (init_neighbors options localhost []).0;
    neighbors = (init_neighbors options localhost []).1;
    range_to_host = init_range_to_host (init_neighbors options localhost []).1 [];
  }

  create-built : mask < 9 → create mask offset options localhost ≡ ok built
  unfolding create built
  create-built h = rw (ltb-false 8 mask (omega (arith, h)), create) refl

  ok_injective : {a b : DhtCore} → ok a ≡ ok b → a ≡ b
  ok_injective e = cc

  -- The core that the constructor makes is this one.
  same : (c : DhtCore) → mask < 9 → create mask offset options localhost ≡ ok c → built ≡ c
  same c h e = ok_injective (sym (create-built h) ∙ e)

  built-Answers :
      (key : Key)
      → 0 < mask
      → mask < 4
      → Bytes key
      → Answers
          (little_endian mask key offset)
          built.neighbors
          (any_serves (little_endian mask key offset) built.neighbors)
          (get_host_for_key key built)
  unfolding get_host_for_key built
  built-Answers key pos small b =
      rw
        (
          ==_false mask 0 (λ e. omega (arith, pos, e)),
          gen_hash-little_endian mask offset key small b,
          get_host_for_key,
        )
        (init-Answers (little_endian mask key offset) (init_neighbors options localhost []).1)

  -- In a core that the constructor made for a mask of one to three bytes, getHostForKey gives a neighbor
  -- whose range holds the number that the masked bytes make, when there is one, and throws KEY_NOT_FOUND
  -- when there is none.
  pub get_host_for_key-Answers :
      (key : Key) (c : DhtCore)
      → create mask offset options localhost ≡ ok c
      → 0 < mask
      → mask < 4
      → Bytes key
      → Answers
          (little_endian mask key offset)
          c.neighbors
          (any_serves (little_endian mask key offset) c.neighbors)
          (get_host_for_key key c)
  get_host_for_key-Answers key c e pos small b =
      subst
        (λ c.
          Answers (little_endian mask key offset) c.neighbors
            (any_serves (little_endian mask key offset) c.neighbors) (get_host_for_key key c))
        (same c (omega (arith, small)) e) (built-Answers key pos small b)

  undefined_in_built :
      (key : Key)
      → 4 < mask
      → (get_host_for_key key built ≡ undefined) × (is_local_key key built ≡ undefined)
  unfolding get_host_for_key is_local_key built
  undefined_in_built key large = (
    rw
        (
          ==_false mask 0 (λ e. omega (arith, large, e)),
          gen_hash_undefined mask offset key large,
          get_host_for_key,
        )
        refl,
    rw
        (
          lt→ltb 0 mask (omega (arith, large)),
          gen_hash_undefined mask offset key large,
          is_local_key,
        )
        refl,
  )

  -- For a mask of five to eight bytes the constructor succeeds, and in the core that it makes getHostForKey and
  -- isLocalKey are undefined for every key.
  pub wide_mask_undefined :
      (key : Key)
      → 4 < mask
      → mask < 9
      → (c : DhtCore) × (create mask offset options localhost ≡ ok c)
        × (get_host_for_key key c ≡ undefined)
        × (is_local_key key c ≡ undefined)
  wide_mask_undefined key large small =
      let (a, b) = undefined_in_built key large in (built, create-built small, a, b)
