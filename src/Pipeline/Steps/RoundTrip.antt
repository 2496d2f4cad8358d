-- ===== src/Pipeline/Steps/RoundTrip.antt =====
-- An update and a get of the same key, one after the other.
use daqdb.Base.{ℕ, ◌*◌, ◌%◌, ◌^◌, ◌≡◌, refl, ap, true, some, List, [], ◌∷◌, ◌++◌}
use daqdb.Base.Int.{ℤ}
use daqdb.Pmem.ArTree.{Key, Location, Action, ValueWrapper, Pmemobj}
use daqdb.Pmem.ArTree.Operations.{allocate_and_update_value_wrapper}
use daqdb.Pmem.ArTree.Search.{Bytes}
use daqdb.Pmem.ArTree.Views.{path, lookup, Valid}
use daqdb.Pmem.ArTree.Effects.{update_lem, on_disk}
use daqdb.Offload.FreeList
use daqdb.Offload.FreeList.{Pmem}
use daqdb.Offload.LbaAlloc.{LbaAlloc, get_lba}
use daqdb.Requests.{
  StatusCode, Rqst, callback, put, get_pool, update_pool, finalize_get, finalize_update,
}
use daqdb.Pipeline.{World, Spdk, accepted}
use daqdb.Pipeline.Bdev.{get_aligned_size, get_size_in_blk, to_uint64}
use daqdb.Pipeline.FinalizePoller.{device_addr_size}
use daqdb.Pipeline.Steps.{Reach, done, step, submit}
use daqdb.Pipeline.Steps.Conserved.{Idle}
use daqdb.Pipeline.Steps.GetRound.{at_rest, get_answered}
use daqdb.Pipeline.Steps.UpdateRound.{update_Reach, after_update, disk_addr}

module _ (spdk : Spdk) (pm : Pmem) (pmem : Pmemobj) where
  pub Reach-append :
      (rs qs : List Rqst) (u v w : World)
      → Reach spdk pm pmem rs u v
      → Reach spdk pm pmem qs v w
      → Reach spdk pm pmem (rs ++ qs) u w
  Reach-append rs qs u v w done h = h
  Reach-append rs qs u v w (step {u = x} s r) h = step s (Reach-append rs qs x v w r h)
  Reach-append rs qs u v w (submit {rs = ps} {u = x} q e r) h =
      submit q e (Reach-append ps qs x v w r h)

  -- The blocks of the device that hold a value of `n` bytes at an address
  abbrev pub blocks_of : ℕ → World → ℕ
  blocks_of n w = get_size_in_blk w.ctx (get_aligned_size w.ctx n)

  abbrev pub offset_of : ℕ → ℤ → World → ℕ
  offset_of n lba w = blocks_of n w * to_uint64 lba % 2 ^ 64

  -- A value that an update has moved to disk can be read from the blocks that it was written to: in a device
  -- at rest with a valid tree, where the value has a pending reservation, the tree and the allocator have room,
  -- the rings take requests, and SPDK accepts a write and a read of the value's blocks at the address that the
  -- allocator gives, whatever it does with other blocks, there is a run, the one in which SPDK completes both
  -- with success, of an update and then a get of the key. In it both are answered with OK, each once and in
  -- that order, the get with the value's size; both requests are back in their pools, and the pipeline is idle
  -- again.
  pub round_trip :
      (w : World) (key : Key) (key_size value : ℕ) (q r : Rqst) (lba : ℤ) (a : LbaAlloc)
      (wr : ValueWrapper) (iov : ℕ)
      → Bytes key
      → Valid w.tree
      → lookup w.tree (path key) ≡ some wr
      → wr.action_value ≡ Action.reserved
      → pmem.reserve_value device_addr_size w.tree.store ≡ some iov
      → get_lba pm wr.size w.lba_allocator ≡ (FreeList.ok lba, a)
      → spdk.ring_takes 0 ≡ true
      → ((u : World)
          → spdk.write_blocks (offset_of wr.size lba w) (blocks_of wr.size w) u ≡ accepted)
      → ((u : World)
          → spdk.read_blocks (offset_of wr.size lba w) (blocks_of wr.size w) u ≡ accepted)
      → (let update = finalize_update key key_size value wr.size true Location.pmem q in
          let get = finalize_get key key_size 0 0 true r in
          (v : World) × Reach spdk pm pmem (update ∷ get ∷ []) (at_rest w) v
          × Idle v
          × (v.log
              ≡ put get_pool (record get { value_size = wr.size })
                ∷ callback (record {
                  id = r.id;
                  status = StatusCode.ok;
                  key = key;
                  key_size = key_size;
                  value_size = wr.size;
                })
                ∷ put update_pool update
                ∷ callback (record {
                  id = q.id;
                  status = StatusCode.ok;
                  key = key;
                  key_size = key_size;
                  value_size = 0;
                })
                ∷ w.log))
  round_trip w key key_size value q r lba a wr iov bytes valid look act res got takes writes reads =
      let addr = disk_addr spdk pm pmem w key key_size value wr.size true q lba a in
      let ((answer, valid', (here, others)), at, elsewhere) =
        update_lem pmem key bytes w.tree valid wr device_addr_size iov addr look act res in
      let t = (allocate_and_update_value_wrapper pmem key device_addr_size addr w.tree).1 in
      let w' = after_update spdk pm pmem w key key_size value wr.size true q lba a t in
      let (v, reach, idle, same, log) =
        get_answered spdk pm pmem w' key key_size true r (on_disk iov wr) addr true bytes valid'
          here refl at takes reads in
      (
        v,
        Reach-append _ _ _ _ _
            (update_Reach spdk pm pmem w key key_size value wr.size true q lba a t got takes writes
              (ap (λ x. (x, t)) answer))
            reach,
        idle,
        log,
      )
