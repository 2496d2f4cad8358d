-- ===== src/KvStore/Rollback.antt =====
-- KVStore::Put of lib/core/KVStore.cpp over the tree: what a Get finds after it.
use daqdb.Base.{ℕ, ◌≡◌, ◌≤◌, refl, ap, ◌∙◌, subst, false, some, ltb-false}
use daqdb.Pmem.ArTree.{Key, Action, ValueWrapper, Pmemobj}
use daqdb.Pmem.ArTree.Operations
use daqdb.Pmem.ArTree.Operations.{ArTree, Entry, read_wrapper}
use daqdb.Pmem.ArTree.Search.{Bytes}
use daqdb.Pmem.ArTree.Views.{path, lookup, Valid}
use daqdb.Pmem.ArTree.Effects.{Puts, put_lem, stored, get-remove, get-lookup, found, Sets}
use daqdb.Requests.{StatusCode, Reply, gives, fails, undefined}
use daqdb.Pipeline.{Spdk}
use daqdb.Primary.{PrimaryKey, enqueue_next}
use daqdb.KvStore.{KvStore, Threads, with_tree, set_tree}
use daqdb.KvStore.Node.{put_value, after_enqueue, roll_back, get_into, get_at}

module _ (pmem : Pmemobj) (spdk : Spdk) (threads : Threads) (key : Key) (bounded : Bytes key)
    (s : KvStore) (valid : Valid s.world.tree) (w : ValueWrapper)
    (look : lookup s.world.tree (path key) ≡ some w) where
  abbrev pub put_tree : ArTree
  put_tree = (Operations.put pmem key s.world.tree).1

  puts :
      Sets pmem key bounded s.world.tree valid tt (stored w) (Operations.put pmem key s.world.tree)
  puts =
      subst (λ o. Puts pmem key bounded s.world.tree valid o (Operations.put pmem key s.world.tree))
        look (put_lem pmem key bounded s.world.tree valid)

  -- Put, once the tree has taken the value
  pub put_enqueues :
      (q : Reply (Unit {0}) × PrimaryKey)
      → enqueue_next spdk.ring_takes key s.p_key ≡ q
      → put_value pmem spdk threads false key s
        ≡ after_enqueue pmem spdk threads key q (set_tree s put_tree)
  unfolding put_value with_tree
  put_enqueues q e =
      ap
        (λ o.
          with_tree (o, put_tree)
            (λ _ s'.
              after_enqueue pmem spdk threads key (enqueue_next spdk.ring_takes key s'.p_key) s')
            s)
        puts.0
      ∙ ap (λ x. after_enqueue pmem spdk threads key x (set_tree s put_tree)) e

  -- When the queue of ready keys fails, Put of a value that AllocValueForKey reserved fails in the same
  -- way, and the Get of the key that follows is undefined: it reads the wrapper that the removal freed.
  pub put_rolled_back :
      (e : StatusCode) (p : PrimaryKey) (key_size capacity : ℕ)
      → w.action_value ≡ Action.reserved
      → enqueue_next spdk.ring_takes key s.p_key ≡ (fails e, p)
      → (let r = put_value pmem spdk threads false key s in
          (r.0 ≡ fails e) × ((get_into pmem spdk threads key key_size capacity r.1).0 ≡ undefined))
  unfolding after_enqueue roll_back get_into with_tree
  put_rolled_back e p key_size capacity act full =
      let removed = Operations.remove pmem key put_tree in
      let (gone, bad) =
        get-remove pmem key bounded put_tree puts.1 (stored w) puts.2.0 refl refl act in
      let s' : KvStore = record (set_tree s put_tree) { p_key = p } in
      let rolled =
        put_enqueues (fails e, p) full
        ∙ ap (λ o. roll_back pmem spdk threads e (o, removed.1) s') gone in
      (
        ap (λ r. r.0) rolled,
        ap (λ r. (get_into pmem spdk threads key key_size capacity r.1).0) rolled
            ∙ ap
                (λ o.
                  (with_tree (o, (Operations.get pmem key removed.1).1)
                    (λ (v : Entry).
                      get_at pmem spdk threads v.location key key_size capacity v.size)
                    (set_tree s' removed.1)).0)
                bad,
      )

  -- When the key is enqueued, or belongs to another node, Put succeeds, and a Get of the key that
  -- follows, into a buffer that is large enough, gives the size of the value.
  pub get_into-put_value :
      (p : PrimaryKey) (key_size capacity : ℕ)
      → w.size ≤ capacity
      → enqueue_next spdk.ring_takes key s.p_key ≡ (gives tt, p)
      → (let r = put_value pmem spdk threads false key s in
          (r.0 ≡ gives tt)
          × ((get_into pmem spdk threads key key_size capacity r.1).0 ≡ gives w.size))
  unfolding after_enqueue get_into with_tree read_wrapper get_at
  get_into-put_value p key_size capacity room kept =
      let answer =
        get-lookup pmem key bounded put_tree puts.1 ∙ ap (λ o. (found o, put_tree)) puts.2.0 in
      (
        ap (λ r. r.0) (put_enqueues (gives tt, p) kept),
        ap (λ r. (get_into pmem spdk threads key key_size capacity r.1).0)
              (put_enqueues (gives tt, p) kept)
            ∙ ap
                (λ x.
                  (with_tree x
                    (λ (v : Entry).
                      get_at pmem spdk threads v.location key key_size capacity v.size)
                    (record (set_tree s put_tree) { p_key = p })).0)
                answer
            ∙ rw (ltb-false capacity w.size room) refl,
      )
