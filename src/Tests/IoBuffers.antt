-- ===== src/Tests/IoBuffers.antt =====
-- The buffers of lib/spdk/SpdkIoBuf.cpp, with pools that hold what they are given as a stack.
use daqdb.Base.{◌≡◌, refl, ℕ, true, Option, none, some, List, [], ◌∷◌, ◌⊎◌}
use daqdb.Pipeline.IoBufs.{
  PoolOps, writing, reading, SpdkIoBufMgr, new_mgr, SpdkIoBuf, pooled, DmaZmalloc, memory_of,
  get_io_buf, put_io_buf,
}
use daqdb.Pipeline.IoBufs.Reuse.{Call, getting, putting, run, handed_out, first_memory_stays}

abbrev stack_get : List ℕ → Option (ℕ × List ℕ)
stack_get [] = none
stack_get (x ∷ xs) = some (x, xs)

abbrev stack : PoolOps (List ℕ)
stack = record { get = stack_get; put = λ x xs. some (x ∷ xs) }

abbrev enough : DmaZmalloc (List ℕ)
enough size align m = true

abbrev one_each : SpdkIoBufMgr (List ℕ)
one_each = new_mgr (λ k. 7 ∷ []) (λ k. 9 ∷ [])

abbrev page_calls : List Call
page_calls = getting writing 8192 4096 ∷ putting writing (pooled 2 7) ∷ []

mgr_or_first : Option (SpdkIoBufMgr (List ℕ)) → SpdkIoBufMgr (List ℕ)
mgr_or_first none = one_each
mgr_or_first (some m) = m

mgr_of : Option (SpdkIoBuf × SpdkIoBufMgr (List ℕ)) → SpdkIoBufMgr (List ℕ)
mgr_of none = one_each
mgr_of (some (b, m)) = m

-- A buffer of two pages is given back and given out again.
abbrev page_mgr : SpdkIoBufMgr (List ℕ)
page_mgr = mgr_or_first (run stack enough page_calls one_each)

abbrev page_mgr_after : SpdkIoBufMgr (List ℕ)
page_mgr_after = mgr_of (get_io_buf stack enough writing 8192 4096 page_mgr)

handed_out_example :
    (memory_of (pooled 2 7) page_mgr_after ≡ none)
    ⊎ (memory_of (pooled 2 7) page_mgr_after ≡ some 8192)
unfolding run get_io_buf put_io_buf mgr_or_first mgr_of
handed_out_example =
    handed_out stack enough (λ k. 7 ∷ []) (λ k. 9 ∷ []) page_calls writing 8192 4096 page_mgr
      page_mgr_after (pooled 2 7) (refl, tt) refl refl refl

-- A buffer for 512 bytes is given back, and given out for 1024.
abbrev small_mgr : SpdkIoBufMgr (List ℕ)
small_mgr = mgr_of (get_io_buf stack enough reading 512 512 one_each)

abbrev small_calls : List Call
small_calls = putting reading (pooled 0 9) ∷ []

abbrev small_mgr_back : SpdkIoBufMgr (List ℕ)
small_mgr_back = mgr_or_first (run stack enough small_calls small_mgr)

abbrev small_mgr_again : SpdkIoBufMgr (List ℕ)
small_mgr_again = mgr_of (get_io_buf stack enough reading 1024 512 small_mgr_back)

first_memory_stays_example : memory_of (pooled 0 9) small_mgr_again ≡ some 512
unfolding run get_io_buf put_io_buf memory_of mgr_or_first mgr_of
first_memory_stays_example =
    first_memory_stays stack enough 0 9 512 small_calls reading 1024 512 small_mgr small_mgr_back
      small_mgr_again refl refl refl
