-- ===== src/Pipeline/IoBufs/Reuse.antt =====
-- The memory of the buffers of lib/spdk/SpdkIoBuf.cpp in sequences of gets and puts.
use daqdb.Base.{
  ℕ, ◌*◌, ◌/◌, ◌%◌, ◌≡◌, ◌⊎◌, inl, inr, refl, ap, sym, ◌∙◌, subst, Bool, true, false, Option, none,
  some, Option-cases, List, [], ◌∷◌, arith,
}
use daqdb.Pipeline.IoBufs.{
  PoolOps, Direction, SpdkIoBufMgr, new_mgr, SpdkIoBuf, pooled, DmaZmalloc, memory_of, zmalloced,
  get_io_buf, put_io_buf,
}
use daqdb.Pipeline.{BdevCtx}
use daqdb.Pipeline.Bdev.{get_optimal_size}
use daqdb.Pipeline.IoBufs.Sizes.{
  AllHave, Allows, Got, some_eq, impossible, get_io_buf-Got, some_eq, impossible,
  get_io_buf-AllHave, put_io_buf-AllHave,
}

-- A get with its size and alignment, or a put
pub data Call : Type 0 where
  getting : Direction → ℕ → ℕ → Call
  putting : Direction → SpdkIoBuf → Call

-- The gets of a sequence have sizes of whole pages.
abbrev pub PageSized : List Call → Type 0
PageSized [] = Unit {0}
PageSized (getting d io_size align ∷ calls) = (io_size % 4096 ≡ 0) × PageSized calls
PageSized (putting d b ∷ calls) = PageSized calls

-- No memory, or as many pages as the number of the class
abbrev InPages : ℕ → ℕ → Option ℕ → Type 0
InPages k n o = (o ≡ none) ⊎ (o ≡ some (4096 * k))

-- One buffer has memory of this size.
abbrev Keeps : ℕ → ℕ → ℕ → ℕ → ℕ → Option ℕ → Type 0
Keeps k n s j i o = j ≡ k → i ≡ n → o ≡ some s

whole_pages : (io_size : ℕ) → io_size % 4096 ≡ 0 → io_size ≡ 4096 * (io_size / 4096)
whole_pages io_size e = omega arith

just_pages :
    (io_size n : ℕ) (o : Option ℕ)
    → io_size % 4096 ≡ 0
    → InPages (io_size / 4096) n o
    → (o ≡ none) ⊎ (o ≡ some io_size)
just_pages io_size n o e (inl h) = inl h
just_pages io_size n o e (inr h) = inr (h ∙ ap some (sym (whole_pages io_size e)))

given_or_not :
    (io_size : ℕ) (given : Bool)
    → (zmalloced io_size given ≡ none) ⊎ (zmalloced io_size given ≡ some io_size)
given_or_not io_size true = inr refl
given_or_not io_size false = inl refl

module _ {P : Type 0} (ops : PoolOps P) (dma : DmaZmalloc P) where
  -- The manager after a sequence of calls
  unfoldable pub run : List Call → SpdkIoBufMgr P → Option (SpdkIoBufMgr P)
  run [] m = some m
  run (getting d io_size align ∷ calls) m = elim (get_io_buf ops dma d io_size align m) [
    | none ↦ none
    | some (b, m') ↦ run calls m'
  ]
  run (putting d b ∷ calls) m = elim (put_io_buf ops d b m) [ none ↦ none | some m' ↦ run calls m' ]

  -- Each size of a sequence is allowed.
  EachAllowed : (ℕ → ℕ → Option ℕ → Type 0) → List Call → Type 0
  EachAllowed Has [] = Unit {0}
  EachAllowed Has (getting d io_size align ∷ calls) =
      Allows Has ops dma io_size × EachAllowed Has calls
  EachAllowed Has (putting d b ∷ calls) = EachAllowed Has calls

  run-AllHave :
      (Has : ℕ → ℕ → Option ℕ → Type 0) (calls : List Call) (m m' : SpdkIoBufMgr P)
      → EachAllowed Has calls
      → AllHave Has m
      → run calls m ≡ some m'
      → AllHave Has m'
  unfolding run EachAllowed
  run-AllHave Has [] m m' a all e = subst (AllHave Has) (sym (some_eq e)) all
  run-AllHave Has (getting d io_size align ∷ calls) m m' a all e =
      elim (Option-cases (get_io_buf ops dma d io_size align m)) [
        | inl t ↦
            absurd (
              impossible (sym (ap (λ o. elim o [ none ↦ none | some (b, n) ↦ run calls n ]) t) ∙ e))
        | inr ((b, n), t) ↦
            run-AllHave Has calls n m' a.1
              (get_io_buf-AllHave Has ops dma d io_size align m n b a.0 all t)
              (sym (ap (λ o. elim o [ none ↦ none | some (b, n) ↦ run calls n ]) t) ∙ e)
      ]
  run-AllHave Has (putting d b ∷ calls) m m' a all e = elim (Option-cases (put_io_buf ops d b m)) [
    | inl t ↦
        absurd (impossible (sym (ap (λ o. elim o [ none ↦ none | some n ↦ run calls n ]) t) ∙ e))
    | inr (n, t) ↦
        run-AllHave Has calls n m' a (put_io_buf-AllHave Has ops d b m n all t)
          (sym (ap (λ o. elim o [ none ↦ none | some n ↦ run calls n ]) t) ∙ e)
  ]

  pages_allowed : (io_size : ℕ) → io_size % 4096 ≡ 0 → Allows InPages ops dma io_size
  pages_allowed io_size e n true none h = inr (ap some (whole_pages io_size e))
  pages_allowed io_size e n false none h = inl refl
  pages_allowed io_size e n given (some s) h = h

  all_pages : (calls : List Call) → PageSized calls → EachAllowed InPages calls
  unfolding EachAllowed
  all_pages [] p = tt
  all_pages (getting d io_size align ∷ calls) p = (pages_allowed io_size p.0, all_pages calls p.1)
  all_pages (putting d b ∷ calls) p = all_pages calls p

  any_size_allowed : (k n s : ℕ) (io_size : ℕ) → Allows (Keeps k n s) ops dma io_size
  any_size_allowed k n s io_size i given o h e f =
      ap (λ x. elim x [ none ↦ zmalloced io_size given | some t ↦ some t ]) (h e f)

  any_sizes : (k n s : ℕ) (calls : List Call) → EachAllowed (Keeps k n s) calls
  unfolding EachAllowed
  any_sizes k n s [] = tt
  any_sizes k n s (getting d io_size align ∷ calls) =
      (any_size_allowed k n s io_size, any_sizes k n s calls)
  any_sizes k n s (putting d b ∷ calls) = any_sizes k n s calls

  page_memory :
      (d : Direction) (io_size align : ℕ) (m m' : SpdkIoBufMgr P) (b : SpdkIoBuf)
      → io_size % 4096 ≡ 0
      → AllHave InPages m'
      → Got dma d io_size align m b m'
      → (memory_of b m' ≡ none) ⊎ (memory_of b m' ≡ some io_size)
  unfolding Got memory_of
  page_memory d io_size align m m' b e all (inl (n, p, f, h)) =
      subst (λ x. (memory_of x m' ≡ none) ⊎ (memory_of x m' ≡ some io_size)) (sym f)
        (just_pages io_size n _ e (all (io_size / 4096) n))
  page_memory d io_size align m m' b e all (inr (f, h)) =
      subst (λ x. (memory_of x m' ≡ none) ⊎ (memory_of x m' ≡ some io_size)) (sym f)
        (given_or_not io_size (dma io_size align m))

  -- After calls on a new manager whose gets have sizes of whole pages, a get of such a size gives a buffer
  -- with memory of just that size, or with none, where spdk_dma_zmalloc gave none.
  pub handed_out :
      (writes reads : ℕ → P) (calls : List Call) (d : Direction) (io_size align : ℕ)
      (m m' : SpdkIoBufMgr P) (b : SpdkIoBuf)
      → PageSized calls
      → run calls (new_mgr writes reads) ≡ some m
      → io_size % 4096 ≡ 0
      → get_io_buf ops dma d io_size align m ≡ some (b, m')
      → (memory_of b m' ≡ none) ⊎ (memory_of b m' ≡ some io_size)
  handed_out writes reads calls d io_size align m m' b p r e g =
      let all =
        run-AllHave InPages calls (new_mgr writes reads) m (all_pages calls p) (λ k n. inl refl)
          r in
      page_memory d io_size align m m' b e
        (get_io_buf-AllHave InPages ops dma d io_size align m m' b (pages_allowed io_size e) all g)
        (get_io_buf-Got ops dma d io_size align m m' b g)

  -- A buffer that has memory keeps it through calls of any sizes: a get that gives the buffer out once more
  -- gives it with the memory that it had, whatever size is asked for.
  pub first_memory_stays :
      (k n s : ℕ) (calls : List Call) (d : Direction) (io_size align : ℕ)
      (m m' m'' : SpdkIoBufMgr P)
      → memory_of (pooled k n) m ≡ some s
      → run calls m ≡ some m'
      → get_io_buf ops dma d io_size align m' ≡ some (pooled k n, m'')
      → memory_of (pooled k n) m'' ≡ some s
  unfolding memory_of
  first_memory_stays k n s calls d io_size align m m' m'' h r g =
      get_io_buf-AllHave (Keeps k n s) ops dma d io_size align m' m'' (pooled k n)
        (any_size_allowed k n s io_size)
        (run-AllHave (Keeps k n s) calls m m' (any_sizes k n s calls)
          (λ j i e f.
            ap (λ x. (m.bufs x i).spdk_dma_buf) e ∙ ap (λ y. (m.bufs k y).spdk_dma_buf) f ∙ h)
          r)
        g k n refl refl

-- The sizes that the offload poller and the device ask for, where io_min_size is a page as in SpdkBdevCtx
get_optimal_size-whole :
    (c : BdevCtx) (size : ℕ) → c.io_min_size ≡ 4096 → get_optimal_size c size % 4096 ≡ 0
unfolding get_optimal_size
get_optimal_size-whole c size e = rw (get_optimal_size, e) (ground arith)
