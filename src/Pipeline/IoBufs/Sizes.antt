-- ===== src/Pipeline/IoBufs/Sizes.antt =====
-- The memory of the buffers of lib/spdk/SpdkIoBuf.cpp: what a get and a put do to it.
use daqdb.Base.{
  ℕ, ◌/◌, ◌≡◌, ◌⊎◌, inl, inr, refl, ap, sym, ◌∙◌, Bool, Option, none, some, ltb, ==_refl, ==_false,
  Bool-cases, ℕ_discrete, ◌≢◌, subst, if◌then◌else◌,
}
use daqdb.Pipeline.IoBufs.{
  PoolOps, Direction, writing, reading, SpdkIoSizedBuf, SpdkIoBufMgr, SpdkIoBuf, pooled, single,
  DmaZmalloc, block_size, set_buf, set_pool, pool_of, index_buf, zmalloced, with_memory, get_io_buf,
  put_io_buf, is_minus_one, pooled_buf, taken_back,
}

same_buf :
    {P : Type 0} (m : SpdkIoBufMgr P) (k n : ℕ) (b : SpdkIoSizedBuf)
    → (set_buf k n b m).bufs k n ≡ b
unfolding set_buf
same_buf m k n b = rw (==_refl k, ==_refl n) refl

other_class :
    {P : Type 0} (m : SpdkIoBufMgr P) (k n j i : ℕ) (b : SpdkIoSizedBuf)
    → k ≢ j
    → (set_buf k n b m).bufs j i ≡ m.bufs j i
unfolding set_buf
other_class m k n j i b h = rw (==_false k j h) refl

other_buf :
    {P : Type 0} (m : SpdkIoBufMgr P) (k n i : ℕ) (b : SpdkIoSizedBuf)
    → n ≢ i
    → (set_buf k n b m).bufs k i ≡ m.bufs k i
unfolding set_buf
other_buf m k n i b h = rw (==_refl k, ==_false n i h) refl

some_left :
    {A B : Type 0} {a c : A} {x y : B}
    → ◌≡◌ {A = Option (A × B)} (some (a, x)) (some (c, y))
    → c ≡ a
some_left e = cc

some_right :
    {A B : Type 0} {a c : A} {x y : B}
    → ◌≡◌ {A = Option (A × B)} (some (a, x)) (some (c, y))
    → y ≡ x
some_right e = cc

pub some_eq : {A : Type 0} {x y : A} → some x ≡ some y → y ≡ x
some_eq e = cc

pub impossible : {A : Type 0} {x : A} → none ≡ some x → ⊥
impossible e = cc

-- A pool of the size's class gives the buffer, or it is made for this use.
unfoldable pub Got :
    {P : Type 0} (dma : DmaZmalloc P)
    → Direction
    → ℕ
    → ℕ
    → SpdkIoBufMgr P
    → SpdkIoBuf
    → SpdkIoBufMgr P
    → Type 0
Got {P} dma d io_size align m b m' =
    let k = io_size / 4096 in
    ((n : ℕ) × (p : P) × (b ≡ pooled k n)
      × (m'
          ≡ set_buf k n (with_memory io_size (dma io_size align m) (index_buf d k (m.bufs k n)))
              (set_pool d k p m)))
    ⊎ ((b ≡ single (zmalloced io_size (dma io_size align m))) × (m' ≡ m))

pooled_buf-Got :
    {P : Type 0} (dma : DmaZmalloc P) (d : Direction) (io_size align : ℕ) (m m' : SpdkIoBufMgr P)
    (b : SpdkIoBuf) (o : Option (ℕ × P))
    → pooled_buf d io_size (dma io_size align m) m o ≡ some (b, m')
    → Got dma d io_size align m b m'
unfolding pooled_buf Got
pooled_buf-Got dma d io_size align m m' b none e = absurd (impossible e)
pooled_buf-Got dma d io_size align m m' b (some (n, p)) e = inl (n, p, some_left e, some_right e)

pub get_io_buf-Got :
    {P : Type 0} (ops : PoolOps P) (dma : DmaZmalloc P) (d : Direction) (io_size align : ℕ)
    (m m' : SpdkIoBufMgr P) (b : SpdkIoBuf)
    → get_io_buf ops dma d io_size align m ≡ some (b, m')
    → Got dma d io_size align m b m'
unfolding get_io_buf Got
get_io_buf-Got ops dma d io_size align m m' b e =
    elim (Bool-cases (ltb (io_size / 4096) block_size)) [
      | inl t ↦ pooled_buf-Got dma d io_size align m m' b (ops.get (pool_of d (io_size / 4096) m)) (
          sym (
            ap
              (λ x.
                if x
                then pooled_buf d io_size (dma io_size align m) m
                    (ops.get (pool_of d (io_size / 4096) m))
                else some (single (zmalloced io_size (dma io_size align m)), m))
              t)
          ∙ e)
      | inr t ↦
          let f =
            sym (
              ap
                (λ x.
                  if x
                  then pooled_buf d io_size (dma io_size align m) m
                      (ops.get (pool_of d (io_size / 4096) m))
                  else some (single (zmalloced io_size (dma io_size align m)), m))
                t)
            ∙ e in
          inr (some_left f, some_right f)
    ]

taken_back_pool :
    {P : Type 0} (d : Direction) (k : ℕ) (m m' : SpdkIoBufMgr P) (o : Option P)
    → taken_back d k m o ≡ some m'
    → (p : P) × (m' ≡ set_pool d k p m)
unfolding taken_back
taken_back_pool d k m m' none e = absurd (impossible e)
taken_back_pool d k m m' (some p) e = (p, some_eq e)

-- What every buffer has for memory
module _ {P : Type 0} (Has : ℕ → ℕ → Option ℕ → Type 0) where
  abbrev pub AllHave : SpdkIoBufMgr P → Type 0
  AllHave m = (k n : ℕ) → Has k n (m.bufs k n).spdk_dma_buf

  pub set_buf-AllHave :
      (m : SpdkIoBufMgr P) (k n : ℕ) (b : SpdkIoSizedBuf)
      → AllHave m
      → Has k n b.spdk_dma_buf
      → AllHave (set_buf k n b m)
  set_buf-AllHave m k n b all s j i = elim (ℕ_discrete k j) [
    | no h ↦ subst (λ c. Has j i c.spdk_dma_buf) (sym (other_class m k n j i b h)) (all j i)
    | yes e ↦
        subst (λ x. Has x i ((set_buf k n b m).bufs x i).spdk_dma_buf) e
          (elim (ℕ_discrete n i) [
            | no h ↦ subst (λ c. Has k i c.spdk_dma_buf) (sym (other_buf m k n i b h)) (all k i)
            | yes d ↦
                subst (λ x. Has k x ((set_buf k n b m).bufs k x).spdk_dma_buf) d
                  (subst (λ c. Has k n c.spdk_dma_buf) (sym (same_buf m k n b)) s)
          ])
  ]

  pub set_pool-AllHave :
      (d : Direction) (k : ℕ) (p : P) (m : SpdkIoBufMgr P) → AllHave m → AllHave (set_pool d k p m)
  unfolding set_pool
  set_pool-AllHave writing k p m all = all
  set_pool-AllHave reading k p m all = all

  module _ (ops : PoolOps P) (dma : DmaZmalloc P) where
    -- What a size may do to a buffer of its class
    abbrev pub Allows : ℕ → Type 0
    Allows io_size =
        (n : ℕ) (given : Bool) (o : Option ℕ)
        → Has (io_size / 4096) n o
        → Has (io_size / 4096) n (elim o [ none ↦ zmalloced io_size given | some s ↦ some s ])

    Got-AllHave :
        (d : Direction) (io_size align : ℕ) (m m' : SpdkIoBufMgr P) (b : SpdkIoBuf)
        → Allows io_size
        → AllHave m
        → Got dma d io_size align m b m'
        → AllHave m'
    unfolding Got
    Got-AllHave d io_size align m m' b allows all (inr (e, f)) = subst AllHave (sym f) all
    Got-AllHave writing io_size align m m' b allows all (inl (n, p, e, f)) = subst AllHave (sym f) (
        set_buf-AllHave (set_pool writing (io_size / 4096) p m) (io_size / 4096) n _
          (set_pool-AllHave writing (io_size / 4096) p m all)
          (allows n (dma io_size align m) _ (all (io_size / 4096) n)))
    Got-AllHave reading io_size align m m' b allows all (inl (n, p, e, f)) = subst AllHave (sym f) (
        set_buf-AllHave (set_pool reading (io_size / 4096) p m) (io_size / 4096) n _
          (set_pool-AllHave reading (io_size / 4096) p m all)
          (allows n (dma io_size align m) _ (all (io_size / 4096) n)))

    pub get_io_buf-AllHave :
        (d : Direction) (io_size align : ℕ) (m m' : SpdkIoBufMgr P) (b : SpdkIoBuf)
        → Allows io_size
        → AllHave m
        → get_io_buf ops dma d io_size align m ≡ some (b, m')
        → AllHave m'
    get_io_buf-AllHave d io_size align m m' b allows all e =
        Got-AllHave d io_size align m m' b allows all
          (get_io_buf-Got ops dma d io_size align m m' b e)

  pub put_io_buf-AllHave :
      (ops : PoolOps P) (d : Direction) (b : SpdkIoBuf) (m m' : SpdkIoBufMgr P)
      → AllHave m
      → put_io_buf ops d b m ≡ some m'
      → AllHave m'
  unfolding put_io_buf
  put_io_buf-AllHave ops d (single s) m m' all e = subst AllHave (sym (some_eq e)) all
  put_io_buf-AllHave ops d (pooled k n) m m' all e =
      elim (Bool-cases (is_minus_one (m.bufs k n).back_idx)) [
        | inl t ↦ absurd (
            impossible (
              sym (ap (λ x. if x then none else taken_back d k m (ops.put n (pool_of d k m))) t)
              ∙ e))
        | inr t ↦
            let (p, f) = taken_back_pool d k m m' (ops.put n (pool_of d k m)) (
              sym (ap (λ x. if x then none else taken_back d k m (ops.put n (pool_of d k m))) t)
              ∙ e) in
            subst AllHave (sym f) (set_pool-AllHave d k p m all)
      ]
