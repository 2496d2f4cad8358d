-- ===== src/Common/Bucket/Traces.antt =====
-- Sequences of put and get of lib/common/GeneralPoolBucket.h against a queue.
use daqdb.Base.{
  ℕ, zero, suc, ◌+◌, ◌-◌, ◌/◌, ◌<◌, ◌≤◌, ◌≡◌, refl, ap, sym, ◌∙◌, none, some, Option, List, [], ◌∷◌,
  ◌++◌, arith, length, length-snoc, cons_head, cons_tail,
}
use daqdb.Common.Bucket.{Bucket, put, get, AllocStrategy, set_strategy, new_bucket}
use daqdb.Common.Bucket.Fifo.{
  capacity, IsQueue, numbers, make-IsQueue, new_bucket-IsQueue, put-IsQueue,
}
use daqdb.Common.Bucket.Gets.{supplied, refills, get-IsQueue}

pub data BucketOp : Type 0 where
  putting : ℕ → BucketOp
  getting : BucketOp

-- The objects that the gets of a sequence answer
unfoldable pub served : List BucketOp → Bucket → Option (List ℕ)
served [] b = some []
served (putting x ∷ ops) b = elim (put x b) [ none ↦ none | some c ↦ served ops c ]
served (getting ∷ ops) b = elim (get b) [
  | none ↦ none
  | some (x, c) ↦ elim (served ops c) [ none ↦ none | some xs ↦ some (x ∷ xs) ]
]

-- The same of a queue: a get of an empty one makes `inc` objects, numbered from `made`.
abbrev pub queued : ℕ → List BucketOp → ℕ → List ℕ → List ℕ
queued inc [] made q = []
queued inc (putting x ∷ ops) made q = queued inc ops made (q ++ x ∷ [])
queued inc (getting ∷ ops) made [] =
    made ∷ queued inc ops (made + inc) (numbers (made + 1) (inc - 1))
queued inc (getting ∷ ops) made (x ∷ q) = x ∷ queued inc ops made q

length-numbers : (m n : ℕ) → length (numbers m n) ≡ n
length-numbers m zero = refl
length-numbers m (suc n) = ap suc (length-numbers (m + 1) n)

numbers_first : (m n : ℕ) → 0 < n → numbers m n ≡ m ∷ numbers (m + 1) (n - 1)
numbers_first m zero h = absurd (omega arith)
numbers_first m (suc n) h = ap (λ k. m ∷ numbers (m + 1) k) (omega arith)

queued_getting :
    (b : Bucket) (q ops rest : _) (x : ℕ)
    → 0 < b.quant_inc
    → supplied b q ≡ x ∷ rest
    → queued b.quant_inc (getting ∷ ops) b.made q
      ≡ x ∷ queued b.quant_inc ops (b.made + refills b q) rest
queued_getting b [] ops rest x h e =
    let f = sym (numbers_first b.made b.quant_inc h) ∙ e in
    ap
      (λ y.
        y ∷ queued b.quant_inc ops (b.made + b.quant_inc) (numbers (b.made + 1) (b.quant_inc - 1)))
      (cons_head f)
    ∙ ap (λ l. x ∷ queued b.quant_inc ops (b.made + b.quant_inc) l) (cons_tail f)
queued_getting b (y ∷ q) ops rest x h e =
    ap (λ y. y ∷ queued b.quant_inc ops b.made q) (cons_head e)
    ∙ ap (λ l. x ∷ queued b.quant_inc ops b.made l) (cons_tail e)
    ∙ ap (λ k. x ∷ queued b.quant_inc ops k rest) (omega arith)

supplied_room :
    (b : Bucket) (q rest : List ℕ) (x n : ℕ)
    → supplied b q ≡ x ∷ rest
    → length q + suc n ≤ capacity
    → b.quant_inc + suc n ≤ capacity
    → length rest + n ≤ capacity
supplied_room b [] rest x n e h i = omega (arith, ap length e, length-numbers b.made b.quant_inc, i)
supplied_room b (y ∷ q) rest x n e h i = omega (arith, ap length e, h)

-- A sequence of puts and gets on a bucket that holds the objects of the queue q succeeds, where a refill makes
-- at least one object, and the bucket has room for the objects of q and one for each call, and for those of
-- a refill and one for each call. The gets answer what those of the queue answer: the oldest object, or the
-- first of those that a get of an empty queue makes.
pub served-queued :
    (ops : List BucketOp) (b : Bucket) (q : List ℕ)
    → IsQueue b q
    → 0 < b.quant_inc
    → length q + length ops ≤ capacity
    → b.quant_inc + length ops ≤ capacity
    → served ops b ≡ some (queued b.quant_inc ops b.made q)
unfolding served
served-queued [] b q r p h i = refl
served-queued (putting x ∷ ops) b q r p h i =
    let (c, e, s, k) = put-IsQueue b q x r (omega arith) in
    rw (served, e)
      (served-queued ops c (q ++ x ∷ []) s (omega (arith, k.1, p))
          (omega (arith, length-snoc q x, h)) (omega (arith, k.1, i))
        ∙ ap (λ m. some (queued c.quant_inc ops m (q ++ x ∷ []))) k.0
        ∙ ap (λ n. some (queued n ops b.made (q ++ x ∷ []))) k.1)
served-queued (getting ∷ ops) b q r p h i =
    let (x, rest, c, t, e, s, k, l) = get-IsQueue b q r p (omega arith) in
    let u =
      served-queued ops c rest s (omega (arith, l, p)) (supplied_room b q rest x (length ops) t h i)
        (omega (arith, l, i)) in
    rw (served, e, u)
      (ap (λ m. some (x ∷ queued c.quant_inc ops m rest)) k
        ∙ ap (λ n. some (x ∷ queued n ops (b.made + refills b q) rest)) l
        ∙ ap some (sym (queued_getting b q ops rest x p t)))

-- setStrategy on a new bucket makes the preallocated objects, where they fit, and stores them in order.
pub set_strategy-IsQueue :
    (obj_size made : ℕ) (s : AllocStrategy)
    → s.preallocate_count / obj_size ≤ capacity
    → (c : Bucket) × (set_strategy obj_size s (new_bucket made) ≡ some c)
      × IsQueue c (numbers made (s.preallocate_count / obj_size))
unfolding set_strategy new_bucket
set_strategy-IsQueue obj_size made s h =
    let (c, e, q, k, l) =
      make-IsQueue (s.preallocate_count / obj_size) _ [] (new_bucket-IsQueue made _ _)
        (omega arith) in
    (c, e, q)
