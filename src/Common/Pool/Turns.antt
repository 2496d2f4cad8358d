-- ===== src/Common/Pool/Turns.antt =====
-- The stamps of lib/common/GeneralPool.h, and the turns of its buckets.
use daqdb.Base.{
  ℕ, ◌+◌, ◌%◌, ◌<◌, ◌≡◌, ap, sym, ◌∙◌, Option, none, some, arith, get_elem?, set, ==_refl, ==_false,
  ◌≢◌, lt→ltb, leb-false, Option-cases, inl, inr,
}
use daqdb.Common.Bucket.{Bucket}
use daqdb.Common.Bucket.{get as get_object}
use daqdb.Common.Pool.{
  Object, ObjectPool, max_pool_buckets, size_range, word_range, make_stamp, stamp_size,
  stamp_bucket, get_from_bucket, get, put_to_bucket, put, put_pool,
}

stamp_size-make_stamp :
    (size n : ℕ) → size < size_range → n < max_pool_buckets → stamp_size (make_stamp size n) ≡ size
stamp_size-make_stamp size n h k = omega (arith, h, k)

stamp_bucket-make_stamp :
    (size n : ℕ) → size < size_range → n < max_pool_buckets → stamp_bucket (make_stamp size n) ≡ n
stamp_bucket-make_stamp size n h k = omega (arith, h, k)

turn :
    (counter : ℕ)
    → (((counter + 1) % word_range) % max_pool_buckets) ≡ (counter + 1) % max_pool_buckets
turn counter = omega arith

-- The pool after the bucket n served an object
abbrev Served : ℕ → ObjectPool → Object → ObjectPool → Type 0
Served n p o q =
    (b : Bucket) × (c : Bucket) × (get_elem? p.buckets n ≡ some b)
    × (get_object b ≡ some (o.number, c))
    × (o.stamp ≡ make_stamp p.obj_size n)
    × (q ≡ record p { buckets = set p.buckets n c })

get_from_bucket-none :
    (n : ℕ) (p : ObjectPool) → get_elem? p.buckets n ≡ none → get_from_bucket n p ≡ none
unfolding get_from_bucket
get_from_bucket-none n p e = rw (get_from_bucket, e)

get_from_bucket-abort :
    (n : ℕ) (p : ObjectPool) (b : Bucket)
    → get_elem? p.buckets n ≡ some b
    → get_object b ≡ none
    → get_from_bucket n p ≡ none
unfolding get_from_bucket
get_from_bucket-abort n p b e d = rw (get_from_bucket, e, d)

get_from_bucket-some :
    (n : ℕ) (p : ObjectPool) (b c : Bucket) (number : ℕ)
    → get_elem? p.buckets n ≡ some b
    → get_object b ≡ some (number, c)
    → get_from_bucket n p
      ≡ some (
        record { stamp = make_stamp p.obj_size n; number = number },
        record p { buckets = set p.buckets n c },
      )
unfolding get_from_bucket
get_from_bucket-some n p b c number e d = rw (get_from_bucket, e, d)

no_answer : {A : Type 0} {x : Option A} {a : A} → x ≡ none → x ≡ some a → ⊥
no_answer e h = cc

same_answer : {A : Type 0} {x : Option A} {a b : A} → x ≡ some a → x ≡ some b → a ≡ b
same_answer e h = cc

get_from_bucket-Served :
    (n : ℕ) (p : ObjectPool) (o : Object) (q : ObjectPool)
    → get_from_bucket n p ≡ some (o, q)
    → Served n p o q
get_from_bucket-Served n p o q h = elim (Option-cases (get_elem? p.buckets n)) [
  | inl e ↦ absurd (no_answer (get_from_bucket-none n p e) h)
  | inr (b, e) ↦ elim (Option-cases (get_object b)) [
    | inl d ↦ absurd (no_answer (get_from_bucket-abort n p b e d) h)
    | inr ((number, c), d) ↦
        let same = same_answer (get_from_bucket-some n p b c number e d) h in
        let object = ap (λ s. s.0) same in
        (
          b,
          c,
          e,
          d ∙ ap (λ o. some (Object.number o, c)) object,
          sym (ap Object.stamp object),
          sym (ap (λ s. s.1) same),
        )
  ]
]

-- An object with the stamp of a bucket goes to this bucket.
put_stamped :
    (o : Object) (n : ℕ) (p : ObjectPool)
    → stamp_size o.stamp ≡ p.obj_size
    → stamp_bucket o.stamp ≡ n
    → n < max_pool_buckets
    → put o p ≡ put_to_bucket n o.number p
unfolding put
put_stamped o n p e d k = rw (put, e, d, ==_refl p.obj_size, leb-false max_pool_buckets n k)

put_pool-put :
    (o : Object) (pool : ℕ) (p : ObjectPool) → pool < max_pool_buckets → put_pool o pool p ≡ put o p
unfolding put_pool
put_pool-put o pool p h = rw (put_pool, lt→ltb pool max_pool_buckets h)

get-Served :
    (p : ObjectPool) (o : Object) (q : ObjectPool)
    → get p ≡ some (o, q)
    → Served
        (p.counter % max_pool_buckets)
        (record p { counter = (p.counter + 1) % word_range })
        o
        q
unfolding get
get-Served p o q h =
    get_from_bucket-Served (p.counter % max_pool_buckets)
      (record p { counter = (p.counter + 1) % word_range }) o q h

-- Where objects are smaller than 2 ^ 24 bytes and get answers, the object is the next one of the bucket
-- that the counter names, modulo 64, and no other bucket changes; the next get is served by the bucket
-- after it, also where the counter wraps around. Both forms of put then give the object back to that same
-- bucket, whatever bucket the caller names.
pub put-get :
    (p : ObjectPool) (o : Object) (q : ObjectPool) (pool : ℕ)
    → p.obj_size < size_range
    → pool < max_pool_buckets
    → get p ≡ some (o, q)
    → (b : Bucket) × (c : Bucket) × (get_elem? p.buckets (p.counter % max_pool_buckets) ≡ some b)
      × (get_object b ≡ some (o.number, c))
      × (q.buckets ≡ set p.buckets (p.counter % max_pool_buckets) c)
      × (q.counter % max_pool_buckets ≡ (p.counter + 1) % max_pool_buckets)
      × (put o q ≡ put_to_bucket (p.counter % max_pool_buckets) o.number q)
      × (put_pool o pool q ≡ put_to_bucket (p.counter % max_pool_buckets) o.number q)
put-get p o q pool h k answer =
    let (b, c, e, d, stamp, after) = get-Served p o q answer in
    let n = p.counter % max_pool_buckets in
    let small : n < max_pool_buckets = omega arith in
    let size : stamp_size o.stamp ≡ q.obj_size =
      ap stamp_size stamp
      ∙ stamp_size-make_stamp p.obj_size n h small
      ∙ sym (ap ObjectPool.obj_size after) in
    let bucket : stamp_bucket o.stamp ≡ n =
      ap stamp_bucket stamp ∙ stamp_bucket-make_stamp p.obj_size n h small in
    let back = put_stamped o n q size bucket small in
    (
      b,
      c,
      e,
      d,
      ap ObjectPool.buckets after,
      ap (λ r. ObjectPool.counter r % max_pool_buckets) after ∙ turn p.counter,
      back,
      put_pool-put o pool q k ∙ back,
    )

-- An object from a pool of objects below 2 ^ 24 bytes is never taken by a pool of another object size: put
-- and put with the number of a bucket abort.
put_foreign :
    (p q r : ObjectPool) (o : Object) (pool : ℕ)
    → p.obj_size < size_range
    → q.obj_size ≢ p.obj_size
    → pool < max_pool_buckets
    → get p ≡ some (o, r)
    → (put o q ≡ none) × (put_pool o pool q ≡ none)
unfolding put
put_foreign p q r o pool h ne k answer =
    let (b, c, e, d, stamp, after) = get-Served p o r answer in
    let n = p.counter % max_pool_buckets in
    let small : n < max_pool_buckets = omega arith in
    let size : stamp_size o.stamp ≡ p.obj_size =
      ap stamp_size stamp ∙ stamp_size-make_stamp p.obj_size n h small in
    let refused : put o q ≡ none =
      rw (put, size, ==_false p.obj_size q.obj_size (λ e. ne (sym e))) in
    (refused, put_pool-put o pool q k ∙ refused)
