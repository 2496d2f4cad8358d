-- ===== src/Offload/LbaAlloc/Stack.antt =====
-- A bucket as a stack: what `get` returns after `put`.
use daqdb.Base.{
  ℕ, suc, ◌-◌, ◌<◌, ◌≡◌, refl, none, some, arith, leb, set, length, get_elem?, get_elem?_lt,
  get_elem?-set_ne, false, ltb-false, lt→ltb, ==_false,
}
use daqdb.Base.Int.{ℤ}
use daqdb.Offload.LbaAlloc.{LbaBucket, bucket_get, bucket_put, lbas_size}

leb-false : (a b : ℕ) → b < a → leb a b ≡ false
leb-false a b h = ground arith

pred_suc : (n : ℕ) → suc n - 1 ≡ n
pred_suc n = omega arith

-- On a bucket of 1024 places with a level below 1023, `put lba` and then `get` succeed and return the LBA
-- that stood at `level` before, whatever `lba` is, with the level of before.
get-put :
    (b : LbaBucket) (lba : ℤ)
    → length b.lbas ≡ lbas_size
    → suc b.level < lbas_size
    → (old : ℤ) × (c : LbaBucket) × (d : LbaBucket) × (get_elem? b.lbas b.level ≡ some old)
      × (bucket_put b lba ≡ some c)
      × (bucket_get c ≡ some (old, d))
      × (d.level ≡ b.level)
unfolding bucket_get bucket_put
get-put b lba len h =
    let (old, e) = get_elem?_lt b.lbas b.level (omega arith) in
    let c = record b { level = suc b.level; lbas = set b.lbas (suc b.level) lba } in
    (
      old,
      c,
      record c { level = b.level },
      e,
      rw (
        leb-false lbas_size b.level (omega arith),
        lt→ltb (suc b.level) (length b.lbas) (omega arith),
      ),
      rw (
        ==_false (suc b.level) 0 (λ p. omega arith),
        pred_suc b.level,
        get_elem?-set_ne b.lbas (suc b.level) b.level lba (λ p. omega arith),
        e,
        pred_suc b.level,
      ),
      refl,
    )

-- On a bucket of 1024 places at level 1023 `put` writes behind the array.
put_full :
    (b : LbaBucket) (lba : ℤ)
    → length b.lbas ≡ lbas_size
    → suc b.level ≡ lbas_size
    → bucket_put b lba ≡ none
unfolding bucket_put
put_full b lba len h = rw (
  leb-false lbas_size b.level (omega arith),
  ltb-false (suc b.level) (length b.lbas) (omega arith),
)
