-- ===== src/Dht/Wire/Copies.antt =====
-- Bytes that are copied into a message of lib/dht/DhtTypes.h and read from it.
use daqdb.Base.{
  ℕ, zero, suc, ◌+◌, ◌<◌, ◌≤◌, ◌≡◌, refl, ap, ◌∙◌, [], ◌∷◌, length, arith, ==_refl, ==_false,
}
use daqdb.Dht.Wire.{Bytes, Memory, store_bytes, load_bytes}

-- A copy leaves the places before it alone.
store_bytes-below : (off i : ℕ) (bs : Bytes) (m : Memory) → i < off → store_bytes off bs m i ≡ m i
unfolding store_bytes
store_bytes-below off i [] m h = refl
store_bytes-below off i (b ∷ bs) m h =
    rw (==_false i off (λ e. omega (arith, e, h)))
      (store_bytes-below (suc off) i bs m (omega (arith, h)))

store_bytes_at : (off b : ℕ) (bs : Bytes) (m : Memory) → store_bytes off (b ∷ bs) m off ≡ b
unfolding store_bytes
store_bytes_at off b bs m = rw (==_refl off)

store_bytes-above :
    (off i b : ℕ) (bs : Bytes) (m : Memory)
    → off < i
    → store_bytes off (b ∷ bs) m i ≡ store_bytes (suc off) bs m i
unfolding store_bytes
store_bytes-above off i b bs m h = rw (==_false i off (λ e. omega (arith, e, h)))

load_bytes_congr :
    (off n : ℕ) (m k : Memory)
    → ((i : ℕ) → off ≤ i → i < off + n → m i ≡ k i)
    → load_bytes off n m ≡ load_bytes off n k
unfolding load_bytes
load_bytes_congr off zero m k h = refl
load_bytes_congr off (suc n) m k h = rw (h off (omega arith) (omega arith)) (
    ap (λ r. k off ∷ r)
      (load_bytes_congr (suc off) n m k
        (λ i above below. h i (omega (arith, above)) (omega (arith, below)))))

-- Bytes that were copied are read back.
pub load-store :
    (off : ℕ) (bs : Bytes) (m : Memory) → load_bytes off (length bs) (store_bytes off bs m) ≡ bs
unfolding load_bytes
load-store off [] m = refl
load-store off (b ∷ bs) m = rw (store_bytes_at off b bs m) (
    ap (λ r. b ∷ r)
      (load_bytes_congr (suc off) (length bs) (store_bytes off (b ∷ bs) m)
          (store_bytes (suc off) bs m)
          (λ i above below. store_bytes-above off i b bs m (omega (arith, above)))
        ∙ load-store (suc off) bs m))

-- Bytes in front of a copy are read as before.
pub load-store_below :
    (off n to : ℕ) (bs : Bytes) (m : Memory)
    → off + n ≤ to
    → load_bytes off n (store_bytes to bs m) ≡ load_bytes off n m
load-store_below off n to bs m h =
    load_bytes_congr off n (store_bytes to bs m) m
      (λ i _ below. store_bytes-below to i bs m (omega (arith, h, below)))

store_bytes_after :
    (off i : ℕ) (bs : Bytes) (m : Memory) → off + length bs ≤ i → store_bytes off bs m i ≡ m i
unfolding store_bytes
store_bytes_after off i [] m h = refl
store_bytes_after off i (b ∷ bs) m h =
    rw (==_false i off (λ e. omega (arith, e, h)))
      (store_bytes_after (suc off) i bs m (omega (arith, h)))

-- Bytes behind a copy are read as before.
pub load-store_behind :
    (off n to : ℕ) (bs : Bytes) (m : Memory)
    → to + length bs ≤ off
    → load_bytes off n (store_bytes to bs m) ≡ load_bytes off n m
load-store_behind off n to bs m h =
    load_bytes_congr off n (store_bytes to bs m) m
      (λ i above _. store_bytes_after to i bs m (omega (arith, h, above)))
