-- ===== src/Dht/Core/Hash.antt =====
-- DhtCore::_genHash against the little-endian number that the masked bytes make.
use daqdb.Base.{
  ℕ, zero, suc, ◌+◌, ◌*◌, ◌%◌, ◌^◌, ◌<◌, ◌≡◌, refl, ap, ◌∙◌, none, some, arith, lt→ltb, ltb-false,
  dec_lt,
}
use daqdb.Dht.Core.{Key, widen, shift_left, hash_rounds, gen_hash}

-- n bytes from `offset` on, the first one lowest
abbrev pub little_endian : ℕ → Key → ℕ → ℕ
little_endian zero key offset = 0
little_endian (suc n) key offset = key offset + 256 * little_endian n key (offset + 1)

abbrev pub Bytes : Key → Type 0
Bytes key = (i : ℕ) → key i < 256

widen_small : (x : ℕ) → x < 2 ^ 31 → widen x ≡ x
widen_small x h = rw (lt→ltb x (2 ^ 31) h) refl

mod_small32 : (x : ℕ) → x < 2 ^ 31 → x % 2 ^ 32 ≡ x
mod_small32 x h = omega (arith, h)

mod_small64 : (x : ℕ) → x < 2 ^ 64 → x % 2 ^ 64 ≡ x
mod_small64 x h = omega (arith, h)

shift_small : (b s p : ℕ) → s < 32 → 2 ^ s ≡ p → b * p < 2 ^ 31 → shift_left b s ≡ some (b * p)
unfolding shift_left
shift_small b s p h e lt = rw (lt→ltb s 32 h, e, mod_small32 (b * p) lt) refl

plus_zero : (n : ℕ) → n + 0 ≡ n
plus_zero n = omega arith

plus_two : (n : ℕ) → n + 1 + 1 ≡ n + 2
plus_two n = omega arith

round :
    (n i p : ℕ) (key : Key) (offset acc : ℕ)
    → i * 8 < 32
    → 2 ^ (i * 8) ≡ p
    → key (offset + i) * p < 2 ^ 31
    → acc + key (offset + i) * p < 2 ^ 64
    → hash_rounds (suc n) key offset i acc
      ≡ hash_rounds n key offset (suc i) (acc + key (offset + i) * p)
unfolding hash_rounds
round n i p key offset acc h e lt total =
    rw
      (
        shift_small (key (offset + i)) (i * 8) p h e lt,
        widen_small (key (offset + i) * p) lt,
        mod_small64 (acc + key (offset + i) * p) total,
        hash_rounds,
      )
      refl

-- For a mask of at most three bytes the hash is the number that they make, the first one lowest.
pub gen_hash-little_endian :
    (n offset : ℕ) (key : Key)
    → n < 4
    → Bytes key
    → gen_hash n offset key ≡ some (little_endian n key offset)
unfolding gen_hash hash_rounds
gen_hash-little_endian zero offset key h b = refl
gen_hash-little_endian (suc zero) offset key h b =
    let b0 : key (offset + 0) < 256 = b (offset + 0) in
    round 0 0 1 key offset 0 (omega arith) refl (omega (arith, b0)) (omega (arith, b0))
    ∙ ap some (omega (arith, ap key (plus_zero offset)))
gen_hash-little_endian (suc (suc zero)) offset key h b =
    let b0 : key (offset + 0) < 256 = b (offset + 0) in
    let b1 : key (offset + 1) < 256 = b (offset + 1) in
    round 1 0 1 key offset 0 (omega arith) refl (omega (arith, b0)) (omega (arith, b0))
    ∙ round 0 1 256 key offset (0 + key (offset + 0) * 1) (omega arith) refl (omega (arith, b1))
        (omega (arith, b0, b1))
    ∙ ap some (omega (arith, ap key (plus_zero offset)))
gen_hash-little_endian (suc (suc (suc zero))) offset key h b =
    let b0 : key (offset + 0) < 256 = b (offset + 0) in
    let b1 : key (offset + 1) < 256 = b (offset + 1) in
    let b2 : key (offset + 2) < 256 = b (offset + 2) in
    round 2 0 1 key offset 0 (omega arith) refl (omega (arith, b0)) (omega (arith, b0))
    ∙ round 1 1 256 key offset (0 + key (offset + 0) * 1) (omega arith) refl (omega (arith, b1))
        (omega (arith, b0, b1))
    ∙ round 0 2 65536 key offset (0 + key (offset + 0) * 1 + key (offset + 1) * 256) (omega arith)
        refl (omega (arith, b2)) (omega (arith, b0, b1, b2))
    ∙ ap some (omega (arith, ap key (plus_zero offset), plus_two offset, ap key (plus_two offset)))
gen_hash-little_endian (suc (suc (suc (suc n)))) offset key h b = absurd (omega (arith, h))

too_far :
    (n i acc : ℕ) (key : Key) (offset : ℕ)
    → i < 5
    → 4 < n + i
    → hash_rounds n key offset i acc ≡ none
unfolding hash_rounds shift_left
too_far zero i acc key offset h lt = absurd (omega (arith, h, lt))
too_far (suc n) i acc key offset h lt = elim (dec_lt i 4) [
  | yes below ↦
      let v = key (offset + i) * 2 ^ (i * 8) % 2 ^ 32 in
      rw (lt→ltb (i * 8) 32 (omega (arith, below)), hash_rounds)
        (too_far n (suc i) ((acc + widen v) % 2 ^ 64) key offset (omega (arith, below))
          (omega (arith, lt)))
  | no above ↦ rw (ltb-false (i * 8) 32 (omega (arith, above)), hash_rounds) refl
]

-- A fifth byte is shifted by the width of an int: with a mask of five to eight bytes, which the
-- constructor accepts, the hash of no key is defined.
pub gen_hash_undefined : (n offset : ℕ) (key : Key) → 4 < n → gen_hash n offset key ≡ none
unfolding gen_hash
gen_hash_undefined n offset key h = too_far n 0 0 key offset (omega arith) (omega (arith, h))
