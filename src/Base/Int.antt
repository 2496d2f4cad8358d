-- ===== src/Base/Int.antt =====
-- int64_t values over the native numbers, as far as the sources compute with them.
use Prim.Native.Nat.{ℕ, suc, ◌+◌, ◌-◌, ◌%◌, ◌<◌}
use mathlib.Core.Bool.{Bool, true, false}
use mathlib.Core.Path.{◌≡◌, refl, ap, ◌∙◌}
use native.Mathlib.Omega.{arith}
use daqdb.Base.Tests.{leb, ltb, ◌==◌, if◌then◌else◌, lt→ltb}

-- `negsuc n` is -(n + 1).
pub data ℤ : Type 0 where
  pos : ℕ → ℤ
  negsuc : ℕ → ℤ

abbrev pub is_neg : ℤ → Bool
is_neg (pos n) = false
is_neg (negsuc n) = true

abbrev pub abs : ℤ → ℕ
abs (pos n) = n
abs (negsuc n) = suc n

-- `z - k` for an unsigned `k`
abbrev pub sub_nat : ℤ → ℕ → ℤ
sub_nat (pos n) k = if leb k n then pos (n - k) else negsuc (k - n - 1)
sub_nat (negsuc n) k = negsuc (n + k)

-- 2 ^ 31, one more than the largest int
abbrev pub int_limit : ℕ
int_limit = 2147483648

-- ::abs(int) of an int64_t, of which the int keeps 32 bits; that of the least int is itself here, and is
-- undefined in C.
unfoldable pub abs_bits : ℕ → ℤ
abs_bits w =
    if ltb w int_limit
    then pos w
    else if w == int_limit
    then negsuc 2147483647
    else pos (4294967296 - w)

unfoldable pub abs_int : ℤ → ℤ
unfolding abs_bits
abs_int z = abs_bits (abs z % 4294967296)

-- A uint64_t
abbrev pub as_uint64 : ℤ → ℕ
as_uint64 (pos n) = n
as_uint64 (negsuc n) = 18446744073709551616 - suc n

pub abs_int-small : (k : ℕ) → suc k < int_limit → abs_int (negsuc k) ≡ pos (suc k)
unfolding abs_int abs_bits
abs_int-small k h =
    ap abs_bits {x = suc k % 4294967296} {y = suc k} (omega (arith, h))
    ∙ ap
        (λ b.
          if b
          then pos (suc k)
          else if suc k == int_limit
          then negsuc 2147483647
          else pos (4294967296 - suc k))
        (lt→ltb (suc k) int_limit h)

pub abs_int_least : (k : ℕ) → suc k ≡ int_limit → abs_int (negsuc k) ≡ negsuc 2147483647
unfolding abs_int abs_bits
abs_int_least k e = rw e refl
