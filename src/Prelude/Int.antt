-- ===== src/Prelude/Int.antt =====
-- Signed integers over the native numbers, and the conversions that C++ makes between words.
use Prim.Native.Nat.{ℕ, suc, ◌+◌, ◌-◌, ◌*◌, ◌%◌}
use mathlib.Core.Bool.{Bool}
use perf_analyzer.Prelude.Tests.{leb}

-- `negsuc n` is -(n + 1).
pub data ℤ : Type 0 where
  pos : ℕ → ℤ
  negsuc : ℕ → ℤ

abbrev pub pos_part : ℤ → ℕ
pos_part (pos n) = n
pos_part (negsuc n) = 0

abbrev pub neg_part : ℤ → ℕ
neg_part (pos n) = 0
neg_part (negsuc n) = suc n

abbrev pub u64_mod : ℕ
u64_mod = 18446744073709551616

-- uint64_t arithmetic.
abbrev pub add_u64 : ℕ → ℕ → ℕ
add_u64 a b = (a + b) % u64_mod

abbrev pub sub_u64 : ℕ → ℕ → ℕ
sub_u64 a b = (a + u64_mod - b) % u64_mod

abbrev pub mul_u64 : ℕ → ℕ → ℕ
mul_u64 a b = (a * b) % u64_mod

-- A size_t plus an int, as a size_t. An int has 32 bits, so `neg_part d` is below the modulus.
abbrev pub add_signed_u64 : ℕ → ℤ → ℕ
add_signed_u64 a d = (a + pos_part d + u64_mod - neg_part d) % u64_mod

-- `int(n) + d <= 0` for an n that an int holds.
abbrev pub sum_nonpositive : ℕ → ℤ → Bool
sum_nonpositive n d = leb (n + pos_part d) (neg_part d)
