-- ===== src/Base/Ints.antt =====
-- Go's signed integers over the native numbers, and the conversions between widths.
use Prim.Native.Nat.{ℕ, suc, ◌+◌, ◌-◌, ◌*◌, ◌/◌, ◌%◌, ◌≤◌, ◌<◌}
use mathlib.Core.Path.{◌≡◌}
use mathlib.Core.Bool.{Bool, true, false}
use native.Mathlib.Omega.{arith}
use mathlib.Core.Logic.{◌↔◌}
use system_monitor_go.Base.Tests.{ltb, leb, ◌==◌, if◌then◌else◌}

-- `negsuc n` is -(n + 1).
pub data ℤ : Type 0 where
  pos : ℕ → ℤ
  negsuc : ℕ → ℤ

abbrev pub pos_part : ℤ → ℕ
pos_part (pos n) = n
pos_part (negsuc n) = 0

abbrev pub neg_part : ℤ → ℕ
neg_part (pos n) = 0
neg_part (negsuc n) = suc n

-- a - b, as an integer.
abbrev pub sub_ℕ : ℕ → ℕ → ℤ
sub_ℕ a b = if leb b a then pos (a - b) else negsuc (b - a - 1)

infix 50 ◌≤ℤ◌
abbrev pub ◌≤ℤ◌ : ℤ → ℤ → Type 0
a ≤ℤ b = pos_part a + neg_part b ≤ pos_part b + neg_part a

abbrev pub ltb_ℤ : ℤ → ℤ → Bool
ltb_ℤ a b = ltb (pos_part a + neg_part b) (pos_part b + neg_part a)

infixl 65 ◌+ℤ◌
infixl 70 ◌*ℤ◌
unfoldable pub ◌+ℤ◌ : ℤ → ℤ → ℤ
a +ℤ b = sub_ℕ (pos_part a + pos_part b) (neg_part a + neg_part b)

unfoldable pub ◌*ℤ◌ : ℤ → ℤ → ℤ
a *ℤ b =
    sub_ℕ (pos_part a * pos_part b + neg_part a * neg_part b)
      (pos_part a * neg_part b + neg_part a * pos_part b)

abbrev pub u64_mod : ℕ
u64_mod = 18446744073709551616

abbrev pub i64_lim : ℕ
i64_lim = 9223372036854775808

-- `uint64` arithmetic wraps around.
abbrev pub add_u64 : ℕ → ℕ → ℕ
add_u64 a b = (a + b) % u64_mod

abbrev pub sub_u64 : ℕ → ℕ → ℕ
sub_u64 a b = (a + u64_mod - b) % u64_mod

-- `int64(x)` of a `uint64`: the bit pattern read in two's complement.
unfoldable pub to_int64 : ℕ → ℤ
to_int64 x = let r = x % u64_mod in if ltb r i64_lim then pos r else negsuc (u64_mod - 1 - r)

-- An integer reduced to `int64`, as Go's `+` and `*` on `int64` and `int` do on a 64-bit machine.
unfoldable pub wrap_int64 : ℤ → ℤ
unfolding to_int64
wrap_int64 (pos n) = to_int64 n
wrap_int64 (negsuc n) = to_int64 (u64_mod - 1 - n % u64_mod)

-- A value of the type `int64`, or of `int`.
abbrev pub IsInt64 : ℤ → Type 0
IsInt64 z = (pos_part z < i64_lim) × (neg_part z ≤ i64_lim)

pub to_int64-pos : (x : ℕ) → x < i64_lim → to_int64 x ≡ pos x
unfolding to_int64
to_int64-pos x h = ground arith

pub to_int64-IsInt64 : (x : ℕ) → IsInt64 (to_int64 x)
unfolding to_int64
to_int64-IsInt64 x = ground arith

pub wrap_int64_exact : (z : ℤ) → IsInt64 z → wrap_int64 z ≡ z
unfolding wrap_int64
wrap_int64_exact (pos n) h = ground arith
wrap_int64_exact (negsuc n) h = ground arith

-- Without a wrap the difference of two `uint64` counters is exact.
pub sub_u64_exact : (a b : ℕ) → b ≤ a → a < u64_mod → sub_u64 a b ≡ a - b
sub_u64_exact a b h k = omega arith

-- A counter that went back gives the complement, not a negative number.
pub sub_u64_wraps : (a b : ℕ) → a < b → b < u64_mod → sub_u64 a b ≡ u64_mod - (b - a)
sub_u64_wraps a b h k = omega arith

-- `a + b` of `int64`
unfoldable pub add_int64 : ℤ → ℤ → ℤ
unfolding wrap_int64 ◌+ℤ◌
add_int64 a b = wrap_int64 (a +ℤ b)

-- Additions of converted numbers wrap around as one.
pub add_int64-to_int64 : (a b : ℕ) → add_int64 (to_int64 a) (to_int64 b) ≡ to_int64 (a + b)
unfolding add_int64 to_int64
add_int64-to_int64 a b = ground arith

-- `a / b` of integers for a literal `b` rounds towards zero.
unfoldable pub quot : ℤ → ℕ → ℤ
quot (pos n) b = pos (n / b)
quot (negsuc n) b = sub_ℕ 0 ((n + 1) / b)

-- `a == b` of integers
unfoldable pub eq_ℤ : ℤ → ℤ → Bool
eq_ℤ (pos m) (pos n) = m == n
eq_ℤ (pos m) (negsuc n) = false
eq_ℤ (negsuc m) (pos n) = false
eq_ℤ (negsuc m) (negsuc n) = m == n

pub eq_ℤ_iff : (a b : ℤ) → (eq_ℤ a b ≡ true) ↔ (a ≡ b)
unfolding eq_ℤ
eq_ℤ_iff (pos m) (pos n) = ground arith
eq_ℤ_iff (pos m) (negsuc n) = ground arith
eq_ℤ_iff (negsuc m) (pos n) = ground arith
eq_ℤ_iff (negsuc m) (negsuc n) = ground arith
