-- ===== src/Base/Times.antt =====
-- `time.Time` and `time.Duration`. A time is the number of nanoseconds since the zero `Time`;
-- `now - t` is what `Sub` gives on a clock that does not go back, held at the longest duration.
use Prim.Native.Nat.{ℕ, ◌-◌, ◌%◌, ◌≤◌, min}
use mathlib.Core.Bool.{Bool, false}
use mathlib.Core.Path.{◌≡◌}
use native.Mathlib.Omega.{arith}
use system_monitor_go.Base.Tests.{◌==◌, if◌then◌else◌}
use system_monitor_go.Base.Outcomes.{Outcome, ret, panic, non_positive_ticker}
use system_monitor_go.Base.Ints.{
  negsuc, IsInt64, to_int64-IsInt64, u64_mod, ℤ, pos, ltb_ℤ, ◌*ℤ◌, wrap_int64,
}

abbrev pub Time : Type 0
Time = ℕ

abbrev pub zero_time : Time
zero_time = 0

abbrev pub is_zero : Time → Bool
is_zero t = t == 0

abbrev pub max_duration : ℕ
max_duration = 9223372036854775807

-- `now.Sub(t)`
abbrev pub sub_time : Time → Time → ℕ
sub_time now t = min (now - t) max_duration

-- `time.Duration(n) * time.Second` is a product of `int64`.
unfoldable pub seconds : ℤ → ℤ
unfolding wrap_int64 ◌*ℤ◌
seconds n = wrap_int64 (n *ℤ pos 1000000000)

unfoldable pub milliseconds : ℤ → ℤ
unfolding wrap_int64 ◌*ℤ◌
milliseconds n = wrap_int64 (n *ℤ pos 1000000)

-- `time.Since(t) < d`
abbrev pub since_lt : Time → Time → ℤ → Bool
since_lt now t d = ltb_ℤ (pos (sub_time now t)) d

pub wrap_int64-IsInt64 : (z : ℤ) → IsInt64 (wrap_int64 z)
unfolding wrap_int64
wrap_int64-IsInt64 (pos n) = to_int64-IsInt64 n
wrap_int64-IsInt64 (negsuc n) = to_int64-IsInt64 (u64_mod - 1 - n % u64_mod)

pub seconds-IsInt64 : (n : ℤ) → IsInt64 (seconds n)
unfolding seconds
seconds-IsInt64 n = wrap_int64-IsInt64 (n *ℤ pos 1000000000)

since_far : (now : Time) (d : ℤ) → max_duration ≤ now → IsInt64 d → since_lt now zero_time d ≡ false
since_far now (pos n) h k = ground arith
since_far now (negsuc n) h k = ground arith

-- More than the longest duration after the zero `Time`, no cache of that time is valid.
pub never_valid :
    (now : Time) (n : ℤ) → max_duration ≤ now → since_lt now zero_time (seconds n) ≡ false
never_valid now n h = since_far now (seconds n) h (seconds-IsInt64 n)

-- `time.NewTicker` panics for a duration that is not positive.
unfoldable pub new_ticker : ℤ → Outcome (Unit {0})
new_ticker d = if ltb_ℤ (pos 0) d then ret tt else panic non_positive_ticker
