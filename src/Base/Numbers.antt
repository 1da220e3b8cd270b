-- ===== src/Base/Numbers.antt =====
-- `strconv.Atoi` and the printing of integers.
use Prim.Native.Nat.{ℕ, ◌+◌, ◌-◌, ◌*◌, ◌/◌, ◌%◌, zero, suc, ◌≤◌, ◌<◌}
use mathlib.Core.Path.{◌≡◌, refl}
use mathlib.Core.Logic.{◌≢◌}
use mathlib.Core.Bool.{Bool, true, false}
use mathlib.Core.Option.{Option, none, some}
use mathlib.Core.List.{[], ◌∷◌, foldl}
use native.Mathlib.Omega.{arith}
use system_monitor_go.Base.Tests.{ltb, leb, ◌==◌, if◌then◌else◌}
use system_monitor_go.Base.Lists.{All}
use system_monitor_go.Base.Ints.{ℤ, pos, negsuc, i64_lim}
use system_monitor_go.Base.Texts.{Text, is_digit, digits_value}

-- A number after its sign, in the range of `int`.
abbrev in_range : Bool → ℕ → Option ℤ
in_range true n = if ltb n i64_lim then some (pos n) else none
in_range false n =
    if n == 0 then some (pos 0) else if leb n i64_lim then some (negsuc (n - 1)) else none

unsigned : Bool → Text → Option ℤ
unfolding digits_value
unsigned sign [] = none
unsigned sign (c ∷ s) = elim (digits_value (c ∷ s) 0) [ none ↦ none | some n ↦ in_range sign n ]

-- `none` stands for an error.
unfoldable pub atoi : Text → Option ℤ
unfolding unsigned
atoi [] = none
atoi (c ∷ s) =
    if c == b'-'
    then unsigned false s
    else if c == b'+'
    then unsigned true s
    else unsigned true (c ∷ s)

-- The number that decimal digits spell.
abbrev pub decimal : Text → ℕ
decimal = foldl (λ n c. n * 10 + (c - b'0')) 0

abbrev pub IsDigits : Text → Type 0
IsDigits s = All (λ c. (b'0' ≤ c) × (c ≤ b'9')) s

digits_value-foldl :
    (s : Text) (n : ℕ)
    → IsDigits s
    → digits_value s n ≡ some (foldl (λ n c. n * 10 + (c - b'0')) n s)
unfolding digits_value
digits_value-foldl [] n h = refl
digits_value-foldl (c ∷ s) n h = ground (arith, digits_value-foldl s (n * 10 + (c - b'0')) h.1)

-- Digits are read as their number, if it fits.
pub atoi-decimal :
    (s : Text) → s ≢ [] → IsDigits s → decimal s < i64_lim → atoi s ≡ some (pos (decimal s))
unfolding atoi
atoi-decimal [] h d l = absurd (h refl)
atoi-decimal (c ∷ s) h d l = ground (arith, digits_value-foldl (c ∷ s) 0 d)

-- A text that begins with neither a sign nor a digit is no number.
pub atoi_no_digit :
    (c : ℕ) (s : Text) → is_digit c ≡ false → c ≢ b'-' → c ≢ b'+' → atoi (c ∷ s) ≡ none
unfolding atoi
atoi_no_digit c s h a b = ground arith

-- `strconv.FormatUint(n, 10)`; twenty digits hold every `uint64`.
format_digits : ℕ → ℕ → Text → Text
format_digits zero n tail = tail
format_digits (suc k) n tail =
    let rest : Text = format_digits k (n / 10) ((b'0' + n % 10) ∷ tail) in
    if n / 10 == 0 then (b'0' + n % 10) ∷ tail else rest

unfoldable pub format_uint : ℕ → Text
unfolding format_digits
format_uint n = format_digits 20 n []

-- `strconv.Itoa`
unfoldable pub itoa : ℤ → Text
unfolding format_uint
itoa (pos n) = format_uint n
itoa (negsuc n) = b'-' ∷ format_uint (n + 1)
