-- ===== src/Collectors/Cpu/Size.antt =====
-- internal/collectors/cpu.go: parseSize on what `lscpu` prints.
use system_monitor_go.Base.{
  ℕ, ◌*◌, ◌<◌, ◌≡◌, refl, ap, ◌∙◌, arith, Bool, true, false, [], ◌∷◌, ◌++◌, Text, codes, has_prefix,
  contains, is_digit, take_digits, find_number, IsDigits, decimal, atoi-decimal, i64_lim, ℤ, pos,
  ◌*ℤ◌, wrap_int64, wrap_int64_exact, inl, inr, Bool-cases, if◌then◌else◌,
}
use system_monitor_go.Collectors.Cpu.Details.{parse_size, digits_size, mul_int}

-- The unit that a letter behind the digits stands for.
abbrev pub unit_of : Text → ℕ
unit_of r = if contains r (codes "K") then 1024 else if contains r (codes "M") then 1048576 else 1

take_digits-append :
    (ds : Text) (c : ℕ) (r : Text)
    → IsDigits ds
    → is_digit c ≡ false
    → take_digits (ds ++ c ∷ r) ≡ ds
unfolding take_digits
take_digits-append [] c r h k = ground arith
take_digits-append (d ∷ ds) c r h k = ground (arith, take_digits-append ds c r h.1 k)

-- Digits before a text hide no letter.
contains_behind :
    (u : ℕ) (ds r : Text)
    → is_digit u ≡ false
    → IsDigits ds
    → contains (ds ++ r) (u ∷ []) ≡ contains r (u ∷ [])
unfolding contains has_prefix
contains_behind u [] r h k = refl
contains_behind u (d ∷ ds) r h k = ground (arith, contains_behind u ds r h k.1)

first_number :
    (d : ℕ) (ds : Text) (c : ℕ) (r : Text)
    → IsDigits (d ∷ ds)
    → is_digit c ≡ false
    → find_number [] [] (d ∷ ds ++ c ∷ r) ≡ d ∷ ds
unfolding find_number has_prefix
first_number d ds c r h k = ground (arith, take_digits-append ds c r h.1 k)

mul-pos : (a b : ℕ) → pos a *ℤ pos b ≡ pos (a * b)
unfolding ◌*ℤ◌
mul-pos a b = ground arith

mul_int-pos : (a b : ℕ) → a * b < i64_lim → mul_int (pos a) (pos b) ≡ pos (a * b)
unfolding mul_int
mul_int-pos a b h = ap wrap_int64 (mul-pos a b) ∙ wrap_int64_exact (pos (a * b)) (h, omega arith)

digits_size-decimal :
    (d : ℕ) (ds : Text)
    → IsDigits (d ∷ ds)
    → decimal (d ∷ ds) < i64_lim
    → digits_size (d ∷ ds) ≡ pos (decimal (d ∷ ds))
unfolding digits_size
digits_size-decimal d ds h k = rw (atoi-decimal (d ∷ ds) (λ e. cc e) h k, digits_size)

-- The size of a number with a unit, by the two tests on the text.
size_in : Bool → Bool → ℤ → ℤ
size_in true m z = mul_int z (pos 1024)
size_in false true z = mul_int (mul_int z (pos 1024)) (pos 1024)
size_in false false z = z

size_in-pos :
    (k m : Bool) (n : ℕ)
    → n * (if k then 1024 else if m then 1048576 else 1) < i64_lim
    → (n < i64_lim)
      × (size_in k m (pos n) ≡ pos (n * (if k then 1024 else if m then 1048576 else 1)))
unfolding size_in
size_in-pos true m n h = (omega arith, mul_int-pos n 1024 h)
size_in-pos false true n h = (
  omega arith,
  ap (λ z. mul_int z (pos 1024)) (mul_int-pos n 1024 (omega arith))
      ∙ mul_int-pos (n * 1024) 1024 (omega arith)
      ∙ ap pos (omega arith),
)
size_in-pos false false n h = (omega arith, ap pos (omega arith))

parse_size-size_in :
    (s : Text) (d : ℕ) (ds : Text)
    → find_number [] [] s ≡ d ∷ ds
    → parse_size s
      ≡ size_in (contains s (codes "K")) (contains s (codes "M")) (digits_size (d ∷ ds))
unfolding parse_size size_in
parse_size-size_in s d ds h = elim (Bool-cases (contains s (codes "K"))) [
  | inl e ↦ rw (h, e, parse_size)
  | inr e ↦ elim (Bool-cases (contains s (codes "M"))) [
    | inl f ↦ rw (h, e, f, parse_size)
    | inr f ↦ rw (h, e, f, parse_size)
  ]
]

-- A whole number of kilobytes or megabytes, whatever stands between the digits and the letter, is
-- read as that many bytes, and a number without these letters as itself, if the number of bytes is
-- below 2^63, the bound of `int`. A fraction behind the digits is dropped.
pub parse_size-unit_of :
    (d : ℕ) (ds : Text) (c : ℕ) (r : Text)
    → IsDigits (d ∷ ds)
    → is_digit c ≡ false
    → decimal (d ∷ ds) * unit_of (c ∷ r) < i64_lim
    → parse_size (d ∷ ds ++ c ∷ r) ≡ pos (decimal (d ∷ ds) * unit_of (c ∷ r))
parse_size-unit_of d ds c r h k l =
    let (small, e) =
      size_in-pos (contains (c ∷ r) (codes "K")) (contains (c ∷ r) (codes "M")) (decimal (d ∷ ds))
        l in
    parse_size-size_in (d ∷ ds ++ c ∷ r) d ds (first_number d ds c r h k)
    ∙ rw
        (
          contains_behind b'K' (d ∷ ds) (c ∷ r) refl h,
          contains_behind b'M' (d ∷ ds) (c ∷ r) refl h,
          digits_size-decimal d ds h small,
        )
        e
