-- ===== src/Collectors/Cpu/Details.antt =====
-- internal/collectors/cpu.go: parseSize, getCPUBaseClockSpeed, getCPUDetailedInfo and the reading of its
-- map. `strconv.ParseFloat` is an argument: the number that it gives, with an error or without.
use system_monitor_go.Base.{
  ◌-◌, ◌++◌, Bool, ◌&&◌, not, Option, none, some, List, [], ◌∷◌, Text, codes, has_prefix, contains,
  trim_space, split, drop, length, take_digits, is_empty, find_number, atoi, lookup, insert, ℤ, pos,
  ◌*ℤ◌, wrap_int64, i64_lim, if◌then◌else◌, Result, ok, err,
}
use system_monitor_go.Base.Floats.{Float64}

-- `size, _ := strconv.Atoi(digits)`: a number that does not fit gives the largest `int`.
unfoldable pub digits_size : Text → ℤ
unfolding atoi
digits_size digits = elim (atoi digits) [ some z ↦ z | none ↦ pos (i64_lim - 1) ]

-- `*` of `int`
unfoldable pub mul_int : ℤ → ℤ → ℤ
unfolding wrap_int64 ◌*ℤ◌
mul_int a b = wrap_int64 (a *ℤ b)

unfoldable pub parse_size : Text → ℤ
unfolding find_number digits_size mul_int contains
parse_size s =
    let digits : Text = find_number [] [] s in
    if is_empty digits
    then pos 0
    else if contains s (codes "K")
    then mul_int (digits_size digits) (pos 1024)
    else if contains s (codes "M")
    then mul_int (mul_int (digits_size digits) (pos 1024)) (pos 1024)
    else digits_size digits

-- The number of `[0-9]+\.[0-9]+GHz` at the start of a text.
unfoldable pub clock_number : Text → Text
unfolding take_digits has_prefix
clock_number s =
    let whole_part : Text = take_digits s in
    let rest : Text = drop (length whole_part) s in
    let fraction : Text = take_digits (drop 1 rest) in
    let behind : Text = drop (length fraction) (drop 1 rest) in
    if not (is_empty whole_part)
      && has_prefix rest (codes ".")
      && not (is_empty fraction)
      && has_prefix behind (codes "GHz")
    then whole_part ++ b'.' ∷ fraction
    else []

-- What `@ ([0-9]+\.[0-9]+)GHz` captures, or nothing.
unfoldable pub find_clock : Text → Text
unfolding clock_number has_prefix
find_clock [] = []
find_clock (c ∷ s) =
    let number : Text = clock_number (drop 2 (c ∷ s)) in
    if has_prefix (c ∷ s) (codes "@ ") && not (is_empty number) then number else find_clock s

-- The `interface{}` values of the map.
pub data Value (F : Type 0) : Type 0 where
  int : ℤ → Value F
  float : F → Value F
  str : Text → Value F

module _ (fl : Float64) (parse_float : Text → fl.F × Bool) where
  unfoldable pub get_cpu_base_clock_speed : Text → fl.F
  unfolding find_clock
  get_cpu_base_clock_speed model =
      let number : Text = find_clock model in
      if is_empty number
      then fl.of_nat 0
      else if (parse_float number).1
      then fl.mul (parse_float number).0 (fl.of_nat 1000)
      else fl.of_nat 0

  -- The chain of tests on a key.
  unfoldable pub put_line : Text → Text → List (Text × Value fl.F) → List (Text × Value fl.F)
  unfolding contains insert parse_size
  put_line key value info =
      if contains key (codes "Model name")
      then insert (codes "model_name") (str value) info
      else if contains key (codes "L1d cache")
      then insert (codes "l1_cache") (int (parse_size value)) info
      else if contains key (codes "L2 cache")
      then insert (codes "l2_cache") (int (parse_size value)) info
      else if contains key (codes "L3 cache")
      then insert (codes "l3_cache") (int (parse_size value)) info
      else if contains key (codes "CPU min MHz")
      then insert (codes "min_clock_speed") (float (parse_float value).0) info
      else if contains key (codes "CPU max MHz")
      then insert (codes "max_clock_speed") (float (parse_float value).0) info
      else info

  -- A line counts if it has one colon.
  unfoldable pub put_parts : List Text → List (Text × Value fl.F) → List (Text × Value fl.F)
  unfolding put_line trim_space
  put_parts (key ∷ value ∷ []) info = put_line (trim_space key) (trim_space value) info
  put_parts [] info = info
  put_parts (a ∷ []) info = info
  put_parts (a ∷ b ∷ c ∷ rest) info = info

  unfoldable pub put_lines : List Text → List (Text × Value fl.F) → List (Text × Value fl.F)
  unfolding put_parts split
  put_lines [] info = info
  put_lines (l ∷ ls) info = put_lines ls (put_parts (split l b':') info)

  -- The base clock comes from the model's name; only a text ever stands under `model_name`.
  put_base_clock : Option (Value fl.F) → List (Text × Value fl.F) → List (Text × Value fl.F)
  unfolding get_cpu_base_clock_speed insert
  put_base_clock (some (str model)) info =
      insert (codes "base_clock_speed") (float (get_cpu_base_clock_speed model)) info
  put_base_clock other info =
      insert (codes "model_name") (str []) (insert (codes "base_clock_speed") (int (pos 0)) info)

  -- After an error the map is nil.
  unfoldable pub get_cpu_detailed_info : Result Text Text → List (Text × Value fl.F)
  unfolding put_lines put_base_clock lookup split
  get_cpu_detailed_info (err e) = []
  get_cpu_detailed_info (ok output) =
      let info : List (Text × Value fl.F) = put_lines (split output 10) [] in
      put_base_clock (lookup (codes "model_name") info) info

module _ (fl : Float64) where
  int_of : Option (Value fl.F) → ℤ
  int_of (some (int z)) = z
  int_of (some (float x)) = pos 0
  int_of (some (str s)) = pos 0
  int_of none = pos 0

  unfoldable pub get_int_value_safely : List (Text × Value fl.F) → Text → ℤ
  unfolding lookup int_of
  get_int_value_safely info key = int_of (lookup key info)

  float_of : Option (Value fl.F) → fl.F
  float_of (some (float x)) = x
  float_of (some (int z)) = fl.of_nat 0
  float_of (some (str s)) = fl.of_nat 0
  float_of none = fl.of_nat 0

  unfoldable pub get_float_value_safely : List (Text × Value fl.F) → Text → fl.F
  unfolding lookup float_of
  get_float_value_safely info key = float_of (lookup key info)
