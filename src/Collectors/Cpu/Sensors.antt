-- ===== src/Collectors/Cpu/Sensors.antt =====
-- internal/collectors/cpu.go: the temperatures of the cores and of the package in Collect.
use system_monitor_go.Base.{
  ℕ, ◌+◌, ◌*◌, ◌-◌, Bool, true, false, ◌&&◌, ◌||◌, Option, none, some, List, [], ◌∷◌, Text, codes,
  text_eq, has_prefix, has_suffix, contains, to_lower, find_number, atoi, ℤ, pos, negsuc, ltb, leb,
  length, get_elem?, set, Outcome, ret, panic, index_out_of_range, ◌>>=◌, if◌then◌else◌,
}
use system_monitor_go.Base.Floats.{Float64}
use system_monitor_go.Models.Cpu.{CpuCore}
use system_monitor_go.Collectors.Cpu.{Sensor}

-- `cores[i].Temperature = t`
unfoldable pub set_temperature :
    {F : Type 0} → ℕ → F → List (CpuCore F) → Outcome (List (CpuCore F))
set_temperature i t cores = elim (get_elem? cores i) [
  | none ↦ panic index_out_of_range
  | some c ↦ ret (set cores i (record c { temperature = t }))
]

-- The core that digits name, if there are digits, they are an `int` and below the number of cores.
unfoldable pub core_below : ℕ → Option ℤ → Option ℕ
core_below n (some (pos i)) = if ltb i n then some i else none
core_below n (some (negsuc i)) = none
core_below n none = none

-- `coreID` of `core_(\d+)`; the first of the guards is in `atoi`, which refuses a text with no digit.
unfoldable pub core_id : ℕ → Text → Option ℕ
unfolding core_below find_number atoi
core_id n key = core_below n (atoi (find_number (codes "core_") [] key))

-- `temp1_input` is taken for the package, `temp2_input` for the first core.
unfoldable pub shifted : Option ℤ → Option ℤ
shifted (some (pos i)) = if leb 2 i then some (pos (i - 2)) else none
shifted (some (negsuc i)) = none
shifted none = none

unfoldable pub input_id : ℕ → Text → Option ℕ
unfolding core_below shifted find_number atoi has_prefix has_suffix
input_id n key =
    if has_prefix key (codes "temp") && has_suffix key (codes "_input")
    then core_below n (shifted (atoi (find_number (codes "temp") (codes "_input") key)))
    else none

unfoldable pub is_package : Text → Bool
unfolding contains has_prefix text_eq
is_package key =
    contains key (codes "package")
    || has_prefix key (codes "cpu_temp")
    || text_eq key (codes "temp1_input")

module _ {F : Type 0} where
  -- Under hyperthreading two entries are written for each core.
  unfoldable pub set_core : Bool → ℕ → F → List (CpuCore F) → Outcome (List (CpuCore F))
  unfolding set_temperature
  set_core true i t cores =
      set_temperature (i * 2) t cores >>= λ half. set_temperature (i * 2 + 1) t half
  set_core false i t cores = set_temperature i t cores

  -- One sensor: the cores and the package's temperature after it.
  unfoldable pub read_sensor :
      Bool → Sensor F → List (CpuCore F) × F → Outcome (List (CpuCore F) × F)
  unfolding to_lower core_id input_id is_package set_core set_temperature
  read_sensor hyper s (cores, pack) =
      let key : Text = to_lower s.sensor_key in
      elim (core_id (length cores) key) [
        | some i ↦ set_core hyper i s.temperature cores >>= λ next. ret (next, pack)
        | none ↦ elim (input_id (length cores) key) [
          | some i ↦ set_temperature i s.temperature cores >>= λ next. ret (next, pack)
          | none ↦ ret (cores, if is_package key then s.temperature else pack)
        ]
      ]

  unfoldable pub read_sensors :
      Bool → List (Sensor F) → List (CpuCore F) × F → Outcome (List (CpuCore F) × F)
  unfolding read_sensor
  read_sensors hyper [] t = ret t
  read_sensors hyper (s ∷ ss) t = read_sensor hyper s t >>= λ next. read_sensors hyper ss next

module _ (fl : Float64) where
  -- The first sensor above zero of whose key `input` is a part.
  unfoldable pub fallback : List (Sensor fl.F) → fl.F
  unfolding contains to_lower
  fallback [] = fl.of_nat 0
  fallback (s ∷ ss) =
      if fl.lt (fl.of_nat 0) s.temperature && contains (to_lower s.sensor_key) (codes "input")
      then s.temperature
      else fallback ss

  unfoldable pub read_temperatures :
      Bool → List (Sensor fl.F) → List (CpuCore fl.F) → Outcome (List (CpuCore fl.F) × fl.F)
  unfolding read_sensors fallback
  read_temperatures hyper ss cores = read_sensors hyper ss (cores, fl.of_nat 0) >>= λ t.
      ret (t.0, if fl.eq t.1 (fl.of_nat 0) then fallback ss else t.1)
