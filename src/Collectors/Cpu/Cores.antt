-- ===== src/Collectors/Cpu/Cores.antt =====
-- internal/collectors/cpu.go: when the writes of temperatures and the reads of the first entries panic.
use system_monitor_go.Base.{
  ℕ, zero, suc, ◌+◌, ◌*◌, ◌≤◌, ◌<◌, ◌≡◌, ◌↔◌, refl, sym, ap, ◌∙◌, arith, Bool, true, false, Option,
  none, some, List, [], ◌∷◌, Text, to_lower, inl, inr, Option-cases, ℤ, pos, negsuc, length,
  length-set, get_elem?, set, ret, panic, Panic, index_out_of_range, ◌>>=◌, if◌then◌else◌,
}
use native.Mathlib.Decide.{dec_lt}
use system_monitor_go.Models.Cpu.{CpuCore}
use system_monitor_go.Collectors.Cpu.{Sensor}
use system_monitor_go.Collectors.Cpu.Sensors.{
  set_temperature, core_below, core_id, input_id, set_core, read_sensor, read_sensors, is_package,
}

ret-ne-panic {ℓ} : {A : Type ℓ} {a : A} {p : Panic} → ret a ≡ panic p → ⊥
ret-ne-panic h = cc

core_below-lt : (n : ℕ) (z : Option ℤ) (i : ℕ) → core_below n z ≡ some i → i < n
unfolding core_below
core_below-lt n (some (pos k)) i h = ground arith
core_below-lt n (some (negsuc k)) i h = absurd (ground arith)
core_below-lt n none i h = absurd (ground arith)

if_some :
    {A : Type 0} {a : A} (b : Bool) (o : Option A) → (if b then o else none) ≡ some a → o ≡ some a
if_some true o h = h
if_some false o h = cc

core_id-lt : (n : ℕ) (key : Text) (i : ℕ) → core_id n key ≡ some i → i < n
unfolding core_id
core_id-lt n key i h = core_below-lt n _ i h

input_id-lt : (n : ℕ) (key : Text) (i : ℕ) → input_id n key ≡ some i → i < n
unfolding input_id
input_id-lt n key i h = core_below-lt n _ i (if_some _ _ h)

module _ {F : Type 0} where
  get_elem?-some :
      (cores : List (CpuCore F)) (i : ℕ)
      → i < length cores
      → (c : CpuCore F) × (get_elem? cores i ≡ some c)
  get_elem?-some [] i h = absurd (omega arith)
  get_elem?-some (c ∷ cs) zero h = (c, refl)
  get_elem?-some (c ∷ cs) (suc i) h = get_elem?-some cs i (omega arith)

  get_elem?-none : (cores : List (CpuCore F)) (i : ℕ) → length cores ≤ i → get_elem? cores i ≡ none
  get_elem?-none [] i h = refl
  get_elem?-none (c ∷ cs) zero h = absurd (omega arith)
  get_elem?-none (c ∷ cs) (suc i) h = get_elem?-none cs i (omega arith)

  -- A write within the cores returns as many.
  set_temperature-ret :
      (i : ℕ) (t : F) (cores : List (CpuCore F))
      → i < length cores
      → (next : List (CpuCore F)) × (set_temperature i t cores ≡ ret next)
        × (length next ≡ length cores)
  unfolding set_temperature
  set_temperature-ret i t cores h =
      let (c, e) = get_elem?-some cores i h in
      (set cores i (record c { temperature = t }), rw (e, set_temperature), length-set cores i _)

  set_temperature-panic :
      (i : ℕ) (t : F) (cores : List (CpuCore F))
      → length cores ≤ i
      → set_temperature i t cores ≡ panic index_out_of_range
  unfolding set_temperature
  set_temperature-panic i t cores h = rw (get_elem?-none cores i h, set_temperature)

  set_core-ret :
      (i : ℕ) (t : F) (cores : List (CpuCore F))
      → i * 2 + 1 < length cores
      → (next : List (CpuCore F)) × (set_core true i t cores ≡ ret next)
  unfolding set_core
  set_core-ret i t cores h =
      let (half, e, l) = set_temperature-ret (i * 2) t cores (omega arith) in
      let (next, f, k) = set_temperature-ret (i * 2 + 1) t half (omega arith) in (next, rw e f)

  set_core-panic :
      (i : ℕ) (t : F) (cores : List (CpuCore F))
      → length cores ≤ i * 2 + 1
      → set_core true i t cores ≡ panic index_out_of_range
  unfolding set_core
  set_core-panic i t cores h = elim (dec_lt (i * 2) (length cores)) [
    | yes lt ↦
        let (half, e, l) = set_temperature-ret (i * 2) t cores lt in
        rw e (set_temperature-panic (i * 2 + 1) t half (omega arith))
    | no ge ↦ rw (set_temperature-panic (i * 2) t cores (omega arith))
  ]

  read_sensor_core :
      (b : Bool) (s : Sensor F) (cores : List (CpuCore F)) (pack : F) (i : ℕ)
      → core_id (length cores) (to_lower s.sensor_key) ≡ some i
      → read_sensor b s (cores, pack)
        ≡ (set_core b i s.temperature cores >>= λ next. ret (next, pack))
  unfolding read_sensor
  read_sensor_core b s cores pack i h = rw (h, read_sensor)

  -- Under hyperthreading the sensor of a core panics exactly if twice the number of the core, plus
  -- one, is no index of the cores, although the code has checked that the number itself is one.
  pub read_sensor-panic_iff :
      (s : Sensor F) (cores : List (CpuCore F)) (pack : F) (i : ℕ)
      → core_id (length cores) (to_lower s.sensor_key) ≡ some i
      → (read_sensor true s (cores, pack) ≡ panic index_out_of_range) ↔ (length cores ≤ i * 2 + 1)
  read_sensor-panic_iff s cores pack i h = (
    λ e. elim (dec_lt (i * 2 + 1) (length cores)) [
      | yes lt ↦
          let (next, f) = set_core-ret i s.temperature cores lt in
          absurd (
            ret-ne-panic (
              sym (read_sensor_core true s cores pack i h ∙ ap (λ o. o >>= λ n. ret (n, pack)) f)
              ∙ e))
      | no ge ↦ omega arith
    ],
    λ le.
        read_sensor_core true s cores pack i h
        ∙ ap (λ o. o >>= λ n. ret (n, pack)) (set_core-panic i s.temperature cores le),
  )

  -- Without hyperthreading no sensor panics.
  read_sensor-ret :
      (s : Sensor F) (cores : List (CpuCore F)) (pack : F)
      → (next : List (CpuCore F) × F) × (read_sensor false s (cores, pack) ≡ ret next)
  unfolding read_sensor set_core
  read_sensor-ret s cores pack =
      elim (Option-cases (core_id (length cores) (to_lower s.sensor_key))) [
        | inr (i, e) ↦
            let (next, f, l) =
              set_temperature-ret i s.temperature cores
                (core_id-lt (length cores) (to_lower s.sensor_key) i e) in
            ((next, pack), rw (e, read_sensor) (rw f))
        | inl e ↦ elim (Option-cases (input_id (length cores) (to_lower s.sensor_key))) [
          | inr (i, f) ↦
              let (next, g, l) =
                set_temperature-ret i s.temperature cores
                  (input_id-lt (length cores) (to_lower s.sensor_key) i f) in
              ((next, pack), rw (e, f, read_sensor) (rw g))
          | inl f ↦ (
            (cores, if is_package (to_lower s.sensor_key) then s.temperature else pack),
            rw (e, f, read_sensor),
          )
        ]
      ]

  pub read_sensors-ret :
      (ss : List (Sensor F)) (cores : List (CpuCore F)) (pack : F)
      → (next : List (CpuCore F) × F) × (read_sensors false ss (cores, pack) ≡ ret next)
  unfolding read_sensors
  read_sensors-ret [] cores pack = ((cores, pack), refl)
  read_sensors-ret (s ∷ ss) cores pack =
      let ((cs, p), e) = read_sensor-ret s cores pack in
      let (next, f) = read_sensors-ret ss cs p in (next, rw e f)
