-- ===== src/Collectors/Memory/Hardware.antt =====
-- internal/collectors/memory.go: getMemoryHardwareInfo, which reads the output of `dmidecode`, or else
-- what the `ghw` library gives. Both are arguments; of a module only its size in bytes is read.
use system_monitor_go.Base.{
  ℕ, ◌+◌, ◌%◌, ◌^◌, Bool, false, not, ◌&&◌, ◌||◌, Option, none, some, List, [], ◌∷◌, Text, codes,
  text_eq, has_prefix, contains, trim_space, trim_prefix, split, length, digits_value, ltb, ◌==◌,
  if◌then◌else◌, Result, ok, err, ℤ, pos, ltb_ℤ, u64_mod,
}
use system_monitor_go.Models.Memory.{MemoryMetrics}

-- `strconv.ParseUint(s, 10, 64)`
unfoldable pub parse_uint : Text → Option ℕ
parse_uint [] = none
parse_uint (c ∷ s) = elim (digits_value (c ∷ s) 0) [
  | some n ↦ if ltb n u64_mod then some n else none
  | none ↦ none
]

-- The variables of the loop over the lines.
pub record Scan : Type 0 where
  pub total_slots : ℕ
  pub used_slots : ℕ
  pub in_device : Bool
  pub data_rate : ℕ
  pub form_factor : Text

first_piece : List Text → Text
first_piece [] = []
first_piece (p ∷ ps) = p

unfoldable pub read_speed : Text → ℕ → ℕ
unfolding parse_uint first_piece has_prefix contains split trim_space
read_speed line rate =
    let speed_info : Text = trim_space (trim_prefix line (codes "Speed:")) in
    if has_prefix line (codes "Speed:") && rate == 0 && contains speed_info (codes "MT/s")
    then elim (parse_uint (first_piece (split speed_info b' '))) [ some n ↦ n | none ↦ rate ]
    else rate

unfoldable pub read_form : Text → Text → Text
unfolding has_prefix trim_space text_eq
read_form line form =
    let read : Text = trim_space (trim_prefix line (codes "Form Factor:")) in
    if has_prefix line (codes "Form Factor:")
      && text_eq form []
      && not (text_eq read (codes "Unknown"))
    then read
    else form

-- The line opens a section of a memory device.
abbrev pub opens_device : Text → Bool
opens_device line = contains line (codes "Memory Device")

-- The line tells the size of a module that is there.
abbrev pub tells_module : Text → Bool
tells_module line =
    has_prefix line (codes "Size:") && not (contains line (codes "No Module Installed"))

-- `uint16` addition
abbrev pub count_u16 : Bool → ℕ → ℕ
count_u16 b n = if b then (n + 1) % 2 ^ 16 else n

-- One trimmed line.
unfoldable pub scan_line : Scan → Text → Scan
unfolding read_speed read_form
scan_line s line =
    let inside : Bool = opens_device line || s.in_device in
    record {
      total_slots = count_u16 (opens_device line) s.total_slots;
      used_slots = count_u16 (inside && tells_module line) s.used_slots;
      in_device = inside && not (text_eq line []);
      data_rate = if inside then read_speed line s.data_rate else s.data_rate;
      form_factor = if inside then read_form line s.form_factor else s.form_factor;
    }

unfoldable pub scan_lines : Scan → List Text → Scan
scan_lines s [] = s
scan_lines s (l ∷ ls) = scan_lines (scan_line s (trim_space l)) ls

-- The modules that are there, of those that `ghw` lists.
unfoldable pub used_modules : List ℤ → ℕ
used_modules [] = 0
used_modules (b ∷ bs) = if ltb_ℤ (pos 0) b then used_modules bs + 1 else used_modules bs

-- The metrics after the call, or its error, with which they are unchanged.
unfoldable pub get_memory_hardware_info :
    {F : Type 0}
    → Result Text Text
    → Result Text (List ℤ)
    → MemoryMetrics F
    → Result Text (MemoryMetrics F)
get_memory_hardware_info (err d) (err e) m = err e
get_memory_hardware_info (err d) (ok []) m = ok m
get_memory_hardware_info (err d) (ok (b ∷ bs)) m = ok (record m {
  using_slot_count = used_modules (b ∷ bs) % 2 ^ 16;
  total_slot_count = length (b ∷ bs) % 2 ^ 16;
})
get_memory_hardware_info (ok output) ghw m =
    let s : Scan =
      scan_lines
        (record {
          total_slots = 0;
          used_slots = 0;
          in_device = false;
          data_rate = m.data_rate;
          form_factor = m.form_factor;
        })
        (split output 10) in
    ok (record m {
      data_rate = s.data_rate;
      form_factor = s.form_factor;
      total_slot_count = s.total_slots;
      using_slot_count = s.used_slots;
    })
