-- ===== src/Collectors/Disk/Device.antt =====
-- internal/collectors/disk.go: getBlockDeviceFromPartition and getDiskInfo. What /sys/block holds is an
-- argument; the package's `blockDeviceCache` is passed on.
use system_monitor_go.Base.{
  ℕ, zero, suc, Bool, false, not, ◌&&◌, ◌||◌, ◌==◌, Option, none, some, List, [], ◌∷◌, Text, codes,
  text_eq, has_prefix, trim_space, is_digit, all, if◌then◌else◌, Result, ok, err, lookup, insert,
}

-- What is read of a device under /sys/block: whether it is there, its `slaves`, `device/model` and
-- `queue/rotational`.
pub record SysBlock : Type 0 where
  pub is_there : Text → Bool
  pub slaves : Text → Result Text (List Text)
  pub model : Text → Result Text Text
  pub rotational : Text → Result Text Text

-- `\d+$` and `p?\d+$` at the start of a text
abbrev pub is_number : Text → Bool
is_number [] = false
is_number (c ∷ s) = all (λ d. is_digit d) (c ∷ s)

abbrev pub is_partition_number : Text → Bool
is_partition_number [] = false
is_partition_number (c ∷ s) = (c == b'p' && is_number s) || is_number (c ∷ s)

-- `partitionRegexp.ReplaceAllString(s, "")`: the leftmost match reaches to the end.
unfoldable pub without_number : Text → Text
without_number [] = []
without_number (c ∷ s) = if is_partition_number (c ∷ s) then [] else c ∷ without_number s

-- The device that is found where the cache has none.
unfoldable pub block_device : SysBlock → Text → Text
unfolding without_number has_prefix text_eq
block_device sys partition =
    let base_name : Text = without_number partition in
    if has_prefix partition (codes "dm-")
    then partition
    else if not (text_eq base_name partition) && sys.is_there base_name
    then base_name
    else partition

abbrev pub Cache : Type 0
Cache = List (Text × Text)

-- `getBlockDeviceFromPartition`: the cache after it, and the device.
unfoldable pub get_block_device : SysBlock → Cache → Text → Cache × Text
unfolding block_device lookup insert
get_block_device sys cache partition = elim (lookup partition cache) [
  | some dev ↦ (cache, dev)
  | none ↦ (insert partition (block_device sys partition) cache, block_device sys partition)
]

-- The device itself: its model name and its type.
unfoldable pub disk_type : Result Text Text → Text
unfolding trim_space text_eq
disk_type (err e) = codes "N/A"
disk_type (ok bytes) =
    if text_eq (trim_space bytes) (codes "0")
    then codes "SSD"
    else if text_eq (trim_space bytes) (codes "1")
    then codes "HDD"
    else codes "N/A"

unfoldable pub model_name : Result Text Text → Text
model_name (err e) = codes "N/A"
model_name (ok bytes) = trim_space bytes

abbrev pub info_at : SysBlock → Text → Text × Text
info_at sys dev = (model_name (sys.model dev), disk_type (sys.rotational dev))

-- The first slave of a device-mapper device.
unfoldable pub first_slave : SysBlock → Text → Option Text
unfolding has_prefix
first_slave sys dev =
    if has_prefix dev (codes "dm-")
    then elim (sys.slaves dev) [ ok [] ↦ none | ok (s ∷ ss) ↦ some s | err e ↦ none ]
    else none

-- `getDiskInfo`, on fuel: each round follows one slave.
unfoldable pub get_disk_info : ℕ → SysBlock → Cache → Text → Option (Cache × (Text × Text))
unfolding get_block_device first_slave model_name disk_type
get_disk_info zero sys cache name = none
get_disk_info (suc n) sys cache name =
    let found : Cache × Text = get_block_device sys cache name in
    elim (first_slave sys found.1) [
      | some s ↦ get_disk_info n sys found.0 s
      | none ↦ some (found.0, info_at sys found.1)
    ]
