-- ===== src/Collectors/CacheTests.antt =====
-- Runs of the memory and the system collector, and their theorems at concrete inputs.
use system_monitor_go.Base.{
  ◌+◌, ◌≤◌, ℕ, ℤ, false, ◌≡◌, refl, List, [], ◌∷◌, arith, ok, err, Result, codes, pos, max_duration,
  ◌++◌, Text, Time, seconds, to_int64,
}
use system_monitor_go.Base.Floats.{whole}
use system_monitor_go.Models.Host.{SystemInfo}
use system_monitor_go.Models.Memory.{MemoryMetrics}
use system_monitor_go.Config.Settings.{MemoryCollectorSettings, SystemCollectorSettings}
use system_monitor_go.Collectors.Master.{blank_system, blank_memory}
use system_monitor_go.Collectors.Memory.{VirtualMemory, SwapMemory}
use system_monitor_go.Collectors.Memory as Memory
use system_monitor_go.Collectors.Memory.Hardware.{
  scan_line, scan_lines, used_modules, read_speed, read_form, parse_uint, get_memory_hardware_info,
}
use system_monitor_go.Collectors.Memory.Cache as MemoryCache
use system_monitor_go.Collectors.System.{HostInfo}
use system_monitor_go.Collectors.System as System
use system_monitor_go.Collectors.System.Cache as SystemCache

abbrev two_slots : List Text
two_slots =
    codes "Physical Memory Array"
    ∷ codes ""
    ∷ codes "Memory Device"
    ∷ codes "  Size: 8 GB"
    ∷ codes "  Form Factor: DIMM"
    ∷ codes "  Speed: 2667 MT/s"
    ∷ codes ""
    ∷ codes "Memory Device"
    ∷ codes "  Size: No Module Installed"
    ∷ codes "  Form Factor: Unknown"
    ∷ codes ""
    ∷ []

-- One module in two slots.
reads_slots :
    scan_lines
      (record {
        total_slots = 0;
        used_slots = 0;
        in_device = false;
        data_rate = 0;
        form_factor = [];
      })
      two_slots
    ≡ record {
      total_slots = 2;
      used_slots = 1;
      in_device = false;
      data_rate = 2667;
      form_factor = codes "DIMM";
    }
unfolding scan_lines scan_line read_speed read_form parse_uint system_monitor_go.Base.digits_value
reads_slots = refl

abbrev pub some_memory : VirtualMemory ℕ
some_memory = record {
  total = 800;
  used = 300;
  free = 500;
  available = 450;
  buffers = 20;
  cached = 30;
  used_percent = 37;
}

abbrev some_swap : SwapMemory
some_swap = record { total = 100; used = 10; free = 90 }

abbrev pub memory_answers : Result Text (VirtualMemory ℕ) → Memory.Answers ℕ
memory_answers static_part = record {
  static_memory = static_part;
  static_swap = ok some_swap;
  dmidecode = err (codes "no sudo");
  ghw_modules = ok (pos 0 ∷ pos 400 ∷ []);
  memory = ok some_memory;
  swap = ok some_swap;
}

abbrev pub memory_settings : MemoryCollectorSettings
memory_settings = record { cache_duration_seconds = pos 3; update_frequency_seconds = pos 2 }

-- The reply of a collector without static information.
abbrev poor_reply : MemoryMetrics ℕ
poor_reply = record (blank_memory whole) {
  used = pos 300;
  free = pos 500;
  available = pos 450;
  buffers = pos 20;
  cached = pos 30;
  usage_percent = 37;
  swap_used = pos 10;
  swap_free = pos 90;
}

abbrev full_reply : MemoryMetrics ℕ
full_reply = record poor_reply {
  total = pos 800;
  swap_total = pos 100;
  using_slot_count = 1;
  total_slot_count = 2;
}

abbrev pub sized : MemoryMetrics ℕ
sized = record (blank_memory whole) {
  total = pos 800;
  swap_total = pos 100;
  using_slot_count = 1;
  total_slot_count = 2;
}

abbrev busy_event : MemoryCache.Event ℕ
busy_event = MemoryCache.refreshing 5 (memory_answers (err (codes "busy")))

abbrev good_event : MemoryCache.Event ℕ
good_event = MemoryCache.refreshing 5 (memory_answers (ok some_memory))

collect-failed_statics_example :
    ((MemoryCache.run whole
        (busy_event ∷ [])
        (Memory.new_memory_collector whole memory_settings)).static_info_loaded
      ≡ false)
    × (MemoryCache.statics poor_reply ≡ MemoryCache.statics (blank_memory whole))
unfolding Memory.collect_static_info Memory.collect Memory.collect_memory_info Memory.static_once
    Memory.after_once Memory.store Memory.collect_dynamic_info MemoryCache.run MemoryCache.react
    Memory.background_round Memory.new_memory_collector seconds to_int64
collect-failed_statics_example =
    MemoryCache.collect-failed_statics whole memory_settings busy_event [] 9 10
      (memory_answers (ok some_memory)) (codes "busy") poor_reply refl refl

collect-first_statics_example : MemoryCache.statics full_reply ≡ MemoryCache.statics sized
unfolding Memory.collect_static_info Memory.collect Memory.collect_memory_info Memory.static_once
    Memory.after_once Memory.store Memory.collect_dynamic_info MemoryCache.run MemoryCache.react
    Memory.background_round Memory.new_memory_collector Memory.keep_static get_memory_hardware_info
    used_modules seconds to_int64
collect-first_statics_example =
    MemoryCache.collect-first_statics whole memory_settings good_event [] 9 10
      (memory_answers (ok some_memory)) sized full_reply refl refl

abbrev some_host : HostInfo
some_host = record {
  hostname = codes "box";
  os = codes "linux";
  platform = codes "debian";
  platform_family = codes "debian";
  platform_version = codes "12";
  kernel_arch = codes "x86_64";
  boot_time = 70;
  uptime = 40;
}

abbrev pub host_answers : Result Text (List (Result Text ℤ × Result Text ℤ)) → System.Answers
host_answers ps = record {
  static_host = ok some_host;
  kernel_version = ok (codes "6.1");
  host = ok some_host;
  processes = ps;
}

abbrev pub one_process : List (Result Text ℤ × Result Text ℤ)
one_process = (ok (pos 4), err (codes "denied")) ∷ []

abbrev pub host_settings : SystemCollectorSettings
host_settings = record { cache_duration_seconds = pos 3; update_frequency_seconds = pos 2 }

abbrev pub named : SystemInfo
named = record blank_system {
  hostname = codes "box";
  os_name = codes "linux";
  platform = codes "debian";
  platform_family = codes "debian";
  os_version = codes "12";
  os_architecture = codes "x86_64";
  os_kernel_version = codes "6.1";
}

abbrev pub counted : SystemInfo → SystemInfo
counted i = record i { boot_time = pos 70; uptime = pos 40; total_processes = 1; total_threads = 4 }

abbrev pub late_time : Time
late_time = 9223372036854775900

collect-first_names_example : SystemCache.statics (counted named) ≡ SystemCache.statics named
unfolding System.collect_static_info System.collect System.collect_system_info System.after_static
    System.store System.collect_dynamic_info System.count_processes System.add_count SystemCache.run
    SystemCache.react System.background_round System.new_system_collector seconds to_int64
collect-first_names_example =
    SystemCache.collect-first_names host_settings
      (SystemCache.collecting late_time late_time (host_answers (ok one_process))) [] late_time
      late_time (host_answers (ok one_process)) named (counted named) (counted named) (omega arith)
      refl refl refl

collect-lost_names_example :
    SystemCache.statics (counted blank_system) ≡ SystemCache.statics blank_system
unfolding System.collect_static_info System.collect System.collect_system_info System.after_static
    System.store System.collect_dynamic_info System.count_processes System.add_count SystemCache.run
    SystemCache.react System.background_round System.new_system_collector seconds to_int64
collect-lost_names_example =
    SystemCache.collect-lost_names host_settings
      (SystemCache.collecting late_time late_time (host_answers (err (codes "denied")))) []
      late_time late_time (host_answers (ok one_process)) named (counted blank_system)
      (codes "denied") (omega arith) refl refl refl
