-- ===== src/Collectors/Network.antt =====
-- internal/collectors/network.go: NetworkCollector. What gopsutil answers in one round is an argument;
-- a round runs as one step.
pub mod Metrics
pub mod Reported
pub mod Rates
mod Tests
use system_monitor_go.Base.{
  ℕ, ℤ, Bool, true, ◌||◌, List, [], ◌∷◌, Text, codes, text_eq, any, to_lower, has_prefix, Time,
  zero_time, seconds, Result, if◌then◌else◌,
}
use system_monitor_go.Config.Settings.{NetworkCollectorSettings}
use system_monitor_go.Models.Network.{NetworkMetrics}

-- The fields of `InterfaceStat` and `IOCountersStat` that are read; of an address, its text.
pub record InterfaceStat : Type 0 where
  pub name : Text
  pub hardware_addr : Text
  pub mtu : ℤ
  pub flags : List Text
  pub addrs : List Text

pub record IoCounters : Type 0 where
  pub name : Text
  pub bytes_sent : ℕ
  pub bytes_recv : ℕ
  pub packets_sent : ℕ
  pub packets_recv : ℕ
  pub errin : ℕ
  pub errout : ℕ
  pub dropin : ℕ
  pub dropout : ℕ

pub record Answers : Type 0 where
  pub interfaces : Result Text (List InterfaceStat)
  pub io_counters : Result Text (List IoCounters)

pub record NetworkCollector (F : Type 0) : Type 0 where
  pub cached_metrics : List (NetworkMetrics F)
  pub cached_time : Time
  pub cache_duration : ℤ
  pub update_frequency : ℤ
  pub background_running : Bool
  pub prev_counters : List (Text × IoCounters)
  pub prev_time : Time

-- The collector before its first round, with the goroutine marked as running.
unfoldable pub blank_collector : (F : Type 0) → NetworkCollectorSettings → NetworkCollector F
blank_collector F cfg = record {
  cached_metrics = [];
  cached_time = zero_time;
  cache_duration = seconds cfg.cache_duration_seconds;
  update_frequency = seconds cfg.update_frequency_seconds;
  background_running = true;
  prev_counters = [];
  prev_time = zero_time;
}

unfoldable pub get_interface_status : List Text → Text
unfolding text_eq
get_interface_status [] = codes "down"
get_interface_status (f ∷ fs) =
    if text_eq f (codes "up") then codes "up" else get_interface_status fs

unfoldable pub is_loopback : List Text → Bool
unfolding text_eq
is_loopback flags = any (λ f. text_eq f (codes "loopback")) flags

unfoldable pub get_interface_type : Text → Text
unfolding to_lower has_prefix
get_interface_type name =
    let lower : Text = to_lower name in
    if has_prefix lower (codes "eth") || has_prefix lower (codes "en")
    then codes "Ethernet"
    else if has_prefix lower (codes "wl")
    then codes "Wi-Fi"
    else if has_prefix lower (codes "docker")
        || has_prefix lower (codes "br-")
        || has_prefix lower (codes "veth")
    then codes "Virtual"
    else codes "Unknown"
