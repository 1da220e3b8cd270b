-- ===== src/Collectors/Service.antt =====
-- internal/collectors/service.go: ServiceCollector. What systemd answers over D-Bus in one collection is
-- an argument, and a collection runs as one step.
pub mod Units
mod Tests
use system_monitor_go.Base.{
  ℕ, ◌+◌, ◌-◌, ◌/◌, ◌%◌, zero, suc, ◌==◌, Bool, true, false, ◌&&◌, List, [], ◌∷◌, Text, codes,
  text_eq, format_uint, has_suffix, byte_length, length, Time, zero_time, since_lt, seconds, Result,
  ok, err, Option, none, some, ℤ, ltb, if◌then◌else◌, ◌++◌,
}
use mathlib.Core.List.{reverse}
use system_monitor_go.Base.Floats.{Float64}
use system_monitor_go.Config.Settings.{ServiceCollectorSettings}
use system_monitor_go.Models.Service.{ServiceInfo}

-- A unit of `ListUnits`, its path left out, with what systemd answers about it: its file's state and
-- its memory.
pub record ServiceUnit : Type 0 where
  pub name : Text
  pub load_state : Text
  pub active_state : Text
  pub sub_state : Text
  pub file_state : Result Text Text
  pub memory_current : Result Text ℕ

-- The error of `dbus.SystemBus`, if there is one, and the reply of `ListUnits`.
pub record Answers : Type 0 where
  pub system_bus : Option Text
  pub units : Result Text (List ServiceUnit)

-- `conn` tells whether there is a connection to the bus.
pub record ServiceCollector (F : Type 0) : Type 0 where
  pub cached_metrics : List (ServiceInfo F)
  pub cached_time : Time
  pub cache_duration : ℤ
  pub update_frequency : ℤ
  pub background_running : Bool
  pub conn : Bool

-- `startBackgroundCollection` only marks that its goroutine runs; its rounds are `collect_and_cache`.
unfoldable pub new_service_collector : (F : Type 0) → ServiceCollectorSettings → ServiceCollector F
new_service_collector F cfg = record {
  cached_metrics = [];
  cached_time = zero_time;
  cache_duration = seconds cfg.cache_duration_seconds;
  update_frequency = seconds cfg.update_frequency_seconds;
  background_running = true;
  conn = false;
}

unfoldable pub get_service_status : Text → Text
unfolding text_eq
get_service_status state =
    if text_eq state (codes "active")
    then codes "running"
    else if text_eq state (codes "inactive")
    then codes "stopped"
    else if text_eq state (codes "failed")
    then codes "failed"
    else if text_eq state (codes "activating")
    then codes "starting"
    else if text_eq state (codes "deactivating")
    then codes "stopping"
    else codes "unknown"

-- `strings.TrimSuffix` and the test before it
unfoldable pub trim_suffix : Text → Text → Text
unfolding text_eq
trim_suffix [] suffix = []
trim_suffix (c ∷ s) suffix = if text_eq (c ∷ s) suffix then [] else c ∷ trim_suffix s suffix

is_enabled : Result Text Text → Bool
unfolding text_eq
is_enabled (ok state) = text_eq state (codes "enabled")
is_enabled (err e) = false

memory_text : Result Text ℕ → Text
unfolding format_uint
memory_text (ok n) = if ltb 0 n then format_uint n else []
memory_text (err e) = []

unfoldable pub info_of : (fl : Float64) → ServiceUnit → ServiceInfo fl.F
unfolding trim_suffix get_service_status is_enabled memory_text
info_of fl u = record {
  name = trim_suffix u.name (codes ".service");
  status = get_service_status u.active_state;
  enabled = is_enabled u.file_state;
  type = codes "systemd";
  load_state = u.load_state;
  active_state = u.active_state;
  sub_state = u.sub_state;
  memory_usage = memory_text u.memory_current;
  cpu_usage = fl.of_nat 0;
}

unfoldable pub services_of : (fl : Float64) → List ServiceUnit → List (ServiceInfo fl.F)
unfolding has_suffix info_of
services_of fl [] = []
services_of fl (u ∷ us) =
    if has_suffix u.name (codes ".service")
    then info_of fl u ∷ services_of fl us
    else services_of fl us

-- `getDbusConnection`: a connection is kept.
unfoldable pub get_dbus_connection :
    {F : Type 0} → Option Text → ServiceCollector F → ServiceCollector F × Option Text
get_dbus_connection bus c = if c.conn then (c, none) else elim bus [
  | none ↦ (record c { conn = true }, none)
  | some e ↦ (c, some (codes "D-Bus 시스템 버스 연결 실패: " ++ e))
]

unfoldable pub list_services :
    (fl : Float64)
    → Answers
    → ServiceCollector fl.F × Option Text
    → ServiceCollector fl.F × Result Text (List (ServiceInfo fl.F))
unfolding services_of
list_services fl a (c, some e) = (c, err e)
list_services fl a (c, none) = elim a.units [
  | err e ↦ (c, err (codes "systemd 서비스 목록 가져오기 실패: " ++ e))
  | ok us ↦ (c, ok (services_of fl us))
]

unfoldable pub collect_service_metrics :
    (fl : Float64)
    → Answers
    → ServiceCollector fl.F
    → ServiceCollector fl.F × Result Text (List (ServiceInfo fl.F))
unfolding get_dbus_connection list_services
collect_service_metrics fl a c = list_services fl a (get_dbus_connection a.system_bus c)

-- `Collect` and `collectAndCache` keep the services, with the time, unless there was an error.
unfoldable pub store :
    {F : Type 0}
    → Time
    → ServiceCollector F × Result Text (List (ServiceInfo F))
    → ServiceCollector F
store now (c, ok ms) = record c { cached_metrics = ms; cached_time = now }
store now (c, err e) = c

unfoldable pub collect_and_cache :
    (fl : Float64) → Time → Answers → ServiceCollector fl.F → ServiceCollector fl.F
unfolding collect_service_metrics store
collect_and_cache fl after a c = store after (collect_service_metrics fl a c)

-- `Collect`, called at `now`, with `after` the time at which it stores.
unfoldable pub collect :
    (fl : Float64)
    → Time
    → Time
    → Answers
    → ServiceCollector fl.F
    → ServiceCollector fl.F × Result Text (List (ServiceInfo fl.F))
unfolding collect_service_metrics store
collect fl now after a c =
    if since_lt now c.cached_time c.cache_duration && ltb 0 (length c.cached_metrics)
    then (c, ok c.cached_metrics)
    else (store after (collect_service_metrics fl a c), (collect_service_metrics fl a c).1)
