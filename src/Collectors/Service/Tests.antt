-- ===== src/Collectors/Service/Tests.antt =====
-- Runs of the service collector, and its theorem at a concrete input.
use system_monitor_go.Base.{
  format_uint, ◌≡◌, refl, ◌++◌, none, ok, List, [], ◌∷◌, codes, map, pos, has_suffix,
}
use system_monitor_go.Base.Floats.{whole}
use system_monitor_go.Models.Service.{ServiceInfo}
use system_monitor_go.Collectors.Service.{
  ServiceUnit, Answers, ServiceCollector, new_service_collector, collect_service_metrics,
  get_dbus_connection,
}
use system_monitor_go.Collectors.Service.Units.{service_names, collect_service_metrics-names}

abbrev cron : ServiceUnit
cron = record {
  name = codes "cron.service";
  load_state = codes "loaded";
  active_state = codes "active";
  sub_state = codes "running";
  file_state = ok (codes "enabled");
  memory_current = ok 4096;
}

abbrev some_units : List ServiceUnit
some_units = cron ∷ record cron { name = codes "boot.mount" } ∷ []

abbrev bus_answers : Answers
bus_answers = record { system_bus = none; units = ok some_units }

abbrev new_services : ServiceCollector whole.F
new_services =
    new_service_collector whole.F
      (record { cache_duration_seconds = pos 3; update_frequency_seconds = pos 2 })

prints_memory : format_uint 4096 ≡ codes "4096"
unfolding format_uint
prints_memory = refl

only_services : service_names some_units ≡ codes "cron.service" ∷ []
unfolding service_names has_suffix
only_services = refl

collect_service_metrics-names_example :
    (ms : List (ServiceInfo whole.F)) × ((collect_service_metrics whole bus_answers new_services).1
      ≡ ok ms)
    × (map (λ i. i.name ++ codes ".service") ms ≡ service_names some_units)
unfolding get_dbus_connection new_service_collector
collect_service_metrics-names_example =
    collect_service_metrics-names whole bus_answers new_services some_units refl refl
