-- ===== src/Collectors/Tests.antt =====
-- Runs of the collectors, and their theorems at concrete inputs.
use system_monitor_go.Base.{
  ◌==◌, if◌then◌else◌, ℕ, true, ◌≡◌, refl, List, [], ◌∷◌, ◌>>=◌, Text, Time, Result, ok, err, codes,
  map, Returns, answered,
}
use system_monitor_go.Base.Floats.{whole}
use system_monitor_go.Config.Settings.{default_config}
use system_monitor_go.Models.Service.{ServiceInfo}
use system_monitor_go.Queue.Window.{newest}
use system_monitor_go.Collectors.Master.{
  MasterCollector, blank_report, Payload, Round, service_infos, process_infos, MakeCollectors,
  collect_all, new_master_collector, get_data_queue,
}
use system_monitor_go.Collectors.Master.Ticks.{run_ticks, run_ticks-window, report}
use system_monitor_go.Collectors.Master.Fields.{
  Results, Gives, replies, as_payload, collect_all-filled,
}
use system_monitor_go.Collectors.Master.Registered.{registered}
use mathlib.Core.List.{Permᴰ}

abbrev numbered : MakeCollectors ℕ
numbered = record {
  system = λ s. 0;
  cpu = λ s. 1;
  memory = λ s. 2;
  disk = λ s. 3;
  container = λ s. 4;
  network = λ s. 5;
  process = λ s. 6;
  service = λ s. 7;
}

abbrev a_service : ServiceInfo ℕ
a_service = record {
  name = codes "cron";
  status = codes "running";
  enabled = true;
  type = codes "service";
  load_state = codes "loaded";
  active_state = codes "active";
  sub_state = codes "running";
  memory_usage = [];
  cpu_usage = 0;
}

-- Only the services and the processes are read; the first two replies change places.
abbrev few_read : ℕ → Result Text (Payload ℕ)
few_read c =
    if c == 7
    then ok (service_infos (a_service ∷ []))
    else if c == 6
    then ok (process_infos [])
    else err (codes "down")

abbrev overtaken : Round ℕ ℕ
overtaken = record {
  collect = few_read;
  order = λ rs. elim rs [ (a ∷ b ∷ cs) ↦ b ∷ a ∷ cs | cs ↦ cs ];
}

abbrev all_down : Round ℕ ℕ
all_down = record { collect = λ c. err (codes "down"); order = λ rs. rs }

abbrev two_ticks : List (Time × Round ℕ ℕ)
two_ticks = (5, overtaken) ∷ (8, all_down) ∷ []

run_ticks-window_example :
    Returns
      (λ mc. get_data_queue mc ≡ record {
        items = newest 100 (
            map
              (report whole default_config.user_key default_config.local_key
                default_config.external_ip
                (registered numbered default_config.collectors))
              two_ticks);
        size = 100;
      })
      (new_master_collector numbered default_config >>= λ mc. run_ticks whole two_ticks mc)
run_ticks-window_example = run_ticks-window whole numbered default_config two_ticks

abbrev few_results : Results ℕ
few_results = record {
  system = err (codes "down");
  cpu = err (codes "down");
  memory = err (codes "down");
  disk = err (codes "down");
  container = err (codes "down");
  network = err (codes "down");
  process = ok [];
  service = ok (a_service ∷ []);
}

few_results-Gives : Gives numbered default_config.collectors few_read few_results
unfolding as_payload
few_results-Gives = record {
  system = refl;
  cpu = refl;
  memory = refl;
  disk = refl;
  container = refl;
  network = refl;
  process = refl;
  service = refl;
}

collect_all-filled_example :
    Returns {A = MasterCollector ℕ ℕ}
      (λ mc.
        (mc.collectors ≡ registered numbered default_config.collectors)
        × (collect_all whole mc.user_key mc.local_key mc.external_ip mc.collectors 9 overtaken
            ≡ record (blank_report whole [] [] [] 9) { services = a_service ∷ [] }))
      (new_master_collector numbered default_config)
unfolding answered replies
collect_all-filled_example =
    collect_all-filled whole numbered default_config 9 overtaken few_results few_results-Gives
      (Permᴰ.swap refl refl)
