-- ===== src/Collectors/Container/Collection.antt =====
-- internal/collectors/container.go: NewContainerCollector, collectContainerMetrics, Collect and
-- collectAndCache. A goroutine for each container sends its metrics on a channel with room for all, so
-- a collection is the list of the containers in the order in which the goroutines come to their end.
-- A panic in a goroutine ends the program.
use system_monitor_go.Base.{
  Bool, true, false, ◌&&◌, Option, none, some, List, [], ◌∷◌, Text, codes, trim_prefix, byte_length,
  length, ltb, Time, zero_time, since_lt, seconds, Result, ok, err, Outcome, ret, panic,
  index_out_of_range, ◌>>=◌, to_int64, if◌then◌else◌,
}
use system_monitor_go.Base.Floats.{Float64}
use system_monitor_go.Config.Settings.{DockerCollectorSettings}
use system_monitor_go.Models.Container.{DockerContainer, ContainerHealth, ContainerNetwork}
use system_monitor_go.Collectors.Container.{
  DockerStats, DetailsBase, ContainerConfig, NetworkSettings, Details, Listed, ContainerCollector,
}
use system_monitor_go.Collectors.Container.Usage.{
  calculate_cpu_usage, calculate_memory_usage, calculate_network_io, calculate_block_io,
}
use system_monitor_go.Collectors.Container.Convert.{
  convert_labels, convert_health, convert_ports, convert_networks, convert_volumes, convert_env,
  deref,
}

-- Without a client there is no background goroutine; the argument is the error of its construction.
unfoldable pub new_container_collector :
    (F : Type 0) → Option Text → DockerCollectorSettings → ContainerCollector F
new_container_collector F failure cfg =
    let connected : Bool = elim failure [ none ↦ true | some e ↦ false ] in
    record {
      has_client = connected;
      cached_metrics = [];
      cached_time = zero_time;
      cache_duration = seconds cfg.cache_duration_seconds;
      update_frequency = seconds cfg.update_frequency_seconds;
      background_running = connected;
    }

-- The log line of a failed call cuts the identifier to twelve bytes.
unfoldable pub log_failure {ℓ} : {A : Type ℓ} → Text → Outcome (Option A)
log_failure id = if ltb (byte_length id) 12 then panic index_out_of_range else ret none

unfoldable pub add_metric {ℓ} : {A : Type ℓ} → Option A → List A → List A
add_metric none ms = ms
add_metric (some m) ms = m ∷ ms

module _ (fl : Float64) where
  -- The literal of the metric, with the parts of the reply that it reads through pointers.
  unfoldable pub metric_from :
      Listed
      → Text
      → Details
      → DockerStats
      → DetailsBase
      → ContainerConfig
      → ContainerHealth
      → NetworkSettings
      → List ContainerNetwork
      → DockerContainer fl.F
  metric_from c name d s base config health net networks = record {
    id = c.id;
    name = trim_prefix name (codes "/");
    image = c.image;
    status = c.status;
    created = base.created;
    cpu_usage = calculate_cpu_usage fl s;
    memory_usage = (calculate_memory_usage fl s).0;
    memory_limit = (calculate_memory_usage fl s).1;
    memory_percent = (calculate_memory_usage fl s).2;
    network_rx_bytes = (calculate_network_io s).0;
    network_tx_bytes = (calculate_network_io s).1;
    block_read = (calculate_block_io s).0;
    block_write = (calculate_block_io s).1;
    pids = to_int64 s.pids_current;
    restarts = base.restart_count;
    labels = convert_labels config.labels;
    health = health;
    ports = convert_ports net.ports;
    networks = networks;
    volumes = convert_volumes d.mounts;
    env = convert_env config.env;
  }

  unfoldable pub metric_of : Listed → Text → Details → DockerStats → Outcome (DockerContainer fl.F)
  unfolding metric_from deref convert_health convert_networks
  metric_of c name d s = deref d.base >>= λ base. deref d.config >>= λ config.
      deref base.state >>= λ state. convert_health state.health >>= λ health.
      deref d.network_settings >>= λ net. convert_networks net.networks s.networks >>= λ networks.
      ret (metric_from c name d s base config health net networks)

  -- `cont.Names[0]`
  unfoldable pub with_name :
      Listed → Details → DockerStats → List Text → Outcome (Option (DockerContainer fl.F))
  unfolding metric_of
  with_name c d s [] = panic index_out_of_range
  with_name c d s (name ∷ names) = metric_of c name d s >>= λ m. ret (some m)

  -- The goroutine of one container: what it sends, if anything.
  unfoldable pub container_metric : Listed → Outcome (Option (DockerContainer fl.F))
  unfolding with_name log_failure
  container_metric c = elim c.inspect [
    | err e ↦ log_failure c.id
    | ok d ↦ elim c.stats_error [
      | some e ↦ log_failure c.id
      | none ↦ elim c.body_error [
        | some e ↦ log_failure c.id
        | none ↦ elim c.stats [ err e ↦ log_failure c.id | ok s ↦ with_name c d s c.names ]
      ]
    ]
  ]

  -- The metrics in the order in which the goroutines end.
  unfoldable pub gather : List Listed → Outcome (List (DockerContainer fl.F))
  unfolding add_metric
  gather [] = ret []
  gather (c ∷ cs) = container_metric c >>= λ m. gather cs >>= λ ms. ret (add_metric m ms)

  unfoldable pub collect_container_metrics :
      Result Text (List Listed) → Outcome (Result Text (List (DockerContainer fl.F)))
  unfolding gather
  collect_container_metrics (err e) = ret (err e)
  collect_container_metrics (ok cs) = gather cs >>= λ ms. ret (ok ms)

  keep :
      Time
      → ContainerCollector fl.F
      → Result Text (List (DockerContainer fl.F))
      → ContainerCollector fl.F
  keep now c (err e) = c
  keep now c (ok ms) = record c { cached_metrics = ms; cached_time = now }

  unfoldable pub collect_and_cache :
      Time → Result Text (List Listed) → ContainerCollector fl.F → Outcome (ContainerCollector fl.F)
  unfolding collect_container_metrics keep
  collect_and_cache after answer c = collect_container_metrics answer >>= λ r. ret (keep after c r)

  -- `Collect`, called at `now`. A list with no container is nil, so that it does not count as cached,
  -- and what is collected here is not kept: the collector stays as it is.
  unfoldable pub collect :
      Time
      → Result Text (List Listed)
      → ContainerCollector fl.F
      → Outcome (Result Text (List (DockerContainer fl.F)))
  unfolding collect_container_metrics
  collect now answer c =
      if c.has_client
      then if since_lt now c.cached_time c.cache_duration && ltb 0 (length c.cached_metrics)
        then ret (ok c.cached_metrics)
        else collect_container_metrics answer
      else ret (ok [])
