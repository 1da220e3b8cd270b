-- ===== src/Collectors/Network/Metrics.antt =====
-- internal/collectors/network.go: collectNetworkMetrics, collectAndCache and Collect.
use system_monitor_go.Base.{
  ◌||◌, not, Option, none, some, List, [], ◌∷◌, Text, codes, text_eq, contains, split, Time,
  sub_time, Result, ok, err, pos, to_int64, sub_u64, lookup, insert, if◌then◌else◌,
}
use system_monitor_go.Base.Floats.{Float64, float_seconds}
use system_monitor_go.Config.Settings.{NetworkCollectorSettings}
use system_monitor_go.Models.Network.{NetworkMetrics}
use system_monitor_go.Collectors.Network.{
  InterfaceStat, IoCounters, Answers, NetworkCollector, blank_collector, get_interface_status,
  is_loopback, get_interface_type,
}

-- `countersMap`: the last counters of a name count.
unfoldable pub counters_map : List (Text × IoCounters) → List IoCounters → List (Text × IoCounters)
unfolding insert
counters_map m [] = m
counters_map m (c ∷ cs) = counters_map (insert c.name c m) cs

first_piece : List Text → Text
first_piece [] = []
first_piece (p ∷ ps) = p

module _ (fl : Float64) where
  unfoldable pub with_addr : Text → NetworkMetrics fl.F → NetworkMetrics fl.F
  unfolding first_piece split contains
  with_addr addr m =
      let ip : Text = first_piece (split addr b'/') in
      if contains ip (codes ":") then record m { ipv6 = ip } else record m { ipv4 = ip }

  unfoldable pub with_addrs : List Text → NetworkMetrics fl.F → NetworkMetrics fl.F
  unfolding with_addr
  with_addrs [] m = m
  with_addrs (a ∷ rest) m = with_addrs rest (with_addr a m)

  -- The differences of the byte counters are ones of `uint64`.
  unfoldable pub with_rates :
      fl.F → IoCounters → Option IoCounters → NetworkMetrics fl.F → NetworkMetrics fl.F
  with_rates delta c none m = m
  with_rates delta c (some prev) m =
      if fl.lt (fl.of_nat 0) delta
      then record m {
        rx_bytes_per_sec = fl.div (fl.of_nat (sub_u64 c.bytes_recv prev.bytes_recv)) delta;
        tx_bytes_per_sec = fl.div (fl.of_nat (sub_u64 c.bytes_sent prev.bytes_sent)) delta;
      }
      else m

  -- What stays the same for all the interfaces of one round.
  pub record Round : Type 0 where
    pub counters : List (Text × IoCounters)
    pub prev : List (Text × IoCounters)
    pub delta : fl.F

  unfoldable pub with_counters :
      Round → Text → Option IoCounters → NetworkMetrics fl.F → NetworkMetrics fl.F
  unfolding with_rates lookup
  with_counters r name none m = m
  with_counters r name (some c) m = with_rates r.delta c (lookup name r.prev) (record m {
    rx_bytes = to_int64 c.bytes_recv;
    tx_bytes = to_int64 c.bytes_sent;
    rx_packets = to_int64 c.packets_recv;
    tx_packets = to_int64 c.packets_sent;
    rx_errors = to_int64 c.errin;
    tx_errors = to_int64 c.errout;
    rx_dropped = to_int64 c.dropin;
    tx_dropped = to_int64 c.dropout;
  })

  unfoldable pub described : InterfaceStat → NetworkMetrics fl.F
  unfolding get_interface_status get_interface_type
  described i = record {
    interface = i.name;
    ipv4 = [];
    ipv6 = [];
    mac = i.hardware_addr;
    mtu = i.mtu;
    speed = 0;
    status = get_interface_status i.flags;
    rx_bytes = pos 0;
    tx_bytes = pos 0;
    rx_packets = pos 0;
    tx_packets = pos 0;
    rx_errors = pos 0;
    tx_errors = pos 0;
    rx_dropped = pos 0;
    tx_dropped = pos 0;
    rx_bytes_per_sec = fl.of_nat 0;
    tx_bytes_per_sec = fl.of_nat 0;
    connection_type = get_interface_type i.name;
  }

  unfoldable pub metric_of : Round → InterfaceStat → NetworkMetrics fl.F
  unfolding described with_addrs with_counters lookup
  metric_of r i =
      with_counters r i.name (lookup i.name r.counters) (with_addrs i.addrs (described i))

  -- Loopback and inactive interfaces are left out.
  unfoldable pub collect_interfaces : Round → List InterfaceStat → List (NetworkMetrics fl.F)
  unfolding is_loopback get_interface_status text_eq metric_of
  collect_interfaces r [] = []
  collect_interfaces r (i ∷ is) =
      if is_loopback i.flags || not (text_eq (get_interface_status i.flags) (codes "up"))
      then collect_interfaces r is
      else metric_of r i ∷ collect_interfaces r is

  -- `collectNetworkMetrics`, with `now` the time that it keeps
  unfoldable pub collect_network_metrics :
      Time
      → Answers
      → NetworkCollector fl.F
      → NetworkCollector fl.F × Result Text (List (NetworkMetrics fl.F))
  unfolding collect_interfaces counters_map float_seconds
  collect_network_metrics now a c = elim a.interfaces [
    | err e ↦ (c, err e)
    | ok is ↦ elim a.io_counters [
      | err e ↦ (c, err e)
      | ok cs ↦
          let m : List (Text × IoCounters) = counters_map [] cs in
          let r : Round = record {
            counters = m;
            prev = c.prev_counters;
            delta = float_seconds fl (sub_time now c.prev_time);
          } in
          (record c { prev_counters = m; prev_time = now }, ok (collect_interfaces r is))
    ]
  ]

  -- Metrics are kept with the time, unless there was an error.
  unfoldable pub store :
      Time
      → NetworkCollector fl.F × Result Text (List (NetworkMetrics fl.F))
      → NetworkCollector fl.F
  store now (c, ok ms) = record c { cached_metrics = ms; cached_time = now }
  store now (c, err e) = c

  unfoldable pub collect_and_cache :
      Time → Time → Answers → NetworkCollector fl.F → NetworkCollector fl.F
  unfolding collect_network_metrics store
  collect_and_cache now after a c = store after (collect_network_metrics now a c)

  -- The first round runs before the collector is returned.
  unfoldable pub new_network_collector :
      NetworkCollectorSettings → Time → Time → Answers → NetworkCollector fl.F
  unfolding blank_collector collect_and_cache
  new_network_collector cfg now after a = collect_and_cache now after a (blank_collector fl.F cfg)

  -- `Collect` only reads the cache.
  unfoldable pub collect : NetworkCollector fl.F → Result Text (List (NetworkMetrics fl.F))
  collect c = ok c.cached_metrics
