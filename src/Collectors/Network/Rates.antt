-- ===== src/Collectors/Network/Rates.antt =====
-- internal/collectors/network.go: the rates of one round against the counters of the one before.
use system_monitor_go.Base.{
  ◌≡◌, refl, sym, ap, ◌∙◌, Option, none, some, List, [], ◌∷◌, map, Text, text_eq, Bool-cases, inl,
  inr, Time, sub_time, sub_u64, ok, lookup, lookup-insert, insert, or_else, or_else_assoc,
  or_else-none, or_else_if, if◌then◌else◌,
}
use mathlib.Core.Path.{ap₂}
use system_monitor_go.Base.Floats.{Float64, float_seconds}
use system_monitor_go.Models.Network.{NetworkMetrics}
use system_monitor_go.Collectors.Network.{InterfaceStat, IoCounters, Answers, NetworkCollector}
use system_monitor_go.Collectors.Network.Metrics.{
  Round, with_rates, with_counters, with_addrs, described, metric_of, collect_interfaces,
  counters_map, collect_network_metrics,
}
use system_monitor_go.Collectors.Network.Reported.{
  up_interfaces, collect_interfaces-map, with_addrs_keep,
}

-- The last counters with this name.
unfoldable pub last_counters : Text → List IoCounters → Option IoCounters
unfolding or_else text_eq
last_counters name [] = none
last_counters name (c ∷ cs) =
    or_else (last_counters name cs) (if text_eq c.name name then some c else none)

counters_map-last :
    (name : Text) (m : List (Text × IoCounters)) (cs : List IoCounters)
    → lookup name (counters_map m cs) ≡ or_else (last_counters name cs) (lookup name m)
unfolding counters_map last_counters or_else
counters_map-last name m [] = refl
counters_map-last name m (c ∷ cs) =
    counters_map-last name (insert c.name c m) cs
    ∙ ap (λ o. or_else (last_counters name cs) o)
        (lookup-insert c.name name c m ∙ or_else_if (text_eq c.name name) c (lookup name m))
    ∙ sym (or_else_assoc (last_counters name cs) _ (lookup name m))

counters_map_last :
    (name : Text) (cs : List IoCounters) → lookup name (counters_map [] cs) ≡ last_counters name cs
unfolding lookup
counters_map_last name cs = counters_map-last name [] cs ∙ or_else-none (last_counters name cs)

module _ (fl : Float64) where
  -- The rates of received and sent bytes between two counters
  unfoldable pub byte_rates : fl.F → Option IoCounters → Option IoCounters → fl.F × fl.F
  byte_rates delta (some c) (some prev) =
      if fl.lt (fl.of_nat 0) delta
      then (
        fl.div (fl.of_nat (sub_u64 c.bytes_recv prev.bytes_recv)) delta,
        fl.div (fl.of_nat (sub_u64 c.bytes_sent prev.bytes_sent)) delta,
      )
      else (fl.of_nat 0, fl.of_nat 0)
  byte_rates delta (some c) none = (fl.of_nat 0, fl.of_nat 0)
  byte_rates delta none prev = (fl.of_nat 0, fl.of_nat 0)

  rates : NetworkMetrics fl.F → fl.F × fl.F
  rates m = (m.rx_bytes_per_sec, m.tx_bytes_per_sec)

  rates-with_rates :
      (delta : fl.F) (c : IoCounters) (o : Option IoCounters) (m : NetworkMetrics fl.F)
      → rates m ≡ (fl.of_nat 0, fl.of_nat 0)
      → rates (with_rates fl delta c o m) ≡ byte_rates delta (some c) o
  unfolding rates with_rates byte_rates
  rates-with_rates delta c none m h = h
  rates-with_rates delta c (some prev) m h = elim (Bool-cases (fl.lt (fl.of_nat 0) delta)) [
    | inl e ↦ rw e refl
    | inr e ↦ rw e h
  ]

  rates_lem :
      (r : Round fl) (name : Text) (o : Option IoCounters) (m : NetworkMetrics fl.F)
      → rates m ≡ (fl.of_nat 0, fl.of_nat 0)
      → rates (with_counters fl r name o m) ≡ byte_rates r.delta o (lookup name r.prev)
  unfolding rates with_counters byte_rates
  rates_lem r name none m h = h
  rates_lem r name (some c) m h = rates-with_rates r.delta c (lookup name r.prev) _ h

  metric_of-rates :
      (r : Round fl) (i : InterfaceStat)
      → rates (metric_of fl r i)
        ≡ byte_rates r.delta (lookup i.name r.counters) (lookup i.name r.prev)
  unfolding rates metric_of described
  metric_of-rates r i =
      rates_lem r i.name (lookup i.name r.counters) (with_addrs fl i.addrs (described fl i))
        (with_addrs_keep fl rates i.addrs (described fl i) (λ ip n. refl) (λ ip n. refl))

  -- The rates of an interface between two lists of counters
  unfoldable pub rates_between :
      fl.F → List IoCounters → List IoCounters → InterfaceStat → fl.F × fl.F
  unfolding byte_rates last_counters
  rates_between delta before cs i =
      byte_rates delta (last_counters i.name cs) (last_counters i.name before)

  metrics_rates :
      (r : Round fl) (before cs : List IoCounters) (is : List InterfaceStat)
      → r.counters ≡ counters_map [] cs
      → r.prev ≡ counters_map [] before
      → map rates (map (metric_of fl r) is) ≡ map (rates_between r.delta before cs) is
  unfolding rates_between
  metrics_rates r before cs [] h k = refl
  metrics_rates r before cs (i ∷ is) h k =
      ap₂ (λ x xs. x ∷ xs)
        (metric_of-rates r i
          ∙ ap₂ (λ a b. byte_rates r.delta a b)
              (ap (λ m. lookup i.name m) h ∙ counters_map_last i.name cs)
              (ap (λ m. lookup i.name m) k ∙ counters_map_last i.name before))
        (metrics_rates r before cs is h k)

  kept_counters :
      (now : Time) (a : Answers) (c : NetworkCollector fl.F) (is : List InterfaceStat)
      (cs : List IoCounters)
      → a.interfaces ≡ ok is
      → a.io_counters ≡ ok cs
      → collect_network_metrics fl now a c ≡ (
        record c { prev_counters = counters_map [] cs; prev_time = now },
        ok (
            collect_interfaces fl
              (record {
                counters = counters_map [] cs;
                prev = c.prev_counters;
                delta = float_seconds fl (sub_time now c.prev_time);
              })
              is),
      )
  unfolding collect_network_metrics
  kept_counters now a c is cs h k = rw (h, k, collect_network_metrics) refl

  -- Of two rounds in a row in which both calls are answered, the second reports for every interface
  -- that is up and no loopback the received and the sent bytes per second: the differences, modulo
  -- 2^64, of the last counters of that name in the two rounds, over the seconds between the rounds,
  -- and 0 where one round has no counters of that name or no time passed.
  pub collect_twice-rates :
      (t u : Time) (a b : Answers) (c : NetworkCollector fl.F) (is js : List InterfaceStat)
      (before cs : List IoCounters)
      → a.interfaces ≡ ok is
      → a.io_counters ≡ ok before
      → b.interfaces ≡ ok js
      → b.io_counters ≡ ok cs
      → (ms : List (NetworkMetrics fl.F)) × ((collect_network_metrics fl u b
            (collect_network_metrics fl t a c).0).1
          ≡ ok ms)
        × (map {B = fl.F × fl.F} (λ m. (m.rx_bytes_per_sec, m.tx_bytes_per_sec)) ms
            ≡ map (rates_between (float_seconds fl (sub_time u t)) before cs) (up_interfaces js))
  unfolding rates
  collect_twice-rates t u a b c is js before cs h k l m =
      let d : NetworkCollector fl.F = record c {
        prev_counters = counters_map [] before;
        prev_time = t;
      } in
      let r : Round fl = record {
        counters = counters_map [] cs;
        prev = counters_map [] before;
        delta = float_seconds fl (sub_time u t);
      } in
      (
        collect_interfaces fl r js,
        ap (λ o. (collect_network_metrics fl u b o.0).1) (kept_counters t a c is before h k)
            ∙ ap (λ o. o.1) (kept_counters u b d js cs l m),
        ap (λ ms. map rates ms) (collect_interfaces-map fl r js)
            ∙ metrics_rates r before cs (up_interfaces js) refl refl,
      )
