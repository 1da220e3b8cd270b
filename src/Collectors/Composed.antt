-- ===== src/Collectors/Composed.antt =====
-- internal/collectors: what a collector found, as it stands in the report of `CollectAll`.
use system_monitor_go.Base.{
  insert, text_eq, ◌≡◌, ap, ◌∙◌, List, [], ◌∷◌, map, Text, codes, Time, answered, Returns,
}
use mathlib.Core.List.{Permᴰ}
use system_monitor_go.Base.Floats.{Float64}
use system_monitor_go.Config.Settings.{Config}
use system_monitor_go.Queue.{new_queue}
use system_monitor_go.Collectors.Master.{
  MasterCollector, MakeCollectors, Round, collect_all, new_master_collector, register,
  add_collector,
}
use system_monitor_go.Collectors.Master.Fields.{
  Results, Gives, filled, replies, collect_all-registered,
}
use system_monitor_go.Collectors.Network.Metrics.{new_network_collector, collect}
use system_monitor_go.Collectors.Network.Reported.{
  Event, run, up_interfaces, last_listed, collect-up,
}

-- If `Collect` of each collector gives data of its own type or an error, and the network collector of
-- the configuration ran a first round and any others before its reply, then in whatever order the eight replies to `CollectAll` come in, the report of the new master
-- collector lists exactly the interfaces that are up and no loopback among those of the last round in
-- which gopsutil answered both calls, in their order, each with its name and the status up, and none
-- without such a round.
pub collect_all-up {ℓ} :
    {C : Type ℓ} (fl : Float64) (make : MakeCollectors C) (cfg : Config) (now : Time)
    (rd : Round C fl.F) (r : Results fl.F) (e : Event) (es : List Event)
    → Gives make cfg.collectors rd.collect r
    → Permᴰ (replies r) (rd.order (replies r))
    → r.network
      ≡ collect fl
          (run fl es (new_network_collector fl cfg.collectors.network e.now e.after e.answers))
    → Returns {A = MasterCollector C fl.F}
        (λ mc.
          map {B = Text × Text}
            (λ m. (m.interface, m.status))
            (collect_all fl mc.user_key mc.local_key mc.external_ip mc.collectors now rd).network
          ≡ map (λ i. (i.name, codes "up")) (up_interfaces (last_listed [] (e ∷ es))))
        (new_master_collector make cfg)
unfolding new_master_collector new_queue register add_collector insert text_eq filled answered
collect_all-up fl make cfg now rd r e es g d h =
    let (ms, f, names) = collect-up fl cfg.collectors.network e es in
    ap (λ m. map {B = Text × Text} (λ m. (m.interface, m.status)) m.network)
      (collect_all-registered fl make cfg now rd r g d)
    ∙ ap (λ n. map {B = Text × Text} (λ m. (m.interface, m.status)) (answered [] n)) (h ∙ f)
    ∙ names
