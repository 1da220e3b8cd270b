-- ===== src/Collectors/Master/Ticks.antt =====
-- internal/collectors/collector.go: the reports that `Start` leaves in the queue.
use system_monitor_go.Base.{
  ◌≡◌, refl, insert, text_eq, List, [], ◌∷◌, arith, Text, Time, Outcome, ret, ◌>>=◌, map, pos,
  panic, Returns,
}
use system_monitor_go.Base.Floats.{Float64}
use system_monitor_go.Models.Report.{SystemMetrics}
use system_monitor_go.Config.Settings.{Config}
use system_monitor_go.Queue.{push, new_queue}
use system_monitor_go.Queue.Window.{newest, push_all, push_all-window}
use system_monitor_go.Collectors.Master.{
  MasterCollector, MakeCollectors, collect_tick, collect_all, new_master_collector, register,
  get_data_queue, add_collector, Round,
}
use system_monitor_go.Collectors.Master.Registered.{registered}

module _ {ℓ} {C : Type ℓ} (fl : Float64) where
  -- The report of one tick, for the user and the machine of a configuration, of these collectors.
  abbrev pub report :
      Text → Text → Text → List (Text × C) → Time × Round C fl.F → SystemMetrics fl.F
  report user key ip cs t = collect_all fl user key ip cs t.0 t.1

-- Two ways to go on from a call agree if they agree on what it returns.
bind_twice {ℓ κ ν μ} :
    {A : Type ℓ} {B : Type κ} {D : Type ν} {E : Type μ} (o : Outcome A) (f : A → Outcome B)
    (g : B → Outcome E) (h : A → Outcome D) (k : D → Outcome E)
    → ((a : A) → (f a >>= g) ≡ (h a >>= k))
    → ((o >>= f) >>= g) ≡ ((o >>= h) >>= k)
bind_twice (ret a) f g h k e = e a
bind_twice (panic p) f g h k e = refl

module _ {ℓ} {C : Type ℓ} (fl : Float64) where
  abbrev empty_collector : MakeCollectors C → Config → MasterCollector C fl.F
  unfolding register
  empty_collector make cfg = register make cfg.collectors (record {
    collectors = [];
    metrics_queue = record { items = []; size = 100 };
    user_key = cfg.user_key;
    local_key = cfg.local_key;
    external_ip = cfg.external_ip;
  })

  unfoldable pub run_ticks :
      List (Time × Round C fl.F) → MasterCollector C fl.F → Outcome (MasterCollector C fl.F)
  run_ticks [] mc = ret mc
  run_ticks (t ∷ ts) mc = collect_tick fl t mc >>= λ next. run_ticks ts next

  run_ticks-push_all :
      (ts : List (Time × Round C fl.F)) (mc : MasterCollector C fl.F)
      → run_ticks ts mc ≡ (
          push_all mc.metrics_queue
            (map (report fl mc.user_key mc.local_key mc.external_ip mc.collectors) ts)
          >>= λ q. ret (record mc { metrics_queue = q }))
  unfolding run_ticks push_all collect_tick
  run_ticks-push_all [] mc = refl
  run_ticks-push_all ((now, rd) ∷ ts) mc =
      bind_twice
        (push mc.metrics_queue
          (report fl mc.user_key mc.local_key mc.external_ip mc.collectors (now, rd)))
        (λ q. ret (record mc { metrics_queue = q })) (λ next. run_ticks ts next)
        (λ q. push_all q (map (report fl mc.user_key mc.local_key mc.external_ip mc.collectors) ts))
        (λ q. ret (record mc { metrics_queue = q }))
        (λ q. run_ticks-push_all ts (record mc { metrics_queue = q }))

  run_new :
      (make : MakeCollectors C) (cfg : Config) (ts : List (Time × Round C fl.F))
      → (new_master_collector make cfg >>= λ mc. run_ticks ts mc) ≡ (
          (new_queue (pos 100) >>= λ q. push_all q (
            map
              (report fl cfg.user_key cfg.local_key cfg.external_ip
                (registered make cfg.collectors))
              ts))
          >>= λ q. ret (record (empty_collector make cfg) { metrics_queue = q }))
  unfolding new_master_collector new_queue register add_collector insert text_eq
  run_new make cfg ts = run_ticks-push_all ts (empty_collector make cfg)

  -- From its construction on, and whatever its collectors give at the ticks of `Start`, a master
  -- collector never panics, and the queue that it hands to the client holds the reports of the
  -- newest hundred ticks, oldest first, each made out for the configuration's user, key and address
  -- from the eight collectors of the configuration.
  pub run_ticks-window :
      (make : MakeCollectors C) (cfg : Config) (ts : List (Time × Round C fl.F))
      → Returns
          (λ mc. get_data_queue mc ≡ record {
            items = newest 100 (
                map
                  (report fl cfg.user_key cfg.local_key cfg.external_ip
                    (registered make cfg.collectors))
                  ts);
            size = 100;
          })
          (new_master_collector make cfg >>= λ mc. run_ticks ts mc)
  unfolding get_data_queue register add_collector insert text_eq
  run_ticks-window make cfg ts = rw (run_new make cfg ts) (
      rw
        (push_all-window 100
          (map
            (report fl cfg.user_key cfg.local_key cfg.external_ip (registered make cfg.collectors))
            ts)
          (omega arith))
        refl)
