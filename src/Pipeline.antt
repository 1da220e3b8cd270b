-- ===== src/Pipeline.antt =====
-- The queue between `Start` of internal/collectors/collector.go, which fills it, and `sendLoop` of
-- internal/network/client/data_sender.go, which empties it: ticks of both in any order.
pub mod Order
pub mod Arrival
mod Tests
use system_monitor_go.Base.{
  Bool, Option, none, some, List, [], ◌∷◌, ◌++◌, Text, Time, Result, Outcome, ret, ◌>>=◌,
}
use system_monitor_go.Base.Floats.{Float64}
use system_monitor_go.Models.Report.{SystemMetrics}
use system_monitor_go.Collectors.Master.{MasterCollector, Round, collect_tick, collect_all}
use system_monitor_go.Client.DataSender.{DataSender, send_tick}

-- A tick of `Start` with what the collectors give, and one of `sendLoop` with what the network
-- says to the write.
pub data Event {ℓ} (C : Type ℓ) (F : Type 0) : Type ℓ where
  collecting : Time → Round C F → Event C F
  sending : Bool → Event C F

module _ {ℓ} {C : Type ℓ} {D : Type 0} (fl : Float64)
    (marshal : SystemMetrics fl.F → Option D) where
  -- The data queue of the sender is the queue of the master collector.
  unfoldable pub react :
      Event C fl.F
      → MasterCollector C fl.F × DataSender D
      → Outcome (MasterCollector C fl.F × DataSender D)
  unfolding collect_tick send_tick
  react (collecting now rd) (mc, ds) = collect_tick fl (now, rd) mc >>= λ next. ret (next, ds)
  react (sending written) (mc, ds) = send_tick marshal written ds mc.metrics_queue >>= λ r.
      ret (record mc { metrics_queue = r.1 }, r.0)

  unfoldable pub react_all :
      List (Event C fl.F)
      → MasterCollector C fl.F × DataSender D
      → Outcome (MasterCollector C fl.F × DataSender D)
  unfolding react
  react_all [] s = ret s
  react_all (e ∷ es) s = react e s >>= λ t. react_all es t

module _ {ℓ} {C : Type ℓ} (fl : Float64) where
  -- The reports that the ticks of `Start` make, for this user, key and address, of these collectors.
  unfoldable pub reports :
      Text → Text → Text → List (Text × C) → List (Event C fl.F) → List (SystemMetrics fl.F)
  unfolding collect_all
  reports user key ip cs [] = []
  reports user key ip cs (collecting now rd ∷ es) =
      collect_all fl user key ip cs now rd ∷ reports user key ip cs es
  reports user key ip cs (sending written ∷ es) = reports user key ip cs es

-- The printed forms of those that can be printed.
unfoldable pub printed_all : {M D : Type 0} → (M → Option D) → List M → List D
printed_all marshal [] = []
printed_all marshal (m ∷ ms) = elim (marshal m) [
  | none ↦ printed_all marshal ms
  | some d ↦ d ∷ printed_all marshal ms
]
