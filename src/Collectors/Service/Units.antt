-- ===== src/Collectors/Service/Units.antt =====
-- internal/collectors/service.go: which units a collection reports, and when the cache answers.
use system_monitor_go.Base.{
  ◌++◌, true, ◌≡◌, refl, sym, ap, arith, Option, none, some, List, [], ◌∷◌, Text, codes, has_suffix,
  text_eq, text_eq_iff, map, inl, inr, Bool-cases, ok, if◌then◌else◌,
}
use mathlib.Core.Path.{ap₂}
use system_monitor_go.Base.Floats.{Float64}
use system_monitor_go.Models.Service.{ServiceInfo}
use system_monitor_go.Collectors.Service.{
  ServiceUnit, Answers, ServiceCollector, trim_suffix, info_of, services_of, get_dbus_connection,
  list_services, collect_service_metrics,
}

trim_suffix-append : (s t : Text) → has_suffix s t ≡ true → trim_suffix s t ++ t ≡ s
unfolding has_suffix trim_suffix
trim_suffix-append [] t h = sym ((text_eq_iff [] t).0 h)
trim_suffix-append (c ∷ s) t h = elim (Bool-cases (text_eq (c ∷ s) t)) [
  | inl e ↦ rw e (sym ((text_eq_iff (c ∷ s) t).0 e))
  | inr e ↦
      let k : has_suffix s t ≡ true = ground (arith, e, h) in
      rw e (ap (λ r. c ∷ r) (trim_suffix-append s t k))
]

-- The names of the units that are services.
unfoldable pub service_names : List ServiceUnit → List Text
service_names [] = []
service_names (u ∷ us) =
    if has_suffix u.name (codes ".service") then u.name ∷ service_names us else service_names us

module _ (fl : Float64) where
  services_of-names :
      (us : List ServiceUnit)
      → map (λ i. i.name ++ codes ".service") (services_of fl us) ≡ service_names us
  unfolding services_of service_names info_of
  services_of-names [] = refl
  services_of-names (u ∷ us) = elim (Bool-cases (has_suffix u.name (codes ".service"))) [
    | inl e ↦
        rw e (
          ap₂ (λ a b. a ∷ b) (trim_suffix-append u.name (codes ".service") e)
            (services_of-names us))
    | inr e ↦ rw e (services_of-names us)
  ]

  connected :
      (a : Answers) (p : ServiceCollector fl.F × Option Text) (us : List ServiceUnit)
      → p.1 ≡ none
      → a.units ≡ ok us
      → (list_services fl a p).1 ≡ ok (services_of fl us)
  unfolding list_services
  connected a (c, none) us h k = ap (λ u. (list_services fl (record a { units = u }) (c, none)).1) k
  connected a (c, some e) us h k = cc

  -- A collection over a connection reports exactly the units whose names end in `.service`, in the
  -- order of systemd, each under its name without that ending.
  pub collect_service_metrics-names :
      (a : Answers) (c : ServiceCollector fl.F) (us : List ServiceUnit)
      → (get_dbus_connection a.system_bus c).1 ≡ none
      → a.units ≡ ok us
      → (ms : List (ServiceInfo fl.F)) × ((collect_service_metrics fl a c).1 ≡ ok ms)
        × (map (λ i. i.name ++ codes ".service") ms ≡ service_names us)
  unfolding collect_service_metrics
  collect_service_metrics-names a c us h k = (
    services_of fl us,
    connected a (get_dbus_connection a.system_bus c) us h k,
    services_of-names us,
  )
