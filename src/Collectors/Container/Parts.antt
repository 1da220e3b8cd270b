-- ===== src/Collectors/Container/Parts.antt =====
-- internal/collectors/container.go: replies of Docker without the nil pointers that would be dereferenced.
use system_monitor_go.Base.{
  Result, ◌≡◌, ◌≢◌, refl, Option, none, some, List, [], ◌∷◌, All, Text, ok, err, ret, >>=-Finishes,
}
use system_monitor_go.Models.Container.{ContainerHealth, ContainerNetwork}
use system_monitor_go.Collectors.Container.{
  InterfaceStats, HealthState, Endpoint, ContainerState, DetailsBase, ContainerConfig,
  NetworkSettings, Details,
}
use system_monitor_go.Collectors.Container.Convert.{
  deref, last_output, convert_health, convert_networks,
}

abbrev pub log_of : Option HealthState → List (Option Text)
log_of none = []
log_of (some h) = h.log

-- A reply of `ContainerInspect` without a nil pointer in what is read of it.
pub record HasParts (d : Details) : Type 0 where
  pub base : DetailsBase
  pub base_eq : d.base ≡ some base
  pub config : ContainerConfig
  pub config_eq : d.config ≡ some config
  pub state : ContainerState
  pub state_eq : base.state ≡ some state
  pub log : All (λ o. o ≢ none) (log_of state.health)
  pub net : NetworkSettings
  pub net_eq : d.network_settings ≡ some net
  pub endpoints : All (λ n. n.1 ≢ none) net.networks

abbrev pub HasAnswer : Result Text Details → Type 0
HasAnswer (ok d) = HasParts d
HasAnswer (err e) = Unit

last_output-ret :
    (log : List (Option Text)) → All (λ o. o ≢ none) log → (t : Text) × (last_output log ≡ ret t)
unfolding last_output deref
last_output-ret [] h = ([], refl)
last_output-ret (none ∷ []) h = absurd (h.0 refl)
last_output-ret (some t ∷ []) h = (t, refl)
last_output-ret (o ∷ p ∷ os) h = last_output-ret (p ∷ os) h.1

pub convert_health-ret :
    (h : Option HealthState)
    → All (λ o. o ≢ none) (log_of h)
    → (x : ContainerHealth) × (convert_health h ≡ ret x)
unfolding convert_health
convert_health-ret none k = (_, refl)
convert_health-ret (some h) k =
    >>=-Finishes (last_output h.log) _ (last_output-ret h.log k) (λ t. (_, refl))

pub convert_networks-ret :
    (ns : List (Text × Option Endpoint)) (stats : List (Text × InterfaceStats))
    → All (λ n. n.1 ≢ none) ns
    → (xs : List ContainerNetwork) × (convert_networks ns stats ≡ ret xs)
unfolding convert_networks deref
convert_networks-ret [] stats h = ([], refl)
convert_networks-ret ((name, none) ∷ ns) stats h = absurd (h.0 refl)
convert_networks-ret ((name, some e) ∷ ns) stats h =
    >>=-Finishes (convert_networks ns stats) _ (convert_networks-ret ns stats h.1) (λ xs. (_, refl))
