-- ===== src/Collectors/Container/Convert.antt =====
-- internal/collectors/container.go: the conversions of Docker's types.
use system_monitor_go.Base.{
  List, [], ◌∷◌, ◌++◌, map, Option, none, some, Text, codes, text_eq, split_two, if◌then◌else◌, pos,
  Outcome, ret, panic, nil_dereference, ◌>>=◌,
}
use system_monitor_go.Models.Container.{
  ContainerLabel, ContainerHealth, ContainerPort, ContainerNetwork, ContainerVolume, ContainerEnv,
}
use system_monitor_go.Collectors.Container.{
  InterfaceStats, HealthState, PortEntry, Endpoint, MountPoint,
}

unfoldable pub convert_labels : List (Text × Text) → List ContainerLabel
convert_labels = map (λ l. record { key = l.0; value = l.1 })

-- What a pointer points to.
unfoldable pub deref {ℓ} : {A : Type ℓ} → Option A → Outcome A
deref none = panic nil_dereference
deref (some a) = ret a

unfoldable pub last_output : List (Option Text) → Outcome Text
unfolding deref
last_output [] = ret []
last_output (o ∷ []) = deref o
last_output (o ∷ p ∷ os) = last_output (p ∷ os)

unfoldable pub convert_health : Option HealthState → Outcome ContainerHealth
unfolding last_output text_eq
convert_health none =
    ret (record { status = codes "unknown"; failing_streak = pos 0; last_check_output = [] })
convert_health (some h) = last_output h.log >>= λ output. ret (record {
  status = if text_eq h.status [] then codes "unknown" else h.status;
  failing_streak = h.failing_streak;
  last_check_output = output;
})

unfoldable pub convert_ports : List PortEntry → List ContainerPort
convert_ports [] = []
convert_ports (p ∷ ps) =
    map (λ b. record { container_port = p.port; host_port = b; protocol = p.proto }) p.bindings
    ++ convert_ports ps

-- The statistics of a container with one interface; any other gives no counts.
unfoldable pub single_stats : List (Text × InterfaceStats) → InterfaceStats
single_stats (n ∷ []) = n.1
single_stats [] = record { rx_bytes = 0; tx_bytes = 0 }
single_stats (n ∷ o ∷ ns) = record { rx_bytes = 0; tx_bytes = 0 }

-- The loop over the networks, which reads each through its pointer.
unfoldable pub convert_networks :
    List (Text × Option Endpoint) → List (Text × InterfaceStats) → Outcome (List ContainerNetwork)
unfolding single_stats deref
convert_networks [] stats = ret []
convert_networks (n ∷ ns) stats = deref n.1 >>= λ settings.
    convert_networks ns stats >>= λ networks. ret (
      record {
        name = n.0;
        ip = settings.ip_address;
        mac = settings.mac_address;
        rx_bytes = (single_stats stats).rx_bytes;
        tx_bytes = (single_stats stats).tx_bytes;
      }
      ∷ networks)

unfoldable pub convert_volumes : List MountPoint → List ContainerVolume
convert_volumes =
    map
      (λ m. record { source = m.source; destination = m.destination; mode = m.mode; type = m.type })

unfoldable pub env_of : List Text → ContainerEnv
env_of [] = record { key = []; value = [] }
env_of (key ∷ []) = record { key = key; value = [] }
env_of (key ∷ value ∷ rest) = record { key = key; value = value }

unfoldable pub convert_env : List Text → List ContainerEnv
unfolding env_of split_two
convert_env = map (λ e. env_of (split_two e b'='))
