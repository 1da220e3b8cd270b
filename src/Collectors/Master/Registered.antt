-- ===== src/Collectors/Master/Registered.antt =====
-- internal/collectors/collector.go: the collectors that `NewMasterCollector` registers, as one list.
use system_monitor_go.Base.{List, [], ◌∷◌, Text, codes}
use system_monitor_go.Config.Settings.{CollectorSettings}
use system_monitor_go.Collectors.Master.{MakeCollectors}

-- The collectors under their names, each made from its own settings.
abbrev pub registered {ℓ} : {C : Type ℓ} → MakeCollectors C → CollectorSettings → List (Text × C)
registered make s =
    (codes "system", make.system s.system)
    ∷ (codes "cpu", make.cpu s.cpu)
    ∷ (codes "memory", make.memory s.memory)
    ∷ (codes "disk", make.disk s.disk)
    ∷ (codes "container", make.container s.docker)
    ∷ (codes "network", make.network s.network)
    ∷ (codes "process", make.process s.process)
    ∷ (codes "service", make.service s.service)
    ∷ []
