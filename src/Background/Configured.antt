-- ===== src/Background/Configured.antt =====
-- The goroutines with tickers: which configurations they survive.
use system_monitor_go.Base.{ℤ, List, [], ◌∷◌}
use system_monitor_go.Config.Settings.{Config}
use system_monitor_go.Queue.{Queue}
use system_monitor_go.Collectors.Disk.Metrics as Disk
use system_monitor_go.Collectors.Network.Metrics as NetworkMetrics
use system_monitor_go.Collectors.Service as Service
use system_monitor_go.Collectors.Process as Process
use system_monitor_go.Collectors.Container.Collection as ContainerCollection
use system_monitor_go.Client.DataSender.{DataSender}

-- The settings, in seconds, of the tickers that nothing recovers from.
abbrev pub frequencies : Config → List ℤ
frequencies cfg =
    cfg.collectors.disk.update_frequency_seconds ∷ cfg.collectors.process.update_frequency_seconds
    ∷ cfg.collectors.service.update_frequency_seconds
    ∷ cfg.collectors.docker.update_frequency_seconds ∷ cfg.collection_interval
    ∷ cfg.sending_interval ∷ []
