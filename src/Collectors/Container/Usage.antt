-- ===== src/Collectors/Container/Usage.antt =====
-- internal/collectors/container.go: calculateCPUUsage, calculateMemoryUsage, calculateNetworkIO and
-- calculateBlockIO.
use system_monitor_go.Base.{
  ◌&&◌, List, [], ◌∷◌, Text, codes, text_eq, length, ℤ, pos, ltb_ℤ, to_int64, add_int64,
  if◌then◌else◌,
}
use system_monitor_go.Base.Floats.{Float64}
use system_monitor_go.Collectors.Container.{DockerStats, BlockStat, InterfaceStats}

module _ (fl : Float64) where
  unfoldable pub calculate_cpu_usage : DockerStats → fl.F
  calculate_cpu_usage s =
      let zero_f : fl.F = fl.of_nat 0 in
      let cpu_delta : fl.F = fl.sub (fl.of_nat s.total_usage) (fl.of_nat s.pre_total_usage) in
      let system_delta : fl.F =
        fl.sub (fl.of_nat s.system_cpu_usage) (fl.of_nat s.pre_system_cpu_usage) in
      let online : fl.F =
        if fl.eq (fl.of_nat s.online_cpus) zero_f
        then fl.of_nat (length s.percpu_usage)
        else fl.of_nat s.online_cpus in
      if fl.lt zero_f system_delta && fl.lt zero_f cpu_delta
      then fl.mul (fl.mul (fl.div cpu_delta system_delta) online) (fl.of_nat 100)
      else zero_f

  -- Usage, limit and percentage.
  unfoldable pub calculate_memory_usage : DockerStats → ℤ × ℤ × fl.F
  calculate_memory_usage s =
      let usage : ℤ = to_int64 s.memory_usage in
      let limit : ℤ = to_int64 s.memory_limit in
      (
        usage,
        limit,
        (if ltb_ℤ (pos 0) limit
            then fl.mul (fl.div (fl.of_int usage) (fl.of_int limit)) (fl.of_nat 100)
            else fl.of_nat 0),
      )

unfoldable pub add_networks : List (Text × InterfaceStats) → ℤ × ℤ → ℤ × ℤ
add_networks [] t = t
add_networks ((name, n) ∷ ns) t =
    add_networks ns (add_int64 t.0 (to_int64 n.rx_bytes), add_int64 t.1 (to_int64 n.tx_bytes))

unfoldable pub calculate_network_io : DockerStats → ℤ × ℤ
unfolding add_networks
calculate_network_io s = add_networks s.networks (pos 0, pos 0)

-- The switch on the operation.
unfoldable pub add_block : BlockStat → ℤ × ℤ → ℤ × ℤ
unfolding text_eq
add_block b t =
    if text_eq b.op (codes "Read")
    then (add_int64 t.0 (to_int64 b.value), t.1)
    else if text_eq b.op (codes "Write")
    then (t.0, add_int64 t.1 (to_int64 b.value))
    else t

unfoldable pub add_blocks : List BlockStat → ℤ × ℤ → ℤ × ℤ
unfolding add_block
add_blocks [] t = t
add_blocks (b ∷ bs) t = add_blocks bs (add_block b t)

unfoldable pub calculate_block_io : DockerStats → ℤ × ℤ
unfolding add_blocks
calculate_block_io s = add_blocks s.io_service_bytes (pos 0, pos 0)
