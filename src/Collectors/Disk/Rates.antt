-- ===== src/Collectors/Disk/Rates.antt =====
-- internal/collectors/disk.go: the rates between two collections.
use native.Mathlib.Decide.{dec_le}
use system_monitor_go.Base.{
  ◌⊎◌, inl, inr, ◌-◌, ◌<◌, ◌≤◌, ◌≡◌, ap, some, u64_mod, sub_u64_exact, sub_u64_wraps, arith,
}
use system_monitor_go.Base.Floats.{Float64}
use system_monitor_go.Collectors.Disk.Metrics.{IoCounters, io_stats, rate}

-- Between two collections the read rate is the number of the bytes that were read in between, over
-- the duration, while the counter grows below `2 ^ 64`; after a reset of the counter to a smaller
-- value it is `2 ^ 64` less the fall, over the duration.
pub io_stats_rate :
    (fl : Float64) (io prev : IoCounters) (duration : fl.F)
    → io.read_bytes < u64_mod
    → prev.read_bytes < u64_mod
    → (prev.read_bytes ≤ io.read_bytes
        × ((io_stats fl io (some prev) duration).read_bytes_per_sec
            ≡ fl.div (fl.of_nat (io.read_bytes - prev.read_bytes)) duration))
      ⊎ (io.read_bytes < prev.read_bytes
          × ((io_stats fl io (some prev) duration).read_bytes_per_sec
              ≡ fl.div (fl.of_nat (u64_mod - (prev.read_bytes - io.read_bytes))) duration))
unfolding io_stats rate
io_stats_rate fl io prev duration h k = elim (dec_le prev.read_bytes io.read_bytes) [
  | yes le ↦ inl (
    le,
    ap (λ n. fl.div (fl.of_nat n) duration) (sub_u64_exact io.read_bytes prev.read_bytes le h),
  )
  | no gt ↦ inr (
    omega arith,
    ap (λ n. fl.div (fl.of_nat n) duration)
        (sub_u64_wraps io.read_bytes prev.read_bytes (omega arith) k),
  )
]
