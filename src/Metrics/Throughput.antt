-- ===== src/Metrics/Throughput.antt =====
-- The figures of `run_simulation` that are divided by the length of the run: shares of the airtime,
-- throughputs in Mbps, and the joint metric. `time` is in microseconds.
use implementing_5g_nr_u_lte.Common.{ℕ, ◌*◌, ℤ, pos, ◌+ℤ◌, ltb, if◌then◌else◌}
use implementing_5g_nr_u_lte.Data.{Channel}
use implementing_5g_nr_u_lte.Controller.{Ratio}
use implementing_5g_nr_u_lte.Metrics.{
  channel_efficiency, channel_efficiency_nr, channel_occupancy_time, channel_occupancy_time_nr,
  SignedRatio, normalized, traditional_fairness, scale,
}

abbrev pub no_throughput : SignedRatio
no_throughput = record { num = pos 0; den = 1 }

-- 866.7 and 1200 Mbps times the share of the airtime with data.
unfoldable pub wifi_throughput : ℕ → ℕ → Channel → SignedRatio
wifi_throughput time n c =
    if ltb 0 n
    then record { num = scale 8667 (pos (channel_efficiency n c)); den = 10 * time }
    else no_throughput

unfoldable pub nru_throughput : ℕ → ℕ → Channel → SignedRatio
nru_throughput time m c =
    if ltb 0 m
    then record { num = scale 12000 (channel_efficiency_nr m c); den = 10 * time }
    else no_throughput

-- The sum of two fractions.
abbrev pub plus : SignedRatio → SignedRatio → SignedRatio
plus a b = record { num = scale b.den a.num +ℤ scale a.den b.num; den = a.den * b.den }

unfoldable pub total_throughput : ℕ → ℕ → ℕ → Channel → SignedRatio
unfolding wifi_throughput nru_throughput
total_throughput time n m c = plus (wifi_throughput time n c) (nru_throughput time m c)

abbrev pub occupancy_all : ℕ → ℕ → Channel → ℤ
occupancy_all n m c = pos (channel_occupancy_time n c) +ℤ channel_occupancy_time_nr m c

abbrev pub efficiency_all : ℕ → ℕ → Channel → ℤ
efficiency_all n m c = pos (channel_efficiency n c) +ℤ channel_efficiency_nr m c

abbrev pub fairness_of : ℕ → ℕ → ℕ → Channel → Ratio
fairness_of time n m c =
    traditional_fairness (normalized (pos (channel_occupancy_time n c)) time)
      (normalized (channel_occupancy_time_nr m c) time) (normalized (occupancy_all n m c) time)

-- `fairness * normalized_channel_occupancy_time_all`
unfoldable pub joint : ℕ → ℕ → ℕ → Channel → SignedRatio
joint time n m c =
    let f = fairness_of time n m c in
    record { num = scale f.num (occupancy_all n m c); den = f.den * time }
