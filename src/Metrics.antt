-- ===== src/Metrics.antt =====
-- What `run_simulation` of Coexistence.py computes from the books when the event loop has ended:
-- exact fractions where the source has floats. `normalized` is the division by the length of the
-- run, in microseconds. The throughputs in `jains_fairness` are left in tenths of megabits: their
-- division by the length of the run, which cancels in this index, is not written.
use implementing_5g_nr_u_lte.Common.{
  ℕ, zero, suc, ◌+◌, ◌-◌, ◌*◌, Bool, true, false, ◌&&◌, ◌||◌, List, [], ◌∷◌, ◌++◌, map, ℤ, pos,
  negsuc, ◌+ℤ◌, square, ltb, ltb_ℤ, ◌==◌, if◌then◌else◌, length, sum_of, range_from,
}
use implementing_5g_nr_u_lte.Data.{Config, ConfigNr, Channel}
use implementing_5g_nr_u_lte.Station.{Station}
use implementing_5g_nr_u_lte.Gnb.{Gnb}
use implementing_5g_nr_u_lte.World.{World}
use implementing_5g_nr_u_lte.Controller.{Ratio, total_airtime}
pub mod Fairness
pub mod Books
pub mod Throughput
pub mod Sinr

abbrev pub zero_ratio : Ratio
zero_ratio = record { num = 0; den = 1 }

-- `p_coll` and `p_coll_NR`.
unfoldable pub collision_probability : ℕ → ℕ → ℕ → Ratio
collision_probability number_of_nodes failed succeeded =
    if number_of_nodes == 0
    then zero_ratio
    else if failed + succeeded == 0
    then zero_ratio
    else record { num = failed; den = failed + succeeded }

unfoldable pub channel_occupancy_time : ℕ → Channel → ℕ
channel_occupancy_time n c = sum_of (λ i. c.airtime_data i + c.airtime_control i) n (λ i. i)

unfoldable pub channel_efficiency : ℕ → Channel → ℕ
channel_efficiency n c = sum_of c.airtime_data n (λ i. i)

unfoldable pub channel_occupancy_time_nr : ℕ → Channel → ℤ
channel_occupancy_time_nr m c = total_airtime m (λ i. c.airtime_data_nr i +ℤ c.airtime_control_nr i)

unfoldable pub channel_efficiency_nr : ℕ → Channel → ℤ
channel_efficiency_nr m c = total_airtime m c.airtime_data_nr

-- `wifi_latency / wifi_packet_count`, and the same for NR-U.
abbrev pub average : ℕ → ℕ → Ratio
average latency packet_count =
    if ltb 0 packet_count then record { num = latency; den = packet_count } else zero_ratio

unfoldable pub avg_wifi_latency : ℕ → World → Ratio
avg_wifi_latency n w =
    average (sum_of (λ (s : Station). s.total_latency) n w.stations)
      (sum_of (λ (s : Station). s.packet_count) n w.stations)

unfoldable pub avg_nru_latency : ℕ → World → Ratio
avg_nru_latency m w =
    average (sum_of (λ (g : Gnb). g.total_latency) m w.gnbs)
      (sum_of (λ (g : Gnb). g.packet_count) m w.gnbs)

-- A fraction that may be negative.
pub record SignedRatio : Type 0 where
  pub num : ℤ
  pub den : ℕ

-- `normalized_channel_occupancy_time` and its like, for a run that lasts `time`.
abbrev pub normalized : ℤ → ℕ → SignedRatio
normalized us time = record { num = us; den = time }

-- `a ** 2`, `a + b`, `2 * a` and `a / b`.
abbrev pub squared : SignedRatio → Ratio
squared a = record { num = square a.num; den = a.den * a.den }

abbrev pub added : Ratio → Ratio → Ratio
added a b = record { num = a.num * b.den + b.num * a.den; den = a.den * b.den }

abbrev pub doubled : Ratio → Ratio
doubled a = record { num = 2 * a.num; den = a.den }

abbrev pub divided : Ratio → Ratio → Ratio
divided a b = record { num = a.num * b.den; den = a.den * b.num }

-- `fairness`, from the normalized occupancy of Wi-Fi, of NR-U and of both.
unfoldable pub traditional_fairness : (wifi nru all : SignedRatio) → Ratio
traditional_fairness wifi nru all =
    if ltb_ℤ (pos 0) wifi.num || ltb_ℤ (pos 0) nru.num
    then divided (squared all) (doubled (added (squared wifi) (squared nru)))
    else zero_ratio

-- `a * n`
abbrev pub scale : ℕ → ℤ → ℤ
scale n (pos a) = pos (n * a)
scale zero (negsuc a) = pos 0
scale (suc n) (negsuc a) = negsuc (suc n * suc a - 1)

-- The throughput of each node, 866.7 and 1200 Mbps times its airtime: in tenths.
unfoldable pub all_throughputs : ℕ → ℕ → Channel → List ℤ
all_throughputs n m c =
    map (λ i. pos (8667 * c.airtime_data i)) (range_from 0 n)
    ++ map (λ i. scale 12000 (c.airtime_data_nr i)) (range_from 0 m)

unfoldable pub sum_throughput : List ℤ → ℤ
sum_throughput [] = pos 0
sum_throughput (t ∷ ts) = t +ℤ sum_throughput ts

unfoldable pub sum_squared_throughput : List ℤ → ℕ
sum_squared_throughput [] = 0
sum_squared_throughput (t ∷ ts) = square t + sum_squared_throughput ts

-- `jains_fairness`
unfoldable pub jains_fairness : List ℤ → Ratio
jains_fairness ts =
    if ltb 0 (length ts) && ltb 0 (sum_squared_throughput ts)
    then record { num = square (sum_throughput ts); den = length ts * sum_squared_throughput ts }
    else zero_ratio

-- A penalty of twice the collision probability `p`, `delay * (1 + p * 2)`.
abbrev pub penalised : Ratio → Ratio → Ratio
penalised delay p =
    if ltb 0 p.num
    then record { num = delay.num * (p.den + 2 * p.num); den = delay.den * p.den }
    else delay

unfoldable pub wifi_access_delay : ℕ → Config → Ratio → Ratio
wifi_access_delay n cfg p_coll =
    if ltb 0 n then penalised (record { num = cfg.cw_min * 9; den = 2 }) p_coll else zero_ratio

unfoldable pub nru_access_delay : ℕ → ConfigNr → Ratio → Ratio
nru_access_delay m cfg p_coll =
    let slot = cfg.observation_slot_duration in
    if ltb 0 m
    then penalised
        (record { num = cfg.cw_min * slot + 2 * (cfg.deter_period + cfg.m * slot); den = 2 }) p_coll
    else zero_ratio
