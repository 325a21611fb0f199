-- ===== src/Tests/MetricsTests.antt =====
-- The metrics of a run on concrete inputs.
use implementing_5g_nr_u_lte.Common.{
  ℕ, ◌+◌, ◌*◌, ◌≤◌, ◌<◌, ◌≡◌, ◌⊎◌, arith, true, none, [], ◌∷◌, pos, ◌+ℤ◌, sum_of,
}
use implementing_5g_nr_u_lte.Data.{default_config, default_config_nr}
use implementing_5g_nr_u_lte.Window.{new_backoffs}
use implementing_5g_nr_u_lte.Station.{Station}
use implementing_5g_nr_u_lte.World.{World}
use implementing_5g_nr_u_lte.Controller.{Ratio, calculate_jains_fairness}
use implementing_5g_nr_u_lte.Metrics.{
  collision_probability, channel_efficiency, channel_occupancy_time_nr, normalized,
  traditional_fairness, jains_fairness, sum_squared_throughput,
}
use implementing_5g_nr_u_lte.Metrics.Fairness.{
  positive, jains_fairness_range, traditional_fairness-jains,
}
use implementing_5g_nr_u_lte.Metrics.Books.{
  channel_efficiency_lem, channel_occupancy_time_nr_lem, collision_probability_lem,
}
use implementing_5g_nr_u_lte.Tests.SimulationTests.{
  frame_sent, sent_world, frame_sent-attempts, transmission_sent,
}

abbrev transmitted_world : World
transmitted_world = transmission_sent.last.world

channel_efficiency_lem_example :
    channel_efficiency 1 sent_world.channel ≡ 5400 * sent_world.channel.succeeded_transmissions
channel_efficiency_lem_example =
    channel_efficiency_lem 1 1 true default_config default_config_nr (new_backoffs 63 1) none
      frame_sent.reach

channel_occupancy_time_nr_lem_example :
    (j : ℕ) × (j ≤ transmitted_world.channel.succeeded_transmissions_nr)
    × (channel_occupancy_time_nr 1 transmitted_world.channel
        ≡ pos (j * (transmitted_world.nru_config.mcot * 1000)))
channel_occupancy_time_nr_lem_example =
    channel_occupancy_time_nr_lem 1 1 true default_config default_config_nr (new_backoffs 63 1) none
      transmission_sent.reach

collision_probability_lem_example :
    let p =
      collision_probability 1 sent_world.channel.failed_transmissions
        sent_world.channel.succeeded_transmissions in
    (p.num ≡ sum_of (λ (s : Station). s.failed_transmissions) 1 sent_world.stations)
    × (p.den
        ≡ sum_of
            (λ (s : Station). s.failed_transmissions + s.succeeded_transmissions)
            1
            sent_world.stations)
collision_probability_lem_example =
    collision_probability_lem 1 1 true default_config default_config_nr (new_backoffs 63 1) none
      frame_sent.reach (omega arith) frame_sent-attempts

throughputs-positive : 0 < sum_squared_throughput (positive (3 ∷ 0 ∷ 5 ∷ []))
unfolding sum_squared_throughput
throughputs-positive = omega arith

jains_fairness_range_example :
    let r = jains_fairness (positive (3 ∷ 0 ∷ 5 ∷ [])) in
    (0 < r.den) × (r.num ≤ r.den) × (r.den ≤ 3 * r.num)
jains_fairness_range_example = jains_fairness_range (3 ∷ 0 ∷ 5 ∷ []) throughputs-positive

-- Half a second of airtime in a run of one second.
traditional_fairness-jains_example :
    let r =
      traditional_fairness
        (normalized (pos 200000) 1000000)
        (normalized (pos 300000) 1000000)
        (normalized (pos 200000 +ℤ pos 300000) 1000000) in
    let j = calculate_jains_fairness (pos 200000) (pos 300000) in
    ((0 < 200000 + 300000) × (0 < r.den) × (0 < j.den) × (r.num * j.den ≡ j.num * r.den))
    ⊎ ((200000 + 300000 ≡ 0) × (r.num ≡ 0) × (r.den ≡ 1) × (j.num ≡ 1) × (j.den ≡ 1))
traditional_fairness-jains_example = traditional_fairness-jains 200000 300000 1000000 (omega arith)

-- Five failures and ten successes, with a mean back-off of 67.5 microseconds.
abbrev mean_backoff : Ratio
mean_backoff = record { num = 135; den = 2 }
