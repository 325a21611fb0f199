-- ===== src/Tests/ControllerTests.antt =====
-- The controller on concrete inputs.
use implementing_5g_nr_u_lte.Common.{
  ℕ, ◌+◌, ◌-◌, ◌*◌, ◌≤◌, ◌<◌, ◌≡◌, ◌⊎◌, refl, arith, true, false, pos, ◌+ℤ◌, min, max,
}
use implementing_5g_nr_u_lte.Data.{default_config, default_config_nr}
use implementing_5g_nr_u_lte.Window.{new_backoffs}
use implementing_5g_nr_u_lte.Station.{new_station}
use implementing_5g_nr_u_lte.Gnb.{new_gnb}
use implementing_5g_nr_u_lte.World.{World, new_channel, new_world}
use implementing_5g_nr_u_lte.Controller.{
  lt_ratio, new_controller, calculate_jains_fairness, exceeds, move_windows, monitor_and_adjust,
  wifi_total, nru_total,
}
use implementing_5g_nr_u_lte.Controller.Fairness.{jains_fairness_bounds, low_fairness-exceeds}
use implementing_5g_nr_u_lte.Controller.Windows.{
  IsTuned, IsSynced, Measured, move_windows_lem, monitor_and_adjust_lem,
}

abbrev airtime : ℕ
airtime = 5400

jains_fairness_bounds_example :
    (0 < (calculate_jains_fairness (pos 10800) (pos 6000)).den)
    × ((calculate_jains_fairness (pos 10800) (pos 6000)).num
        ≤ (calculate_jains_fairness (pos 10800) (pos 6000)).den)
    × ((calculate_jains_fairness (pos 10800) (pos 6000)).den
        ≤ 2 * (calculate_jains_fairness (pos 10800) (pos 6000)).num)
jains_fairness_bounds_example = jains_fairness_bounds 10800 6000

low_fairness :
    lt_ratio (calculate_jains_fairness (pos 10800) (pos 6000)) (record { num = 19; den = 20 })
    ≡ true
unfolding calculate_jains_fairness ◌+ℤ◌
low_fairness = refl

low_fairness-exceeds_example :
    (exceeds (pos 10800) (pos 6000) ≡ true) ⊎ (exceeds (pos 6000) (pos 10800) ≡ true)
low_fairness-exceeds_example = low_fairness-exceeds 10800 6000 low_fairness

-- Two stations and one gNB; the stations have had more of the airtime.
abbrev busy_world : World
busy_world = record (new_world true 2 1 default_config default_config_nr (new_backoffs 63 2)) {
  channel = record (new_channel 2 1 (new_backoffs 63 2)) {
    airtime_data = λ _. 5400;
    airtime_data_nr = λ _. pos 6000;
  };
}

busy_world-IsTuned : IsTuned new_controller busy_world
unfolding new_controller new_world
busy_world-IsTuned = record {
  limits = omega arith;
  wifi = (omega arith, omega arith, omega arith, omega arith);
  nru = (omega arith, omega arith, omega arith, omega arith);
}

busy_world-IsSynced : IsSynced busy_world
unfolding new_world new_station new_gnb
busy_world-IsSynced = record { wifi = λ i. (refl, refl); nru = λ i. (refl, refl) }

move_windows_lem_example :
    let w' = move_windows new_controller (pos 10800) (pos 6000) busy_world in
    let step = new_controller.adjustment_step in
    ((exceeds (pos 10800) (pos 6000) ≡ true)
      × (w'.wifi_config.cw_min ≡ min (busy_world.wifi_config.cw_min + step) new_controller.max_cw)
      × (w'.nru_config.cw_min ≡ max (busy_world.nru_config.cw_min - step) new_controller.min_cw))
    ⊎ ((exceeds (pos 6000) (pos 10800) ≡ true)
        × (w'.wifi_config.cw_min ≡ max (busy_world.wifi_config.cw_min - step) new_controller.min_cw)
        × (w'.nru_config.cw_min ≡ min (busy_world.nru_config.cw_min + step) new_controller.max_cw))
    ⊎ ((exceeds (pos 10800) (pos 6000) ≡ false)
        × (exceeds (pos 6000) (pos 10800) ≡ false)
        × (w' ≡ busy_world))
move_windows_lem_example =
    move_windows_lem new_controller busy_world (pos 10800) (pos 6000) busy_world-IsTuned

monitor_and_adjust_lem_example :
    let r = monitor_and_adjust new_controller busy_world in
    Measured new_controller busy_world r
    × (r.0.last_wifi_airtime ≡ wifi_total busy_world)
    × (r.0.last_nru_airtime ≡ nru_total busy_world)
monitor_and_adjust_lem_example =
    monitor_and_adjust_lem new_controller busy_world busy_world-IsTuned busy_world-IsSynced
