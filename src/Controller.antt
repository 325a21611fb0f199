-- ===== src/Controller.antt =====
-- The class `DynamicCWController` of Coexistence.py: it measures the airtime of Wi-Fi and of NR-U
-- once a second and moves their contention windows. Fractions stand for the floats, so 0.95 is 19 /
-- 20 and the factor 1.1 is 11 / 10; rounding is left out.
use implementing_5g_nr_u_lte.Common.{
  ℕ, zero, suc, ◌+◌, ◌-◌, ◌*◌, Bool, false, ◌&&◌, ◌||◌, List, [], ◌∷◌, ◌++◌, ℤ, pos, negsuc, ◌+ℤ◌,
  ◌-ℤ◌, pos_part, neg_part, square, ltb, ltb_ℤ, ◌==◌, if◌then◌else◌, min, max, sum_of,
}
use implementing_5g_nr_u_lte.Data.{Config, ConfigNr, Channel}
use implementing_5g_nr_u_lte.World.{World}
pub mod Fairness
pub mod Windows
pub mod Keeps

-- A fraction whose denominator is not 0.
pub record Ratio : Type 0 where
  pub num : ℕ
  pub den : ℕ

abbrev pub lt_ratio : Ratio → Ratio → Bool
lt_ratio a b = ltb (a.num * b.den) (b.num * a.den)

-- An entry of `adjustment_history`.
pub record Adjustment : Type 0 where
  pub time : ℕ
  pub wifi_cw_min : ℕ
  pub wifi_cw_max : ℕ
  pub nru_cw_min : ℕ
  pub nru_cw_max : ℕ
  pub fairness : Ratio
  pub wifi_airtime : ℤ
  pub nru_airtime : ℤ

pub record Controller : Type 0 where
  pub measurement_interval : ℕ
  pub adjustment_step : ℕ
  pub target_fairness : Ratio
  pub min_cw : ℕ
  pub max_cw : ℕ
  pub last_wifi_airtime : ℤ
  pub last_nru_airtime : ℤ
  pub last_measurement_time : ℕ
  pub adjustment_history : List Adjustment

-- The controller that `run_simulation` makes.
unfoldable pub new_controller : Controller
new_controller = record {
  measurement_interval = 1000000;
  adjustment_step = 5;
  target_fairness = record { num = 19; den = 20 };
  min_cw = 7;
  max_cw = 511;
  last_wifi_airtime = pos 0;
  last_nru_airtime = pos 0;
  last_measurement_time = 0;
  adjustment_history = [];
}

abbrev is_zero : ℤ → Bool
is_zero (pos n) = n == 0
is_zero (negsuc n) = false

-- `_calculate_jains_fairness`
unfoldable pub calculate_jains_fairness : ℤ → ℤ → Ratio
calculate_jains_fairness wifi nru =
    if is_zero wifi && is_zero nru
    then record { num = 1; den = 1 }
    else if square wifi + square nru == 0
    then record { num = 1; den = 1 }
    else record { num = square (wifi +ℤ nru); den = 2 * (square wifi + square nru) }

-- `a > b * 1.1`
unfoldable pub exceeds : ℤ → ℤ → Bool
exceeds a b = ltb (11 * pos_part b + 10 * neg_part a) (10 * pos_part a + 11 * neg_part b)

-- The new window goes into the configuration and into each node of the kind.
unfoldable pub set_wifi_cw : Controller → ℕ → World → World
set_wifi_cw k new_cw w = record w {
  wifi_config = record (w.wifi_config) { cw_min = new_cw; cw_max = min (new_cw * 4) k.max_cw };
  stations = λ i. record (w.stations i) { cw_min = new_cw; cw_max = min (new_cw * 4) k.max_cw };
}

unfoldable pub set_nru_cw : Controller → ℕ → World → World
set_nru_cw k new_cw w = record w {
  nru_config = record (w.nru_config) { cw_min = new_cw; cw_max = min (new_cw * 4) k.max_cw };
  gnbs = λ i. record (w.gnbs i) { cw_min = new_cw; cw_max = min (new_cw * 4) k.max_cw };
}

unfoldable pub increase_wifi_cw : Controller → World → World
increase_wifi_cw k w = set_wifi_cw k (min (w.wifi_config.cw_min + k.adjustment_step) k.max_cw) w

-- Below 0 the maximum takes the lower limit, as it does at 0, where `-` stops here.
unfoldable pub decrease_wifi_cw : Controller → World → World
decrease_wifi_cw k w = set_wifi_cw k (max (w.wifi_config.cw_min - k.adjustment_step) k.min_cw) w

unfoldable pub increase_nru_cw : Controller → World → World
increase_nru_cw k w = set_nru_cw k (min (w.nru_config.cw_min + k.adjustment_step) k.max_cw) w

unfoldable pub decrease_nru_cw : Controller → World → World
decrease_nru_cw k w = set_nru_cw k (max (w.nru_config.cw_min - k.adjustment_step) k.min_cw) w

-- The windows' part of `_adjust_contention_windows`.
unfoldable pub move_windows : Controller → ℤ → ℤ → World → World
move_windows k wifi nru w =
    if exceeds wifi nru
    then (let slower = increase_wifi_cw k w in
        if ltb k.min_cw slower.nru_config.cw_min then decrease_nru_cw k slower else slower)
    else if exceeds nru wifi
    then increase_nru_cw k (if ltb k.min_cw w.wifi_config.cw_min then decrease_wifi_cw k w else w)
    else w

-- `_adjust_contention_windows`, with the entry of the history.
unfoldable pub adjust_contention_windows : Controller → ℤ → ℤ → Ratio → World → Controller × World
adjust_contention_windows k wifi nru fairness w =
    let w' = move_windows k wifi nru w in
    let entry =
      let r : Adjustment = record {
        time = w.now;
        wifi_cw_min = w'.wifi_config.cw_min;
        wifi_cw_max = w'.wifi_config.cw_max;
        nru_cw_min = w'.nru_config.cw_min;
        nru_cw_max = w'.nru_config.cw_max;
        fairness = fairness;
        wifi_airtime = wifi;
        nru_airtime = nru;
      } in
      r in
    (record k { adjustment_history = k.adjustment_history ++ entry ∷ [] }, w')

-- `sum(...values())` over the names of the first `n` nodes.
unfoldable pub total_airtime : ℕ → (ℕ → ℤ) → ℤ
total_airtime zero f = pos 0
total_airtime (suc n) f = total_airtime n f +ℤ f n

-- `sum(self.channel.airtime_data.values())`, and of `airtime_data_NR`.
unfoldable pub wifi_total : World → ℤ
unfolding total_airtime
wifi_total w = total_airtime w.channel.n_of_stations (λ i. pos (w.channel.airtime_data i))

unfoldable pub nru_total : World → ℤ
unfolding total_airtime
nru_total w = total_airtime w.channel.n_of_gnb w.channel.airtime_data_nr

-- The two tests that ask for an adjustment.
unfoldable pub unfair : Controller → ℤ → ℤ → Bool
unfair k wifi nru =
    (ltb_ℤ (pos 0) wifi || ltb_ℤ (pos 0) nru)
    && lt_ratio (calculate_jains_fairness wifi nru) k.target_fairness

unfoldable pub adjust_if_unfair : Controller → ℤ → ℤ → World → Controller × World
adjust_if_unfair k wifi nru w =
    if unfair k wifi nru
    then adjust_contention_windows k wifi nru (calculate_jains_fairness wifi nru) w
    else (k, w)

-- One round of `_monitor_and_adjust`.
unfoldable pub monitor_and_adjust : Controller → World → Controller × World
monitor_and_adjust k w =
    let (k', w') =
      adjust_if_unfair k (wifi_total w -ℤ k.last_wifi_airtime) (nru_total w -ℤ k.last_nru_airtime)
        w in
    (
      record k' {
        last_wifi_airtime = wifi_total w;
        last_nru_airtime = nru_total w;
        last_measurement_time = w.now;
      },
      w',
    )
