-- ===== src/Figures/Validation/Intervals.antt =====
-- `calc` of simulation/5G-Coexistence-SimPy/validation.py: the confidence intervals that it prints.
use implementing_5g_nr_u_lte.Common.{ℕ, ◌-◌, ◌/◌, String, List, [], ◌∷◌, Outcome, ok, ◌>>=◌}

-- pandas, numpy and scipy: a file, the statistics of a column grouped by a key, and the arithmetic
-- of series. The quantile of Student's distribution is asked for in thousandths.
pub record Statistics (Table Series : Type 0) : Type 0 where
  pub read_csv : String → Outcome Table
  pub std : Table → String → String → Outcome Series
  pub var : Table → String → String → Outcome Series
  pub count : Table → String → String → Outcome Series
  pub sqrt : Series → Series
  pub divided_by : Series → Series → Series
  pub times : Series → Series → Series
  pub minus : Series → ℕ → Series
  pub ppf : ℕ → Series → Series

-- `alpha`, in thousandths.
abbrev alpha : ℕ
alpha = 50

module _ {Table Series : Type 0} (stats : Statistics Table Series) where
  -- What is printed.
  unfoldable pub calc : Outcome (List Series)
  calc = do
    wifi ← stats.read_csv "val/coex5g_gap_1023.csv"
    std ← stats.std wifi "Gnb" "ChannelOccupancyNR"
    var ← stats.var wifi "Gnb" "ChannelOccupancyNR"
    n ← stats.count wifi "Gnb" "ChannelOccupancyNR"
    let yerr =
        stats.times (stats.divided_by std (stats.sqrt n))
          (stats.ppf (1000 - alpha / 2) (stats.minus n 1))
    ok (std ∷ var ∷ yerr ∷ [])
