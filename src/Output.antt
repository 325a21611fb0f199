-- ===== src/Output.antt =====
-- What `run_simulation` of Coexistence.py writes to its CSV files, and the `create_csv_with_header`
-- of run_all_modes.py. A line of a file is its cells; how the csv module spells them is left out.
use implementing_5g_nr_u_lte.Common.{
  ℕ, ◌+◌, Bool, true, false, not, List, [], ◌∷◌, ◌++◌, map, ℤ, pos, if◌then◌else◌, length, ltb,
  String, Files, is_file, append, write, lines_of, for_each, ◌==◌, Outcome, ok, raised,
  zero_division_error,
}
use implementing_5g_nr_u_lte.Data.{Channel}
use implementing_5g_nr_u_lte.World.{World}
use implementing_5g_nr_u_lte.Controller.{Ratio, Controller, Adjustment}
use implementing_5g_nr_u_lte.Metrics.{
  collision_probability, avg_wifi_latency, avg_nru_latency, wifi_access_delay, nru_access_delay,
  jains_fairness, all_throughputs, channel_occupancy_time, channel_occupancy_time_nr,
  channel_efficiency, channel_efficiency_nr, SignedRatio, normalized,
}
use implementing_5g_nr_u_lte.Metrics.Throughput.{
  wifi_throughput, nru_throughput, total_throughput, occupancy_all, efficiency_all, fairness_of,
  joint,
}
use implementing_5g_nr_u_lte.Output.Columns.{Column, columns, headers}
use implementing_5g_nr_u_lte.Metrics.Sinr.{Floats, wifi_sinr, nru_sinr}
pub mod Headers
pub mod Columns

-- A cell of a row of results.
pub data Cell (Float : Type 0) : Type 0 where
  whole : ℕ → Cell Float
  ratio : Ratio → Cell Float
  signed : SignedRatio → Cell Float
  float : Float → Cell Float

-- `adjustments_header` is the one of the adjustments, whose lines carry the seed.
pub data Line (Float : Type 0) : Type 0 where
  header : List Column → Line Float
  row : List (Cell Float) → Line Float
  adjustments_header : Line Float
  adjustment : (seed : ℕ) → Adjustment → Line Float

-- `output_csv` of Coexistence.py, and the path that `replace` makes of it.
abbrev pub output_csv : String
output_csv = "chap5/20_20/basic.csv"

abbrev pub adjustment_csv : String
adjustment_csv = "chap5/20_20/basic_adjustments.csv"

-- The default of `csv_output_path`.
abbrev pub default_path : String
default_path = "results/output.csv"

-- The row of a run of `n` stations and `m` gNBs that ends in the world `w` after `time`
-- microseconds. Dividing by a time of 0 raises.
module _ (f : Floats) where
  unfoldable pub result_row : ℕ → ℕ → ℕ → ℕ → World → Outcome (List (Cell f.Float))
  result_row seed n m time w =
      let c = w.channel in
      let p_coll = collision_probability n c.failed_transmissions c.succeeded_transmissions in
      let p_coll_nr =
        collision_probability m c.failed_transmissions_nr c.succeeded_transmissions_nr in
      let cells =
        whole seed
        ∷ whole n
        ∷ whole m
        ∷ whole w.wifi_config.cw_min
        ∷ whole w.wifi_config.cw_max
        ∷ whole w.nru_config.cw_min
        ∷ whole w.nru_config.cw_max
        ∷ signed (wifi_throughput time n c)
        ∷ signed (nru_throughput time m c)
        ∷ signed (total_throughput time n m c)
        ∷ ratio p_coll
        ∷ ratio p_coll_nr
        ∷ ratio (avg_wifi_latency n w)
        ∷ ratio (avg_nru_latency m w)
        ∷ ratio (wifi_access_delay n w.wifi_config p_coll)
        ∷ ratio (nru_access_delay m w.nru_config p_coll_nr)
        ∷ float (wifi_sinr f n m c)
        ∷ float (nru_sinr f n m c)
        ∷ ratio (fairness_of time n m c)
        ∷ ratio (jains_fairness (all_throughputs n m c))
        ∷ signed (joint time n m c)
        ∷ signed (normalized (pos (channel_occupancy_time n c)) time)
        ∷ signed (normalized (channel_occupancy_time_nr m c) time)
        ∷ signed (normalized (occupancy_all n m c) time)
        ∷ signed (normalized (pos (channel_efficiency n c)) time)
        ∷ signed (normalized (channel_efficiency_nr m c) time)
        ∷ signed (normalized (efficiency_all n m c) time)
        ∷ [] in
      if time == 0 then raised zero_division_error else ok cells

module _ {Float : Type 0} where
  -- The rows of the adjustments, under a header if the file is empty (`f.tell() == 0`).
  unfoldable pub save_adjustments : ℕ → List Adjustment → Files (Line Float) → Files (Line Float)
  save_adjustments seed history fs =
      let entries = map (adjustment seed) history in
      if ltb 0 (length (lines_of (fs adjustment_csv)))
      then append adjustment_csv entries fs
      else append adjustment_csv (adjustments_header ∷ entries) fs

  -- The row of results. The header goes by whether there is a file at `output_csv`, and both go to
  -- `csv_output_path`.
  unfoldable pub save_results : String → List (Cell Float) → Files (Line Float) → Files (Line Float)
  save_results csv_output_path cells fs =
      if is_file output_csv fs
      then append csv_output_path (row cells ∷ []) fs
      else append csv_output_path (header columns ∷ row cells ∷ []) fs

  unfoldable pub create_csv_with_header : String → Files (Line Float) → Files (Line Float)
  create_csv_with_header file_path fs =
      if ltb 0 (length (lines_of (fs file_path)))
      then fs
      else write file_path (header headers ∷ []) fs
