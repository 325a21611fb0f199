-- ===== src/Tests/OutputTests.antt =====
-- Files, drivers and durations on concrete inputs.
use implementing_5g_nr_u_lte.Common.{
  ℕ, ◌+◌, ◌*◌, ◌≤◌, ◌<◌, ◌≡◌, ◌≢◌, refl, arith, true, none, some, List, [], ◌∷◌, ℤ, pos, ◌+ℤ◌,
  count, Outcome, ok, raised, empty_data_error, length, for_each, String, Files, lines_of, differ,
  ltb_ℤ,
}
use implementing_5g_nr_u_lte.Data.{Channel}
use implementing_5g_nr_u_lte.Window.{new_backoffs}
use implementing_5g_nr_u_lte.World.{new_channel}
use implementing_5g_nr_u_lte.Controller.{Adjustment}
use implementing_5g_nr_u_lte.Output.{
  Line, Cell, whole, adjustments_header, adjustment, adjustment_csv, default_path, save_adjustments,
  save_results,
}
use implementing_5g_nr_u_lte.Output.Headers.{
  IsHistory, save_adjustments-IsHistory, count_headers, count_rows, headers_each,
  default_path_other, save_results_headers,
}
use implementing_5g_nr_u_lte.Drivers.Runs.{Run, Progress}
use implementing_5g_nr_u_lte.Drivers.Runs.Counting.{NeverRaises, rows}
use implementing_5g_nr_u_lte.Drivers.NodeCounts.{Options}
use implementing_5g_nr_u_lte.Drivers.Matrix.HeatMaps.{Frames}
use implementing_5g_nr_u_lte.Drivers.Matrix.{run_matrix, run_coexistence_matrix}
use implementing_5g_nr_u_lte.Drivers.Matrix.Plots.{run_matrix-rows, run_coexistence_matrix_fails}
use implementing_5g_nr_u_lte.Times.{Times, new_times, get_ppdu_frame_time, frame_bits}
use implementing_5g_nr_u_lte.Times.Durations.{get_ppdu_frame_time_bounds}
use implementing_5g_nr_u_lte.Metrics.Sinr.{Floats, station, gnb, all_nodes, calculate_sinr}
use implementing_5g_nr_u_lte.Metrics.Sinr.Sources.{members, ratio_with, calculate_sinr_lem}

-- A disk with one adjustment saved and no file of results.
abbrev moved : Adjustment
moved = record {
  time = 1000000;
  wifi_cw_min = 20;
  wifi_cw_max = 80;
  nru_cw_min = 10;
  nru_cw_max = 40;
  fairness = record { num = 9; den = 10 };
  wifi_airtime = pos 10800;
  nru_airtime = pos 6000;
}

abbrev disk : Files (Line ℕ)
disk path = some (adjustments_header ∷ adjustment 1 moved ∷ [])

abbrev empty_disk : Files (Line ℕ)
empty_disk path = none

save_adjustments-IsHistory_example :
    IsHistory (lines_of (save_adjustments 2 (moved ∷ moved ∷ []) disk adjustment_csv))
save_adjustments-IsHistory_example = save_adjustments-IsHistory 2 (moved ∷ moved ∷ []) disk (tt, tt)

abbrev two_rows : List (List (Cell ℕ))
two_rows = (whole 1 ∷ []) ∷ (whole 2 ∷ []) ∷ []

-- Two rows with two headers, since there is no file at `output_csv`.
save_results_headers_example :
    let ls = lines_of (for_each two_rows (save_results default_path) empty_disk default_path) in
    (count_rows ls ≡ count_rows (lines_of (empty_disk default_path)) + 2)
    × (count_headers ls
        ≡ count_headers (lines_of (empty_disk default_path)) + 2 * headers_each empty_disk)
save_results_headers_example =
    save_results_headers default_path two_rows empty_disk default_path_other

abbrev simulate : Run → Outcome (List (Cell ℕ))
simulate r = ok (whole r.seed ∷ whole r.wifi_count ∷ [])

abbrev simulate_fine : NeverRaises simulate
simulate_fine r = (whole r.seed ∷ whole r.wifi_count ∷ [], refl)

abbrev options : Options
options = record {
  runs = 3;
  seed = 1;
  simulation_time = 100;
  wifi_cw_min = 15;
  wifi_cw_max = 63;
  wifi_r_limit = 7;
  mcs_value = 7;
  nru_cw_min = 15;
  nru_cw_max = 63;
  synchronization_slot_duration = 1000;
  max_sync_slot_desync = 1000;
  min_sync_slot_desync = 0;
  nru_observation_slot = 3;
  mcot = 6;
}

abbrev fresh : Progress ℕ
fresh = record { files = empty_disk; runs = [] }

abbrev matrix_csv : String
matrix_csv = "coexistence_matrix.csv"

matrix_csv_other : default_path ≢ matrix_csv
matrix_csv_other = differ default_path matrix_csv refl

run_matrix-rows_example :
    (q : Progress ℕ) × (run_matrix simulate options matrix_csv fresh ≡ ok q)
    × (q.files matrix_csv ≡ some [])
    × (rows q ≡ rows fresh + 25 * options.runs)
    × (length q.runs ≡ length fresh.runs + 25 * options.runs)
run_matrix-rows_example =
    run_matrix-rows simulate simulate_fine options matrix_csv matrix_csv_other fresh

-- A stand-in for pandas that wants a line at least.
abbrev read_some : List (Line ℕ) → Outcome (Unit {0})
read_some [] = raised empty_data_error
read_some (_ ∷ _) = ok tt

abbrev frames : Frames ℕ (Unit {0}) (Unit {0}) (Unit {0}) (Unit {0})
frames = record {
  read_csv = read_some;
  mean = λ t keys values. ok tt;
  pivot = λ t index column value. ok tt;
  column = λ t column. ok tt;
  iterrows = λ t. [];
  perform = λ call. ok tt;
}

run_coexistence_matrix_fails_example :
    run_coexistence_matrix simulate frames options matrix_csv true fresh ≡ raised empty_data_error
run_coexistence_matrix_fails_example =
    run_coexistence_matrix_fails simulate simulate_fine options matrix_csv matrix_csv_other fresh
      frames refl

abbrev fastest : Times
fastest = record { payload = 1472; data_rate = 54; ctr_rate = 24 }

get_ppdu_frame_time_bounds_example :
    let exact = 16 * (24 * 54) + 24 * 54 + frame_bits fastest * 24 in
    (exact ≤ get_ppdu_frame_time fastest * (24 * 54))
    × (1000000 * (get_ppdu_frame_time fastest * (24 * 54)) < 1000000 * exact + 1000004 * (24 * 54))
get_ppdu_frame_time_bounds_example = get_ppdu_frame_time_bounds fastest (omega arith) (omega arith)

fastest_made : new_times 1472 7 ≡ ok fastest
unfolding new_times
fastest_made = refl

-- Integers in place of floats, with a power of `x` dBm taken as `x + 100`.
abbrev whole_numbers : Floats
whole_numbers = record {
  Float = ℤ;
  of_nat = λ n. pos n;
  plus = λ a b. a +ℤ b;
  over = λ a b. a;
  is_positive = λ a. ltb_ℤ (pos 0) a;
  ten_to_tenth = λ x. x +ℤ pos 100;
  ten_log10 = λ x. x;
}

abbrev busy_channel : Channel
busy_channel = record (new_channel 2 1 (new_backoffs 63 2)) {
  tx_list = 0 ∷ 1 ∷ [];
  tx_list_nr = 0 ∷ [];
}

calculate_sinr_lem_example :
    (calculate_sinr whole_numbers busy_channel (station 0) (all_nodes 2 1)
      ≡ ratio_with whole_numbers 2)
    × (calculate_sinr whole_numbers busy_channel (gnb 0) (all_nodes 2 1)
        ≡ ratio_with whole_numbers 2)
unfolding members count
calculate_sinr_lem_example =
    calculate_sinr_lem whole_numbers busy_channel 2 1 0 0 2 2 (omega arith) (omega arith) refl refl
