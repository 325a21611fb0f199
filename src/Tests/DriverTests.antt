-- ===== src/Tests/DriverTests.antt =====
-- The driver of all scenarios on concrete inputs.
use Prim.Native.String.{len}
use implementing_5g_nr_u_lte.Common.{
  ℕ, ◌+◌, ◌≡◌, ◌≢◌, refl, ap, sym, ◌∙◌, arith, true, false, some, none, length, All, String, Files,
  is_file, lines_of, ok, raised, key_error, [], ◌∷◌, differ, if◌then◌else◌, ◌==◌,
}
use implementing_5g_nr_u_lte.Output.{whole, Line, header, output_csv, adjustment_csv}
use implementing_5g_nr_u_lte.Output.Columns.{headers}
use implementing_5g_nr_u_lte.Drivers.AllModes.{
  Call, Configs, Ended, Options, imported, scenarios, Scenario, Name, wifi_only, nru_only,
  coexistence_gap, coexistence_rs, coexistence_adaptive, coexistence_optimized, run_scenario,
  test_all_modes, total_configs,
}
use implementing_5g_nr_u_lte.Drivers.AllModes.GapMode.{gap_value_ignored, run_scenario-calls}
use implementing_5g_nr_u_lte.Drivers.AllModes.Rows.{entries, rows_of}
use implementing_5g_nr_u_lte.Drivers.AllModes.Tables.{Apart}
use implementing_5g_nr_u_lte.Drivers.AllModes.Scenarios.{test_all_modes_files}

abbrev options : Options
options = record { runs = 2; seed_start = 1; wifi_max = 1; nru_max = 1; dynamic_cw = false }

-- A simulator that leaves the configurations alone, and raises for the seed 2.
abbrev fixed_windows : Call → Configs → Ended ℕ
fixed_windows c k = record {
  configs = k;
  result = if c.seed == 2 then raised key_error else ok (some [], whole c.seed ∷ []);
}

abbrev output_file : Name → String
output_file wifi_only = "all_modes/wifi_only.csv"
output_file nru_only = "all_modes/nru_only.csv"
output_file coexistence_gap = "all_modes/coexistence_gap.csv"
output_file coexistence_rs = "all_modes/coexistence_rs.csv"
output_file coexistence_adaptive = "all_modes/coexistence_adaptive.csv"
output_file coexistence_optimized = "all_modes/coexistence_optimized.csv"

abbrev reservation : Scenario
reservation = record {
  name = coexistence_rs;
  gap_value = some false;
  dynamic_cw = false;
  wifi_fixed = none;
  nru_fixed = none;
}

abbrev no_files : Files (Line ℕ)
no_files path = none

gap_value_ignored_example :
    All
      (λ (c : Call). c.gap ≡ true)
      (test_all_modes fixed_windows output_file options scenarios (imported true no_files)).calls
gap_value_ignored_example =
    gap_value_ignored fixed_windows output_file options true scenarios no_files

run_scenario-calls_example :
    length
      (run_scenario fixed_windows output_file options reservation (imported true no_files)).calls
    ≡ length {A = Call} [] + total_configs options reservation
run_scenario-calls_example =
    run_scenario-calls fixed_windows output_file options reservation (imported true no_files)

-- The paths of the scenarios have different lengths.
abbrev size : Name → ℕ
size wifi_only = 23
size nru_only = 22
size coexistence_gap = 29
size coexistence_rs = 28
size coexistence_adaptive = 34
size coexistence_optimized = 35

len-output_file : (x : Name) → len (output_file x) ≡ size x
len-output_file wifi_only = refl
len-output_file nru_only = refl
len-output_file coexistence_gap = refl
len-output_file coexistence_rs = refl
len-output_file coexistence_adaptive = refl
len-output_file coexistence_optimized = refl

size-injective : (x y : Name) → size x ≡ size y → x ≡ y
size-injective x y e = ground arith

output_file-results : (x : Name) → output_file x ≢ output_csv
output_file-results wifi_only = differ _ _ refl
output_file-results nru_only = differ _ _ refl
output_file-results coexistence_gap = differ _ _ refl
output_file-results coexistence_rs = differ _ _ refl
output_file-results coexistence_adaptive = differ _ _ refl
output_file-results coexistence_optimized = differ _ _ refl

output_file-adjustments : (x : Name) → output_file x ≢ adjustment_csv
output_file-adjustments wifi_only = differ _ _ refl
output_file-adjustments nru_only = differ _ _ refl
output_file-adjustments coexistence_gap = differ _ _ refl
output_file-adjustments coexistence_rs = differ _ _ refl
output_file-adjustments coexistence_adaptive = differ _ _ refl
output_file-adjustments coexistence_optimized = differ _ _ refl

output_files-Apart : Apart output_file
output_files-Apart = record {
  each =
      λ x y ne e. ne (size-injective x y (sym (len-output_file x) ∙ ap len e ∙ len-output_file y));
  results = output_file-results;
  adjustments = output_file-adjustments;
}

test_all_modes_files_example :
    let d = test_all_modes fixed_windows output_file options scenarios (imported true no_files) in
    All
      (λ (s : Scenario).
        lines_of (d.files (output_file s.name))
        ≡ header headers ∷ entries (is_file output_csv no_files) (rows_of s.name d.completed))
      scenarios
test_all_modes_files_example =
    test_all_modes_files fixed_windows output_file options output_files-Apart true scenarios
      no_files (λ x. refl)
