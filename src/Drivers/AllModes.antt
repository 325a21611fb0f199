-- ===== src/Drivers/AllModes.antt =====
-- simulation/5G-Coexistence-SimPy/run_all_modes.py: every scenario, node count and seed. The module
-- takes the names of Coexistence.py by `import *`, so its `gap` and `output_csv` are copies: what
-- it assigns with `global` are its own variables, and `run_simulation` reads those of
-- Coexistence.py.
use Prim.Native.String.{String}
use implementing_5g_nr_u_lte.Common.{
  ℕ, suc, ◌+◌, ◌*◌, Bool, true, false, ◌||◌, Option, none, some, List, [], ◌∷◌, ◌++◌, length,
  for_each, range_from, Files, Outcome, ok, raised,
}
use implementing_5g_nr_u_lte.Controller.{Adjustment}
use implementing_5g_nr_u_lte.Output.{
  Cell, Line, save_results, save_adjustments, create_csv_with_header,
}
use implementing_5g_nr_u_lte.Data.{Config, ConfigNr, default_config, default_config_nr}
pub mod GapMode
pub mod Rows
pub mod Tables
pub mod Scenarios

pub data Name : Type 0 where
  wifi_only nru_only coexistence_gap coexistence_rs coexistence_adaptive coexistence_optimized :
      Name

-- An entry of `SCENARIOS`; `none` for a key that is missing or None.
pub record Scenario : Type 0 where
  pub name : Name
  pub gap_value : Option Bool
  pub dynamic_cw : Bool
  pub wifi_fixed : Option ℕ
  pub nru_fixed : Option ℕ

abbrev scenario : Name → Option Bool → Bool → Scenario
scenario n g d = record {
  name = n;
  gap_value = g;
  dynamic_cw = d;
  wifi_fixed = none;
  nru_fixed = none;
}

abbrev pub scenarios : List Scenario
scenarios =
    scenario wifi_only none false
    ∷ scenario nru_only (some false) false
    ∷ scenario coexistence_gap (some true) false
    ∷ scenario coexistence_rs (some false) false
    ∷ scenario coexistence_adaptive (some false) true
    ∷ scenario coexistence_optimized (some true) true
    ∷ []

-- The options of the command that the loops use.
pub record Options : Type 0 where
  pub runs : ℕ
  pub seed_start : ℕ
  pub wifi_max : ℕ
  pub nru_max : ℕ
  pub dynamic_cw : Bool

-- A call of `run_simulation`: its arguments, the largest key of the table of draws made for it, and
-- the value of `gap` that it reads.
pub record Call : Type 0 where
  pub scenario : Name
  pub wifi_count : ℕ
  pub gnb_count : ℕ
  pub seed : ℕ
  pub enable_dynamic_cw : Bool
  pub table_max : ℕ
  pub gap : Bool

-- The configuration objects that all calls share.
pub record Configs : Type 0 where
  pub wifi : Config
  pub nru : ConfigNr

-- What `run_simulation` leaves: it may set other windows in the shared configurations, and it
-- raises or has the history of the controller, where there is one, and the row of results.
pub record Ended (Float : Type 0) : Type 0 where
  pub configs : Configs
  pub result : Outcome (Option (List Adjustment) × List (Cell Float))

-- The variables of the two modules, the files, the calls made so far, and those that ended without
-- an exception, with their rows.
pub record Driver (Float : Type 0) : Type 0 where
  pub gap : Bool  -- of run_all_modes.py
  pub output_csv : Option Name  -- of run_all_modes.py, none before it is assigned
  pub simulator_gap : Bool  -- of Coexistence.py
  pub configs : Configs
  pub files : Files (Line Float)
  pub calls : List Call
  pub completed : List (Call × List (Cell Float))

-- After the `import *`.
abbrev pub imported : {Float : Type 0} → Bool → Files (Line Float) → Driver Float
imported gap files = record {
  gap = gap;
  output_csv = none;
  simulator_gap = gap;
  configs = record { wifi = default_config; nru = default_config_nr };
  files = files;
  calls = [];
  completed = [];
}

abbrev pub wifi_range : Options → Scenario → List ℕ
wifi_range o s = by_name s.name s.wifi_fixed s.nru_fixed
  where
    by_name : Name → Option ℕ → Option ℕ → List ℕ
    by_name nru_only _ _ = 0 ∷ []
    by_name wifi_only _ _ = range_from 1 o.wifi_max
    by_name _ (some w) (some g) = w ∷ []
    by_name _ _ _ = range_from 1 o.wifi_max

abbrev pub gnb_range : Options → Scenario → List ℕ
gnb_range o s = by_name s.name s.wifi_fixed s.nru_fixed
  where
    by_name : Name → Option ℕ → Option ℕ → List ℕ
    by_name wifi_only _ _ = 0 ∷ []
    by_name nru_only _ _ = range_from 1 o.nru_max
    by_name _ (some w) (some g) = g ∷ []
    by_name _ _ _ = range_from 1 o.nru_max

-- The end of `run_simulation`: the file of the adjustments, and the row at `csv_output_path`.
unfoldable pub save :
    {Float : Type 0}
    → String
    → ℕ
    → Option (List Adjustment)
    → List (Cell Float)
    → Files (Line Float)
    → Files (Line Float)
save path seed none cells fs = save_results path cells fs
save path seed (some history) cells fs = save_results path cells (save_adjustments seed history fs)

-- `simulate` is a simulation with its metrics, and `output_file` is `os.path.join(output_dir, ...)`
-- of the file of a scenario. An exception is caught and printed, and the loop goes on.
module _ {Float : Type 0} (simulate : Call → Configs → Ended Float) (output_file : Name → String)
    (o : Options) where
  unfoldable pub recorded :
      Call → Outcome (Option (List Adjustment) × List (Cell Float)) → Driver Float → Driver Float
  recorded call (raised e) d = d
  recorded call (ok (history, cells)) d = record d {
    files = save (output_file call.scenario) call.seed history cells d.files;
    completed = d.completed ++ (call, cells) ∷ [];
  }

  unfoldable pub run_once : Scenario → ℕ → ℕ → ℕ → Driver Float → Driver Float
  run_once s wifi_count gnb_count run d =
      let call : Call = record {
        scenario = s.name;
        wifi_count = wifi_count;
        gnb_count = gnb_count;
        seed = o.seed_start + run;
        enable_dynamic_cw = s.dynamic_cw || o.dynamic_cw;
        table_max = d.configs.wifi.cw_max;
        gap = d.simulator_gap;
      } in
      let ended = simulate call d.configs in
      recorded call ended.result
        (record d { configs = ended.configs; calls = d.calls ++ call ∷ [] })

  -- The three nested loops of a scenario: over the runs, the gNB counts and the Wi-Fi counts.
  unfoldable pub all_runs : Scenario → ℕ → ℕ → Driver Float → Driver Float
  all_runs s wifi_count gnb_count = for_each (range_from 0 o.runs) (run_once s wifi_count gnb_count)

  unfoldable pub all_gnb_counts : Scenario → ℕ → Driver Float → Driver Float
  all_gnb_counts s wifi_count = for_each (gnb_range o s) (all_runs s wifi_count)

  unfoldable pub run_configurations : Scenario → Driver Float → Driver Float
  run_configurations s = for_each (wifi_range o s) (all_gnb_counts s)

  -- `gap` is set for a scenario that has a value for it, and set back after it.
  abbrev pub set_gap : Option Bool → Driver Float → Driver Float
  set_gap none d = d
  set_gap (some g) d = record d { gap = g }

  abbrev pub reset_gap : Option Bool → Bool → Driver Float → Driver Float
  reset_gap none original d = d
  reset_gap (some g) original d = record d { gap = original }

  -- The head of the outer loop.
  unfoldable pub prepared : Scenario → Driver Float → Driver Float
  prepared s d = set_gap s.gap_value (record d {
    output_csv = some s.name;
    files = create_csv_with_header (output_file s.name) d.files;
  })

  unfoldable pub run_scenario : Scenario → Driver Float → Driver Float
  run_scenario s d = reset_gap s.gap_value d.gap (run_configurations s (prepared s d))

  unfoldable pub test_all_modes : List Scenario → Driver Float → Driver Float
  test_all_modes ss = for_each ss run_scenario

-- `total_configs`, which the progress report divides by.
unfoldable pub total_configs : Options → Scenario → ℕ
total_configs o s = length (wifi_range o s) * length (gnb_range o s) * o.runs
