-- ===== src/Drivers/Runs.antt =====
-- What singleRun.py, client_coex.py, changingNodesNumber.py and run_coexistenxe_matrix.py under
-- simulation/5G-Coexistence-SimPy share: a call of `run_simulation` without the last two arguments,
-- so with fixed windows and with the default path of the results.
use implementing_5g_nr_u_lte.Common.{ℕ, List, [], ◌∷◌, ◌++◌, Outcome, ok, ◌>>=◌, Files}
use implementing_5g_nr_u_lte.Data.{Config, ConfigNr}
use implementing_5g_nr_u_lte.Output.{Cell, Line, save_results, default_path}
pub mod Counting

-- The arguments of a call; the table of draws has the keys up to `table_max` for `wifi_count`.
pub record Run : Type 0 where
  pub wifi_count : ℕ
  pub gnb_count : ℕ
  pub seed : ℕ
  pub simulation_time : ℕ
  pub wifi : Config
  pub nru : ConfigNr
  pub table_max : ℕ

-- The files, and the runs that have ended.
pub record Progress (Float : Type 0) : Type 0 where
  pub files : Files (Line Float)
  pub runs : List Run

-- `simulate` is a simulation with its metrics: it raises or gives the row of results.
module _ {Float : Type 0} (simulate : Run → Outcome (List (Cell Float))) where
  unfoldable pub run_simulation : Run → Progress Float → Outcome (Progress Float)
  run_simulation r p = simulate r >>= λ cells.
      ok (record p { files = save_results default_path cells p.files; runs = p.runs ++ r ∷ [] })
