-- ===== src/Drivers/Matrix.antt =====
-- simulation/5G-Coexistence-SimPy/run_coexistenxe_matrix.py: runs for one to five stations and
-- gNBs, and the plots of their results. The assignment to `output_csv` goes to a variable of this
-- module.
use implementing_5g_nr_u_lte.Common.{
  ℕ, ◌+◌, ◌*◌, Bool, true, false, List, [], Outcome, ok, ◌>>=◌, String, write, lines_of, try_each,
  range_from, if◌then◌else◌,
}
use implementing_5g_nr_u_lte.Output.{Cell, Line}
use implementing_5g_nr_u_lte.Drivers.Runs.{Run, Progress, run_simulation}
use implementing_5g_nr_u_lte.Drivers.NodeCounts.{Options, run_of}
use implementing_5g_nr_u_lte.Drivers.Matrix.HeatMaps.{Frames, Call, visualize_results}
pub mod Plots
pub mod HeatMaps

module _ {Float : Type 0} (simulate : Run → Outcome (List (Cell Float))) where
  -- `open(output_csv, mode='w')`
  abbrev clear_output : String → Progress Float → Progress Float
  clear_output output p = record p { files = write output [] p.files }

  -- The command up to its plots: the three loops.
  unfoldable pub run_matrix : Options → String → Progress Float → Outcome (Progress Float)
  run_matrix o output p =
      try_each (range_from 1 5)
        (λ wifi_count. try_each (range_from 1 5) λ gnb_count.
          try_each (range_from 0 o.runs)
            λ run. run_simulation simulate (run_of o wifi_count gnb_count run))
        (clear_output output p)

  -- The whole command, with the calls of pyplot that its plots make.
  module _ {Table Grid Series Row : Type 0} (frames : Frames Float Table Grid Series Row) where
    unfoldable pub run_coexistence_matrix :
        Options
        → String
        → Bool
        → Progress Float
        → Outcome (Progress Float × List (Call Grid Series Row))
    unfolding run_matrix visualize_results
    run_coexistence_matrix o output visualize p = do
      q ← run_matrix o output p
      calls ← if visualize then visualize_results frames (lines_of (q.files output)) else ok []
      ok (q, calls)
