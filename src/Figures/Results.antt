-- ===== src/Figures/Results.antt =====
-- The scripts that plot results, run on what the simulator writes.
use implementing_5g_nr_u_lte.Common.{◌≡◌, refl, false, List, map, String, ok, raised, key_error}
use implementing_5g_nr_u_lte.Output.Columns.{columns, name, contains}
use implementing_5g_nr_u_lte.Figures.{Pandas}
use implementing_5g_nr_u_lte.Figures.Validation.Coexistence.{coexistence_rs}
use implementing_5g_nr_u_lte.Figures.Analysis.Stations.{print_airtime_34}

-- `columns_of` is `table.columns`; to group by a column that is not there raises a `KeyError`.
module _ {Table Series : Type 0} (pandas : Pandas Table Series) (columns_of : Table → List String)
    (missing : (t : Table) (key column : String)
      → contains key (columns_of t) ≡ false
      → pandas.mean t key column ≡ raised key_error) where
  -- Neither of the two commands, validation.py and resultAnalysis.py, can plot a file of results of
  -- the simulator: if the columns of its own file are those that `run_simulation` writes, and the
  -- file to compare with can be read, it ends in a `KeyError`, since it groups by a column that no
  -- result has.
  pub commands_refuse_results :
      (ours others : Table)
      → columns_of ours ≡ map name columns
      → pandas.read_csv "val/coex/coex5g_coexistence_rs_63v4.csv" ≡ ok ours
      → pandas.read_csv "val/coex/matlab_coexistence_rs_63_6ms.csv" ≡ ok others
      → pandas.read_csv "airtime34.csv" ≡ ok ours
      → pandas.read_csv "DCF_airtime34.csv" ≡ ok others
      → (coexistence_rs pandas ≡ raised key_error) × (print_airtime_34 pandas ≡ raised key_error)
  unfolding coexistence_rs print_airtime_34
  commands_refuse_results ours others cols a b c d = (
    rw (a, b, missing ours "Gnb" "ChannelEfficiencyNR" (rw cols refl)) refl,
    rw (c, d, missing ours "Stations" "ChannelOccupancy" (rw cols refl)) refl,
  )
