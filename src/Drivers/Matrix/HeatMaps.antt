-- ===== src/Drivers/Matrix/HeatMaps.antt =====
-- `visualize_results` of simulation/5G-Coexistence-SimPy/run_coexistenxe_matrix.py: a heat map for
-- each metric, and a plot of throughput against fairness. What pandas makes of the lines of the
-- file is a parameter; what pyplot and seaborn are asked to do is the list of calls, each of which
-- may raise.
use text.Mathlib.Text.{find?}
use Prim.Native.String.{◌++◌ as joined}
use implementing_5g_nr_u_lte.Common.{
  ℕ, Bool, ◌||◌, Option, none, some, List, [], ◌∷◌, ◌++◌, map, String, Outcome, ok, ◌>>=◌, exists,
  if◌then◌else◌,
}
use implementing_5g_nr_u_lte.Output.{Line}
pub mod Images

pub data Colormap : Type 0 where
  viridis viridis_r : Colormap

-- A call of pyplot or seaborn. `annotate` writes the numbers of nodes of a row to its point.
pub data Call (Grid Series Row : Type 0) : Type 0 where
  figure : Call Grid Series Row
  heatmap : Grid → Colormap → (limits : Option (ℕ × ℕ)) → (label : String) → Call Grid Series Row
  scatter : Series → Series → Call Grid Series Row
  annotate : Row → Call Grid Series Row
  set_title set_xlabel set_ylabel : String → Call Grid Series Row
  grid tight_layout : Call Grid Series Row
  savefig : String → Call Grid Series Row
  close : Call Grid Series Row

-- `read_csv`, `groupby(keys).agg` with the mean of each value and `reset_index`, `pivot`, a column
-- of a table, and `iterrows`; `perform` is a call of pyplot or seaborn, which may raise as well.
pub record Frames (Float Table Grid Series Row : Type 0) : Type 0 where
  pub read_csv : List (Line Float) → Outcome Table
  pub mean : Table → (keys values : List String) → Outcome Table
  pub pivot : Table → (index columns values : String) → Outcome Grid
  pub column : Table → String → Outcome Series
  pub iterrows : Table → List Row
  pub perform : Call Grid Series Row → Outcome (Unit {0})

-- `part in s`
abbrev mentions : String → String → Bool
mentions part s = elim (find? s part) [ none ↦ Bool.false | some i ↦ Bool.true ]

-- The colours of a map and the fixed ends of its scale.
unfoldable pub scale : String → Colormap × Option (ℕ × ℕ)
scale col_name =
    if mentions "Fairness" col_name
    then (viridis, some (0, 1))
    else if mentions "SINR" col_name
    then (viridis, none)
    else if mentions "Latency" col_name || mentions "PLR" col_name
    then (viridis_r, none)
    else (viridis, none)

abbrev pub heatmap_path : String → String
heatmap_path col_name = joined "results/" (joined col_name "_heatmap.png")

-- The metrics with their titles.
abbrev pub metrics : List (String × String)
metrics =
    ("WiFi_Throughput", "Wi-Fi Throughput (Mbps)")
    ∷ ("NRU_Throughput", "NR-U Throughput (Mbps)")
    ∷ ("Total_Throughput", "Total System Throughput (Mbps)")
    ∷ ("WiFi_PLR", "Wi-Fi Packet Loss Rate")
    ∷ ("NRU_PLR", "NR-U Packet Loss Rate")
    ∷ ("WiFi_Latency", "Wi-Fi Latency (μs)")
    ∷ ("NRU_Latency", "NR-U Latency (μs)")
    ∷ ("Traditional_Fairness", "Traditional Fairness Index")
    ∷ ("Jains_Fairness", "Jain's Fairness Index")
    ∷ ("WiFi_SINR", "Wi-Fi SINR (dB)")
    ∷ ("NRU_SINR", "NR-U SINR (dB)")
    ∷ []

-- The columns of which `agg` takes the mean.
abbrev pub averaged : List String
averaged =
    "WiFi_Throughput" ∷ "NRU_Throughput" ∷ "Total_Throughput" ∷ "WiFi_PLR" ∷ "NRU_PLR"
    ∷ "WiFi_Latency" ∷ "NRU_Latency" ∷ "Traditional_Fairness" ∷ "Jains_Fairness" ∷ "WiFi_SINR"
    ∷ "NRU_SINR" ∷ []

module _ {Float Table Grid Series Row : Type 0} (frames : Frames Float Table Grid Series Row) where
  -- The calls in their order, up to one that raises.
  unfoldable pub perform_all : List (Call Grid Series Row) → Outcome (List (Call Grid Series Row))
  perform_all [] = ok []
  perform_all (call ∷ calls) = do
    done ← frames.perform call
    rest ← perform_all calls
    ok (call ∷ rest)

  -- The map of a metric.
  unfoldable pub heat_map : Table → String → String → Outcome (List (Call Grid Series Row))
  unfolding scale
  heat_map matrix_data col_name title = do
    opened ← perform_all (figure ∷ [])
    pivot ← frames.pivot matrix_data "WiFi_Nodes" "NRU_Nodes" col_name
    calls ← perform_all (
        heatmap pivot (scale col_name).0 (scale col_name).1 col_name
        ∷ set_title title
        ∷ set_xlabel "Number of NR-U gNBs"
        ∷ set_ylabel "Number of Wi-Fi APs"
        ∷ tight_layout
        ∷ savefig (heatmap_path col_name)
        ∷ close
        ∷ [])
    ok (opened ++ calls)

  -- The loop over the metrics.
  unfoldable pub heat_maps : Table → List (String × String) → Outcome (List (Call Grid Series Row))
  heat_maps matrix_data [] = ok []
  heat_maps matrix_data ((col_name, title) ∷ rest) = do
    calls ← heat_map matrix_data col_name title
    more ← heat_maps matrix_data rest
    ok (calls ++ more)

  -- The plot of throughput and fairness, once its figure is open.
  abbrev pub scatter_plot : Series → Series → List Row → List (Call Grid Series Row)
  scatter_plot throughput fairness rows =
      scatter throughput fairness
      ∷ (map annotate rows
          ++ set_title "System Throughput vs Fairness"
            ∷ set_xlabel "Total Throughput (Mbps)"
            ∷ set_ylabel "Jain's Fairness Index"
            ∷ grid
            ∷ tight_layout
            ∷ savefig "results/throughput_vs_fairness.png"
            ∷ close
            ∷ [])

  unfoldable pub visualize_results : List (Line Float) → Outcome (List (Call Grid Series Row))
  unfolding heat_maps
  visualize_results lines = do
    df ← frames.read_csv lines
    matrix_data ← frames.mean df ("WiFi_Nodes" ∷ "NRU_Nodes" ∷ []) averaged
    maps ← heat_maps matrix_data metrics
    opened ← perform_all (figure ∷ [])
    throughput ← frames.column matrix_data "Total_Throughput"
    fairness ← frames.column matrix_data "Jains_Fairness"
    plot ← perform_all (scatter_plot throughput fairness (frames.iterrows matrix_data))
    ok (maps ++ (opened ++ plot))
