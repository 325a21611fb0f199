-- ===== src/Output/Columns.antt =====
-- The columns of the file of results, in the two places that write its header.
use text.Mathlib.Text.{◌==◌ as same}
use implementing_5g_nr_u_lte.Common.{List, [], ◌∷◌, String, Bool, true, false, ◌&&◌, ◌||◌}

pub data Column : Type 0 where
  seed wifi_nodes nru_nodes wifi_cw_min wifi_cw_max nru_cw_min nru_cw_max : Column
  wifi_throughput nru_throughput total_throughput wifi_plr nru_plr : Column
  wifi_latency nru_latency wifi_access_delay nru_access_delay wifi_sinr nru_sinr : Column
  traditional_fairness jains_fairness joint_metric : Column
  wifi_cot nru_cot total_cot wifi_efficiency nru_efficiency total_efficiency : Column

-- The header that `run_simulation` writes.
abbrev pub columns : List Column
columns =
    seed ∷ wifi_nodes ∷ nru_nodes ∷ wifi_cw_min ∷ wifi_cw_max ∷ nru_cw_min ∷ nru_cw_max
    ∷ wifi_throughput ∷ nru_throughput ∷ total_throughput ∷ wifi_plr ∷ nru_plr ∷ wifi_latency
    ∷ nru_latency ∷ wifi_access_delay ∷ nru_access_delay ∷ wifi_sinr ∷ nru_sinr
    ∷ traditional_fairness ∷ jains_fairness ∷ joint_metric ∷ wifi_cot ∷ nru_cot ∷ total_cot
    ∷ wifi_efficiency ∷ nru_efficiency ∷ total_efficiency ∷ []

-- The one that `create_csv_with_header` writes.
abbrev pub headers : List Column
headers =
    seed ∷ wifi_nodes ∷ nru_nodes ∷ wifi_cw_min ∷ wifi_cw_max ∷ nru_cw_min ∷ nru_cw_max
    ∷ wifi_throughput ∷ nru_throughput ∷ total_throughput ∷ wifi_plr ∷ nru_plr ∷ wifi_latency
    ∷ nru_latency ∷ wifi_access_delay ∷ nru_access_delay ∷ wifi_sinr ∷ nru_sinr
    ∷ traditional_fairness ∷ jains_fairness ∷ joint_metric ∷ wifi_cot ∷ nru_cot ∷ total_cot
    ∷ wifi_efficiency ∷ nru_efficiency ∷ total_efficiency ∷ []

-- How the headers spell a column.
abbrev pub name : Column → String
name seed = "Seed"
name wifi_nodes = "WiFi_Nodes"
name nru_nodes = "NRU_Nodes"
name wifi_cw_min = "WiFi_CW_Min"
name wifi_cw_max = "WiFi_CW_Max"
name nru_cw_min = "NRU_CW_Min"
name nru_cw_max = "NRU_CW_Max"
name wifi_throughput = "WiFi_Throughput"
name nru_throughput = "NRU_Throughput"
name total_throughput = "Total_Throughput"
name wifi_plr = "WiFi_PLR"
name nru_plr = "NRU_PLR"
name wifi_latency = "WiFi_Latency"
name nru_latency = "NRU_Latency"
name wifi_access_delay = "WiFi_Access_Delay"
name nru_access_delay = "NRU_Access_Delay"
name wifi_sinr = "WiFi_SINR"
name nru_sinr = "NRU_SINR"
name traditional_fairness = "Traditional_Fairness"
name jains_fairness = "Jains_Fairness"
name joint_metric = "Joint_Metric"
name wifi_cot = "WiFi_COT"
name nru_cot = "NRU_COT"
name total_cot = "Total_COT"
name wifi_efficiency = "WiFi_Efficiency"
name nru_efficiency = "NRU_Efficiency"
name total_efficiency = "Total_Efficiency"

-- Whether a table with these columns has the ones that are asked for.
abbrev pub contains : String → List String → Bool
contains x [] = false
contains x (y ∷ ys) = same y x || contains x ys

abbrev pub contains_all : List String → List String → Bool
contains_all [] ys = true
contains_all (x ∷ xs) ys = contains x ys && contains_all xs ys
