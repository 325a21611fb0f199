-- ===== src/Figures/Analysis/Stations.antt =====
-- The figures of simulation/5G-Coexistence-SimPy/resultAnalysis.py about
-- Wi-Fi stations.
use implementing_5g_nr_u_lte.Common.{List, [], ◌∷◌, Outcome, ok, ◌>>=◌, none, some}
use implementing_5g_nr_u_lte.Figures.{
  Pandas, Call, plot, bar, legend, set_xlabel, set_ylabel, tight_layout, savefig, circle, cross,
  solid, dashed,
}
use implementing_5g_nr_u_lte.Figures.Analysis.{viridis}

module _ {Table Series : Type 0} (pandas : Pandas Table Series) where
  unfoldable pub print_collision_prob : Outcome (List (Call Series))
  print_collision_prob = do
    data1 ← pandas.read_csv "results.csv"
    data2 ← pandas.read_csv "results2.csv"
    data1 ← pandas.mean data1 "Stations" "Colisions"
    data2 ← pandas.mean data2 "Stations" "Colisions"
    ok (
        viridis 3 10 2
        ∷ plot (some "5G_Coexistance vs DCF simulators") circle solid (0, 400) data1
        ∷ plot (some "5G_Coexistance vs DCF simulators") cross solid (0, 400) data2
        ∷ legend ("5G-Coex-SimPy" ∷ "DCF-SimPy" ∷ [])
        ∷ set_xlabel "Number of transmitting Wi-Fi stations"
        ∷ set_ylabel "Collision probability"
        ∷ tight_layout
        ∷ savefig "results/colisonProbability.png"
        ∷ [])

  unfoldable pub print_airtime_34 : Outcome (List (Call Series))
  print_airtime_34 = do
    data1 ← pandas.read_csv "airtime34.csv"
    data_dcf ← pandas.read_csv "DCF_airtime34.csv"
    data2 ← pandas.mean data1 "Stations" "ChannelOccupancy"
    data3 ← pandas.mean data1 "Stations" "ChannelEfficiency"
    data2dcf ← pandas.mean data_dcf "Stations" "Occupancy"
    data3dcf ← pandas.mean data_dcf "Stations" "Efficiency"
    ok (
        viridis 0 10 4
        ∷ plot none circle solid (0, 10) data2
        ∷ plot none circle solid (0, 10) data3
        ∷ plot none cross dashed (0, 10) data2dcf
        ∷ plot none cross dashed (0, 10) data3dcf
        ∷ legend (
            "5G-Coex-SimPy occupancy" ∷ "5G-Coex-SimPy efficiency" ∷ "DCF-SimPy occupancy"
            ∷ "DCF-SimPy efficiency" ∷ [])
        ∷ set_xlabel "Number of transmitting Wi-Fi stations"
        ∷ set_ylabel "Normalized airtime"
        ∷ tight_layout
        ∷ savefig "results/airtime_efficiency_and_occupancy2.png"
        ∷ [])

  unfoldable pub print_channel_occupancy : Outcome (List (Call Series))
  print_channel_occupancy = do
    data1 ← pandas.read_csv "airtime34.csv"
    data_dcf ← pandas.read_csv "DCF_airtime34.csv"
    data2 ← pandas.mean data1 "Stations" "ChannelOccupancy"
    data2dcf ← pandas.mean data_dcf "Stations" "Occupancy"
    ok (
        viridis 2 10 2
        ∷ plot (some "Airtime 5G-Coexistance-Simpy vs DCF-Simpy") circle solid (0, 10) data2
        ∷ plot (some "Airtime 5G-Coexistance-Simpy vs DCF-Simpy") cross dashed (0, 10) data2dcf
        ∷ set_xlabel "Number of transmitting Wi-Fi stations"
        ∷ set_ylabel "Channel occupancy time"
        ∷ set_xlabel "Number of transmitting Wi-Fi stations"
        ∷ set_ylabel "Channel occupancy time"
        ∷ legend ("5G-Coex-SimPy occupancy" ∷ "DCF-SimPy occupancy" ∷ [])
        ∷ tight_layout
        ∷ savefig "results/channel_occupancy.png"
        ∷ [])

  unfoldable pub print_channel_efficency : Outcome (List (Call Series))
  print_channel_efficency = do
    data1 ← pandas.read_csv "airtime34.csv"
    data_dcf ← pandas.read_csv "DCF_airtime34.csv"
    data3 ← pandas.mean data1 "Stations" "ChannelEfficiency"
    data3dcf ← pandas.mean data_dcf "Stations" "Efficiency"
    ok (
        viridis 2 10 2
        ∷ plot (some "Airtime 5G-Coexistance-Simpy vs DCF-Simpy") circle solid (0, 10) data3
        ∷ set_xlabel "Number of transmitting Wi-Fi stations"
        ∷ set_ylabel "% of time"
        ∷ plot (some "Airtime 5G-Coexistance-Simpy vs DCF-Simpy") cross dashed (0, 10) data3dcf
        ∷ set_xlabel "Number of transmitting Wi-Fi stations"
        ∷ set_ylabel "Normalized airtime"
        ∷ legend ("5G-Coex-SimPy efficiency" ∷ "DCF-SimPy efficiency" ∷ [])
        ∷ set_xlabel "Number of transmitting Wi-Fi stations"
        ∷ set_ylabel "Channel efficiency time"
        ∷ set_xlabel "Number of transmitting Wi-Fi stations"
        ∷ set_ylabel "Channel efficiency time"
        ∷ tight_layout
        ∷ savefig "results/channel_efficiency.png"
        ∷ [])

  unfoldable pub print_airtime_norm_per_station : Outcome (List (Call Series))
  print_airtime_norm_per_station = do
    data1 ← pandas.read_csv "airtime12_new2.csv"
    data2 ← pandas.mean data1 "Num" "NormPerStation"
    ok (
        viridis 5 10 10
        ∷ bar (some "Per station normalized airtime") (0, 10) data2
        ∷ set_xlabel "Number of transmitting Wi-Fi stations"
        ∷ set_ylabel "Mean normalized airtime"
        ∷ tight_layout
        ∷ savefig "results/normalized_airtime_per_station.png"
        ∷ [])

  unfoldable pub print_airtime_per_station : Outcome (List (Call Series))
  print_airtime_per_station = do
    data1 ← pandas.read_csv "airtime12_new2.csv"
    data2 ← pandas.mean data1 "Num" "PerStation"
    ok (
        viridis 0 10 10
        ∷ bar (some "Per station airtime") (0, 1000) data2
        ∷ set_xlabel "Number of transmitting Wi-Fi stations"
        ∷ set_ylabel "Mean airtime"
        ∷ tight_layout
        ∷ savefig "results/airtime_per_station.png"
        ∷ [])
