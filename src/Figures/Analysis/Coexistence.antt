-- ===== src/Figures/Analysis/Coexistence.antt =====
-- The figures of simulation/5G-Coexistence-SimPy/resultAnalysis.py about
-- stations and gNBs together, but for `valid_wifi`.
use implementing_5g_nr_u_lte.Common.{List, [], ◌∷◌, Outcome, ok, ◌>>=◌, some}
use implementing_5g_nr_u_lte.Figures.{
  Pandas, Call, plot, legend, set_xlabel, set_ylabel, tight_layout, savefig, circle, cross, solid,
  dashed,
}
use implementing_5g_nr_u_lte.Figures.Analysis.{viridis}

module _ {Table Series : Type 0} (pandas : Pandas Table Series) where
  unfoldable pub print_coexistance_airtime : Outcome (List (Call Series))
  print_coexistance_airtime = do
    data1 ← pandas.read_csv "matlab_coex4.csv"
    data3 ← pandas.mean data1 "nNR" "cotWifi"
    data2 ← pandas.mean data1 "nNR" "cotNR"
    ok (
        viridis 0 10 2
        ∷ plot (some "Coexistance airtime") circle solid (0, 10) data2
        ∷ plot (some "Coexistance airtime") cross solid (0, 10) data3
        ∷ legend ("cotNR" ∷ "cotWifi" ∷ [])
        ∷ set_xlabel "Number of Wifi/NR nodes"
        ∷ set_ylabel "Channel occupancy time"
        ∷ tight_layout
        ∷ savefig "results/coex_airtime.png"
        ∷ [])

  unfoldable pub print_coexistance_airtime_my : Outcome (List (Call Series))
  print_coexistance_airtime_my = do
    data1 ← pandas.read_csv "coex_gnb_test.csv"
    data3 ← pandas.mean data1 "nNR" "cotWifi"
    data2 ← pandas.mean data1 "nNR" "cotNR"
    ok (
        viridis 0 10 2
        ∷ plot (some "Coexistance airtime") circle solid (0, 10) data2
        ∷ plot (some "Coexistance airtime") cross solid (0, 10) data3
        ∷ legend ("cotNR" ∷ "cotWifi" ∷ [])
        ∷ set_xlabel "Number of Wifi/NR nodes"
        ∷ set_ylabel "Channel occupancy time"
        ∷ tight_layout
        ∷ savefig "results/coex_airtime.png"
        ∷ [])

  unfoldable pub print_coex : Outcome (List (Call Series))
  print_coex = do
    data_my ← pandas.read_csv "coex_gnb_wifi_RS.csv"
    data_my_wifi ← pandas.mean data_my "Gnb" "ChannelOccupancy"
    data_my_gnb ← pandas.mean data_my "Gnb" "ChannelOccupancyNR"
    data_matlab ← pandas.read_csv "coex_rs_wifi22.csv"
    data_matlab_wifi ← pandas.mean data_matlab "nWifi" "cotWifi"
    data_matlab_gnb ← pandas.mean data_matlab "nWifi" "cotLAA"
    ok (
        viridis 0 10 4
        ∷ plot (some "Coexistance airtime") circle solid (0, 10) data_my_wifi
        ∷ plot (some "Coexistance airtime") circle solid (0, 10) data_my_gnb
        ∷ plot (some "Coexistance airtime") cross dashed (0, 10) data_matlab_wifi
        ∷ plot (some "Coexistance airtime") cross dashed (0, 10) data_matlab_gnb
        ∷ legend ("Coex_wifi" ∷ "Coex_gnb" ∷ "Matlab_wifi" ∷ "Matalb_gnb" ∷ [])
        ∷ set_xlabel "Number of Wifi/NR nodes"
        ∷ set_ylabel "Channel occupancy time"
        ∷ tight_layout
        ∷ savefig "results/coex_comparison_rs2.png"
        ∷ [])

  unfoldable pub print_matlab : Outcome (List (Call Series))
  print_matlab = do
    data_matlab ← pandas.read_csv "coex_matlab4.csv"
    data_matlab_wifi ← pandas.mean data_matlab "nWifi" "cotWifi"
    data_matlab_gnb ← pandas.mean data_matlab "nWifi" "cotLAA"
    ok (
        viridis 0 10 4
        ∷ plot (some "Coexistance airtime") circle solid (0, 10) data_matlab_wifi
        ∷ plot (some "Coexistance airtime") circle solid (0, 10) data_matlab_gnb
        ∷ legend ("Matlab_wifi" ∷ "Matalb_gnb" ∷ [])
        ∷ set_xlabel "Number of Wifi/NR nodes"
        ∷ set_ylabel "Channel occupancy time"
        ∷ tight_layout
        ∷ savefig "results/coex_comparison2.png"
        ∷ [])

  unfoldable pub print_coex_gap : Outcome (List (Call Series))
  print_coex_gap = do
    data_my ← pandas.read_csv "coex_gnbOnly.csv"
    data_my_gnb ← pandas.mean data_my "Gnb" "ChannelOccupancyNR"
    data_matlab ← pandas.read_csv "coex_tylko_gap.csv"
    data_matlab_gnb ← pandas.mean data_matlab "nNR" "cotNR"
    ok (
        viridis 0 10 4
        ∷ plot (some "Coexistance airtime") circle solid (0, 10) data_my_gnb
        ∷ plot (some "Coexistance airtime") cross dashed (0, 10) data_matlab_gnb
        ∷ legend ("Coex_gnb" ∷ "Matalb_gnb" ∷ [])
        ∷ set_xlabel "Number of Wifi/NR nodes"
        ∷ set_ylabel "Channel occupancy time"
        ∷ tight_layout
        ∷ savefig "results/coex_compa_gap.png"
        ∷ [])

  unfoldable pub print_coex_gap_matlab : Outcome (List (Call Series))
  print_coex_gap_matlab = do
    data_my ← pandas.read_csv "coex_gnb_wifi4.csv"
    data_my_wifi ← pandas.mean data_my "Gnb" "ChannelOccupancy"
    data_my_gnb ← pandas.mean data_my "Gnb" "ChannelOccupancyNR"
    data_matlab ← pandas.read_csv "coex_gap_wifi.csv"
    data_matlab_wifi ← pandas.mean data_matlab "nWifi" "cotWifi"
    data_matlab_gnb ← pandas.mean data_matlab "nWifi" "cotNR"
    ok (
        viridis 0 10 4
        ∷ plot (some "Coexistance airtime") circle solid (0, 10) data_my_wifi
        ∷ plot (some "Coexistance airtime") circle solid (0, 10) data_my_gnb
        ∷ plot (some "Coexistance airtime") cross dashed (0, 10) data_matlab_wifi
        ∷ plot (some "Coexistance airtime") cross dashed (0, 10) data_matlab_gnb
        ∷ legend ("Coex_wifi" ∷ "Coex_gnb" ∷ "Matlab_wifi" ∷ "Matalb_gnb" ∷ [])
        ∷ set_xlabel "Number of Wifi/NR nodes"
        ∷ set_ylabel "Channel occupancy time"
        ∷ tight_layout
        ∷ savefig "results/coex_comparison_gap3.png"
        ∷ [])
