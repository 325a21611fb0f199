-- ===== src/Figures/Analysis/Gnbs.antt =====
-- The figures of simulation/5G-Coexistence-SimPy/resultAnalysis.py about
-- gNBs.
use implementing_5g_nr_u_lte.Common.{List, [], ◌∷◌, Outcome, ok, ◌>>=◌, some}
use implementing_5g_nr_u_lte.Figures.{
  Pandas, Call, plot, legend, set_xlabel, set_ylabel, tight_layout, savefig, circle, cross, solid,
  dashed,
}
use implementing_5g_nr_u_lte.Figures.Analysis.{viridis}

module _ {Table Series : Type 0} (pandas : Pandas Table Series) where
  unfoldable pub print_nru_airtime : Outcome (List (Call Series))
  print_nru_airtime = do
    data1 ← pandas.read_csv "nru_airtime_good.csv"
    data3 ← pandas.mean data1 "Gnb" "ChannelEfficiency"
    data2 ← pandas.read_csv "lbt_good.csv"
    data4 ← pandas.mean data2 "Gnb" "ChannelEfficiency"
    ok (
        viridis 0 10 2
        ∷ plot (some "NR-U airtime") cross solid (0, 10) data3
        ∷ plot (some "NR-U airtime") cross dashed (0, 10) data4
        ∷ legend ("5G-Coex-SimPy" ∷ "NRU-SimPy" ∷ [])
        ∷ set_xlabel "Number of transmitting gNBs"
        ∷ set_ylabel "Efficiency"
        ∷ tight_layout
        ∷ savefig "results/nru_airtime_good2.png"
        ∷ [])

  unfoldable pub print_collision_prob_nru : Outcome (List (Call Series))
  print_collision_prob_nru = do
    data1 ← pandas.read_csv "nru_colision_good.csv"
    data2 ← pandas.read_csv "lbt_colision.csv"
    data1 ← pandas.mean data1 "Stations" "Colisions"
    data2 ← pandas.mean data2 "Stations" "Colisions"
    ok (
        viridis 0 10 2
        ∷ plot (some "5G_Coexistance vs NRU-MZ") circle solid (0, 600) data1
        ∷ plot (some "5G_Coexistance vs NRU-MZ") cross dashed (0, 600) data2
        ∷ legend ("5G-Coex-SimPy" ∷ "NRU-SimPy" ∷ [])
        ∷ set_xlabel "Number of transmitting gNBs"
        ∷ set_ylabel "Collision probability"
        ∷ tight_layout
        ∷ savefig "results/colisonProbability_NRU_good.png"
        ∷ [])

  unfoldable pub print_collision_prob_nru_gap : Outcome (List (Call Series))
  print_collision_prob_nru_gap = do
    data1 ← pandas.read_csv "nru_colision_gap.csv"
    data1 ← pandas.mean data1 "Stations" "Colisions"
    ok (
        viridis 0 10 2
        ∷ plot (some "5G_Coexistance vs NRU-MZ") circle solid (0, 600) data1
        ∷ legend ("5G-Coex-SimPy- gap" ∷ [])
        ∷ set_xlabel "Number of transmitting gNBs"
        ∷ set_ylabel "Collision probability"
        ∷ tight_layout
        ∷ savefig "results/colisonProbability_NRU_gap.png"
        ∷ [])

  unfoldable pub print_nru_airtime_gap : Outcome (List (Call Series))
  print_nru_airtime_gap = do
    data1 ← pandas.read_csv "nru_airtime_gap5.csv"
    data3 ← pandas.mean data1 "Gnb" "ChannelEfficiency"
    data2 ← pandas.read_csv "lbt_gap2.csv"
    data4 ← pandas.mean data2 "Gnb" "ChannelEfficiency"
    matlab ← pandas.read_csv "matlab.csv"
    matalb2 ← pandas.mean matlab "Gnb" "ChannelEfficiency"
    ok (
        viridis 0 10 3
        ∷ plot (some "NR-U gap airtime") circle solid (8, 10) data3
        ∷ plot (some "NR-U airtime") cross dashed (8, 10) data4
        ∷ legend ("5G-Coex-SimPy" ∷ "NRU-SimPy" ∷ [])
        ∷ plot (some "NR-U airtime") cross dashed (8, 10) matalb2
        ∷ legend ("5G-Coex-SimPy" ∷ "NRU-SimPy" ∷ "Matlab" ∷ [])
        ∷ set_xlabel "Number of transmitting gNBs"
        ∷ set_ylabel "Efficiency"
        ∷ tight_layout
        ∷ savefig "results/nru_airtime_gap7.png"
        ∷ [])
