-- ===== src/Figures/Validation/Alone.antt =====
-- The figures of simulation/5G-Coexistence-SimPy/validation.py about
-- Wi-Fi alone, and NR-U alone, against other simulators.
use implementing_5g_nr_u_lte.Common.{List, [], ◌∷◌, Outcome, ok, ◌>>=◌, none}
use implementing_5g_nr_u_lte.Figures.{
  Pandas, Call, plot, legend, set_xlabel, set_ylabel, tight_layout, savefig, circle, cross,
  triangle, solid, dashed, dotted,
}
use implementing_5g_nr_u_lte.Figures.Validation.{viridis}

module _ {Table Series : Type 0} (pandas : Pandas Table Series) where
  unfoldable pub valid_wifi_pcol : Outcome (List (Call Series))
  valid_wifi_pcol = do
    coex5g ← pandas.read_csv "val/coex5g_wifi_63v2.csv"
    matlab ← pandas.read_csv "val/matlab_wifi_63v2.csv"
    dcf ← pandas.read_csv "val/DCF_valid_63v2.csv"
    coex5g_pcol ← pandas.mean coex5g "WiFi" "PcolWifi"
    matlab_pcol ← pandas.mean matlab "nWifi" "pcWifi"
    dcf_pcol ← pandas.mean dcf "Stations" "Pcol"
    ok (
        viridis 0 10 3
        ∷ plot none circle solid (0, 5) coex5g_pcol
        ∷ plot none cross dashed (0, 5) matlab_pcol
        ∷ plot none triangle dotted (0, 5) dcf_pcol
        ∷ legend ("5G-Coex-SimPy" ∷ "Matlab" ∷ "DCF-SimPy" ∷ [])
        ∷ set_xlabel "Number of Wifi nodes"
        ∷ set_ylabel "Collision probability"
        ∷ tight_layout
        ∷ savefig "val/wifi_pcol_63v2.svg"
        ∷ [])

  unfoldable pub valid_wifi : Outcome (List (Call Series))
  valid_wifi = do
    coex5g ← pandas.read_csv "val/coex5g_wifi_1023.csv"
    matlab ← pandas.read_csv "val/matlab_wifi_val_1023.csv"
    dcf ← pandas.read_csv "val/DCF_valid_1023.csv"
    coex5g_cot ← pandas.mean coex5g "WiFi" "ChannelOccupancyWiFi"
    coex5g_eff ← pandas.mean coex5g "WiFi" "ChannelEfficiencyWiFi"
    matlab_cot ← pandas.mean matlab "nWifi" "cotWifi"
    matalb_eff ← pandas.mean matlab "nWifi" "effWifi"
    dcf_cot ← pandas.mean dcf "Stations" "Occupancy"
    dcf_eff ← pandas.mean dcf "Stations" "Efficiency"
    ok (
        viridis 0 10 8
        ∷ plot none circle solid (6, 10) coex5g_cot
        ∷ plot none circle solid (6, 10) coex5g_eff
        ∷ plot none cross dashed (6, 10) matlab_cot
        ∷ plot none cross dashed (6, 10) matalb_eff
        ∷ plot none triangle dotted (6, 10) dcf_cot
        ∷ plot none triangle dotted (6, 10) dcf_eff
        ∷ legend (
            "5G-Coex-SimPy cot" ∷ "5G-Coex-SimPy eff" ∷ "Matlab cot" ∷ "Matlab eff"
            ∷ "DCF-SimPY cot" ∷ "DCF-SimPy eff" ∷ [])
        ∷ set_xlabel "Number of Wifi nodes"
        ∷ set_ylabel "Channel occupation time"
        ∷ tight_layout
        ∷ savefig "val/wifi_airtime_1023v2.svg"
        ∷ [])

  unfoldable pub valid_nru_pcol : Outcome (List (Call Series))
  valid_nru_pcol = do
    coex5g ← pandas.read_csv "val/coex5g_gap_63.csv"
    matlab ← pandas.read_csv "val/matlab_gap_63.csv"
    nru ← pandas.read_csv "val/nru_gap_63.csv"
    coex5g_pcol ← pandas.mean coex5g "Gnb" "PcolNR"
    matlab_pcol ← pandas.mean matlab "nLAA" "pcLAA"
    nru_pcol ← pandas.mean nru "N_sta" "pc"
    ok (
        viridis 0 10 3
        ∷ plot none circle solid (0, 1) coex5g_pcol
        ∷ plot none cross dashed (0, 1) matlab_pcol
        ∷ plot none triangle dotted (0, 1) nru_pcol
        ∷ legend ("5G-Coex-SimPy" ∷ "Matlab" ∷ "NRU-SimPy" ∷ [])
        ∷ set_xlabel "Number of gNBs"
        ∷ set_ylabel "Collision probability"
        ∷ tight_layout
        ∷ savefig "val/gap_pcol_63.svg"
        ∷ [])

  unfoldable pub valid_nru : Outcome (List (Call Series))
  valid_nru = do
    coex5g ← pandas.read_csv "val/coex5g_rs_1023.csv"
    matlab ← pandas.read_csv "val/matlab_rs_1023.csv"
    nru ← pandas.read_csv "val/nru_rs_1023.csv"
    coex5g2 ← pandas.read_csv "val/coex5g_rs_1023v2.csv"
    coex5g_cot ← pandas.mean coex5g "Gnb" "ChannelOccupancyNR"
    coex5g_eff ← pandas.mean coex5g "Gnb" "ChannelEfficiencyNR"
    coex5g_cot2 ← pandas.mean coex5g2 "Gnb" "ChannelOccupancyNR"
    coex5g_eff2 ← pandas.mean coex5g2 "Gnb" "ChannelEfficiencyNR"
    matlab_cot ← pandas.mean matlab "nLAA" "cotLAA"
    matalb_eff ← pandas.mean matlab "nLAA" "effLAA"
    nru_eff ← pandas.mean nru "N_sta" "eff"
    ok (
        viridis 0 10 7
        ∷ plot none circle solid (6, 10) coex5g_cot
        ∷ plot none circle solid (6, 10) coex5g_eff
        ∷ plot none cross dashed (6, 10) matlab_cot
        ∷ plot none cross dashed (6, 10) matalb_eff
        ∷ plot none triangle dotted (6, 10) nru_eff
        ∷ plot none circle solid (6, 10) coex5g_cot2
        ∷ plot none circle solid (6, 10) coex5g_eff2
        ∷ legend (
            "5G-Coex-SimPy cot" ∷ "5G-Coex-SimPy eff" ∷ "Matlab cot" ∷ "Matlab eff"
            ∷ "NRU-SimPy eff" ∷ "5G-Coex-SimPy2 cot" ∷ "5G-Coex-SimPy2 eff" ∷ [])
        ∷ set_xlabel "Number of gNBs"
        ∷ set_ylabel "Channel occupation time"
        ∷ tight_layout
        ∷ savefig "val/rs_airtime_1023v2.svg"
        ∷ [])

  unfoldable pub valid_nru_pcol_gap : Outcome (List (Call Series))
  valid_nru_pcol_gap = do
    coex5g ← pandas.read_csv "val/coex5g_gap_63v2.csv"
    matlab ← pandas.read_csv "val/matlab_gap_63.csv"
    nru ← pandas.read_csv "val/nru_gap_63.csv"
    coex5g_pcol ← pandas.mean coex5g "Gnb" "PcolNR"
    matlab_pcol ← pandas.mean matlab "nNR" "pcNR"
    nru_pcol ← pandas.mean nru "N_sta" "pc"
    ok (
        viridis 0 10 3
        ∷ plot none circle solid (0, 1) coex5g_pcol
        ∷ plot none cross dashed (0, 1) matlab_pcol
        ∷ plot none triangle dotted (0, 1) nru_pcol
        ∷ legend ("5G-Coex-SimPy" ∷ "Matlab" ∷ "NRU-SimPy" ∷ [])
        ∷ set_xlabel "Number of gNBs"
        ∷ set_ylabel "Collision probability"
        ∷ tight_layout
        ∷ savefig "val/gap_pcol_63v2.svg"
        ∷ [])

  unfoldable pub valid_nru_gap : Outcome (List (Call Series))
  valid_nru_gap = do
    coex5g ← pandas.read_csv "val/coex5g_gap_1023v2.csv"
    matlab ← pandas.read_csv "val/matlab_gap_1023.csv"
    nru ← pandas.read_csv "val/nru_gap_1023.csv"
    coex5g_cot ← pandas.mean coex5g "Gnb" "ChannelOccupancyNR"
    matalb_eff ← pandas.mean matlab "nNR" "effNR"
    nru_eff ← pandas.mean nru "N_sta" "eff"
    ok (
        viridis 0 10 3
        ∷ plot none circle solid (6, 10) coex5g_cot
        ∷ plot none cross dashed (6, 10) matalb_eff
        ∷ plot none triangle dotted (6, 10) nru_eff
        ∷ legend ("5G-Coex-SimPy cot" ∷ "Matlab cot" ∷ "NRU-SimPy cot" ∷ [])
        ∷ set_xlabel "Number of gNBs"
        ∷ set_ylabel "Channel occupation time"
        ∷ tight_layout
        ∷ savefig "val/gap_airtime_1023v2.svg"
        ∷ [])
