-- ===== src/Figures/Validation/Coexistence.antt =====
-- The figures of simulation/5G-Coexistence-SimPy/validation.py about
-- Wi-Fi and NR-U together.
use implementing_5g_nr_u_lte.Common.{List, [], ◌∷◌, Outcome, ok, ◌>>=◌, none}
use implementing_5g_nr_u_lte.Figures.{
  Pandas, Call, plot, legend, set_xlabel, set_ylabel, tight_layout, savefig, circle, cross, solid,
  dashed,
}
use implementing_5g_nr_u_lte.Figures.Validation.{viridis}

module _ {Table Series : Type 0} (pandas : Pandas Table Series) where
  unfoldable pub coex : Outcome (List (Call Series))
  coex = do
    coex5g ← pandas.read_csv "val/coex5g_wifi_gap_1023.csv"
    matlab ← pandas.read_csv "val/matlab_wifi_gap_1023.csv"
    coex5g_cot ← pandas.mean coex5g "Gnb" "ChannelOccupancyNR"
    matalb_cot ← pandas.mean matlab "nNR" "cotNR"
    coex5g_cot2 ← pandas.mean coex5g "WiFi" "ChannelOccupancyWiFi"
    matlab_cot2 ← pandas.mean matlab "nWifi" "cotWifi"
    ok (
        viridis 0 10 4
        ∷ plot none circle solid (0, 10) coex5g_cot
        ∷ plot none circle solid (0, 10) coex5g_cot2
        ∷ plot none cross dashed (0, 10) matalb_cot
        ∷ plot none cross dashed (0, 10) matlab_cot2
        ∷ legend (
            "5G-Coex-SimPy NR-U cot" ∷ "5G-Coex-SimPy Wi-Fi cot" ∷ "Matlab NR-U cot"
            ∷ "Matlab Wi-Fi cot" ∷ [])
        ∷ set_xlabel "Number of gNBs/stations"
        ∷ set_ylabel "Channel occupation time"
        ∷ tight_layout
        ∷ savefig "val/coex_airtime_1023v2.svg"
        ∷ [])

  unfoldable pub coex2 : Outcome (List (Call Series))
  coex2 = do
    coex5g ← pandas.read_csv "val/coex5g_wifi_gap_1023.csv"
    matlab ← pandas.read_csv "val/matlab_wifi_gap_1023.csv"
    coex5g_cot ← pandas.mean coex5g "Gnb" "ChannelEfficiencyNR"
    matalb_cot ← pandas.mean matlab "nNR" "effNR"
    coex5g_cot2 ← pandas.mean coex5g "WiFi" "ChannelEfficiencyWiFi"
    matlab_cot2 ← pandas.mean matlab "nWifi" "effWifi"
    ok (
        viridis 0 10 4
        ∷ plot none circle solid (0, 10) coex5g_cot
        ∷ plot none circle solid (0, 10) coex5g_cot2
        ∷ plot none cross dashed (0, 10) matalb_cot
        ∷ plot none cross dashed (0, 10) matlab_cot2
        ∷ legend (
            "5G-Coex-SimPy NR-U eff" ∷ "5G-Coex-SimPy Wi-Fi eff" ∷ "Matlab NR-U eff"
            ∷ "Matlab Wi-Fi eff" ∷ [])
        ∷ set_xlabel "Number of gNBs/stations"
        ∷ set_ylabel "Channel occupation time"
        ∷ tight_layout
        ∷ savefig "val/coex_airtime_eff_1023v2.svg"
        ∷ [])

  unfoldable pub coex_rs : Outcome (List (Call Series))
  coex_rs = do
    coex5g ← pandas.read_csv "val/coex5g_wifi_rs_63.csv"
    matlab ← pandas.read_csv "val/matlab_wifi_rs_63.csv"
    coex5g_cot ← pandas.mean coex5g "Gnb" "ChannelEfficiencyNR"
    matalb_cot ← pandas.mean matlab "nLAA" "effLAA"
    coex5g_cot2 ← pandas.mean coex5g "WiFi" "ChannelEfficiencyWiFi"
    matlab_cot2 ← pandas.mean matlab "nWifi" "effWifi"
    ok (
        viridis 0 10 4
        ∷ plot none circle solid (0, 10) coex5g_cot
        ∷ plot none circle solid (0, 10) coex5g_cot2
        ∷ plot none cross dashed (0, 10) matalb_cot
        ∷ plot none cross dashed (0, 10) matlab_cot2
        ∷ legend (
            "5G-Coex-SimPy NR-U eff" ∷ "5G-Coex-SimPy Wi-Fi eff" ∷ "Matlab NR-U eff"
            ∷ "Matlab Wi-Fi eff" ∷ [])
        ∷ set_xlabel "Number of gNBs/stations"
        ∷ set_ylabel "Channel occupation time"
        ∷ tight_layout
        ∷ savefig "val/coex_airtime_rs_63.svg"
        ∷ [])

  unfoldable pub coex_pcol : Outcome (List (Call Series))
  coex_pcol = do
    coex5g ← pandas.read_csv "val/coex5g_coex_1023.csv"
    matlab ← pandas.read_csv "val/matlab_coexGap_1023.csv"
    coex5g_pcol ← pandas.mean coex5g "Gnb" "PcolNR"
    matlab_pcol ← pandas.mean matlab "nNR" "pcNR"
    coex5g_pcol2 ← pandas.mean coex5g "WiFi" "PcolWifi"
    matlab_pcol2 ← pandas.mean matlab "nWifi" "pcWifi"
    ok (
        viridis 0 10 4
        ∷ plot none circle solid (0, 5) coex5g_pcol
        ∷ plot none circle solid (0, 5) coex5g_pcol2
        ∷ plot none cross dashed (0, 5) matlab_pcol
        ∷ plot none cross dashed (0, 5) matlab_pcol2
        ∷ legend
            ("5G-Coex-SimPy NR-U" ∷ "5G-Coex-SimPy Wi-Fi" ∷ "Matlab NR-U" ∷ "Matlab Wi-Fi" ∷ [])
        ∷ set_xlabel "Number of gNBs/stations"
        ∷ set_ylabel "Collision probability"
        ∷ tight_layout
        ∷ savefig "val/coex_pcol_1023.svg"
        ∷ [])

  unfoldable pub coexistence_rs : Outcome (List (Call Series))
  coexistence_rs = do
    coex5g ← pandas.read_csv "val/coex/coex5g_coexistence_rs_63v4.csv"
    matlab ← pandas.read_csv "val/coex/matlab_coexistence_rs_63_6ms.csv"
    coex5g_eff_nru ← pandas.mean coex5g "Gnb" "ChannelEfficiencyNR"
    matalb_eff_nru ← pandas.mean matlab "nLAA" "effLAA"
    coex5g_eff_wifi ← pandas.mean coex5g "WiFi" "ChannelEfficiencyWiFi"
    matlab_eff_wifi ← pandas.mean matlab "nWifi" "effWifi"
    coex5g_cot_nru ← pandas.mean coex5g "Gnb" "ChannelOccupancyNR"
    matalb_cot_nru ← pandas.mean matlab "nLAA" "cotLAA"
    coex5g_cot_wifi ← pandas.mean coex5g "WiFi" "ChannelOccupancyWiFi"
    matlab_cot_wifi ← pandas.mean matlab "nWifi" "cotWifi"
    ok (
        viridis 0 10 8
        ∷ plot none circle solid (0, 10) coex5g_cot_nru
        ∷ plot none circle dashed (0, 10) coex5g_cot_wifi
        ∷ plot none circle solid (0, 10) coex5g_eff_nru
        ∷ plot none circle dashed (0, 10) coex5g_eff_wifi
        ∷ plot none cross solid (0, 10) matalb_cot_nru
        ∷ plot none cross dashed (0, 10) matlab_cot_wifi
        ∷ plot none cross solid (0, 10) matalb_eff_nru
        ∷ plot none cross dashed (0, 10) matlab_eff_wifi
        ∷ legend (
            "5G-Coex-SimPy NR-U cot" ∷ "5G-Coex-SimPy Wi-Fi cot" ∷ "5G-Coex-SimPy NR-U eff"
            ∷ "5G-Coex-SimPy Wi-Fi eff" ∷ "Matlab NR-U cot" ∷ "Matlab Wi-Fi cot" ∷ "Matlab NR-U eff"
            ∷ "Matlab Wi-Fi eff" ∷ [])
        ∷ set_xlabel "Number of gNBs/stations"
        ∷ set_ylabel "Channel occupation time"
        ∷ tight_layout
        ∷ savefig "val/coex/coexistence_rs_63_6ms.svg"
        ∷ [])

  unfoldable pub coexistence_rs_pcol : Outcome (List (Call Series))
  coexistence_rs_pcol = do
    coex5g ← pandas.read_csv "val/coex/coex5g_coexistence_rs_63debuged.csv"
    matlab ← pandas.read_csv "val/coex/matlab_coexistence_rs_63.csv"
    coex5g_pc_nru ← pandas.mean coex5g "Gnb" "PcolNR"
    matalb_pc_nru ← pandas.mean matlab "nLAA" "pcLAA"
    coex5g_pc_wifi ← pandas.mean coex5g "WiFi" "PcolWifi"
    matlab_pc_wifi ← pandas.mean matlab "nWifi" "pcWifi"
    ok (
        viridis 0 10 4
        ∷ plot none circle solid (0, 10) coex5g_pc_nru
        ∷ plot none circle solid (0, 10) coex5g_pc_wifi
        ∷ plot none cross dashed (0, 10) matalb_pc_nru
        ∷ plot none cross dashed (0, 10) matlab_pc_wifi
        ∷ legend (
            "5G-Coex-SimPy NR-U pcol" ∷ "5G-Coex-SimPy Wi-Fi pcol" ∷ "Matlab NR-U pcol"
            ∷ "Matlab Wi-Fi pcol" ∷ [])
        ∷ set_xlabel "Number of gNBs/stations"
        ∷ set_ylabel "Collision probability"
        ∷ tight_layout
        ∷ savefig "val/coex/coexistence_rs_63_pcol_ok.svg"
        ∷ [])

  unfoldable pub coexistence_gap : Outcome (List (Call Series))
  coexistence_gap = do
    coex5g ← pandas.read_csv "val/coex/coex5g_coexistence_gap_63.csv"
    matlab ← pandas.read_csv "val/coex/matlab_coexistence_gap_63v2.csv"
    coex5g_eff_wifi ← pandas.mean coex5g "WiFi" "ChannelEfficiencyWiFi"
    matlab_eff_wifi ← pandas.mean matlab "nWifi" "effWifi"
    coex5g_cot_nru ← pandas.mean coex5g "Gnb" "ChannelOccupancyNR"
    matalb_cot_nru ← pandas.mean matlab "nNR" "cotNR"
    coex5g_cot_wifi ← pandas.mean coex5g "WiFi" "ChannelOccupancyWiFi"
    matlab_cot_wifi ← pandas.mean matlab "nWifi" "cotWifi"
    ok (
        viridis 0 10 6
        ∷ plot none circle solid (0, 10) coex5g_cot_nru
        ∷ plot none circle dashed (0, 10) coex5g_cot_wifi
        ∷ plot none circle dashed (0, 10) coex5g_eff_wifi
        ∷ plot none cross solid (0, 10) matalb_cot_nru
        ∷ plot none cross dashed (0, 10) matlab_cot_wifi
        ∷ plot none cross dashed (0, 10) matlab_eff_wifi
        ∷ legend (
            "5G-Coex-SimPy NR-U cot" ∷ "5G-Coex-SimPy Wi-Fi cot" ∷ "5G-Coex-SimPy Wi-Fi eff"
            ∷ "Matlab NR-U cot" ∷ "Matlab Wi-Fi cot" ∷ "Matlab Wi-Fi eff" ∷ [])
        ∷ set_xlabel "Number of gNBs/stations"
        ∷ set_ylabel "Channel occupation time"
        ∷ tight_layout
        ∷ savefig "val/coex/coexistence_gap_63.svg"
        ∷ [])

  unfoldable pub coexistence_gap_pcol : Outcome (List (Call Series))
  coexistence_gap_pcol = do
    coex5g ← pandas.read_csv "val/coex/coex5g_coexistence_gap_1023.csv"
    matlab ← pandas.read_csv "val/coex/matlab_coexistence_gap_1023.csv"
    coex5g_pc_nru ← pandas.mean coex5g "Gnb" "PcolNR"
    matalb_pc_nru ← pandas.mean matlab "nNR" "pcNR"
    coex5g_pc_wifi ← pandas.mean coex5g "WiFi" "PcolWifi"
    matlab_pc_wifi ← pandas.mean matlab "nWifi" "pcWifi"
    ok (
        viridis 0 10 4
        ∷ plot none circle solid (0, 10) coex5g_pc_nru
        ∷ plot none circle dashed (0, 10) coex5g_pc_wifi
        ∷ plot none cross solid (0, 10) matalb_pc_nru
        ∷ plot none cross dashed (0, 10) matlab_pc_wifi
        ∷ legend (
            "5G-Coex-SimPy NR-U pcol" ∷ "5G-Coex-SimPy Wi-Fi pcol" ∷ "Matlab NR-U pcol"
            ∷ "Matlab Wi-Fi pcol" ∷ [])
        ∷ set_xlabel "Number of gNBs/stations"
        ∷ set_ylabel "Collision probability"
        ∷ tight_layout
        ∷ savefig "val/coex/coexistence_gap_1023_pcol.svg"
        ∷ [])
