-- ===== src/Drivers/NodeCounts.antt =====
-- singleRun.py, changingNodesNumber.py and client_coex.py of simulation/5G-Coexistence-SimPy: runs
-- for one number of nodes, for a range of them, and for random seeds.
use implementing_5g_nr_u_lte.Common.{ℕ, ◌+◌, ◌-◌, List, Outcome, try_each, range_from}
use implementing_5g_nr_u_lte.Data.{Config, ConfigNr}
use implementing_5g_nr_u_lte.Output.{Cell}
use implementing_5g_nr_u_lte.Drivers.Runs.{Run, Progress, run_simulation}
pub mod Laws

-- The options that the commands of singleRun.py and changingNodesNumber.py have in common.
pub record Options : Type 0 where
  pub runs : ℕ
  pub seed : ℕ
  pub simulation_time : ℕ
  pub wifi_cw_min : ℕ
  pub wifi_cw_max : ℕ
  pub wifi_r_limit : ℕ
  pub mcs_value : ℕ
  pub nru_cw_min : ℕ
  pub nru_cw_max : ℕ
  pub synchronization_slot_duration : ℕ
  pub max_sync_slot_desync : ℕ
  pub min_sync_slot_desync : ℕ
  pub nru_observation_slot : ℕ
  pub mcot : ℕ

-- `Config(1472, ...)`
abbrev pub wifi_config : Options → Config
wifi_config o = record {
  data_size = 1472;
  cw_min = o.wifi_cw_min;
  cw_max = o.wifi_cw_max;
  r_limit = o.wifi_r_limit;
  mcs = o.mcs_value;
}

-- `Config_NR(16, 9, ...)`
abbrev pub nru_config : Options → ConfigNr
nru_config o = record {
  deter_period = 16;
  observation_slot_duration = 9;
  synchronization_slot_duration = o.synchronization_slot_duration;
  max_sync_slot_desync = o.max_sync_slot_desync;
  min_sync_slot_desync = o.min_sync_slot_desync;
  m = o.nru_observation_slot;
  cw_min = o.nru_cw_min;
  cw_max = o.nru_cw_max;
  mcot = o.mcot;
}

-- The arguments that both commands give to `run_simulation`.
abbrev pub run_of : Options → ℕ → ℕ → ℕ → Run
run_of o wifi_count gnb_count i = record {
  wifi_count = wifi_count;
  gnb_count = gnb_count;
  seed = o.seed + i;
  simulation_time = o.simulation_time;
  wifi = wifi_config o;
  nru = nru_config o;
  table_max = o.wifi_cw_max;
}

-- Those of `single_run` of client_coex.py, called as its main program does.
abbrev pub client_run : ℕ → ℕ → Run
client_run seeds nodes = record {
  wifi_count = nodes;
  gnb_count = nodes;
  seed = seeds;
  simulation_time = 100;
  wifi = record { data_size = 1472; cw_min = 15; cw_max = 63; r_limit = 7; mcs = 7 };
  nru = record {
    deter_period = 16;
    observation_slot_duration = 9;
    synchronization_slot_duration = 1000;
    max_sync_slot_desync = 1000;
    min_sync_slot_desync = 0;
    m = 3;
    cw_min = 15;
    cw_max = 63;
    mcot = 6;
  };
  table_max = 63;
}

module _ {Float : Type 0} (simulate : Run → Outcome (List (Cell Float))) where
  -- `single_run` of singleRun.py
  unfoldable pub single_run : Options → ℕ → ℕ → Progress Float → Outcome (Progress Float)
  single_run o ap_number gnb_number =
      try_each (range_from 0 o.runs) λ i. run_simulation simulate (run_of o ap_number gnb_number i)

  unfoldable pub changing_number_nodes : Options → ℕ → ℕ → Progress Float → Outcome (Progress Float)
  changing_number_nodes o start_node_number end_node_number =
      try_each (range_from start_node_number (end_node_number + 1 - start_node_number))
        λ node_number.
          try_each (range_from 0 o.runs)
            λ i. run_simulation simulate (run_of o node_number node_number i)

  -- The main program of client_coex.py. `seeds` are the ten that `random.randint(10, 1000)` draws.
  unfoldable pub client_runs : List ℕ → Progress Float → Outcome (Progress Float)
  client_runs seeds =
      try_each seeds
        λ var. try_each (range_from 1 8) λ k. run_simulation simulate (client_run var k)
