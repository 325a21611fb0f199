-- ===== src/World.antt =====
-- The whole state of a simulation, as `run_simulation` of Coexistence.py sets it up: the channel,
-- the two configuration objects, which all nodes of a kind share, the nodes, and the module's
-- variables.
use implementing_5g_nr_u_lte.Common.{
  ℕ, Bool, true, false, Option, none, List, [], ◌∷◌, ◌++◌, pos, if◌then◌else◌, update,
}
use implementing_5g_nr_u_lte.Data.{Config, ConfigNr, Channel, Turn}
use implementing_5g_nr_u_lte.Station.{Station, new_station}
use implementing_5g_nr_u_lte.Station
use implementing_5g_nr_u_lte.Gnb.{Gnb, new_gnb}
use implementing_5g_nr_u_lte.Gnb
use implementing_5g_nr_u_lte.Gnb.Backoff.{TurnNr}

pub record World : Type 0 where
  pub now : ℕ
  pub gap : Bool
  pub start : Option ℕ
  pub channel : Channel
  pub wifi_config : Config
  pub nru_config : ConfigNr
  pub stations : ℕ → Station
  pub gnbs : ℕ → Gnb
  -- Interrupts that were requested and that SimPy has not thrown in yet.
  pub pending : List ℕ
  pub pending_nr : List ℕ

-- The `Channel` of a new run; each constructor of a node sets its airtime entries to 0.
unfoldable pub new_channel : ℕ → ℕ → (ℕ → ℕ → Option ℕ) → Channel
new_channel n m backoffs = record {
  n_of_stations = n;
  n_of_gnb = m;
  backoffs = backoffs;
  airtime_data = λ _. 0;
  airtime_control = λ _. 0;
  airtime_data_nr = λ _. pos 0;
  airtime_control_nr = λ _. pos 0;
  tx_list = [];
  back_off_list = [];
  tx_list_nr = [];
  back_off_list_nr = [];
  failed_transmissions = 0;
  succeeded_transmissions = 0;
  bytes_sent = 0;
  failed_transmissions_nr = 0;
  succeeded_transmissions_nr = 0;
}

-- `run_simulation` up to `environment.run`.
unfoldable pub new_world : Bool → ℕ → ℕ → Config → ConfigNr → (ℕ → ℕ → Option ℕ) → World
unfolding new_channel
new_world gap n m cfg cfg_nr backoffs = record {
  now = 0;
  gap = gap;
  start = none;
  channel = new_channel n m backoffs;
  wifi_config = cfg;
  nru_config = cfg_nr;
  stations = λ _. new_station cfg;
  gnbs = λ _. new_gnb cfg_nr;
  pending = [];
  pending_nr = [];
}

-- `process.is_alive` for the process of `wait_back_off`.
abbrev pub alive : Station.Pc → Bool
alive Station.lock_wait = true
alive Station.counting = true
alive _ = false

abbrev pub alive_nr : Gnb.Pc → Bool
alive_nr Gnb.gap_lock_wait = true
alive_nr Gnb.gap_wait = true
alive_nr Gnb.busy_wait = true
alive_nr Gnb.gap_counting = true
alive_nr Gnb.rs_lock_wait = true
alive_nr Gnb.rs_counting = true
alive_nr _ = false

-- The nodes of a list whose back-off process is alive: those get an interrupt.
unfoldable pub alive_stations : World → List ℕ → List ℕ
alive_stations w [] = []
alive_stations w (i ∷ is) =
    if alive (w.stations i).pc then i ∷ alive_stations w is else alive_stations w is

unfoldable pub alive_gnbs : World → List ℕ → List ℕ
alive_gnbs w [] = []
alive_gnbs w (i ∷ is) = if alive_nr (w.gnbs i).pc then i ∷ alive_gnbs w is else alive_gnbs w is

-- The world after a run of the process of station `i`, or of gNB `i`.
unfoldable pub put_station : ℕ → Turn Station → World → World
put_station i t w = record w {
  stations = update w.stations i t.self;
  channel = t.channel;
  pending = w.pending ++ alive_stations w t.interrupts;
  pending_nr = w.pending_nr ++ alive_gnbs w t.interrupts_nr;
}

unfoldable pub put_gnb : ℕ → TurnNr → World → World
put_gnb i t w = record w {
  gnbs = update w.gnbs i t.self;
  channel = t.channel;
  start = t.start;
  pending = w.pending ++ alive_stations w t.interrupts;
  pending_nr = w.pending_nr ++ alive_gnbs w t.interrupts_nr;
}
