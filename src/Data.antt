-- ===== src/Data.antt =====
-- Plain data of simulation/5G-Coexistence-SimPy/coexistanceSimpy/Coexistence.py: the
-- configurations, packets, frames, transmissions and the shared channel object. Times are whole
-- microseconds. A node is named by its number, so "Station 3" is 2 here, and a dictionary over all
-- names is a function. Left out: output colours, log text, the noise floor, and the two SimPy
-- locks, which belong to the scheduler.
use implementing_5g_nr_u_lte.Common.{ℕ, ℤ, Option, List}

-- The dataclass `Config` of a Wi-Fi station.
pub record Config : Type 0 where
  pub data_size : ℕ
  pub cw_min : ℕ
  pub cw_max : ℕ
  pub r_limit : ℕ
  pub mcs : ℕ

abbrev pub default_config : Config
default_config = record { data_size = 1472; cw_min = 15; cw_max = 63; r_limit = 7; mcs = 7 }

-- The dataclass `Config_NR` of a gNB.
pub record ConfigNr : Type 0 where
  pub deter_period : ℕ
  pub observation_slot_duration : ℕ
  pub synchronization_slot_duration : ℕ
  pub max_sync_slot_desync : ℕ
  pub min_sync_slot_desync : ℕ
  pub m : ℕ
  pub cw_min : ℕ
  pub cw_max : ℕ
  pub mcot : ℕ

abbrev pub default_config_nr : ConfigNr
default_config_nr = record {
  deter_period = 16;
  observation_slot_duration = 9;
  synchronization_slot_duration = 1000;
  max_sync_slot_desync = 1000;
  min_sync_slot_desync = 0;
  m = 3;
  cw_min = 15;
  cw_max = 63;
  mcot = 6;
}

pub record Packet : Type 0 where
  pub id : ℕ
  pub gen_time : ℕ
  pub payload_size : ℕ

-- The dataclass `Frame`; `t_end` and `t_to_send` are None until the frame is sent.
pub record Frame : Type 0 where
  pub frame_time : ℕ
  pub station_name : ℕ
  pub data_size : ℕ
  pub t_start : ℕ
  pub number_of_retransmissions : ℕ
  pub t_end : Option ℕ
  pub t_to_send : Option ℕ

-- The dataclass `Transmission_NR`. A reservation signal as long as the time to a boundary may
-- exceed the transmission, so `airtime` and `rs_time` are signed.
pub record TransmissionNr : Type 0 where
  pub transmission_time : ℕ
  pub enb_name : ℕ
  pub t_start : ℕ
  pub airtime : ℤ
  pub rs_time : ℤ
  pub number_of_retransmissions : ℕ
  pub t_end : Option ℕ
  pub t_to_send : Option ℕ

-- The dataclass `Channel`. `backoffs` is the dictionary of dictionaries, `none` for a missing key.
pub record Channel : Type 0 where
  pub n_of_stations : ℕ
  pub n_of_gnb : ℕ
  pub backoffs : ℕ → ℕ → Option ℕ
  pub airtime_data : ℕ → ℕ
  pub airtime_control : ℕ → ℕ
  pub airtime_data_nr : ℕ → ℤ
  pub airtime_control_nr : ℕ → ℤ
  pub tx_list : List ℕ
  pub back_off_list : List ℕ
  pub tx_list_nr : List ℕ
  pub back_off_list_nr : List ℕ
  pub failed_transmissions : ℕ
  pub succeeded_transmissions : ℕ
  pub bytes_sent : ℕ
  pub failed_transmissions_nr : ℕ
  pub succeeded_transmissions_nr : ℕ

-- How the scheduler resumes a suspended process: what it waited for happened, the zero timeout
-- beside a queue request came first, or `simpy.Interrupt` was thrown in.
pub data Event : Type 0 where
  done too_late interrupted : Event

-- What one run of a process, from one yield to the next, leaves: the node, the channel, and the
-- nodes that it calls `process.interrupt()` on.
pub record Turn (A : Type 0) : Type 0 where
  pub self : A
  pub channel : Channel
  pub interrupts : List ℕ
  pub interrupts_nr : List ℕ
