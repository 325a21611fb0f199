-- ===== src/Simulation.antt =====
-- The running simulation of Coexistence.py. SimPy chooses which process goes on, and with what: a
-- step is one run of one process, and the steps may come in any order that its guards admit. So
-- what holds in every reachable state holds however SimPy orders events, timeouts, locks and
-- preemptions.
use implementing_5g_nr_u_lte.Common.{
  ℕ, ◌+◌, ◌≤◌, ◌<◌, ◌≡◌, ◌≢◌, Bool, true, false, Option, none, some, List, Outcome, ok, remove,
}
use implementing_5g_nr_u_lte.Data.{Config, ConfigNr, Turn, Event, interrupted}
use implementing_5g_nr_u_lte.Station.{Station}
use implementing_5g_nr_u_lte.Station
use implementing_5g_nr_u_lte.Gnb
use implementing_5g_nr_u_lte.Gnb.{Gnb, sync_offset, start_sync_slots, next_sync_slot}
use implementing_5g_nr_u_lte.Gnb.Backoff.{TurnNr}
use implementing_5g_nr_u_lte.World.{World, new_world, put_station, put_gnb, alive, alive_nr}
use implementing_5g_nr_u_lte.Controller.{Controller, monitor_and_adjust}
use implementing_5g_nr_u_lte.Common.{update}
pub mod Ledger
pub mod Books
pub mod Outcomes
pub mod Schedule
pub mod Lock
pub mod Supply
pub mod Keys
pub mod GapProgress

-- A world, and the controller where `enable_dynamic_cw` asks for one.
pub record Simulation : Type 0 where
  pub world : World
  pub controller : Option Controller

-- The process of station `i` goes on, after the event `v` and with the draw `draw`.
abbrev pub station_runs : Event → ℕ → ℕ → World → Outcome (Turn Station)
station_runs v draw i w =
    Station.Process.resume v w.wifi_config w.now draw i (w.stations i) w.channel

abbrev pub gnb_runs : Event → ℕ → ℕ → World → Outcome TurnNr
gnb_runs v draw i w =
    Gnb.Process.resume v w.gap w.nru_config w.now draw i (w.gnbs i) w.channel w.start

-- The `n` stations and `m` gNBs of a world take a step.
pub data Move (n m : ℕ) (w : World) : World → Type 0 where
  -- A random draw lies within the contention window.
  station :
      (i draw : ℕ) (v : Event) {t : Turn Station}
      → i < n
      → draw ≤ Station.largest_draw (w.stations i)
      → v ≢ interrupted
      → station_runs v draw i w ≡ ok t
      → Move n m w (put_station i t w)
  -- An interrupt that was requested is thrown into the back-off.
  station_interrupt :
      (i : ℕ) {t : Turn Station} {rest : List ℕ}
      → i < n
      → alive (w.stations i).pc ≡ true
      → remove i w.pending ≡ some rest
      → station_runs interrupted 0 i w ≡ ok t
      → Move n m w (record (put_station i t w) { pending = rest })
  -- SimPy passes over an interrupt of a process that has ended.
  station_ended :
      (i : ℕ) {rest : List ℕ}
      → alive (w.stations i).pc ≡ false
      → remove i w.pending ≡ some rest
      → Move n m w (record w { pending = rest })
  -- The queue request of the station is preempted.
  station_preempted :
      (i : ℕ) {t : Turn Station}
      → i < n
      → alive (w.stations i).pc ≡ false
      → station_runs interrupted 0 i w ≡ ok t
      → Move n m w (put_station i t w)
  gnb :
      (i draw : ℕ) (v : Event) {t : TurnNr}
      → i < m
      → draw ≤ Gnb.largest_draw (w.gnbs i)
      → v ≢ interrupted
      → gnb_runs v draw i w ≡ ok t
      → Move n m w (put_gnb i t w)
  gnb_interrupt :
      (i : ℕ) {t : TurnNr} {rest : List ℕ}
      → i < m
      → alive_nr (w.gnbs i).pc ≡ true
      → remove i w.pending_nr ≡ some rest
      → gnb_runs interrupted 0 i w ≡ ok t
      → Move n m w (record (put_gnb i t w) { pending_nr = rest })
  gnb_ended :
      (i : ℕ) {rest : List ℕ}
      → alive_nr (w.gnbs i).pc ≡ false
      → remove i w.pending_nr ≡ some rest
      → Move n m w (record w { pending_nr = rest })
  gnb_preempted :
      (i : ℕ) {t : TurnNr}
      → i < m
      → alive_nr (w.gnbs i).pc ≡ false
      → gnb_runs interrupted 0 i w ≡ ok t
      → Move n m w (put_gnb i t w)
  -- `sync_slot_counter` of gNB `i`: its first run, unless that raises, and a round of its loop.
  desync :
      (i draw time : ℕ)
      → i < m
      → w.nru_config.min_sync_slot_desync ≤ draw
      → draw ≤ w.nru_config.max_sync_slot_desync
      → sync_offset w.nru_config draw ≡ ok time
      → Move n m w (record w { gnbs = update w.gnbs i (start_sync_slots time (w.gnbs i)) })
  sync_slot :
      (i : ℕ)
      → i < m
      → Move n m w (record w { gnbs = update w.gnbs i (next_sync_slot w.nru_config (w.gnbs i)) })
  -- Time goes by.
  elapse : (d : ℕ) → Move n m w (record w { now = w.now + d })

pub data Step (n m : ℕ) (s : Simulation) : Simulation → Type 0 where
  move : {w : World} → Move n m s.world w → Step n m s (record s { world = w })
  measure :
      (k : Controller)
      → s.controller ≡ some k
      → Step n m s (record {
        world = (monitor_and_adjust k s.world).1;
        controller = some (monitor_and_adjust k s.world).0;
      })

pub data Reach (n m : ℕ) (s : Simulation) : Simulation → Type 0 where
  here : Reach n m s s
  next : {t u : Simulation} → Reach n m s t → Step n m t u → Reach n m s u
