-- ===== src/Simulation/Books.antt =====
-- The books of a simulation agree with the counters of its nodes in every reachable state.
use implementing_5g_nr_u_lte.Station.Runs as StationRuns
use implementing_5g_nr_u_lte.Gnb.Runs as GnbRuns
use implementing_5g_nr_u_lte.Common.{
  ℕ, ◌<◌, ◌≡◌, refl, ap, arith, pos, Option, sum_of-update, sum_of-congr, sum_of-eq_zero, update,
  Bool, List, ok, sym, ◌+ℤ◌, ◌∙◌,
}
use implementing_5g_nr_u_lte.Data.{Config, ConfigNr, Turn, Event, interrupted}
use implementing_5g_nr_u_lte.Station.{Station, new_station}
use implementing_5g_nr_u_lte.Gnb.{Gnb, new_gnb, start_sync_slots, next_sync_slot}
use implementing_5g_nr_u_lte.Gnb.Accounts as GnbAccounts
use implementing_5g_nr_u_lte.World.{World, new_world, put_station, put_gnb}
use implementing_5g_nr_u_lte.Gnb.Backoff.{TurnNr}
use implementing_5g_nr_u_lte.Controller.{Controller, set_wifi_cw, set_nru_cw}
use implementing_5g_nr_u_lte.Controller.Keeps.{monitor_and_adjust_keeps}
use implementing_5g_nr_u_lte.Simulation.{
  Simulation, Move, station, station_interrupt, station_ended, station_preempted, gnb,
  gnb_interrupt, gnb_ended, gnb_preempted, desync, sync_slot, elapse, station_runs, gnb_runs, Step,
  move, measure, Reach, here, next,
}
use implementing_5g_nr_u_lte.Simulation.Ledger.{
  Consistent, update_all, put_station-Consistent, put_gnb-Consistent,
}

-- The controller changes windows only.
set_wifi_cw-Consistent :
    (n m : ℕ) (k : Controller) (cw : ℕ) (w : World)
    → Consistent n m w
    → Consistent n m (set_wifi_cw k cw w)
unfolding set_wifi_cw
set_wifi_cw-Consistent n m k cw w con = record {
  stations_sound = λ i. let h = con.stations_sound i in ground arith;
  gnbs_sound = con.gnbs_sound;
  succeeded = con.succeeded ∙ sum_of-congr _ n _ _ (λ _. refl);
  failed = con.failed ∙ sum_of-congr _ n _ _ (λ _. refl);
  bytes = con.bytes;
  airtime = con.airtime;
  succeeded_nr = con.succeeded_nr;
  failed_nr = con.failed_nr;
  occupied = con.occupied;
}

set_nru_cw-Consistent :
    (n m : ℕ) (k : Controller) (cw : ℕ) (w : World)
    → Consistent n m w
    → Consistent n m (set_nru_cw k cw w)
unfolding set_nru_cw
set_nru_cw-Consistent n m k cw w con = record {
  stations_sound = con.stations_sound;
  gnbs_sound = λ i. let h = con.gnbs_sound i in ground arith;
  succeeded = con.succeeded;
  failed = con.failed;
  bytes = con.bytes;
  airtime = con.airtime;
  succeeded_nr = con.succeeded_nr ∙ sum_of-congr _ m _ _ (λ _. refl);
  failed_nr = con.failed_nr ∙ sum_of-congr _ m _ _ (λ _. refl);
  occupied = con.occupied;
}

module _ (n m : ℕ) (w : World) (con : Consistent n m w) where
  -- The clock and the interrupts to come are not in the books.
  relaxed :
      (now : ℕ) (pending pending_nr : List ℕ)
      → Consistent n m (record w { now = now; pending = pending; pending_nr = pending_nr })
  relaxed now pending pending_nr = record {
    stations_sound = con.stations_sound;
    gnbs_sound = con.gnbs_sound;
    succeeded = con.succeeded;
    failed = con.failed;
    bytes = con.bytes;
    airtime = con.airtime;
    succeeded_nr = con.succeeded_nr;
    failed_nr = con.failed_nr;
    occupied = con.occupied;
  }

  -- Nor are the boundaries of the synchronization slots.
  resynced :
      (i offset boundary : ℕ)
      → i < m
      → Consistent n m (record w {
        gnbs =
            update w.gnbs i
              (record (w.gnbs i) { desync = offset; next_sync_slot_boundry = boundary });
      })
  resynced i offset boundary lt =
      let g' : Gnb = record (w.gnbs i) { desync = offset; next_sync_slot_boundry = boundary } in
      let h = con.gnbs_sound i in
      record {
        stations_sound = con.stations_sound;
        gnbs_sound =
            update_all (GnbAccounts.IsSound w.nru_config.mcot) w.gnbs i g' con.gnbs_sound (record {
              transmission = h.transmission;
              no_latency = h.no_latency;
              no_count = h.no_count;
            });
        succeeded = con.succeeded;
        failed = con.failed;
        bytes = con.bytes;
        airtime = con.airtime;
        succeeded_nr = omega (
          arith,
          con.succeeded_nr,
          sum_of-update (λ (g : Gnb). g.succeeded_transmissions) m w.gnbs i g' lt,
        );
        failed_nr = omega (
          arith,
          con.failed_nr,
          sum_of-update (λ (g : Gnb). g.failed_transmissions) m w.gnbs i g' lt,
        );
        occupied = λ j. let (k, le, e) = con.occupied j in (k, ground (arith, le), e);
      }

  station-Consistent :
      (i draw : ℕ) (v : Event) {t : Turn Station}
      → i < n
      → station_runs v draw i w ≡ ok t
      → Consistent n m (put_station i t w)
  station-Consistent i draw v {t} lt e = put_station-Consistent n m w con i t lt (
      StationRuns.resume-Kept w.wifi_config w.now draw i (w.stations i) w.channel
        (con.stations_sound i) v e)

  gnb-Consistent :
      (i draw : ℕ) (v : Event) {t : TurnNr}
      → i < m
      → gnb_runs v draw i w ≡ ok t
      → Consistent n m (put_gnb i t w)
  gnb-Consistent i draw v {t} lt e = put_gnb-Consistent n m w con i t lt (
      GnbRuns.resume-Kept w.nru_config w.now draw i (w.gnbs i) w.channel w.start (con.gnbs_sound i)
        v w.gap e)

module _ (n m : ℕ) where
  Move-Consistent : {w w' : World} → Consistent n m w → Move n m w w' → Consistent n m w'
  unfolding start_sync_slots next_sync_slot
  Move-Consistent {w} con (station i draw v lt h ne e) = station-Consistent n m w con i draw v lt e
  Move-Consistent {w} con (station_interrupt i lt h p e) =
      relaxed n m _ (station-Consistent n m w con i 0 interrupted lt e) _ _ _
  Move-Consistent {w} con (station_preempted i lt h e) =
      station-Consistent n m w con i 0 interrupted lt e
  Move-Consistent {w} con (gnb i draw v lt h ne e) = gnb-Consistent n m w con i draw v lt e
  Move-Consistent {w} con (gnb_interrupt i lt h p e) =
      relaxed n m _ (gnb-Consistent n m w con i 0 interrupted lt e) _ _ _
  Move-Consistent {w} con (gnb_preempted i lt h e) = gnb-Consistent n m w con i 0 interrupted lt e
  Move-Consistent {w} con (station_ended i h p) = relaxed n m w con _ _ _
  Move-Consistent {w} con (gnb_ended i h p) = relaxed n m w con _ _ _
  Move-Consistent {w} con (desync i draw time lt lo hi e) = resynced n m w con i time time lt
  Move-Consistent {w} con (sync_slot i lt) = resynced n m w con i (w.gnbs i).desync _ lt
  Move-Consistent {w} con (elapse d) = relaxed n m w con _ _ _

  -- Every step of a simulation, a measurement of the controller included, keeps the books.
  Step-Consistent :
      {s t : Simulation} → Consistent n m s.world → Step n m s t → Consistent n m t.world
  Step-Consistent con (move mv) = Move-Consistent con mv
  Step-Consistent {s} con (measure k e) =
      monitor_and_adjust_keeps (Consistent n m) k (set_wifi_cw-Consistent n m k)
        (set_nru_cw-Consistent n m k) s.world con

  pub Reach-Consistent :
      {s t : Simulation} → Consistent n m s.world → Reach n m s t → Consistent n m t.world
  Reach-Consistent con here = con
  Reach-Consistent con (next r st) = Step-Consistent (Reach-Consistent con r) st

  pub new_world-Consistent :
      (gap : Bool) (cfg : Config) (cfg_nr : ConfigNr) (backoffs : ℕ → ℕ → Option ℕ)
      → Consistent n m (new_world gap n m cfg cfg_nr backoffs)
  unfolding new_world new_station new_gnb ◌+ℤ◌
  new_world-Consistent gap cfg cfg_nr backoffs = record {
    stations_sound = λ i. record {
      frame = refl;
      row = refl;
      no_packets = refl;
      no_latency = refl;
      no_count = refl;
    };
    gnbs_sound = λ i. record { transmission = tt; no_latency = refl; no_count = refl };
    succeeded = sym (sum_of-eq_zero _ n _ (λ _. refl));
    failed = sym (sum_of-eq_zero _ n _ (λ _. refl));
    bytes = omega arith;
    airtime = λ i. refl;
    succeeded_nr = sym (sum_of-eq_zero _ m _ (λ _. refl));
    failed_nr = sym (sum_of-eq_zero _ m _ (λ _. refl));
    occupied = λ i. (0, omega arith, ap pos (omega arith));
  }
