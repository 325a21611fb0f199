-- ===== src/Simulation/Outcomes.antt =====
-- What holds of every simulation that `run_simulation` of Coexistence.py starts, however SimPy
-- orders its events.
use implementing_5g_nr_u_lte.Common.{ℕ, ◌+◌, ◌*◌, ◌≤◌, ◌≡◌, Bool, Option, some, arith, sum_of, ok}
use implementing_5g_nr_u_lte.Data.{Config, ConfigNr, Frame, Event}
use implementing_5g_nr_u_lte.Station.{Station}
use implementing_5g_nr_u_lte.Gnb.{Gnb}
use implementing_5g_nr_u_lte.Gnb.Runs as GnbRuns
use implementing_5g_nr_u_lte.Gnb.Backoff.{TurnNr}
use implementing_5g_nr_u_lte.World.{new_world}
use implementing_5g_nr_u_lte.Controller.{Controller}
use implementing_5g_nr_u_lte.Simulation.{Simulation, Reach, gnb_runs}
use implementing_5g_nr_u_lte.Simulation.Ledger.{Consistent, Occupied}
use implementing_5g_nr_u_lte.Simulation.Books.{Reach-Consistent, new_world-Consistent}

-- A simulation of `n` stations and `m` gNBs at its start.
abbrev pub initial :
    ℕ → ℕ → Bool → Config → ConfigNr → (ℕ → ℕ → Option ℕ) → Option Controller → Simulation
initial n m gap cfg cfg_nr backoffs k = record {
  world = new_world gap n m cfg cfg_nr backoffs;
  controller = k;
}

module _ (n m : ℕ) (gap : Bool) (cfg : Config) (cfg_nr : ConfigNr) (backoffs : ℕ → ℕ → Option ℕ)
    (k : Option Controller) {t : Simulation}
    (reached : Reach n m (initial n m gap cfg cfg_nr backoffs k) t) where
  consistent : Consistent n m t.world
  consistent = Reach-Consistent n m (new_world-Consistent n m gap cfg cfg_nr backoffs) reached

  -- In every reachable state the channel's counts of sent and of failed transmissions are the sums
  -- of those of its stations, and of its gNBs.
  pub counts_add_up :
      let w = t.world in
      (w.channel.succeeded_transmissions
        ≡ sum_of (λ (s : Station). s.succeeded_transmissions) n w.stations)
      × (w.channel.failed_transmissions
          ≡ sum_of (λ (s : Station). s.failed_transmissions) n w.stations)
      × (w.channel.succeeded_transmissions_nr
          ≡ sum_of (λ (g : Gnb). g.succeeded_transmissions) m w.gnbs)
      × (w.channel.failed_transmissions_nr ≡ sum_of (λ (g : Gnb). g.failed_transmissions) m w.gnbs)
  counts_add_up =
      (consistent.succeeded, consistent.failed, consistent.succeeded_nr, consistent.failed_nr)

  -- In every reachable state the bytes sent are the payload times the frames sent, and the airtime
  -- of a station is 5400 microseconds for each frame that it sent.
  pub airtime_adds_up :
      (i : ℕ)
      → (t.world.channel.bytes_sent
          ≡ t.world.wifi_config.data_size * t.world.channel.succeeded_transmissions)
        × (t.world.channel.airtime_data i ≡ 5400 * (t.world.stations i).succeeded_transmissions)
  airtime_adds_up i = (consistent.bytes, consistent.airtime i)

  -- In every reachable state data and reservation signals of a gNB make up whole transmissions of
  -- the configured length, at most as many as it counts as sent.
  pub occupancy_is_whole :
      (i : ℕ) → Occupied t.world.nru_config.mcot (t.world.gnbs i) t.world.channel i
  occupancy_is_whole i = consistent.occupied i

  -- In every reachable state a station that has a frame has failed at most `r_limit` times in a
  -- row, and has sent its frame again at most `r_limit` times.
  pub retries_bounded :
      (i : ℕ) {f : Frame}
      → (t.world.stations i).frame_to_send ≡ some f
      → ((t.world.stations i).failed_transmissions_in_row ≤ t.world.wifi_config.r_limit)
        × (f.number_of_retransmissions ≤ t.world.wifi_config.r_limit)
  retries_bounded i e = let h = (consistent.stations_sound i).frame in (ground arith, ground arith)

  -- The packet queues are never filled, so no node ever has a latency or a delivered packet to
  -- report.
  pub no_latency :
      (i : ℕ)
      → ((t.world.stations i).total_latency ≡ 0)
        × ((t.world.stations i).packet_count ≡ 0)
        × ((t.world.gnbs i).total_latency ≡ 0)
        × ((t.world.gnbs i).packet_count ≡ 0)
  no_latency i =
      let s = consistent.stations_sound i in
      let g = consistent.gnbs_sound i in (s.no_latency, s.no_count, g.no_latency, g.no_count)

  -- The limit of retransmissions of a gNB never takes effect: whatever run of its process counts a
  -- failure, it also counts one more failure in a row.
  pub gnb_failures_never_reset :
      (i draw : ℕ) (v : Event) {u : TurnNr}
      → gnb_runs v draw i t.world ≡ ok u
      → u.self.failed_transmissions ≡ (t.world.gnbs i).failed_transmissions + 1
      → u.self.failed_transmissions_in_row ≡ (t.world.gnbs i).failed_transmissions_in_row + 1
  gnb_failures_never_reset i draw v e h =
      (GnbRuns.resume-Kept t.world.nru_config t.world.now draw i (t.world.gnbs i) t.world.channel
          t.world.start (consistent.gnbs_sound i) v t.world.gap e).booked.row
        h
