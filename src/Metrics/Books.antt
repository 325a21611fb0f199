-- ===== src/Metrics/Books.antt =====
-- What the metrics of a run mean: its books are those of the nodes in every reachable state.
use implementing_5g_nr_u_lte.Common.{
  ℕ, zero, suc, ◌+◌, ◌*◌, ◌≤◌, ◌<◌, ◌≡◌, refl, sym, ap, ◌∙◌, arith, Bool, Option, pos, pos-add,
  sum_of,
}
use implementing_5g_nr_u_lte.Data.{Config, ConfigNr, Channel}
use implementing_5g_nr_u_lte.Station.{Station}
use implementing_5g_nr_u_lte.Gnb.{Gnb}
use implementing_5g_nr_u_lte.Controller.{Controller, total_airtime}
use implementing_5g_nr_u_lte.Simulation.{Simulation, Reach}
use implementing_5g_nr_u_lte.Simulation.Ledger.{Occupied}
use implementing_5g_nr_u_lte.Simulation.Outcomes.{
  initial, counts_add_up, airtime_adds_up, occupancy_is_whole,
}
use implementing_5g_nr_u_lte.Metrics.{
  collision_probability, channel_efficiency, channel_occupancy_time_nr,
}

-- A sum over nodes of a multiple.
sum_of_scaled :
    (a n : ℕ) (f : ℕ → ℕ) (stations : ℕ → Station)
    → ((i : ℕ) → f i ≡ a * (stations i).succeeded_transmissions)
    → sum_of f n (λ i. i) ≡ a * sum_of (λ (s : Station). s.succeeded_transmissions) n stations
unfolding sum_of
sum_of_scaled a zero f stations h = omega arith
sum_of_scaled a (suc n) f stations h = omega (arith, sum_of_scaled a n f stations h, h n)

sum_of_attempts :
    (n : ℕ) (stations : ℕ → Station)
    → sum_of (λ (s : Station). s.failed_transmissions + s.succeeded_transmissions) n stations
      ≡ sum_of (λ (s : Station). s.failed_transmissions) n stations
        + sum_of (λ (s : Station). s.succeeded_transmissions) n stations
unfolding sum_of
sum_of_attempts zero stations = refl
sum_of_attempts (suc n) stations = omega (arith, sum_of_attempts n stations)

-- The occupancy of `m` gNBs of which each occupies the channel for whole transmissions.
total-Occupied :
    (mcot m : ℕ) (gnbs : ℕ → Gnb) (c : Channel)
    → ((i : ℕ) → Occupied mcot (gnbs i) c i)
    → (k : ℕ) × (k ≤ sum_of (λ (g : Gnb). g.succeeded_transmissions) m gnbs)
      × (channel_occupancy_time_nr m c ≡ pos (k * (mcot * 1000)))
unfolding sum_of channel_occupancy_time_nr total_airtime
total-Occupied mcot zero gnbs c h = (0, omega arith, ap pos (omega arith))
total-Occupied mcot (suc m) gnbs c h =
    let (k, le, e) = total-Occupied mcot m gnbs c h in
    let (j, few, own) = h m in
    (k + j, omega arith, rw (e, own) (pos-add _ _ ∙ ap pos (omega arith)))

module _ (n m : ℕ) (gap : Bool) (cfg : Config) (cfg_nr : ConfigNr) (backoffs : ℕ → ℕ → Option ℕ)
    (k : Option Controller) {t : Simulation}
    (reached : Reach n m (initial n m gap cfg cfg_nr backoffs k) t) where
  -- Whenever the run ends, the channel efficiency of Wi-Fi is 5400 microseconds for each frame
  -- sent.
  pub channel_efficiency_lem :
      channel_efficiency n t.world.channel ≡ 5400 * t.world.channel.succeeded_transmissions
  unfolding channel_efficiency
  channel_efficiency_lem =
      let sums = counts_add_up n m gap cfg cfg_nr backoffs k reached in
      let each = airtime_adds_up n m gap cfg cfg_nr backoffs k reached in
      sum_of_scaled 5400 n t.world.channel.airtime_data t.world.stations (λ i. (each i).1)
      ∙ ap (λ s. 5400 * s) (sym sums.0)

  -- Whenever the run ends, the occupancy of NR-U is that of whole transmissions, at most as many as
  -- the channel counts as sent.
  pub channel_occupancy_time_nr_lem :
      (j : ℕ) × (j ≤ t.world.channel.succeeded_transmissions_nr)
      × (channel_occupancy_time_nr m t.world.channel ≡ pos (j * (t.world.nru_config.mcot * 1000)))
  channel_occupancy_time_nr_lem =
      let sums = counts_add_up n m gap cfg cfg_nr backoffs k reached in
      let (j, le, e) =
        total-Occupied t.world.nru_config.mcot m t.world.gnbs t.world.channel
          (occupancy_is_whole n m gap cfg cfg_nr backoffs k reached) in
      (j, omega (arith, le, sums.2), e)

  -- Whenever the run ends, the probability of collision that it reports for Wi-Fi is the share of
  -- failures among the attempts of all stations, if there is a station and an attempt.
  pub collision_probability_lem :
      0 < n
      → 0 < t.world.channel.failed_transmissions + t.world.channel.succeeded_transmissions
      → let p =
          collision_probability n t.world.channel.failed_transmissions
            t.world.channel.succeeded_transmissions in
        (p.num ≡ sum_of (λ (s : Station). s.failed_transmissions) n t.world.stations)
        × (p.den
            ≡ sum_of
                (λ (s : Station). s.failed_transmissions + s.succeeded_transmissions)
                n
                t.world.stations)
  unfolding collision_probability
  collision_probability_lem h attempts =
      let sums = counts_add_up n m gap cfg cfg_nr backoffs k reached in
      let both = sum_of_attempts n t.world.stations in
      (ground (arith, sums.0, sums.1), ground (arith, sums.0, sums.1, both))
