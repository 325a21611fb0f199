-- ===== src/Simulation/Schedule.antt =====
-- Reachable states by evaluation: the processes run in a given order.
use native.Mathlib.Decide.{dec_lt, dec_le}
use implementing_5g_nr_u_lte.Common.{ℕ, ◌≤◌, ◌<◌, ◌≡◌, ◌≢◌, refl, Outcome, ok, raised}
use implementing_5g_nr_u_lte.Data.{Event, done, interrupted, Turn}
use implementing_5g_nr_u_lte.Station.{Station}
use implementing_5g_nr_u_lte.Station
use implementing_5g_nr_u_lte.Gnb
use implementing_5g_nr_u_lte.Gnb.Backoff.{TurnNr}
use implementing_5g_nr_u_lte.World.{World}
use implementing_5g_nr_u_lte.Simulation.{
  Simulation, station_runs, gnb_runs, Move, move, Reach, here, next,
}

pub record Run (n m : ℕ) (s : Simulation) : Type 0 where
  pub last : Simulation
  pub reach : Reach n m s last

abbrev pub started : (n m : ℕ) (s : Simulation) → Run n m s
started n m s = record { last = s; reach = here }

module _ {n m : ℕ} {s : Simulation} where
  step : (r : Run n m s) {w : World} → Move n m r.last.world w → Run n m s
  step r mv = record { last = record (r.last) { world = _ }; reach = next r.reach (move mv) }

  station_turn :
      (r : Run n m s) (i draw : ℕ) (v : Event)
      → v ≢ interrupted
      → i < n
      → draw ≤ Station.largest_draw (r.last.world.stations i)
      → (o : Outcome (Turn Station)) → station_runs v draw i r.last.world ≡ o
      → Run n m s
  station_turn r i draw v ne lt le (raised _) e = r
  station_turn r i draw v ne lt le (ok t) e = step r (Move.station i draw v lt le ne e)

  gnb_turn :
      (r : Run n m s) (i draw : ℕ) (v : Event)
      → v ≢ interrupted
      → i < m
      → draw ≤ Gnb.largest_draw (r.last.world.gnbs i)
      → (o : Outcome TurnNr) → gnb_runs v draw i r.last.world ≡ o
      → Run n m s
  gnb_turn r i draw v ne lt le (raised _) e = r
  gnb_turn r i draw v ne lt le (ok t) e = step r (Move.gnb i draw v lt le ne e)

  -- The awaited event of station `i`, or of gNB `i`, happens; what cannot run is passed over.
  unfoldable pub station_goes : ℕ → ℕ → Run n m s → Run n m s
  unfolding step station_turn dec_lt dec_le
  station_goes i draw r = elim (dec_lt i n) [
    | yes lt ↦ elim (dec_le draw (Station.largest_draw (r.last.world.stations i))) [
      | yes le ↦ station_turn r i draw done (λ e. cc) lt le _ refl
      | no _ ↦ r
    ]
    | no _ ↦ r
  ]

  unfoldable pub gnb_goes : ℕ → ℕ → Run n m s → Run n m s
  unfolding step gnb_turn dec_lt dec_le
  gnb_goes i draw r = elim (dec_lt i m) [
    | yes lt ↦ elim (dec_le draw (Gnb.largest_draw (r.last.world.gnbs i))) [
      | yes le ↦ gnb_turn r i draw done (λ e. cc) lt le _ refl
      | no _ ↦ r
    ]
    | no _ ↦ r
  ]

  -- Time goes by.
  unfoldable pub time_goes : ℕ → Run n m s → Run n m s
  unfolding step
  time_goes d r = step r (Move.elapse d)
