-- ===== src/Simulation/Lock/Progress.antt =====
-- The stations of a simulation go on: no run of theirs raises, and the lock comes back.
use implementing_5g_nr_u_lte.Common.{
  ◌∙◌, outcome_cases, ℕ, ◌≤◌, ◌<◌, ◌≡◌, ◌≢◌, inl, inr, refl, arith, Bool, true, false, Option, ok,
  raised, Error, not_delivered, ℤ, if◌then◌else◌,
}
use implementing_5g_nr_u_lte.Data.{Config, ConfigNr, Channel, done, Event, Turn}
use implementing_5g_nr_u_lte.Window.{new_backoffs}
use implementing_5g_nr_u_lte.Window.Bounds.{upper_limit-le}
use implementing_5g_nr_u_lte.Station.{Station, largest_draw}
use implementing_5g_nr_u_lte.Station
use implementing_5g_nr_u_lte.Station.Frames.{given}
use implementing_5g_nr_u_lte.Station.Errors as Errors
use implementing_5g_nr_u_lte.Station.Process.{request_of, timeout}
use implementing_5g_nr_u_lte.Station.Waiting as StationWaiting
use implementing_5g_nr_u_lte.Station.Waiting.{quiet, joins, leaves, seizes, answers}
use implementing_5g_nr_u_lte.Controller.{Controller}
use implementing_5g_nr_u_lte.Simulation.{station_runs}
use implementing_5g_nr_u_lte.Simulation.Supply.{
  Supplied, Capped, Reach-Supplied, new_world-Supplied, new_backoffs-given,
}
use implementing_5g_nr_u_lte.Simulation.Lock.{Locked, LockReach, nobody, wifi, inside, released}
use implementing_5g_nr_u_lte.Simulation.Lock.Guards.{Guarded}
use implementing_5g_nr_u_lte.Simulation.Lock.Invariant.{LockReach-Guarded, new_world-Guarded}
use implementing_5g_nr_u_lte.Simulation.Lock.Exclusion.{unlocked, LockReach-Reach}

-- How many more events a station waits for before it leaves the block of the lock.
abbrev pub waits_left : Station.Pc → ℕ
waits_left Station.sending = 2
waits_left Station.acking = 1
waits_left Station.missing_ack = 1
waits_left _ = 0

idle-waits_left : (pc : Station.Pc) → StationWaiting.idle pc ≡ true → waits_left pc ≡ 0
idle-waits_left pc h = ground arith

inside-timeout :
    (s : Station) (pc : Station.Pc)
    → inside pc ≡ true
    → (delay : ℤ) × (request_of s pc ≡ timeout delay)
unfolding request_of
inside-timeout s Station.sending h = (_, refl)
inside-timeout s Station.acking h = (_, refl)
inside-timeout s Station.missing_ack h = (_, refl)
inside-timeout s _ h = cc

inside-waits_left : (pc : Station.Pc) → inside pc ≡ true → 1 ≤ waits_left pc
inside-waits_left pc h = ground arith

answer-waits_left : (b : Bool) → waits_left (if b then Station.acking else Station.missing_ack) ≡ 1
answer-waits_left true = refl
answer-waits_left false = refl

waits_left-falls :
    (i : ℕ) (pc : Station.Pc) (v : Event) (c : Channel) (u : Turn Station)
    → StationWaiting.Effect i pc v c u
    → inside pc ≡ true
    → waits_left u.self.pc < waits_left pc
waits_left-falls i pc v c u eff into = elim eff [
  | quiet idle _ ↦ omega (arith, idle-waits_left _ idle, inside-waits_left pc into)
  | joins p _ _ _ ↦ let k = rw p at into in cc
  | leaves idle _ ↦ omega (arith, idle-waits_left _ idle, inside-waits_left pc into)
  | seizes p _ _ _ _ ↦ let k = rw p at into in cc
  | answers p _ b q _ ↦ rw (p, q, answer-waits_left b) (omega arith)
]

released-free :
    (i : ℕ) (pc : Station.Pc) → released i pc (wifi i) ≡ (if inside pc then wifi i else nobody)
released-free i pc = ground arith

module _ (n m top : ℕ) (gap : Bool) (cfg : Config) (cfg_nr : ConfigNr) (k : Option Controller)
    (limit : cfg.cw_max ≤ top) (cap : Capped top k) {t : Locked}
    (reached : LockReach n m (unlocked n m gap cfg cfg_nr (new_backoffs top n) k) t) where
  supplied : Supplied top n (new_backoffs top n) t.simulation.world
  supplied =
      (Reach-Supplied n m top (new_backoffs top n) cap
        (new_world-Supplied gap n m top cfg cfg_nr (new_backoffs top n) limit)
        (LockReach-Reach reached)).1

  guarded : Guarded t.simulation.world t.holder
  guarded =
      LockReach-Guarded n m (new_world-Guarded n m gap cfg cfg_nr (new_backoffs top n)) reached

  stored :
      (i draw : ℕ)
      → draw ≤ largest_draw (t.simulation.world.stations i)
      → given (t.simulation.world.channel.backoffs draw n) ≡ true
  unfolding largest_draw
  stored i draw le =
      let s = t.simulation.world.stations i in
      supplied.keys draw
      ∙ (new_backoffs-given top n draw (
          omega (
            arith,
            le,
            upper_limit-le s.cw_min s.cw_max s.failed_transmissions_in_row,
            supplied.cw_max i,
          )))

  raises_only :
      (i draw : ℕ) (v : Event) {e : Error}
      → draw ≤ largest_draw (t.simulation.world.stations i)
      → station_runs v draw i t.simulation.world ≡ raised e
      → (e ≡ not_delivered) × (v ≢ done)
  raises_only i draw v le h =
      let w = t.simulation.world in
      elim (Errors.resume-Expected w.wifi_config w.now draw i (w.stations i) w.channel v
        (supplied.ready i) (guarded.listed i) h) [
          | inl (_, miss) ↦
              let gone = rw supplied.n_of_stations at miss in let here = stored i draw le in cc
          | inr late ↦ late
        ]

  -- Where the table of draws covers the windows of the stations and those that the controller, if
  -- there is one, may set, every station that a simulation reaches goes on without an exception
  -- when what it waits for happens, whatever it draws from its window.
  pub station_goes_on :
      (i draw : ℕ)
      → draw ≤ largest_draw (t.simulation.world.stations i)
      → (u : Turn Station) × (station_runs done draw i t.simulation.world ≡ ok u)
  station_goes_on i draw le = elim (outcome_cases (station_runs done draw i t.simulation.world)) [
    | inl fine ↦ fine
    | inr (e, h) ↦ elim ((raises_only i draw done le h).1 refl) [ ]
  ]

  -- Where the table of draws covers the windows of the stations and those that the controller may
  -- set, a station that is past its request for the lock waits for a timeout, never for another
  -- node; when it is over, the station goes on without an exception, has fewer of at most two
  -- timeouts left, and the lock is free unless one is left.
  pub lock_given_back :
      (i : ℕ)
      → inside (t.simulation.world.stations i).pc ≡ true
      → let s = t.simulation.world.stations i in
        (delay : ℤ) × (request_of s s.pc ≡ timeout delay)
        × (u : Turn Station) × (station_runs done 0 i t.simulation.world ≡ ok u)
        × (waits_left u.self.pc < waits_left s.pc)
        × (released i u.self.pc t.holder ≡ (if inside u.self.pc then wifi i else nobody))
  lock_given_back i into =
      let w = t.simulation.world in
      let (delay, waits) = inside-timeout (w.stations i) (w.stations i).pc into in
      let (u, runs) = station_goes_on i 0 (omega arith) in
      (
        delay,
        waits,
        u,
        runs,
        waits_left-falls i (w.stations i).pc done w.channel u
            (StationWaiting.resume-Effect w.wifi_config w.now 0 i (w.stations i) w.channel done
              runs)
            into,
        rw (guarded.station_has i into) (released-free i u.self.pc),
      )
