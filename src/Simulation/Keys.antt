-- ===== src/Simulation/Keys.antt =====
-- When a draw of Coexistence.py finds its key in the table of draws, `channel.backoffs`.
use implementing_5g_nr_u_lte.Common.{
  ℕ, ◌+◌, ◌≤◌, ◌<◌, ◌≡◌, ◌∙◌, ◌⊎◌, inl, inr, refl, arith, Bool, true, false, Bool-cases, leb,
  leb→le, leb-false→lt, Option, none, some, Outcome, Error, ◌≢◌, ok, raised, key_error,
}
use implementing_5g_nr_u_lte.Data.{Config, ConfigNr, Channel, Turn, done}
use implementing_5g_nr_u_lte.Window.{store_draw, new_backoffs}
use implementing_5g_nr_u_lte.Station.{Station}
use implementing_5g_nr_u_lte.Station
use implementing_5g_nr_u_lte.Station.Frames.{given}
use implementing_5g_nr_u_lte.Gnb.{Gnb}
use implementing_5g_nr_u_lte.Gnb
use implementing_5g_nr_u_lte.Gnb.Backoff.{TurnNr}
use implementing_5g_nr_u_lte.Controller.{Controller}
use implementing_5g_nr_u_lte.Simulation.{Simulation, station_runs, gnb_runs, Reach}
use implementing_5g_nr_u_lte.Simulation.Outcomes.{initial}
use implementing_5g_nr_u_lte.Simulation.Supply.{
  Supplied, Capped, Reach-Supplied, new_world-Supplied, new_backoffs-given,
}

settled : {A : Type 0} (o : Outcome A) → ((e : Error) → o ≢ raised e) → (u : A) × (o ≡ ok u)
settled (ok u) h = (u, refl)
settled (raised e) h = elim (h e refl) [ ]

found :
    (c : Channel) (draw : ℕ)
    → given (c.backoffs draw c.n_of_stations) ≡ true
    → (c' : Channel) × (store_draw draw c ≡ ok c')
unfolding store_draw
found c draw h = settled (store_draw draw c) (λ e r. ground (arith, h))

-- What a draw does where the table has the keys up to `table_max`, and no others.
store_draw_cases :
    (c : Channel) (n table_max draw : ℕ)
    → c.n_of_stations ≡ n
    → given (c.backoffs draw n) ≡ given (new_backoffs table_max n draw n)
    → ((draw ≤ table_max) × (c' : Channel) × (store_draw draw c ≡ ok c'))
      ⊎ ((table_max < draw) × (store_draw draw c ≡ raised key_error))
unfolding store_draw new_backoffs
store_draw_cases c n table_max draw same keys = elim (Bool-cases (leb draw table_max)) [
  | inl le ↦
      let k = leb→le _ _ le in
      let (c', e) = found c draw (rw same (keys ∙ new_backoffs-given table_max n draw k)) in
      inl (k, c', e)
  | inr gt ↦ inr (leb-false→lt _ _ gt, ground arith)
]

-- A station draws before it contends for its first frame and after each attempt to send.
abbrev pub draws : Station.Pc → Bool
draws Station.boot = true
draws (Station.sent was_sent) = true
draws _ = false

-- So does a gNB.
abbrev pub draws_nr : Gnb.Pc → Bool
draws_nr Gnb.boot = true
draws_nr (Gnb.sent was_sent) = true
draws_nr _ = false

module _ (cfg : Config) (now draw i : ℕ) (s : Station) (c : Channel) where
  station_stores :
      (pc : Station.Pc) {c' : Channel}
      → draws pc ≡ true
      → store_draw draw c ≡ ok c'
      → (u : Turn Station) × (Station.Process.run_from pc done cfg now draw i s c ≡ ok u)
  unfolding Station.Process.run_from Station.Process.next_frame Station.Process.begin_back_off
      Station.generate_new_back_off_time
  station_stores Station.boot d h = settled _ (λ e r. let k = rw h at r in cc)
  station_stores (Station.sent true) d h = settled _ (λ e r. let k = rw h at r in cc)
  station_stores (Station.sent false) d h = settled _ (λ e r. let k = rw h at r in cc)
  station_stores _ d h = cc

  station_misses :
      (pc : Station.Pc)
      → draws pc ≡ true
      → store_draw draw c ≡ raised key_error
      → Station.Process.run_from pc done cfg now draw i s c ≡ raised key_error
  unfolding Station.Process.run_from Station.Process.next_frame Station.Process.begin_back_off
      Station.generate_new_back_off_time
  station_misses Station.boot d h = rw h refl
  station_misses (Station.sent true) d h = rw h refl
  station_misses (Station.sent false) d h = rw h refl
  station_misses _ d h = cc

module _ (gap : Bool) (cfg : ConfigNr) (now draw i : ℕ) (g : Gnb) (c : Channel)
    (st : Option ℕ) where
  gnb_stores :
      (pc : Gnb.Pc) {c' : Channel}
      → draws_nr pc ≡ true
      → store_draw draw c ≡ ok c'
      → (u : TurnNr) × (Gnb.Process.run_from pc done gap cfg now draw i g c st ≡ ok u)
  unfolding Gnb.Process.run_from Gnb.Backoff.begin_back_off Gnb.generate_new_back_off_time
  gnb_stores Gnb.boot d h = settled _ (λ e r. let k = rw h at r in cc)
  gnb_stores (Gnb.sent b) d h = settled _ (λ e r. let k = rw h at r in cc)
  gnb_stores _ d h = cc

  gnb_misses :
      (pc : Gnb.Pc)
      → draws_nr pc ≡ true
      → store_draw draw c ≡ raised key_error
      → Gnb.Process.run_from pc done gap cfg now draw i g c st ≡ raised key_error
  unfolding Gnb.Process.run_from Gnb.Backoff.begin_back_off Gnb.generate_new_back_off_time
  gnb_misses Gnb.boot d h = rw h refl
  gnb_misses (Gnb.sent b) d h = rw h refl
  gnb_misses _ d h = cc

-- The largest window that the controller may set.
limit_of : Option Controller → ℕ
limit_of none = 0
limit_of (some k) = k.max_cw

limit_of-Capped : (cw_max : ℕ) (k : Option Controller) → Capped (cw_max + limit_of k) k
unfolding limit_of
limit_of-Capped cw_max none = tt
limit_of-Capped cw_max (some k) = omega arith

module _ (n m table_max : ℕ) (gap : Bool) (cfg : Config) (cfg_nr : ConfigNr) (k : Option Controller)
    {t : Simulation}
    (reached : Reach n m (initial n m gap cfg cfg_nr (new_backoffs table_max n) k) t) where
  stored :
      (draw : ℕ)
      → ((draw ≤ table_max) × (c' : Channel) × (store_draw draw t.world.channel ≡ ok c'))
        ⊎ ((table_max < draw) × (store_draw draw t.world.channel ≡ raised key_error))
  stored draw =
      let top = cfg.cw_max + limit_of k in
      let table = new_backoffs table_max n in
      let start : Supplied top n table (initial n m gap cfg cfg_nr table k).world =
        new_world-Supplied gap n m top cfg cfg_nr table (omega arith) in
      let supplied =
        (Reach-Supplied n m top table (limit_of-Capped cfg.cw_max k) start reached).1 in
      store_draw_cases t.world.channel n table_max draw supplied.n_of_stations (supplied.keys draw)

  -- In every state that a simulation with a table of draws up to `table_max` reaches, whatever the
  -- windows that the controller has set, a station that draws a back-off goes on if the draw is at
  -- most `table_max`, and its run ends in a KeyError if the draw is larger.
  pub station_draw_lem :
      (i draw : ℕ)
      → draws (t.world.stations i).pc ≡ true
      → ((draw ≤ table_max) × (u : Turn Station) × (station_runs done draw i t.world ≡ ok u))
        ⊎ ((table_max < draw) × (station_runs done draw i t.world ≡ raised key_error))
  unfolding Station.Process.resume
  station_draw_lem i draw d =
      let w = t.world in
      let s = w.stations i in
      elim (stored draw) [
        | inl (le, c', h) ↦
            let (u, runs) = station_stores w.wifi_config w.now draw i s w.channel s.pc d h in
            inl (le, u, runs)
        | inr (gt, h) ↦ inr (gt, station_misses w.wifi_config w.now draw i s w.channel s.pc d h)
      ]

  -- In every state that a simulation with a table of draws up to `table_max` reaches, in both
  -- modes and whatever the windows that the controller has set, a gNB that draws a back-off goes on
  -- if the draw is at most `table_max`, and its run ends in a KeyError if the draw is larger.
  pub gnb_draw_lem :
      (i draw : ℕ)
      → draws_nr (t.world.gnbs i).pc ≡ true
      → ((draw ≤ table_max) × (u : TurnNr) × (gnb_runs done draw i t.world ≡ ok u))
        ⊎ ((table_max < draw) × (gnb_runs done draw i t.world ≡ raised key_error))
  unfolding Gnb.Process.resume
  gnb_draw_lem i draw d =
      let w = t.world in
      let g = w.gnbs i in
      elim (stored draw) [
        | inl (le, c', h) ↦
            let (u, runs) =
              gnb_stores w.gap w.nru_config w.now draw i g w.channel w.start g.pc d h in
            inl (le, u, runs)
        | inr (gt, h) ↦
            inr (gt, gnb_misses w.gap w.nru_config w.now draw i g w.channel w.start g.pc d h)
      ]
