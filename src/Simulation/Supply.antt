-- ===== src/Simulation/Supply.antt =====
-- Where the table of draws covers all windows that may be set, a simulation never misses a key.
use implementing_5g_nr_u_lte.Common.{
  List, arith, if_intro, ◌-ℤ◌, subst, ℕ, ◌≤◌, ◌≡◌, refl, ◌∙◌, Bool, true, Option, none, some, ok,
}
use implementing_5g_nr_u_lte.Data.{Channel, Config, ConfigNr, Turn, Event, interrupted}
use implementing_5g_nr_u_lte.Window.{new_backoffs}
use implementing_5g_nr_u_lte.Station.{Station, new_station}
use implementing_5g_nr_u_lte.Station.Frames.{given, Ready}
use implementing_5g_nr_u_lte.Station.Frames as Frames
use implementing_5g_nr_u_lte.Gnb.{Gnb}
use implementing_5g_nr_u_lte.Gnb.Backoff.{TurnNr}
use implementing_5g_nr_u_lte.Gnb.Waiting as GnbWaiting
use implementing_5g_nr_u_lte.World.{World, new_world, put_station, put_gnb}
use implementing_5g_nr_u_lte.Controller.{
  Controller, monitor_and_adjust, adjust_if_unfair, adjust_contention_windows, set_wifi_cw,
  set_nru_cw, unfair, wifi_total, nru_total,
}
use implementing_5g_nr_u_lte.Controller.Keeps.{monitor_and_adjust_keeps}
use implementing_5g_nr_u_lte.Simulation.{
  Simulation, Move, station, station_interrupt, station_ended, station_preempted, gnb,
  gnb_interrupt, gnb_ended, gnb_preempted, desync, sync_slot, elapse, station_runs, gnb_runs, move,
  measure, Reach, here, next,
}
use implementing_5g_nr_u_lte.Simulation.Ledger.{update_all}

-- Every station past its start has a frame, windows are capped at `top`, and the keys are those of
-- `table`.
pub record Supplied (top n : ℕ) (table : ℕ → ℕ → Option ℕ) (w : World) : Type 0 where
  pub ready : (i : ℕ) → Ready (w.stations i)
  pub cw_max : (i : ℕ) → (w.stations i).cw_max ≤ top
  pub n_of_stations : w.channel.n_of_stations ≡ n
  pub keys : (d : ℕ) → given (w.channel.backoffs d n) ≡ given (table d n)

module _ (top n : ℕ) (table : ℕ → ℕ → Option ℕ) (w : World) (inv : Supplied top n table w) where
  still_keys :
      (c' : Channel)
      → ((d : ℕ)
          → given (c'.backoffs d w.channel.n_of_stations)
            ≡ given (w.channel.backoffs d w.channel.n_of_stations))
      → (d : ℕ) → given (c'.backoffs d n) ≡ given (table d n)
  still_keys c' kept d =
      subst (λ x. given (c'.backoffs d x) ≡ given (w.channel.backoffs d x)) inv.n_of_stations
        (kept d)
      ∙ inv.keys d

  station-Supplied :
      (i draw : ℕ) (v : Event) {t : Turn Station}
      → station_runs v draw i w ≡ ok t
      → Supplied top n table (put_station i t w)
  unfolding put_station
  station-Supplied i draw v {t} e =
      let st =
        Frames.resume-Stable w.wifi_config w.now draw i (w.stations i) w.channel v (inv.ready i)
          e in
      record {
        ready = update_all Ready w.stations i t.self inv.ready (λ _. st.frame);
        cw_max =
            update_all (λ (s : Station). s.cw_max ≤ top) w.stations i t.self inv.cw_max
              (rw st.cw_max (inv.cw_max i));
        n_of_stations = st.n_of_stations ∙ inv.n_of_stations;
        keys = still_keys t.channel st.keys;
      }

  gnb-Supplied :
      (i draw : ℕ) (v : Event) {t : TurnNr}
      → gnb_runs v draw i w ≡ ok t
      → Supplied top n table (put_gnb i t w)
  unfolding put_gnb
  gnb-Supplied i draw v {t} e =
      let st = GnbWaiting.spares (
        GnbWaiting.resume-Effect w.nru_config w.now draw i (w.gnbs i) w.channel w.start v w.gap
          e) in
      record {
        ready = inv.ready;
        cw_max = inv.cw_max;
        n_of_stations = st.n_of_stations ∙ inv.n_of_stations;
        keys = still_keys t.channel st.keys;
      }

  -- The rest of the world does not count.
  relaxed :
      (now : ℕ) (gnbs : ℕ → Gnb) (pending pending_nr : List ℕ)
      → Supplied top n table
          (record w { now = now; gnbs = gnbs; pending = pending; pending_nr = pending_nr })
  relaxed now gnbs pending pending_nr = record {
    ready = inv.ready;
    cw_max = inv.cw_max;
    n_of_stations = inv.n_of_stations;
    keys = inv.keys;
  }

module _ (n m top : ℕ) (table : ℕ → ℕ → Option ℕ) where
  Move-Supplied : {w w' : World} → Supplied top n table w → Move n m w w' → Supplied top n table w'
  Move-Supplied {w} inv (station i draw v lt le ne e) =
      station-Supplied top n table w inv i draw v e
  Move-Supplied {w} inv (station_interrupt i lt a r e) =
      relaxed top n table _ (station-Supplied top n table w inv i 0 interrupted e) _ _ _ _
  Move-Supplied {w} inv (station_ended i a r) = relaxed top n table w inv _ _ _ _
  Move-Supplied {w} inv (station_preempted i lt a e) =
      station-Supplied top n table w inv i 0 interrupted e
  Move-Supplied {w} inv (gnb i draw v lt le ne e) = gnb-Supplied top n table w inv i draw v e
  Move-Supplied {w} inv (gnb_interrupt i lt a r e) =
      relaxed top n table _ (gnb-Supplied top n table w inv i 0 interrupted e) _ _ _ _
  Move-Supplied {w} inv (gnb_ended i a r) = relaxed top n table w inv _ _ _ _
  Move-Supplied {w} inv (gnb_preempted i lt a e) = gnb-Supplied top n table w inv i 0 interrupted e
  Move-Supplied {w} inv (desync i draw time lt lo hi e) = relaxed top n table w inv _ _ _ _
  Move-Supplied {w} inv (sync_slot i lt) = relaxed top n table w inv _ _ _ _
  Move-Supplied {w} inv (elapse d) = relaxed top n table w inv _ _ _ _

module _ (top n : ℕ) (table : ℕ → ℕ → Option ℕ) (k : Controller) where
  set_wifi_cw-Supplied :
      k.max_cw ≤ top
      → (cw : ℕ) (w : World) → Supplied top n table w
      → Supplied top n table (set_wifi_cw k cw w)
  unfolding set_wifi_cw
  set_wifi_cw-Supplied le cw w inv = record {
    ready = inv.ready;
    cw_max = λ i. omega arith;
    n_of_stations = inv.n_of_stations;
    keys = inv.keys;
  }

  set_nru_cw-Supplied :
      (cw : ℕ) (w : World) → Supplied top n table w → Supplied top n table (set_nru_cw k cw w)
  unfolding set_nru_cw
  set_nru_cw-Supplied cw w inv = record {
    ready = inv.ready;
    cw_max = inv.cw_max;
    n_of_stations = inv.n_of_stations;
    keys = inv.keys;
  }

max_cw-kept : (k : Controller) (w : World) → (monitor_and_adjust k w).0.max_cw ≡ k.max_cw
unfolding monitor_and_adjust adjust_if_unfair adjust_contention_windows
max_cw-kept k w =
    if_intro (λ (r : Controller × World). r.0.max_cw ≡ k.max_cw)
      (unfair k (wifi_total w -ℤ k.last_wifi_airtime) (nru_total w -ℤ k.last_nru_airtime)) refl refl

-- The controller, if there is one, has a limit of at most `top`.
abbrev pub Capped : ℕ → Option Controller → Type 0
Capped top none = Unit {0}
Capped top (some k) = k.max_cw ≤ top

module _ (n m top : ℕ) (table : ℕ → ℕ → Option ℕ) where
  pub Reach-Supplied :
      {s t : Simulation}
      → Capped top s.controller
      → Supplied top n table s.world
      → Reach n m s t
      → Capped top t.controller × Supplied top n table t.world
  Reach-Supplied cap inv here = (cap, inv)
  Reach-Supplied cap inv (next r (move mv)) =
      let (c, i) = Reach-Supplied cap inv r in (c, Move-Supplied n m top table i mv)
  Reach-Supplied cap inv (next {t = t} r (measure k e)) =
      let (c, i) = Reach-Supplied cap inv r in
      let le : k.max_cw ≤ top = rw e at c in
      (
        rw (max_cw-kept k t.world) le,
        monitor_and_adjust_keeps (Supplied top n table) k (set_wifi_cw-Supplied top n table k le)
            (set_nru_cw-Supplied top n table k) t.world i,
      )

pub new_world-Supplied :
    (gap : Bool) (n m top : ℕ) (cfg : Config) (cfg_nr : ConfigNr) (backoffs : ℕ → ℕ → Option ℕ)
    → cfg.cw_max ≤ top
    → Supplied top n backoffs (new_world gap n m cfg cfg_nr backoffs)
unfolding new_world new_station
new_world-Supplied gap n m top cfg cfg_nr backoffs le = record {
  ready = λ i ne. elim (ne refl) [ ];
  cw_max = λ i. le;
  n_of_stations = refl;
  keys = λ d. refl;
}

-- The table of `run_all_modes.py` has the keys up to its limit.
pub new_backoffs-given : (top n d : ℕ) → d ≤ top → given (new_backoffs top n d n) ≡ true
unfolding new_backoffs
new_backoffs-given top n d le = ground arith
