-- ===== src/Simulation/GapProgress.antt =====
-- The gNBs of a simulation in the gap mode: when their runs raise.
use implementing_5g_nr_u_lte.Common.{
  ◌∙◌, outcome_cases, ℕ, ◌<◌, ◌≤◌, ◌≡◌, ◌⊎◌, inl, inr, refl, subst, arith, true, Option, ok, raised,
  value_error, count, update,
}
use implementing_5g_nr_u_lte.Data.{Config, ConfigNr, done, Event, interrupted}
use implementing_5g_nr_u_lte.Window.{new_backoffs}
use implementing_5g_nr_u_lte.Window.Bounds.{upper_limit-le}
use implementing_5g_nr_u_lte.Station.Frames.{given}
use implementing_5g_nr_u_lte.Gnb.{Gnb, new_gnb, largest_draw, start_sync_slots, next_sync_slot}
use implementing_5g_nr_u_lte.Gnb
use implementing_5g_nr_u_lte.Gnb.Backoff.{TurnNr}
use implementing_5g_nr_u_lte.Gnb.Process.{resume}
use implementing_5g_nr_u_lte.Gnb.GapMode.{gaps, resume-Keeps, resume-Raises}
use implementing_5g_nr_u_lte.World.{World, new_world, put_station, put_gnb}
use implementing_5g_nr_u_lte.Controller.{Controller, set_wifi_cw, set_nru_cw}
use implementing_5g_nr_u_lte.Controller.Keeps.{monitor_and_adjust_keeps}
use implementing_5g_nr_u_lte.Simulation.{
  Simulation, Move, station, station_interrupt, station_ended, station_preempted, gnb,
  gnb_interrupt, gnb_ended, gnb_preempted, desync, sync_slot, elapse, gnb_runs, Reach, here, next,
  move, measure,
}
use implementing_5g_nr_u_lte.Simulation.Ledger.{update_all}
use implementing_5g_nr_u_lte.Simulation.Books.{Reach-Consistent, new_world-Consistent}
use implementing_5g_nr_u_lte.Simulation.Outcomes.{initial}
use implementing_5g_nr_u_lte.Simulation.Supply.{
  Supplied, Capped, Reach-Supplied, new_world-Supplied, new_backoffs-given,
}

-- In the gap mode, with slots that last and windows capped at `top`.
record Gapped (top : ℕ) (w : World) : Type 0 where
  pub mode : w.gap ≡ true
  pub slots : 0 < w.nru_config.synchronization_slot_duration
  pub points : (i : ℕ) → gaps (w.gnbs i).pc ≡ true
  pub cw_max : (i : ℕ) → (w.gnbs i).cw_max ≤ top

module _ (top : ℕ) (w : World) (inv : Gapped top w) where
  -- The rest of the world does not count.
  with_gnb :
      (i : ℕ) (g' : Gnb) (w' : World)
      → w'.gap ≡ w.gap
      → w'.nru_config.synchronization_slot_duration ≡ w.nru_config.synchronization_slot_duration
      → w'.gnbs ≡ update w.gnbs i g'
      → gaps g'.pc ≡ true
      → g'.cw_max ≡ (w.gnbs i).cw_max
      → Gapped top w'
  with_gnb i g' w' mode slots gnbs point max = record {
    mode = rw mode inv.mode;
    slots = rw slots inv.slots;
    points = rw gnbs (update_all (λ (g : Gnb). gaps g.pc ≡ true) w.gnbs i g' inv.points point);
    cw_max =
        rw gnbs
          (update_all (λ (g : Gnb). g.cw_max ≤ top) w.gnbs i g' inv.cw_max (rw max (inv.cw_max i)));
  }

  same_gnbs :
      (w' : World)
      → w'.gap ≡ w.gap
      → w'.nru_config ≡ w.nru_config
      → w'.gnbs ≡ w.gnbs
      → Gapped top w'
  same_gnbs w' mode config gnbs = record {
    mode = rw mode inv.mode;
    slots = rw config inv.slots;
    points = rw gnbs inv.points;
    cw_max = rw gnbs inv.cw_max;
  }

  gnb-Keeps :
      (i draw : ℕ) (v : Event) {t : TurnNr}
      → gnb_runs v draw i w ≡ ok t
      → (gaps t.self.pc ≡ true) × (t.self.cw_max ≡ (w.gnbs i).cw_max)
  gnb-Keeps i draw v {t} e =
      resume-Keeps w.nru_config w.now draw i (w.gnbs i) w.channel w.start v (inv.points i) (
        subst (λ gap. resume v gap w.nru_config w.now draw i (w.gnbs i) w.channel w.start ≡ ok t)
          inv.mode e)

  set_wifi_cw-Gapped : (k : Controller) (cw : ℕ) → Gapped top (set_wifi_cw k cw w)
  unfolding set_wifi_cw
  set_wifi_cw-Gapped k cw = same_gnbs _ refl refl refl

  set_nru_cw-Gapped : (k : Controller) → k.max_cw ≤ top → (cw : ℕ) → Gapped top (set_nru_cw k cw w)
  unfolding set_nru_cw
  set_nru_cw-Gapped k le cw = record {
    mode = inv.mode;
    slots = inv.slots;
    points = inv.points;
    cw_max = λ i. omega arith;
  }

module _ (n m top : ℕ) where
  Move-Gapped : {w w' : World} → Gapped top w → Move n m w w' → Gapped top w'
  unfolding start_sync_slots next_sync_slot put_station put_gnb
  Move-Gapped {w} inv (station i draw v lt le ne e) = same_gnbs top w inv _ refl refl refl
  Move-Gapped {w} inv (station_interrupt i lt a r e) = same_gnbs top w inv _ refl refl refl
  Move-Gapped {w} inv (station_ended i a r) = same_gnbs top w inv _ refl refl refl
  Move-Gapped {w} inv (station_preempted i lt a e) = same_gnbs top w inv _ refl refl refl
  Move-Gapped {w} inv (gnb i draw v lt le ne e) =
      let (p, c) = gnb-Keeps top w inv i draw v e in with_gnb top w inv i _ _ refl refl refl p c
  Move-Gapped {w} inv (gnb_interrupt i lt a r e) =
      let (p, c) = gnb-Keeps top w inv i 0 interrupted e in
      with_gnb top w inv i _ _ refl refl refl p c
  Move-Gapped {w} inv (gnb_ended i a r) = same_gnbs top w inv _ refl refl refl
  Move-Gapped {w} inv (gnb_preempted i lt a e) =
      let (p, c) = gnb-Keeps top w inv i 0 interrupted e in
      with_gnb top w inv i _ _ refl refl refl p c
  Move-Gapped {w} inv (desync i draw time lt lo hi e) =
      with_gnb top w inv i _ _ refl refl refl (inv.points i) refl
  Move-Gapped {w} inv (sync_slot i lt) = with_gnb top w inv i _ _ refl refl refl (inv.points i) refl
  Move-Gapped {w} inv (elapse d) = same_gnbs top w inv _ refl refl refl

  Reach-Gapped :
      (table : ℕ → ℕ → Option ℕ) {s t : Simulation}
      → Capped top s.controller
      → Supplied top n table s.world
      → Gapped top s.world
      → Reach n m s t
      → Gapped top t.world
  Reach-Gapped table cap sup inv here = inv
  Reach-Gapped table cap sup inv (next r (move mv)) =
      Move-Gapped (Reach-Gapped table cap sup inv r) mv
  Reach-Gapped table cap sup inv (next {t = t} r (measure k e)) =
      let (cap', _) = Reach-Supplied n m top table cap sup r in
      let le : k.max_cw ≤ top = rw e at cap' in
      monitor_and_adjust_keeps (Gapped top) k (λ cw w inv. set_wifi_cw-Gapped top w inv k cw)
        (λ cw w inv. set_nru_cw-Gapped top w inv k le cw) t.world (Reach-Gapped table cap sup inv r)

new_world-Gapped :
    (n m top : ℕ) (cfg : Config) (cfg_nr : ConfigNr) (backoffs : ℕ → ℕ → Option ℕ)
    → 0 < cfg_nr.synchronization_slot_duration
    → cfg_nr.cw_max ≤ top
    → Gapped top (new_world true n m cfg cfg_nr backoffs)
unfolding new_world new_gnb
new_world-Gapped n m top cfg cfg_nr backoffs last le = record {
  mode = refl;
  slots = last;
  points = λ i. refl;
  cw_max = λ i. le;
}

module _ (n m top : ℕ) (cfg : Config) (cfg_nr : ConfigNr) (k : Option Controller)
    (limit : cfg.cw_max ≤ top) (limit_nr : cfg_nr.cw_max ≤ top)
    (last : 0 < cfg_nr.synchronization_slot_duration) (cap : Capped top k) {t : Simulation}
    (reached : Reach n m (initial n m true cfg cfg_nr (new_backoffs top n) k) t) where
  start-Supplied :
      Supplied top n (new_backoffs top n) (new_world true n m cfg cfg_nr (new_backoffs top n))
  start-Supplied = new_world-Supplied true n m top cfg cfg_nr (new_backoffs top n) limit

  supplied : Supplied top n (new_backoffs top n) t.world
  supplied = (Reach-Supplied n m top (new_backoffs top n) cap start-Supplied reached).1

  gapped : Gapped top t.world
  gapped =
      Reach-Gapped n m top (new_backoffs top n) cap start-Supplied
        (new_world-Gapped n m top cfg cfg_nr (new_backoffs top n) last limit_nr) reached

  stored :
      (i draw : ℕ)
      → draw ≤ largest_draw (t.world.gnbs i)
      → given (t.world.channel.backoffs draw n) ≡ true
  unfolding largest_draw
  stored i draw le =
      let g = t.world.gnbs i in
      supplied.keys draw
      ∙ (new_backoffs-given top n draw (
          omega (
            arith,
            le,
            upper_limit-le g.cw_min g.cw_max g.failed_transmissions_in_row,
            gapped.cw_max i,
          )))

  -- In the gap mode, where slots last and the table of draws covers the windows of the nodes and
  -- those that the controller, if there is one, may set, a gNB that a simulation reaches goes on
  -- when what it waits for happens, whatever it draws from its window, but in one case: it has
  -- counted its back-off down and is not in the list of gNBs that do, which is a ValueError.
  pub gap_gnb_goes_on :
      (i draw : ℕ)
      → draw ≤ largest_draw (t.world.gnbs i)
      → ((u : TurnNr) × (gnb_runs done draw i t.world ≡ ok u))
        ⊎ ((gnb_runs done draw i t.world ≡ raised value_error)
            × ((t.world.gnbs i).pc ≡ Gnb.gap_counting)
            × (count i t.world.channel.back_off_list_nr ≡ 0))
  gap_gnb_goes_on i draw le =
      let w = t.world in
      let con =
        Reach-Consistent n m (new_world-Consistent n m true cfg cfg_nr (new_backoffs top n))
          reached in
      elim (outcome_cases (gnb_runs done draw i w)) [
        | inl fine ↦ inl fine
        | inr (e, h) ↦
            elim (resume-Raises w.nru_config w.now draw i (w.gnbs i) w.channel w.start done
              (gapped.points i) (con.gnbs_sound i) gapped.slots
              (subst
                (λ gap.
                  resume done gap w.nru_config w.now draw i (w.gnbs i) w.channel w.start ≡ raised e)
                gapped.mode h)) [
                  | inl (inl (_, miss)) ↦
                      let gone = rw supplied.n_of_stations at miss in
                      let there = stored i draw le in cc
                  | inl (inr (_, late)) ↦ elim (late refl) [ ]
                  | inr (v, p, z) ↦ inr (rw (← v) h, p, z)
                ]
      ]
