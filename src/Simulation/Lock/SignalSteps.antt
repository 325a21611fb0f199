-- ===== src/Simulation/Lock/SignalSteps.antt =====
-- Every step of a simulation with the lock and without `gap` keeps the invariant of the gNBs.
use implementing_5g_nr_u_lte.Common.{
  ℕ, ◌≤◌, ◌≡◌, ◌≢◌, refl, sym, ◌∙◌, subst, arith, false, Option, List, ok, count, update, inl, inr,
  ◌==◌, ==→eq, Bool-cases,
}
use implementing_5g_nr_u_lte.Data.{Config, ConfigNr, Event, interrupted, Turn}
use implementing_5g_nr_u_lte.Station.{Station}
use implementing_5g_nr_u_lte.Station.Frames as Frames
use implementing_5g_nr_u_lte.Gnb.{Gnb, new_gnb, start_sync_slots, next_sync_slot}
use implementing_5g_nr_u_lte.Gnb
use implementing_5g_nr_u_lte.Gnb.Contending.{HasStart}
use implementing_5g_nr_u_lte.World.{World, new_world, put_station, put_gnb, alive_nr}
use implementing_5g_nr_u_lte.Controller.{Controller, set_wifi_cw, set_nru_cw}
use implementing_5g_nr_u_lte.Controller.Keeps.{monitor_and_adjust_keeps}
use implementing_5g_nr_u_lte.Simulation.{
  Move, station, station_interrupt, station_ended, station_preempted, gnb, gnb_interrupt, gnb_ended,
  gnb_preempted, desync, sync_slot, elapse, station_runs,
}
use implementing_5g_nr_u_lte.Simulation.Ledger.{update_all}
use implementing_5g_nr_u_lte.Simulation.Supply.{Supplied, Capped, Reach-Supplied}
use implementing_5g_nr_u_lte.Simulation.Lock.{
  Holder, Locked, Admits, LockStep, take, grant, grant_nr, check, LockReach, here, next,
}
use implementing_5g_nr_u_lte.Simulation.Lock.Guards.{Guarded}
use implementing_5g_nr_u_lte.Simulation.Lock.Invariant.{LockReach-Guarded, fewer, more, requested}
use implementing_5g_nr_u_lte.Simulation.Lock.Exclusion.{LockReach-Reach}
use implementing_5g_nr_u_lte.Simulation.Lock.Signals.{Signalling, gnb-Signalling}

module _ (top : ℕ) (w : World) (inv : Signalling top w) where
  -- The invariant reads the gNBs, who of them is listed, and who has an interrupt to come.
  relaxed :
      (now : ℕ) (pending pending_nr : List ℕ)
      → ((i : ℕ) → (w.gnbs i).pc ≡ Gnb.rs_counting → count i w.pending_nr ≤ count i pending_nr)
      → Signalling top (record w { now = now; pending = pending; pending_nr = pending_nr })
  relaxed now pending pending_nr enough = record {
    mode = inv.mode;
    points = inv.points;
    cw_max = inv.cw_max;
    listed = inv.listed;
    warned = λ k i p c. omega (arith, inv.warned k i p c, enough i c);
    has_start = inv.has_start;
  }

  -- A run of a station leaves the list of gNBs alone.
  station-Signalling :
      (i draw : ℕ) (v : Event) {t : Turn Station} (pending pending_nr : List ℕ)
      → Frames.Ready (w.stations i)
      → station_runs v draw i w ≡ ok t
      → ((j : ℕ) → count j w.pending_nr ≤ count j pending_nr)
      → Signalling top (record (put_station i t w) { pending = pending; pending_nr = pending_nr })
  unfolding put_station
  station-Signalling i draw v pending pending_nr ready e kept =
      let st = Frames.resume-Stable w.wifi_config w.now draw i (w.stations i) w.channel v ready e in
      record {
        mode = inv.mode;
        points = inv.points;
        cw_max = inv.cw_max;
        listed = λ j c. rw st.back_off_list_nr (inv.listed j c);
        warned = λ k j p c. omega (arith, inv.warned k j p c, kept j);
        has_start = inv.has_start;
      }

  -- A gNB that has neither moved nor changed its window.
  module _ (i : ℕ) (g' : Gnb) (same_pc : g'.pc ≡ (w.gnbs i).pc)
      (same_max : g'.cw_max ≡ (w.gnbs i).cw_max)
      (same_start : g'.first_interrupt ≡ (w.gnbs i).first_interrupt) where
    here_before : (j : ℕ) → (update w.gnbs i g' j).pc ≡ (w.gnbs j).pc
    here_before j = elim (Bool-cases (i == j)) [
      | inl e ↦ rw (e, same_pc, ==→eq i j e) refl
      | inr e ↦ rw e refl
    ]

    resynced : Signalling top (record w { gnbs = update w.gnbs i g' })
    resynced = record {
      mode = inv.mode;
      points = λ j. rw (here_before j) (inv.points j);
      cw_max =
          update_all (λ (g : Gnb). g.cw_max ≤ top) w.gnbs i g' inv.cw_max
            (rw same_max (inv.cw_max i));
      listed = λ j c. inv.listed j (sym (here_before j) ∙ c);
      warned = λ k j p c. inv.warned k j (sym (here_before k) ∙ p) (sym (here_before j) ∙ c);
      has_start =
          update_all (λ (g : Gnb). HasStart g w.start) w.gnbs i g' inv.has_start
            (λ f. inv.has_start i (sym same_start ∙ f));
    }

  set_wifi_cw-Signalling : (k : Controller) (cw : ℕ) → Signalling top (set_wifi_cw k cw w)
  unfolding set_wifi_cw
  set_wifi_cw-Signalling k cw = record {
    mode = inv.mode;
    points = inv.points;
    cw_max = inv.cw_max;
    listed = inv.listed;
    warned = inv.warned;
    has_start = inv.has_start;
  }

  set_nru_cw-Signalling :
      (k : Controller) → k.max_cw ≤ top → (cw : ℕ) → Signalling top (set_nru_cw k cw w)
  unfolding set_nru_cw
  set_nru_cw-Signalling k le cw = record {
    mode = inv.mode;
    points = inv.points;
    cw_max = λ i. omega arith;
    listed = inv.listed;
    warned = inv.warned;
    has_start = inv.has_start;
  }

-- A gNB that counts down is alive.
ended-ne :
    (w : World) (i j : ℕ) → alive_nr (w.gnbs i).pc ≡ false → (w.gnbs j).pc ≡ Gnb.rs_counting → i ≢ j
ended-ne w i j dead c e =
    let p = subst (λ j. (w.gnbs j).pc ≡ Gnb.rs_counting) (sym e) c in let a = rw p at dead in cc

module _ (n m top : ℕ) (table : ℕ → ℕ → Option ℕ) where
  Move-Signalling :
      {w w' : World} (h : Holder) (mv : Move n m w w')
      → Guarded w h
      → Supplied top n table w
      → Signalling top w
      → Admits h mv
      → Signalling top w'
  unfolding start_sync_slots next_sync_slot put_station put_gnb
  Move-Signalling {w} h (station i draw v lt le ne e) g s inv adm =
      station-Signalling top w inv i draw v _ _ (s.ready i) e λ j. more j w.pending_nr _
  Move-Signalling {w} h (station_interrupt i lt a r e) g s inv adm =
      station-Signalling top w inv i 0 interrupted _ _ (s.ready i) e λ j. more j w.pending_nr _
  Move-Signalling {w} h (station_ended i a r) g s inv adm =
      relaxed top w inv _ _ _ λ j c. omega arith
  Move-Signalling {w} h (station_preempted i lt a e) g s inv adm =
      station-Signalling top w inv i 0 interrupted _ _ (s.ready i) e λ j. more j w.pending_nr _
  Move-Signalling {w} h (gnb i draw v lt le ne e) g s inv (quiet, has) =
      gnb-Signalling top w h g inv i draw v e has (λ _. quiet.1) _ _ (λ j _. more j w.pending_nr _)
        (λ _ j. requested j w.pending_nr _)
  Move-Signalling {w} h (gnb_interrupt i lt a r e) g s inv adm =
      gnb-Signalling top w h g inv i 0 interrupted e (λ d. cc) (λ d. cc) _ _
        (λ j ne. fewer i j w.pending_nr ne r) (λ d. cc)
  Move-Signalling {w} h (gnb_ended i a r) g s inv adm =
      relaxed top w inv _ _ _ λ j c. fewer i j w.pending_nr (ended-ne w i j a c) r
  Move-Signalling {w} h (gnb_preempted i lt a e) g s inv adm =
      gnb-Signalling top w h g inv i 0 interrupted e (λ d. cc) (λ d. cc) _ _
        (λ j _. more j w.pending_nr _) (λ d. cc)
  Move-Signalling {w} h (desync i draw time lt lo hi e) g s inv adm =
      resynced top w inv i _ refl refl refl
  Move-Signalling {w} h (sync_slot i lt) g s inv adm = resynced top w inv i _ refl refl refl
  Move-Signalling {w} h (elapse d) g s inv adm = relaxed top w inv _ _ _ λ j c. omega arith

  LockStep-Signalling :
      {s t : Locked}
      → Capped top s.simulation.controller
      → Guarded s.simulation.world s.holder
      → Supplied top n table s.simulation.world
      → Signalling top s.simulation.world
      → LockStep n m s t
      → Signalling top t.simulation.world
  LockStep-Signalling {s} cap g sup inv (take mv adm) = Move-Signalling s.holder mv g sup inv adm
  LockStep-Signalling cap g sup inv (grant i free p) = inv
  LockStep-Signalling cap g sup inv (grant_nr i free p) = inv
  LockStep-Signalling {s} cap g sup inv (check k e) =
      let le : k.max_cw ≤ top = rw e at cap in
      monitor_and_adjust_keeps (Signalling top) k
        (λ cw w inv. set_wifi_cw-Signalling top w inv k cw)
        (λ cw w inv. set_nru_cw-Signalling top w inv k le cw) s.simulation.world inv

  pub LockReach-Signalling :
      {s t : Locked}
      → Capped top s.simulation.controller
      → Guarded s.simulation.world s.holder
      → Supplied top n table s.simulation.world
      → Signalling top s.simulation.world
      → LockReach n m s t
      → Signalling top t.simulation.world
  LockReach-Signalling cap g sup inv here = inv
  LockReach-Signalling cap g sup inv (next r st) =
      let (cap', sup') = Reach-Supplied n m top table cap sup (LockReach-Reach r) in
      LockStep-Signalling cap' (LockReach-Guarded n m g r) sup'
        (LockReach-Signalling cap g sup inv r) st

pub new_world-Signalling :
    (n m top : ℕ) (cfg : Config) (cfg_nr : ConfigNr) (backoffs : ℕ → ℕ → Option ℕ)
    → cfg_nr.cw_max ≤ top
    → Signalling top (new_world false n m cfg cfg_nr backoffs)
unfolding new_world new_gnb
new_world-Signalling n m top cfg cfg_nr backoffs le = record {
  mode = refl;
  points = λ i. refl;
  cw_max = λ i. le;
  listed = λ i c. cc;
  warned = λ k i p c. cc;
  has_start = λ i f. cc;
}
