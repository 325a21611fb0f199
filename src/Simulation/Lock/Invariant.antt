-- ===== src/Simulation/Lock/Invariant.antt =====
-- Every step of a simulation with the lock `tx_lock` of Coexistence.py keeps its invariant.
use implementing_5g_nr_u_lte.Common.{
  ℕ, ◌≤◌, ◌≡◌, ◌≢◌, sym, subst, arith, Bool, true, false, Option, some, List, ◌++◌, inl, inr,
  Bool-cases, count, count-append, count-remove_other, remove, ◌==◌, ==→eq, update,
}
use implementing_5g_nr_u_lte.Data.{Config, ConfigNr, interrupted}
use implementing_5g_nr_u_lte.Station.{Station, new_station}
use implementing_5g_nr_u_lte.Station
use implementing_5g_nr_u_lte.Gnb.{new_gnb, start_sync_slots, next_sync_slot}
use implementing_5g_nr_u_lte.World.{World, new_world, put_station, put_gnb, alive}
use implementing_5g_nr_u_lte.Controller.{Controller, set_wifi_cw, set_nru_cw}
use implementing_5g_nr_u_lte.Controller.Keeps.{monitor_and_adjust_keeps}
use implementing_5g_nr_u_lte.Simulation.{
  Move, station, station_interrupt, station_ended, station_preempted, gnb, gnb_interrupt, gnb_ended,
  gnb_preempted, desync, sync_slot, elapse,
}
use implementing_5g_nr_u_lte.Simulation.Lock.{
  Holder, nobody, inside_nr, Locked, Admits, holder_after, LockStep, take, grant, grant_nr, check,
  LockReach, here, next,
}
use implementing_5g_nr_u_lte.Simulation.Lock.Guards.{Guarded, gnb-Guarded}
use implementing_5g_nr_u_lte.Simulation.Lock.Stations.{station-Guarded}

-- The invariant reads where the nodes are, who is listed and who has an interrupt to come.
relaxed :
    (w : World) (h : Holder) (now : ℕ) (pending pending_nr : List ℕ)
    → Guarded w h
    → ((i : ℕ) → (w.stations i).pc ≡ Station.counting → count i w.pending ≤ count i pending)
    → Guarded (record w { now = now; pending = pending; pending_nr = pending_nr }) h
relaxed w h now pending pending_nr inv enough = record {
  station_has = inv.station_has;
  gnb_has = inv.gnb_has;
  listed = inv.listed;
  warned = λ k i p c. omega (arith, inv.warned k i p c, enough i c);
}

set_wifi_cw-Guarded :
    (h : Holder) (k : Controller) (cw : ℕ) (w : World)
    → Guarded w h
    → Guarded (set_wifi_cw k cw w) h
unfolding set_wifi_cw
set_wifi_cw-Guarded h k cw w inv = record {
  station_has = inv.station_has;
  gnb_has = inv.gnb_has;
  listed = inv.listed;
  warned = inv.warned;
}

set_nru_cw-Guarded :
    (h : Holder) (k : Controller) (cw : ℕ) (w : World) → Guarded w h → Guarded (set_nru_cw k cw w) h
unfolding set_nru_cw
set_nru_cw-Guarded h k cw w inv = record {
  station_has = inv.station_has;
  gnb_has = inv.gnb_has;
  listed = inv.listed;
  warned = inv.warned;
}

resynced :
    (w : World) (h : Holder) (i offset boundary : ℕ)
    → Guarded w h
    → Guarded
        (record w {
          gnbs =
              update w.gnbs i
                (record (w.gnbs i) { desync = offset; next_sync_slot_boundry = boundary });
        })
        h
resynced w h i offset boundary inv = record {
  station_has = inv.station_has;
  gnb_has = λ j into. elim (Bool-cases (i == j)) [
    | inl e ↦
        inv.gnb_has j (subst (λ j. inside_nr (w.gnbs j).pc ≡ true) (==→eq i j e) (rw e at into))
    | inr e ↦ inv.gnb_has j (rw e at into)
  ];
  listed = inv.listed;
  warned = inv.warned;
}

-- The interrupts on their way, after one was thrown in and after more were requested.
pub fewer :
    (i j : ℕ) (xs : List ℕ) {rest : List ℕ}
    → i ≢ j
    → remove i xs ≡ some rest
    → count j xs ≤ count j rest
fewer i j xs ne r = omega (arith, count-remove_other i j xs ne r)

pub more : (j : ℕ) (xs ys : List ℕ) → count j xs ≤ count j (xs ++ ys)
more j xs ys = omega (arith, count-append j xs ys)

pub requested : (j : ℕ) (xs ys : List ℕ) → count j ys ≤ count j (xs ++ ys)
requested j xs ys = omega (arith, count-append j xs ys)

-- A station that counts down is alive.
ended-ne :
    (w : World) (i j : ℕ)
    → alive (w.stations i).pc ≡ false
    → (w.stations j).pc ≡ Station.counting
    → i ≢ j
ended-ne w i j dead c e =
    let p = subst (λ j. (w.stations j).pc ≡ Station.counting) (sym e) c in
    let a = rw p at dead in cc

module _ (n m : ℕ) where
  Move-Guarded :
      {w w' : World} (h : Holder) (mv : Move n m w w')
      → Guarded w h
      → Admits h mv
      → Guarded w' (holder_after h mv)
  unfolding start_sync_slots next_sync_slot put_station put_gnb
  Move-Guarded {w} h (station i draw v lt le ne e) inv (quiet, has) =
      station-Guarded w h inv i draw v e has (λ _. quiet.0) _ _ (λ j _. more j w.pending _)
        (λ _ j. requested j w.pending _)
  Move-Guarded {w} h (station_interrupt i lt a r e) inv adm =
      station-Guarded w h inv i 0 interrupted e (λ d. cc) (λ d. cc) _ _
        (λ j ne. fewer i j w.pending ne r) (λ d. cc)
  Move-Guarded {w} h (station_ended i a r) inv adm =
      relaxed w h _ _ _ inv λ j c. fewer i j w.pending (ended-ne w i j a c) r
  Move-Guarded {w} h (station_preempted i lt a e) inv adm =
      station-Guarded w h inv i 0 interrupted e (λ d. cc) (λ d. cc) _ _ (λ j _. more j w.pending _)
        (λ d. cc)
  Move-Guarded {w} h (gnb i draw v lt le ne e) inv (quiet, has) =
      gnb-Guarded w h inv i draw v e has _ _ λ j. more j w.pending _
  Move-Guarded {w} h (gnb_interrupt i lt a r e) inv adm =
      gnb-Guarded w h inv i 0 interrupted e (λ d. cc) _ _ λ j. more j w.pending _
  Move-Guarded {w} h (gnb_ended i a r) inv adm = relaxed w h _ _ _ inv λ j c. omega arith
  Move-Guarded {w} h (gnb_preempted i lt a e) inv adm =
      gnb-Guarded w h inv i 0 interrupted e (λ d. cc) _ _ λ j. more j w.pending _
  Move-Guarded {w} h (desync i draw time lt lo hi e) inv adm = resynced w h i time time inv
  Move-Guarded {w} h (sync_slot i lt) inv adm = resynced w h i (w.gnbs i).desync _ inv
  Move-Guarded {w} h (elapse d) inv adm = relaxed w h _ _ _ inv λ j c. omega arith

  -- Nobody is past a request while nobody has the lock.
  granted : (w : World) (h h' : Holder) → h ≡ nobody → Guarded w h → Guarded w h'
  granted w h h' free inv = record {
    station_has = λ i into. let k = inv.station_has i into in cc;
    gnb_has = λ i into. let k = inv.gnb_has i into in cc;
    listed = inv.listed;
    warned = inv.warned;
  }

  LockStep-Guarded :
      {s t : Locked}
      → Guarded s.simulation.world s.holder
      → LockStep n m s t
      → Guarded t.simulation.world t.holder
  LockStep-Guarded {s} inv (take mv adm) = Move-Guarded s.holder mv inv adm
  LockStep-Guarded {s} inv (grant i free p) = granted s.simulation.world s.holder _ free inv
  LockStep-Guarded {s} inv (grant_nr i free p) = granted s.simulation.world s.holder _ free inv
  LockStep-Guarded {s} inv (check k e) =
      monitor_and_adjust_keeps (λ w. Guarded w s.holder) k (set_wifi_cw-Guarded s.holder k)
        (set_nru_cw-Guarded s.holder k) s.simulation.world inv

  pub LockReach-Guarded :
      {s t : Locked}
      → Guarded s.simulation.world s.holder
      → LockReach n m s t
      → Guarded t.simulation.world t.holder
  LockReach-Guarded inv here = inv
  LockReach-Guarded inv (next r st) = LockStep-Guarded (LockReach-Guarded inv r) st

pub new_world-Guarded :
    (n m : ℕ) (gap : Bool) (cfg : Config) (cfg_nr : ConfigNr) (backoffs : ℕ → ℕ → Option ℕ)
    → Guarded (new_world gap n m cfg cfg_nr backoffs) nobody
unfolding new_world new_station new_gnb
new_world-Guarded n m gap cfg cfg_nr backoffs = record {
  station_has = λ i into. cc;
  gnb_has = λ i into. cc;
  listed = λ i c. cc;
  warned = λ k i p c. cc;
}
