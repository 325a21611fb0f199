-- ===== src/Simulation/Lock/Release.antt =====
-- A gNB gives the lock `tx_lock` of Coexistence.py back.
use implementing_5g_nr_u_lte.Common.{outcome_cases, ℕ, ◌≡◌, inl, inr, arith, Bool, true, Option, ok}
use implementing_5g_nr_u_lte.Data.{Config, ConfigNr, Channel, done, Event}
use implementing_5g_nr_u_lte.Controller.{Controller}
use implementing_5g_nr_u_lte.Simulation.{gnb_runs}
use implementing_5g_nr_u_lte.Gnb
use implementing_5g_nr_u_lte.Gnb.Backoff.{TurnNr}
use implementing_5g_nr_u_lte.Gnb.Waiting as GnbWaiting
use implementing_5g_nr_u_lte.Gnb.Errors as GnbErrors
use implementing_5g_nr_u_lte.Simulation.Books.{Reach-Consistent, new_world-Consistent}
use implementing_5g_nr_u_lte.Simulation.Lock.{nru, inside_nr, released_nr}
use implementing_5g_nr_u_lte.Simulation.Lock.{Locked, LockReach, nobody}
use implementing_5g_nr_u_lte.Simulation.Lock.Invariant.{LockReach-Guarded, new_world-Guarded}
use implementing_5g_nr_u_lte.Simulation.Lock.Exclusion.{unlocked, LockReach-Reach}

released_nr-free :
    (i : ℕ) (pc : Gnb.Pc) → GnbWaiting.idle pc ≡ true → released_nr i pc (nru i) ≡ nobody
released_nr-free i pc h = ground arith

inside-sending : (pc : Gnb.Pc) → inside_nr pc ≡ true → pc ≡ Gnb.sending
inside-sending pc h = ground arith

leaves_block :
    (pc : Gnb.Pc) (v : Event) (c : Channel) (u : TurnNr)
    → pc ≡ Gnb.sending
    → GnbWaiting.Effect pc v c u
    → GnbWaiting.idle u.self.pc ≡ true
leaves_block pc v c u p (GnbWaiting.quiet idle _) = idle
leaves_block pc v c u p (GnbWaiting.seizes q d l) = cc

-- A gNB with the lock, in whatever simulation it is.
module _ (n m : ℕ) (gap : Bool) (cfg : Config) (cfg_nr : ConfigNr) (backoffs : ℕ → ℕ → Option ℕ)
    (k : Option Controller) {t : Locked}
    (reached : LockReach n m (unlocked n m gap cfg cfg_nr backoffs k) t) where
  -- A gNB that is past its request for the lock goes on without an exception when its transmission
  -- time is over, and then the lock is free.
  pub gnb_gives_lock_back :
      (i draw : ℕ)
      → inside_nr (t.simulation.world.gnbs i).pc ≡ true
      → (u : TurnNr) × (gnb_runs done draw i t.simulation.world ≡ ok u)
        × (released_nr i u.self.pc t.holder ≡ nobody)
  gnb_gives_lock_back i draw into =
      let w = t.simulation.world in
      let inv = LockReach-Guarded n m (new_world-Guarded n m gap cfg cfg_nr backoffs) reached in
      let con =
        Reach-Consistent n m (new_world-Consistent n m gap cfg cfg_nr backoffs)
          (LockReach-Reach reached) in
      let p = inside-sending (w.gnbs i).pc into in
      elim (outcome_cases (gnb_runs done draw i w)) [
        | inl (u, runs) ↦ (
          u,
          runs,
          rw (inv.gnb_has i into) (
              released_nr-free i u.self.pc (
                leaves_block (w.gnbs i).pc done w.channel u p (
                  GnbWaiting.resume-Effect w.nru_config w.now draw i (w.gnbs i) w.channel w.start
                    done w.gap runs))),
        )
        | inr (e, h) ↦
            elim (GnbErrors.sending-ok w.nru_config w.now draw i (w.gnbs i) w.channel w.start w.gap
              (con.gnbs_sound i) p h) [ ]
      ]
