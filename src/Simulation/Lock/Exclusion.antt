-- ===== src/Simulation/Lock/Exclusion.antt =====
-- What the lock `tx_lock` ensures in every simulation that `run_simulation` of Coexistence.py
-- starts.
use implementing_5g_nr_u_lte.Common.{ℕ, ◌≡◌, sym, ◌∙◌, Option, Bool}
use implementing_5g_nr_u_lte.Data.{Config, ConfigNr}
use implementing_5g_nr_u_lte.Controller.{Controller}
use implementing_5g_nr_u_lte.Simulation.{Simulation, Reach, station_runs, move, measure}
use implementing_5g_nr_u_lte.Simulation
use implementing_5g_nr_u_lte.Simulation.Lock.{
  Holder, nobody, wifi, nru, Inside, Locked, take, grant, grant_nr, check, LockReach, here, next,
}
use implementing_5g_nr_u_lte.Simulation.Lock.Guards.{Guarded}
use implementing_5g_nr_u_lte.Simulation.Lock.Invariant.{LockReach-Guarded, new_world-Guarded}
use implementing_5g_nr_u_lte.Simulation.Outcomes.{initial}

-- A simulation at its start: the lock is free.
abbrev pub unlocked :
    ℕ → ℕ → Bool → Config → ConfigNr → (ℕ → ℕ → Option ℕ) → Option Controller → Locked
unlocked n m gap cfg cfg_nr backoffs k = record {
  simulation = initial n m gap cfg cfg_nr backoffs k;
  holder = nobody;
}

-- A simulation with the lock is one without: what holds of those holds of it.
pub LockReach-Reach :
    {n m : ℕ} {s t : Locked} → LockReach n m s t → Reach n m s.simulation t.simulation
LockReach-Reach here = Simulation.here
LockReach-Reach (next r (take mv adm)) = Simulation.next (LockReach-Reach r) (move mv)
LockReach-Reach (next r (grant i free p)) = LockReach-Reach r
LockReach-Reach (next r (grant_nr i free p)) = LockReach-Reach r
LockReach-Reach (next r (check k e)) = Simulation.next (LockReach-Reach r) (measure k e)

module _ (n m : ℕ) (gap : Bool) (cfg : Config) (cfg_nr : ConfigNr) (backoffs : ℕ → ℕ → Option ℕ)
    (k : Option Controller) {t : Locked}
    (reached : LockReach n m (unlocked n m gap cfg cfg_nr backoffs k) t) where
  guarded : Guarded t.simulation.world t.holder
  guarded = LockReach-Guarded n m (new_world-Guarded n m gap cfg cfg_nr backoffs) reached

  Inside-holder : (a : Holder) → Inside t.simulation.world a → t.holder ≡ a
  Inside-holder nobody into = elim into [ ]
  Inside-holder (wifi i) into = guarded.station_has i into
  Inside-holder (nru i) into = guarded.gnb_has i into

  -- In every state that a simulation reaches while SimPy grants the lock to one request at a time,
  -- at most one node, station or gNB, is between its own request for the lock and the end of that
  -- block.
  pub one_transmitter :
      (a b : Holder) → Inside t.simulation.world a → Inside t.simulation.world b → a ≡ b
  one_transmitter a b p q = sym (Inside-holder a p) ∙ Inside-holder b q
