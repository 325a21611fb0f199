-- ===== src/Simulation/Lock.antt =====
-- The lock `tx_lock` of Coexistence.py, a SimPy resource of capacity 1, over the steps of a
-- simulation. SimPy grants it to one request at a time, takes it back where the `with` block of the
-- request is left, and throws interrupts in before all other events of the same time (URGENT before
-- NORMAL).
use implementing_5g_nr_u_lte.Common.{
  ℕ, ◌≡◌, Bool, true, false, Option, none, some, List, [], ◌==◌, if◌then◌else◌,
}
use implementing_5g_nr_u_lte.Data.{done}
use implementing_5g_nr_u_lte.Station
use implementing_5g_nr_u_lte.Gnb
use implementing_5g_nr_u_lte.World.{World}
use implementing_5g_nr_u_lte.Controller.{Controller, monitor_and_adjust}
use implementing_5g_nr_u_lte.Simulation.{
  Simulation, Move, station, station_interrupt, station_ended, station_preempted, gnb,
  gnb_interrupt, gnb_ended, gnb_preempted, desync, sync_slot, elapse,
}
pub mod Guards
pub mod Stations
pub mod Invariant
pub mod Exclusion
pub mod Progress
pub mod Release
pub mod Signals
pub mod SignalSteps
pub mod GnbProgress
pub mod Schedule

-- Whose request has the lock.
pub data Holder : Type 0 where
  nobody : Holder
  wifi : ℕ → Holder
  nru : ℕ → Holder

-- The process waits for the lock.
abbrev pub waits : Station.Pc → Bool
waits Station.lock_wait = true
waits Station.own_lock_wait = true
waits _ = false

abbrev pub waits_nr : Gnb.Pc → Bool
waits_nr Gnb.gap_lock_wait = true
waits_nr Gnb.busy_wait = true
waits_nr Gnb.rs_lock_wait = true
waits_nr Gnb.own_lock_wait = true
waits_nr _ = false

-- The process is suspended inside the block `with tx_lock.request()`, past its request.
abbrev pub inside : Station.Pc → Bool
inside Station.sending = true
inside Station.acking = true
inside Station.missing_ack = true
inside _ = false

abbrev pub inside_nr : Gnb.Pc → Bool
inside_nr Gnb.sending = true
inside_nr _ = false

abbrev pub Inside : World → Holder → Type 0
Inside w nobody = ⊥
Inside w (wifi i) = inside (w.stations i).pc ≡ true
Inside w (nru i) = inside_nr (w.gnbs i).pc ≡ true

-- The lock after a run of station `i` that leaves it at `pc`, or of gNB `i`.
abbrev pub released : ℕ → Station.Pc → Holder → Holder
released i pc (wifi j) = if i == j then (if inside pc then wifi j else nobody) else wifi j
released i pc h = h

abbrev pub released_nr : ℕ → Gnb.Pc → Holder → Holder
released_nr i pc (nru j) = if i == j then (if inside_nr pc then nru j else nobody) else nru j
released_nr i pc h = h

-- No interrupt is on its way.
abbrev pub Settled : World → Type 0
Settled w = (w.pending ≡ []) × (w.pending_nr ≡ [])

module _ {n m : ℕ} where
  -- When SimPy takes a step while the lock is `h`.
  abbrev pub Admits : {w w' : World} → Holder → Move n m w w' → Type 0
  Admits {w} h (station i draw v lt le ne e) =
      Settled w × (v ≡ done → waits (w.stations i).pc ≡ true → h ≡ wifi i)
  Admits {w} h (gnb i draw v lt le ne e) =
      Settled w × (v ≡ done → waits_nr (w.gnbs i).pc ≡ true → h ≡ nru i)
  Admits {w} h (elapse d) = Settled w
  Admits h _ = Unit {0}

  abbrev pub holder_after : {w w' : World} → Holder → Move n m w w' → Holder
  holder_after h (station i draw v {t} lt le ne e) = released i t.self.pc h
  holder_after h (station_interrupt i {t} lt a r e) = released i t.self.pc h
  holder_after h (station_preempted i {t} lt a e) = released i t.self.pc h
  holder_after h (gnb i draw v {t} lt le ne e) = released_nr i t.self.pc h
  holder_after h (gnb_interrupt i {t} lt a r e) = released_nr i t.self.pc h
  holder_after h (gnb_preempted i {t} lt a e) = released_nr i t.self.pc h
  holder_after h _ = h

pub record Locked : Type 0 where
  pub simulation : Simulation
  pub holder : Holder

module _ (n m : ℕ) where
  pub data LockStep (s : Locked) : Locked → Type 0 where
    take :
        {w : World} (mv : Move n m s.simulation.world w)
        → Admits s.holder mv
        → LockStep s (record {
          simulation = record (s.simulation) { world = w };
          holder = holder_after s.holder mv;
        })
    grant :
        (i : ℕ)
        → s.holder ≡ nobody
        → waits (s.simulation.world.stations i).pc ≡ true
        → LockStep s (record s { holder = wifi i })
    grant_nr :
        (i : ℕ)
        → s.holder ≡ nobody
        → waits_nr (s.simulation.world.gnbs i).pc ≡ true
        → LockStep s (record s { holder = nru i })
    check :
        (k : Controller)
        → s.simulation.controller ≡ some k
        → LockStep s (record s {
          simulation = record {
            world = (monitor_and_adjust k s.simulation.world).1;
            controller = some (monitor_and_adjust k s.simulation.world).0;
          };
        })

  pub data LockReach (s : Locked) : Locked → Type 0 where
    here : LockReach s s
    next : {t u : Locked} → LockReach s t → LockStep t u → LockReach s u
