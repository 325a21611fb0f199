-- ===== src/Simulation/Lock/Schedule.antt =====
-- States that a simulation with the lock reaches, by evaluation: the nodes run in a given order.
use native.Mathlib.Decide.{dec_lt, dec_le}
use implementing_5g_nr_u_lte.Common.{
  ℕ, ◌≤◌, ◌<◌, ◌≡◌, refl, Outcome, ok, Bool, true, false, List, [], ◌∷◌, Option, none, some, ◌==◌,
  ==→eq, ap,
}
use implementing_5g_nr_u_lte.Data.{done, Turn}
use implementing_5g_nr_u_lte.Station.{Station}
use implementing_5g_nr_u_lte.Station
use implementing_5g_nr_u_lte.Gnb
use implementing_5g_nr_u_lte.Gnb.Backoff.{TurnNr}
use implementing_5g_nr_u_lte.Simulation.{station_runs, gnb_runs, Move}
use implementing_5g_nr_u_lte.Simulation.Lock.{
  nru, waits_nr, grant_nr, Holder, nobody, wifi, waits, Locked, LockReach, here, next, take, grant,
}

pub record LockRun (n m : ℕ) (s : Locked) : Type 0 where
  pub last : Locked
  pub reach : LockReach n m s last

abbrev pub started : (n m : ℕ) (s : Locked) → LockRun n m s
started n m s = record { last = s; reach = here }

-- The guards of a run, decided.
abbrev has_lock : (b : Bool) (h : Holder) (i : ℕ) → Option (b ≡ true → h ≡ wifi i)
has_lock false h i = some (λ e. cc)
has_lock true (wifi j) i = go (j == i) refl
  where
    go : (b : Bool) → (j == i) ≡ b → Option (true ≡ true → wifi j ≡ wifi i)
    go true e = some (λ _. ap wifi (==→eq j i e))
    go false e = none
has_lock true h i = none

abbrev has_lock_nr : (b : Bool) (h : Holder) (i : ℕ) → Option (b ≡ true → h ≡ nru i)
has_lock_nr false h i = some (λ e. cc)
has_lock_nr true (nru j) i = go (j == i) refl
  where
    go : (b : Bool) → (j == i) ≡ b → Option (true ≡ true → nru j ≡ nru i)
    go true e = some (λ _. ap nru (==→eq j i e))
    go false e = none
has_lock_nr true h i = none

abbrev is_empty : (xs : List ℕ) → Option (xs ≡ [])
is_empty [] = some refl
is_empty (x ∷ xs) = none

module _ {n m : ℕ} {s : Locked} where
  -- The lock is granted to station `i`, if it is free and the station waits for it.
  granted :
      (r : LockRun n m s) (i : ℕ) (h : Holder) (b : Bool)
      → r.last.holder ≡ h
      → waits (r.last.simulation.world.stations i).pc ≡ b
      → LockRun n m s
  granted r i nobody true e p = record { last = _; reach = next r.reach (grant i e p) }
  granted r i _ _ e p = r

  station_turn :
      (r : LockRun n m s) (i draw : ℕ)
      → i < n
      → draw ≤ Station.largest_draw (r.last.simulation.world.stations i)
      → Option (r.last.simulation.world.pending ≡ [])
      → Option (r.last.simulation.world.pending_nr ≡ [])
      → Option (waits (r.last.simulation.world.stations i).pc ≡ true → r.last.holder ≡ wifi i)
      → (o : Outcome (Turn Station)) → station_runs done draw i r.last.simulation.world ≡ o
      → LockRun n m s
  station_turn r i draw lt le (some p) (some q) (some has) (ok t) e = record {
    last = _;
    reach = next r.reach (take (Move.station i draw done lt le (λ e. cc) e) ((p, q), λ _. has));
  }
  station_turn r i draw lt le _ _ _ _ e = r

  unfoldable pub station_goes : ℕ → ℕ → LockRun n m s → LockRun n m s
  unfolding granted station_turn dec_lt dec_le
  station_goes i draw r₀ =
      let r =
        granted r₀ i r₀.last.holder (waits (r₀.last.simulation.world.stations i).pc) refl refl in
      let w = r.last.simulation.world in
      elim (dec_lt i n) [
        | yes lt ↦ elim (dec_le draw (Station.largest_draw (w.stations i))) [
          | yes le ↦
              station_turn r i draw lt le (is_empty w.pending) (is_empty w.pending_nr)
                (has_lock (waits (w.stations i).pc) r.last.holder i) _ refl
          | no _ ↦ r
        ]
        | no _ ↦ r
      ]

  granted_nr :
      (r : LockRun n m s) (i : ℕ) (h : Holder) (b : Bool)
      → r.last.holder ≡ h
      → waits_nr (r.last.simulation.world.gnbs i).pc ≡ b
      → LockRun n m s
  granted_nr r i nobody true e p = record { last = _; reach = next r.reach (grant_nr i e p) }
  granted_nr r i _ _ e p = r

  gnb_turn :
      (r : LockRun n m s) (i draw : ℕ)
      → i < m
      → draw ≤ Gnb.largest_draw (r.last.simulation.world.gnbs i)
      → Option (r.last.simulation.world.pending ≡ [])
      → Option (r.last.simulation.world.pending_nr ≡ [])
      → Option (waits_nr (r.last.simulation.world.gnbs i).pc ≡ true → r.last.holder ≡ nru i)
      → (o : Outcome TurnNr) → gnb_runs done draw i r.last.simulation.world ≡ o
      → LockRun n m s
  gnb_turn r i draw lt le (some p) (some q) (some has) (ok t) e = record {
    last = _;
    reach = next r.reach (take (Move.gnb i draw done lt le (λ e. cc) e) ((p, q), λ _. has));
  }
  gnb_turn r i draw lt le _ _ _ _ e = r

  unfoldable pub gnb_goes : ℕ → ℕ → LockRun n m s → LockRun n m s
  unfolding granted_nr gnb_turn dec_lt dec_le
  gnb_goes i draw r₀ =
      let r =
        granted_nr r₀ i r₀.last.holder (waits_nr (r₀.last.simulation.world.gnbs i).pc) refl refl in
      let w = r.last.simulation.world in
      elim (dec_lt i m) [
        | yes lt ↦ elim (dec_le draw (Gnb.largest_draw (w.gnbs i))) [
          | yes le ↦
              gnb_turn r i draw lt le (is_empty w.pending) (is_empty w.pending_nr)
                (has_lock_nr (waits_nr (w.gnbs i).pc) r.last.holder i) _ refl
          | no _ ↦ r
        ]
        | no _ ↦ r
      ]
