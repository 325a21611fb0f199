-- ===== src/Drivers/AllModes/GapMode.antt =====
-- Which runs `test_all_modes` makes, and in which mode.
use native.Mathlib.Nat.{mul_assoc}
use implementing_5g_nr_u_lte.Common.{
  ℕ, ◌+◌, ◌*◌, ◌≡◌, refl, ap, sym, ◌∙◌, arith, Bool, Option, none, some, List, length,
  length-append, length-range_from, for_each_inv, for_each_grows, range_from, All, All-append_one,
  Files, String, Outcome, ok, raised,
}
use implementing_5g_nr_u_lte.Controller.{Adjustment}
use implementing_5g_nr_u_lte.Output.{Cell, Line}
use implementing_5g_nr_u_lte.Drivers.AllModes.{
  Scenario, Options, Call, Configs, Ended, Driver, Name, recorded, prepared, imported, wifi_range,
  gnb_range, run_once, all_runs, all_gnb_counts, run_configurations, set_gap, reset_gap,
  run_scenario, test_all_modes, total_configs,
}

module _ {Float : Type 0} (simulate : Call → Configs → Ended Float) (output_file : Name → String)
    (o : Options) where
  -- The simulator's variable has the value `g`, and so has each call.
  abbrev InMode : Bool → Driver Float → Type 0
  InMode g d = (d.simulator_gap ≡ g) × All (λ (c : Call). c.gap ≡ g) d.calls

  recorded-InMode :
      (g : Bool) (c : Call) (r : Outcome (Option (List Adjustment) × List (Cell Float)))
      (d : Driver Float)
      → InMode g d
      → InMode g (recorded simulate output_file o c r d)
  unfolding recorded
  recorded-InMode g c (raised e) d h = h
  recorded-InMode g c (ok x) d h = h

  run_once-InMode :
      (g : Bool) (s : Scenario) (w b r : ℕ) (d : Driver Float)
      → InMode g d
      → InMode g (run_once simulate output_file o s w b r d)
  unfolding run_once
  run_once-InMode g s w b r d h =
      recorded-InMode g _ _ _ (h.0, All-append_one (λ (c : Call). c.gap ≡ g) d.calls _ h.1 h.0)

  -- Whatever a single run keeps, the three loops keep.
  pub configurations_inv {ℓ} :
      (P : Driver Float → Type ℓ) (s : Scenario)
      → ((w b r : ℕ) (d : Driver Float) → P d → P (run_once simulate output_file o s w b r d))
      → (d : Driver Float) → P d
      → P (run_configurations simulate output_file o s d)
  unfolding run_configurations all_gnb_counts all_runs
  configurations_inv P s keep =
      for_each_inv P (wifi_range o s) _
        λ w. for_each_inv P (gnb_range o s) _ λ b. for_each_inv P (range_from 0 o.runs) _ (keep w b)

  set_gap-InMode :
      (g : Bool) (v : Option Bool) (d : Driver Float)
      → InMode g d
      → InMode g (set_gap simulate output_file o v d)
  set_gap-InMode g none d h = h
  set_gap-InMode g (some _) d h = h

  reset_gap-InMode :
      (g : Bool) (v : Option Bool) (b : Bool) (d : Driver Float)
      → InMode g d
      → InMode g (reset_gap simulate output_file o v b d)
  reset_gap-InMode g none b d h = h
  reset_gap-InMode g (some _) b d h = h

  run_scenario-InMode :
      (g : Bool) (s : Scenario) (d : Driver Float)
      → InMode g d
      → InMode g (run_scenario simulate output_file o s d)
  unfolding run_scenario prepared
  run_scenario-InMode g s d h =
      reset_gap-InMode g s.gap_value d.gap _
        (configurations_inv (InMode g) s (run_once-InMode g s) _ (set_gap-InMode g s.gap_value _ h))

  -- The scenarios' values of `gap` never reach the simulator: whatever the scenarios are, each call
  -- of `run_simulation` reads the value that Coexistence.py itself gives the variable.
  pub gap_value_ignored :
      (g : Bool) (ss : List Scenario) (fs : Files (Line Float))
      → All
          (λ (c : Call). c.gap ≡ g)
          (test_all_modes simulate output_file o ss (imported g fs)).calls
  unfolding test_all_modes
  gap_value_ignored g ss fs =
      (for_each_inv (InMode g) ss _ (run_scenario-InMode g) (imported g fs) (refl, tt)).1

  abbrev made : Driver Float → ℕ
  made d = length d.calls

  recorded-made :
      (c : Call) (r : Outcome (Option (List Adjustment) × List (Cell Float))) (d : Driver Float)
      → made (recorded simulate output_file o c r d) ≡ made d
  unfolding recorded
  recorded-made c (raised e) d = refl
  recorded-made c (ok x) d = refl

  run_once-made :
      (s : Scenario) (w b r : ℕ) (d : Driver Float)
      → made (run_once simulate output_file o s w b r d) ≡ made d + 1
  unfolding run_once
  run_once-made s w b r d = recorded-made _ _ _ ∙ length-append d.calls _

  all_runs-made :
      (s : Scenario) (w b : ℕ) (d : Driver Float)
      → made (all_runs simulate output_file o s w b d) ≡ made d + o.runs
  unfolding all_runs
  all_runs-made s w b d = omega (
    arith,
    for_each_grows made 1 (range_from 0 o.runs) (run_once simulate output_file o s w b)
        (run_once-made s w b) d,
    length-range_from 0 o.runs,
  )

  all_gnb_counts-made :
      (s : Scenario) (w : ℕ) (d : Driver Float)
      → made (all_gnb_counts simulate output_file o s w d)
        ≡ made d + length (gnb_range o s) * o.runs
  unfolding all_gnb_counts
  all_gnb_counts-made s w d =
      for_each_grows made o.runs (gnb_range o s) (all_runs simulate output_file o s w)
        (all_runs-made s w) d

  run_configurations-made :
      (s : Scenario) (d : Driver Float)
      → made (run_configurations simulate output_file o s d) ≡ made d + total_configs o s
  unfolding run_configurations total_configs
  run_configurations-made s d =
      for_each_grows made (length (gnb_range o s) * o.runs) (wifi_range o s)
        (all_gnb_counts simulate output_file o s) (all_gnb_counts-made s) d
      ∙ ap (λ k. made d + k)
          (sym (mul_assoc (length (wifi_range o s)) (length (gnb_range o s)) o.runs))

  set_gap-made :
      (v : Option Bool) (d : Driver Float) → made (set_gap simulate output_file o v d) ≡ made d
  set_gap-made none d = refl
  set_gap-made (some _) d = refl

  reset_gap-made :
      (v : Option Bool) (b : Bool) (d : Driver Float)
      → made (reset_gap simulate output_file o v b d) ≡ made d
  reset_gap-made none b d = refl
  reset_gap-made (some _) b d = refl

  -- A scenario makes as many calls as the progress report says.
  pub run_scenario-calls :
      (s : Scenario) (d : Driver Float)
      → length (run_scenario simulate output_file o s d).calls ≡ length d.calls + total_configs o s
  unfolding run_scenario prepared
  run_scenario-calls s d =
      reset_gap-made s.gap_value d.gap _
      ∙ run_configurations-made s (prepared simulate output_file o s d)
      ∙ ap (λ k. k + total_configs o s) (set_gap-made s.gap_value _)
