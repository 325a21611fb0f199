-- ===== src/Drivers/AllModes/Scenarios.antt =====
-- What stands in the output files of run_all_modes.py after all scenarios.
use implementing_5g_nr_u_lte.Common.{
  ◌≡◌, ◌≢◌, ◌⊎◌, inl, inr, refl, ap, sym, ◌∙◌, subst, Bool, Option, none, some, List, [], ◌∷◌, All,
  for_each, for_each_inv, Files, String, is_file, lines_of, All-map,
}
use implementing_5g_nr_u_lte.Output.Columns.{headers}
use implementing_5g_nr_u_lte.Output.{Line, header, output_csv}
use implementing_5g_nr_u_lte.Drivers.AllModes.{
  Name, Scenario, Options, Call, Configs, Ended, Driver, imported, prepared, run_scenario, set_gap,
  reset_gap, test_all_modes,
}
use implementing_5g_nr_u_lte.Drivers.AllModes.GapMode.{configurations_inv}
use implementing_5g_nr_u_lte.Drivers.AllModes.Rows.{same_or_not, entries, rows_of}
use implementing_5g_nr_u_lte.Drivers.AllModes.Tables.{
  Apart, Table, Untouched, run_once-Table, run_once-Untouched, create-fresh, create-begun,
  reset_gap-Table, created, prepared-Table,
}

module _ {Float : Type 0} (simulate : Call → Configs → Ended Float) (output_file : Name → String)
    (o : Options) (apart : Apart output_file) (there : Bool) where
  set_gap-completed :
      (v : Option Bool) (d : Driver Float)
      → (set_gap simulate output_file o v d).completed ≡ d.completed
  set_gap-completed none d = refl
  set_gap-completed (some _) d = refl

  reset_gap-completed :
      (v : Option Bool) (g : Bool) (d : Driver Float)
      → (reset_gap simulate output_file o v g d).completed ≡ d.completed
  reset_gap-completed none g d = refl
  reset_gap-completed (some _) g d = refl

  -- The file of a scenario before and after the scenario was run.
  abbrev Fresh : Name → Driver Float → Type 0
  Fresh x d =
      Table simulate output_file o apart there x [] d
      × Untouched simulate output_file o apart there x d

  abbrev Begun : Name → Driver Float → Type 0
  Begun x d = Table simulate output_file o apart there x (header headers ∷ []) d

  prepared-Begun :
      (s : Scenario) (d : Driver Float)
      → Fresh s.name d ⊎ Begun s.name d
      → Begun s.name (prepared simulate output_file o s d)
  prepared-Begun s d (inl (h, none_yet)) =
      created simulate output_file o apart there s.name s _ d h.basic (
        create-fresh simulate output_file o apart there (output_file s.name) d.files
          (h.lines ∙ ap (λ rs. entries there rs) none_yet)
        ∙ ap (λ rs. header headers ∷ entries there rs) (sym none_yet))
  prepared-Begun s d (inr h) = created simulate output_file o apart there s.name s _ d h.basic (
      create-begun simulate output_file o apart there (output_file s.name) d.files h.lines
      ∙ h.lines)

  run_scenario_self :
      (s : Scenario) (d : Driver Float)
      → Fresh s.name d ⊎ Begun s.name d
      → Begun s.name (run_scenario simulate output_file o s d)
  unfolding run_scenario
  run_scenario_self s d h =
      reset_gap-Table simulate output_file o apart there s.name _ s.gap_value d.gap _ (
        configurations_inv simulate output_file o (Begun s.name) s
          (run_once-Table simulate output_file o apart there s.name (header headers ∷ []) s) _
          (prepared-Begun s d h))

  run_scenario-other :
      (x : Name) (top : List (Line Float)) (s : Scenario) (d : Driver Float)
      → s.name ≢ x
      → Table simulate output_file o apart there x top d
      → Table simulate output_file o apart there x top (run_scenario simulate output_file o s d)
  unfolding run_scenario
  run_scenario-other x top s d ne h =
      reset_gap-Table simulate output_file o apart there x top s.gap_value d.gap _ (
        configurations_inv simulate output_file o (Table simulate output_file o apart there x top) s
          (run_once-Table simulate output_file o apart there x top s) _
          (prepared-Table simulate output_file o apart there x s top d ne h))

  run_scenario-Untouched :
      (x : Name) (s : Scenario) (d : Driver Float)
      → s.name ≢ x
      → Untouched simulate output_file o apart there x d
      → Untouched simulate output_file o apart there x (run_scenario simulate output_file o s d)
  unfolding run_scenario prepared
  run_scenario-Untouched x s d ne h =
      ap (rows_of x) (reset_gap-completed s.gap_value d.gap _)
      ∙ configurations_inv simulate output_file o (Untouched simulate output_file o apart there x) s
          (λ w b r d. run_once-Untouched simulate output_file o apart there x s w b r d ne) _
          (ap (rows_of x) (set_gap-completed s.gap_value _) ∙ h)

  run_scenario-Begun :
      (x : Name) (s : Scenario) (d : Driver Float)
      → Begun x d
      → Begun x (run_scenario simulate output_file o s d)
  run_scenario-Begun x s d h = elim (same_or_not s.name x) [
    | inl e ↦
        subst (λ x. Begun x (run_scenario simulate output_file o s d)) e
          (run_scenario_self s d (inr (subst (λ x. Begun x d) (sym e) h)))
    | inr ne ↦ run_scenario-other x _ s d ne h
  ]

  run_scenario-stage :
      (x : Name) (s : Scenario) (d : Driver Float)
      → Fresh x d ⊎ Begun x d
      → Fresh x (run_scenario simulate output_file o s d)
        ⊎ Begun x (run_scenario simulate output_file o s d)
  run_scenario-stage x s d (inr h) = inr (run_scenario-Begun x s d h)
  run_scenario-stage x s d (inl h) = elim (same_or_not s.name x) [
    | inl e ↦ inr (
        subst (λ x. Begun x (run_scenario simulate output_file o s d)) e
          (run_scenario_self s d (inl (subst (λ x. Fresh x d) (sym e) h))))
    | inr ne ↦ inl (run_scenario-other x [] s d ne h.0, run_scenario-Untouched x s d ne h.1)
  ]

  All-Begun :
      (ss : List Scenario) (d : Driver Float)
      → ((x : Name) → Fresh x d ⊎ Begun x d)
      → All
          (λ (s : Scenario). Begun s.name (for_each ss (run_scenario simulate output_file o) d))
          ss
  unfolding for_each
  All-Begun [] d h = tt
  All-Begun (s ∷ ss) d h =
      let d' = run_scenario simulate output_file o s d in
      (
        for_each_inv (Begun s.name) ss (run_scenario simulate output_file o)
            (λ s' d. run_scenario-Begun s.name s' d) d' (run_scenario_self s d (h s.name)),
        All-Begun ss d' (λ x. run_scenario-stage x s d (h x)),
      )

module _ {Float : Type 0} (simulate : Call → Configs → Ended Float) (output_file : Name → String)
    (o : Options) (apart : Apart output_file) where
  -- The output files being apart from each other and from the simulator's own, and empty or missing
  -- at first, the file of each scenario that is run has a header, and then in order the rows of the
  -- scenario's runs that did not raise: under each other if there is a file at the `output_csv` of
  -- the simulator, and each under a header of its own if there is none.
  pub test_all_modes_files :
      (gap : Bool) (ss : List Scenario) (fs : Files (Line Float))
      → ((x : Name) → lines_of (fs (output_file x)) ≡ [])
      → let d = test_all_modes simulate output_file o ss (imported gap fs) in
        All
          (λ (s : Scenario).
            lines_of (d.files (output_file s.name))
            ≡ header headers ∷ entries (is_file output_csv fs) (rows_of s.name d.completed))
          ss
  unfolding test_all_modes
  test_all_modes_files gap ss fs fresh =
      All-map _ _ (λ s h. h.lines) ss
        (All-Begun simulate output_file o apart (is_file output_csv fs) ss (imported gap fs)
          (λ x. inl (record { basic = refl; lines = fresh x }, refl)))
