-- ===== src/Drivers/AllModes/Tables.antt =====
-- Each step of run_all_modes.py keeps the files of the scenarios in order.
use implementing_5g_nr_u_lte.Common.{
  ℕ, ◌≡◌, ◌≢◌, inl, inr, refl, ap, sym, ◌∙◌, subst, Bool, true, Option, none, some, List, [], ◌∷◌,
  ◌++◌, length, ltb, Files, String, Outcome, ok, raised, is_file, exists, lines_of, write_self,
  write_other, arith, Bool-cases, lt→ltb, suc,
}
use mathlib.Core.List.{append_assoc}
use implementing_5g_nr_u_lte.Controller.{Adjustment}
use implementing_5g_nr_u_lte.Output.Columns.{headers}
use implementing_5g_nr_u_lte.Output.{
  Cell, Line, header, output_csv, adjustment_csv, create_csv_with_header,
}
use implementing_5g_nr_u_lte.Drivers.AllModes.{
  Name, Scenario, Options, Call, Configs, Ended, Driver, save, recorded, run_once, prepared,
  set_gap, reset_gap,
}
use implementing_5g_nr_u_lte.Drivers.AllModes.Rows.{
  same_or_not, entry, entries, rows_of, entries-rows_of, rows_of-other, save_lem, save-other,
  output_csv-ne,
}

-- The output files are different files, and none is a file that the simulator has of its own.
pub record Apart (output_file : Name → String) : Type 0 where
  pub each : (x y : Name) → x ≢ y → output_file x ≢ output_file y
  pub results : (x : Name) → output_file x ≢ output_csv
  pub adjustments : (x : Name) → output_file x ≢ adjustment_csv

module _ {Float : Type 0} (simulate : Call → Configs → Ended Float) (output_file : Name → String)
    (o : Options) (apart : Apart output_file) (there : Bool) where
  -- There is a file at `output_csv` or not, and under `top` the file of `x` has what was saved for
  -- it.
  pub record Table (x : Name) (top : List (Line Float)) (d : Driver Float) : Type 0 where
    pub basic : is_file output_csv d.files ≡ there
    pub lines : lines_of (d.files (output_file x)) ≡ top ++ entries there (rows_of x d.completed)

  recorded-Table :
      (x : Name) (top : List (Line Float)) (c : Call)
      (r : Outcome (Option (List Adjustment) × List (Cell Float))) (d : Driver Float)
      → Table x top d
      → Table x top (recorded simulate output_file o c r d)
  unfolding recorded
  recorded-Table x top c (raised e) d h = h
  recorded-Table x top c (ok (history, cells)) d h = record {
    basic =
        ap exists (
          save-other (output_file c.scenario) output_csv c.seed history cells d.files
            (apart.results c.scenario) output_csv-ne)
        ∙ h.basic;
    lines = elim (same_or_not c.scenario x) [
      | inl e ↦
          let saved =
            subst
              (λ y.
                lines_of (save (output_file y) c.seed history cells d.files (output_file x))
                ≡ lines_of (d.files (output_file x)) ++ entry (is_file output_csv d.files) cells)
              (sym e)
              (save_lem (output_file x) c.seed history cells d.files (apart.adjustments x)) in
          saved
          ∙ ap (λ b. lines_of (d.files (output_file x)) ++ entry b cells) h.basic
          ∙ ap (λ ls. ls ++ entry there cells) h.lines
          ∙ append_assoc top (entries there (rows_of x d.completed)) (entry there cells)
          ∙ ap (λ ls. top ++ ls) (sym (entries-rows_of there x d.completed c cells e))
      | inr ne ↦
          ap lines_of (
            save-other (output_file c.scenario) (output_file x) c.seed history cells d.files
              (apart.each c.scenario x ne) (apart.adjustments x))
          ∙ h.lines
          ∙ ap (λ rs. top ++ entries there rs) (sym (rows_of-other x d.completed c cells ne))
    ];
  }

  -- Nothing was saved for `x` so far.
  abbrev pub Untouched : Name → Driver Float → Type 0
  Untouched x d = rows_of x d.completed ≡ []

  recorded-Untouched :
      (x : Name) (c : Call) (r : Outcome (Option (List Adjustment) × List (Cell Float)))
      (d : Driver Float)
      → c.scenario ≢ x
      → Untouched x d
      → Untouched x (recorded simulate output_file o c r d)
  unfolding recorded
  recorded-Untouched x c (raised e) d ne h = h
  recorded-Untouched x c (ok (history, cells)) d ne h = rows_of-other x d.completed c cells ne ∙ h

  pub run_once-Untouched :
      (x : Name) (s : Scenario) (w b r : ℕ) (d : Driver Float)
      → s.name ≢ x
      → Untouched x d
      → Untouched x (run_once simulate output_file o s w b r d)
  unfolding run_once
  run_once-Untouched x s w b r d ne h = recorded-Untouched x _ _ _ ne h

  pub run_once-Table :
      (x : Name) (top : List (Line Float)) (s : Scenario) (w b r : ℕ) (d : Driver Float)
      → Table x top d
      → Table x top (run_once simulate output_file o s w b r d)
  unfolding run_once
  run_once-Table x top s w b r d h =
      recorded-Table x top _ _ _ (record { basic = h.basic; lines = h.lines })

  create-other :
      (path other : String) (fs : Files (Line Float))
      → path ≢ other
      → create_csv_with_header path fs other ≡ fs other
  unfolding create_csv_with_header
  create-other path other fs ne = elim (Bool-cases (ltb 0 (length (lines_of (fs path))))) [
    | inl e ↦ rw e refl
    | inr e ↦ rw e (write_other path other _ fs ne)
  ]

  pub create-fresh :
      (path : String) (fs : Files (Line Float))
      → lines_of (fs path) ≡ []
      → lines_of (create_csv_with_header path fs path) ≡ header headers ∷ []
  unfolding create_csv_with_header
  create-fresh path fs e = rw e (ap lines_of (write_self path _ fs))

  pub create-begun :
      (path : String) (fs : Files (Line Float)) {rest : List (Line Float)}
      → lines_of (fs path) ≡ header headers ∷ rest
      → lines_of (create_csv_with_header path fs path) ≡ lines_of (fs path)
  unfolding create_csv_with_header
  create-begun path fs {rest} e =
      let some_line : ltb 0 (length (lines_of (fs path))) ≡ true =
        rw e (lt→ltb 0 (suc (length rest)) (omega arith)) in
      rw some_line refl

  -- The variable `gap` is not about files.
  pub set_gap-Table :
      (x : Name) (top : List (Line Float)) (v : Option Bool) (d : Driver Float)
      → Table x top d
      → Table x top (set_gap simulate output_file o v d)
  set_gap-Table x top none d h = h
  set_gap-Table x top (some g) d h = record { basic = h.basic; lines = h.lines }

  pub reset_gap-Table :
      (x : Name) (top : List (Line Float)) (v : Option Bool) (g : Bool) (d : Driver Float)
      → Table x top d
      → Table x top (reset_gap simulate output_file o v g d)
  reset_gap-Table x top none g d h = h
  reset_gap-Table x top (some _) g d h = record { basic = h.basic; lines = h.lines }

  pub created :
      (x : Name) (s : Scenario) (top : List (Line Float)) (d : Driver Float)
      → is_file output_csv d.files ≡ there
      → lines_of (create_csv_with_header (output_file s.name) d.files (output_file x))
        ≡ top ++ entries there (rows_of x d.completed)
      → Table x top (prepared simulate output_file o s d)
  unfolding prepared
  created x s top d basic lines = set_gap-Table x top s.gap_value _ (record {
    basic =
        ap exists (create-other (output_file s.name) output_csv d.files (apart.results s.name))
        ∙ basic;
    lines = lines;
  })

  pub prepared-Table :
      (x : Name) (s : Scenario) (top : List (Line Float)) (d : Driver Float)
      → s.name ≢ x
      → Table x top d
      → Table x top (prepared simulate output_file o s d)
  prepared-Table x s top d ne h = created x s top d h.basic (
      ap lines_of
        (create-other (output_file s.name) (output_file x) d.files (apart.each s.name x ne))
      ∙ h.lines)
