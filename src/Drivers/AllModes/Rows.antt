-- ===== src/Drivers/AllModes/Rows.antt =====
-- The lines that the rows of run_all_modes.py are saved in.
use implementing_5g_nr_u_lte.Common.{
  ℕ, ◌≡◌, ◌≢◌, ◌⊎◌, inl, inr, refl, ap, sym, ◌∙◌, Bool, Option, none, some, List, [], ◌∷◌, ◌++◌,
  length, ltb, Files, String, is_file, exists, lines_of, append_self, append_other, differ, ◌==◌,
  if◌then◌else◌, Bool-cases, ==→eq, ==-false→ne, arith,
}
use mathlib.Core.List.{append-nil, append_assoc}
use implementing_5g_nr_u_lte.Controller.{Adjustment}
use implementing_5g_nr_u_lte.Output.Columns.{columns}
use implementing_5g_nr_u_lte.Output.{
  Cell, Line, header, row, output_csv, adjustment_csv, save_results, save_adjustments,
}
use implementing_5g_nr_u_lte.Output.Headers.{save_results-other}
use implementing_5g_nr_u_lte.Drivers.AllModes.{
  Name, wifi_only, nru_only, coexistence_gap, coexistence_rs, coexistence_adaptive,
  coexistence_optimized, Call, save,
}

abbrev pub code : Name → ℕ
code wifi_only = 0
code nru_only = 1
code coexistence_gap = 2
code coexistence_rs = 3
code coexistence_adaptive = 4
code coexistence_optimized = 5

code-injective : (x y : Name) → code x ≡ code y → x ≡ y
code-injective x y e = ground arith

-- Two names are the same, or not.
pub same_or_not : (x y : Name) → (x ≡ y) ⊎ (x ≢ y)
same_or_not x y = elim (Bool-cases (code x == code y)) [
  | inl e ↦ inl (code-injective x y (==→eq _ _ e))
  | inr e ↦ inr (λ same. ==-false→ne _ _ e (ap code same))
]

pub output_csv-ne : output_csv ≢ adjustment_csv
output_csv-ne = differ _ _ refl

module _ {Float : Type 0} where
  -- The lines that the rows of some calls are saved in: each under a header of its own, unless
  -- there is a file at `output_csv`.
  abbrev pub entry : Bool → List (Cell Float) → List (Line Float)
  entry there cells = if there then row cells ∷ [] else header columns ∷ row cells ∷ []

  abbrev pub entries : Bool → List (Call × List (Cell Float)) → List (Line Float)
  entries there [] = []
  entries there (r ∷ rs) = entry there r.1 ++ entries there rs

  -- The calls of a scenario among all calls that ended.
  abbrev pub rows_of : Name → List (Call × List (Cell Float)) → List (Call × List (Cell Float))
  rows_of x [] = []
  rows_of x (r ∷ rs) = if code r.0.scenario == code x then r ∷ rows_of x rs else rows_of x rs

  entries-append :
      (there : Bool) (rs : List (Call × List (Cell Float))) (r : Call × List (Cell Float))
      → entries there (rs ++ r ∷ []) ≡ entries there rs ++ entry there r.1
  entries-append there [] r = append-nil _
  entries-append there (q ∷ rs) r =
      ap (λ ls. entry there q.1 ++ ls) (entries-append there rs r)
      ∙ sym (append_assoc (entry there q.1) (entries there rs) (entry there r.1))

  pub rows_of_self :
      (x : Name) (rs : List (Call × List (Cell Float))) (c : Call) (cells : List (Cell Float))
      → c.scenario ≡ x
      → rows_of x (rs ++ (c, cells) ∷ []) ≡ rows_of x rs ++ (c, cells) ∷ []
  rows_of_self x [] c cells e = rw e (ground arith)
  rows_of_self x (q ∷ rs) c cells e = ground (arith, rows_of_self x rs c cells e)

  pub entries-rows_of :
      (there : Bool) (x : Name) (rs : List (Call × List (Cell Float))) (c : Call)
      (cells : List (Cell Float))
      → c.scenario ≡ x
      → entries there (rows_of x (rs ++ (c, cells) ∷ []))
        ≡ entries there (rows_of x rs) ++ entry there cells
  entries-rows_of there x rs c cells e =
      rw (rows_of_self x rs c cells e) (entries-append there (rows_of x rs) (c, cells))

  pub rows_of-other :
      (x : Name) (rs : List (Call × List (Cell Float))) (c : Call) (cells : List (Cell Float))
      → c.scenario ≢ x
      → rows_of x (rs ++ (c, cells) ∷ []) ≡ rows_of x rs
  rows_of-other x [] c cells ne = elim (Bool-cases (code c.scenario == code x)) [
    | inl e ↦ elim (ne (code-injective c.scenario x (==→eq _ _ e))) [ ]
    | inr e ↦ rw e refl
  ]
  rows_of-other x (q ∷ rs) c cells ne = ground (arith, rows_of-other x rs c cells ne)

  save_adjustments-other :
      (seed : ℕ) (history : List Adjustment) (other : String) (fs : Files (Line Float))
      → other ≢ adjustment_csv
      → save_adjustments seed history fs other ≡ fs other
  unfolding save_adjustments
  save_adjustments-other seed history other fs ne =
      elim (Bool-cases (ltb 0 (length (lines_of (fs adjustment_csv))))) [
        | inl e ↦ rw e (append_other adjustment_csv other _ fs (λ e. ne (sym e)))
        | inr e ↦ rw e (append_other adjustment_csv other _ fs (λ e. ne (sym e)))
      ]

  save_results_lines :
      (path : String) (cells : List (Cell Float)) (fs : Files (Line Float))
      → lines_of (save_results path cells fs path)
        ≡ lines_of (fs path) ++ entry (is_file output_csv fs) cells
  unfolding save_results
  save_results_lines path cells fs = elim (Bool-cases (is_file output_csv fs)) [
    | inl e ↦ rw (e, append_self path _ fs) refl
    | inr e ↦ rw (e, append_self path _ fs) refl
  ]

  pub save_lem :
      (path : String) (seed : ℕ) (history : Option (List Adjustment)) (cells : List (Cell Float))
      (fs : Files (Line Float))
      → path ≢ adjustment_csv
      → lines_of (save path seed history cells fs path)
        ≡ lines_of (fs path) ++ entry (is_file output_csv fs) cells
  unfolding save
  save_lem path seed none cells fs ne = save_results_lines path cells fs
  save_lem path seed (some history) cells fs ne =
      save_results_lines path cells (save_adjustments seed history fs)
      ∙ ap (λ o. lines_of o ++ entry (is_file output_csv (save_adjustments seed history fs)) cells)
          (save_adjustments-other seed history path fs ne)
      ∙ ap (λ o. lines_of (fs path) ++ entry (exists o) cells)
          (save_adjustments-other seed history output_csv fs output_csv-ne)

  pub save-other :
      (path other : String) (seed : ℕ) (history : Option (List Adjustment))
      (cells : List (Cell Float)) (fs : Files (Line Float))
      → path ≢ other
      → other ≢ adjustment_csv
      → save path seed history cells fs other ≡ fs other
  unfolding save
  save-other path other seed none cells fs ne na = save_results-other path other cells fs ne
  save-other path other seed (some history) cells fs ne na =
      save_results-other path other cells _ ne ∙ save_adjustments-other seed history other fs na
