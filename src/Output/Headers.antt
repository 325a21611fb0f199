-- ===== src/Output/Headers.antt =====
-- Where the headers of the CSV files end up.
use implementing_5g_nr_u_lte.Common.{
  ℕ, suc, ◌+◌, ◌*◌, ◌≡◌, ◌≢◌, refl, ap, subst, arith, true, List, [], ◌∷◌, ◌++◌, map, length,
  String, Files, is_file, exists, if◌then◌else◌, append_self, append_other, lines_of, for_each,
  differ, Option, All, Bool-cases, inl, inr, ltb, lt→ltb,
}
use implementing_5g_nr_u_lte.Controller.{Adjustment}
use implementing_5g_nr_u_lte.Output.Columns.{columns}
use implementing_5g_nr_u_lte.Output.{
  Line, header, row, adjustments_header, adjustment, Cell, output_csv, adjustment_csv, default_path,
  save_adjustments, save_results,
}

-- Results at the default path leave the other file alone.
pub default_path_other : default_path ≢ output_csv
default_path_other = differ _ _ refl

module _ {Float : Type 0} where
  abbrev IsEntry : Line Float → Type 0
  IsEntry (adjustment _ _) = Unit
  IsEntry _ = ⊥

  -- A file of adjustments: nothing, or one header and the entries under it.
  abbrev pub IsHistory : List (Line Float) → Type 0
  IsHistory [] = Unit
  IsHistory (adjustments_header ∷ ls) = All IsEntry ls
  IsHistory (_ ∷ ls) = ⊥

  entries-All :
      (entry : Adjustment → Line Float)
      → ((a : Adjustment) → IsEntry (entry a))
      → (history : List Adjustment) → All IsEntry (map entry history)
  entries-All entry h [] = tt
  entries-All entry h (a ∷ rest) = (h a, entries-All entry h rest)

  All-++ : (xs ys : List (Line Float)) → All IsEntry xs → All IsEntry ys → All IsEntry (xs ++ ys)
  All-++ [] ys h k = k
  All-++ (x ∷ xs) ys h k = (h.0, All-++ xs ys h.1 k)

  -- What is appended to a file of adjustments.
  extended : (ls : List (Line Float)) (seed : ℕ) (history : List Adjustment) → List (Line Float)
  extended ls seed history =
      let entries = map (adjustment seed) history in
      if ltb 0 (length ls) then ls ++ entries else ls ++ adjustments_header ∷ entries

  extended-IsHistory :
      (ls : List (Line Float)) (seed : ℕ) (history : List Adjustment)
      → IsHistory ls
      → IsHistory (extended ls seed history)
  unfolding extended
  extended-IsHistory [] seed history h = entries-All (adjustment seed) (λ a. tt) history
  extended-IsHistory (adjustments_header ∷ ls) seed history h =
      let e : ltb 0 (suc (length ls)) ≡ true = lt→ltb 0 (suc (length ls)) (omega arith) in
      rw e (All-++ ls _ h (entries-All (adjustment seed) (λ a. tt) history))
  extended-IsHistory (header _ ∷ ls) seed history h = absurd h
  extended-IsHistory (row _ ∷ ls) seed history h = absurd h
  extended-IsHistory (adjustment _ _ ∷ ls) seed history h = absurd h

  saved :
      (seed : ℕ) (history : List Adjustment) (fs : Files (Line Float))
      → lines_of (save_adjustments seed history fs adjustment_csv)
        ≡ extended (lines_of (fs adjustment_csv)) seed history
  unfolding save_adjustments extended
  saved seed history fs = elim (Bool-cases (ltb 0 (length (lines_of (fs adjustment_csv))))) [
    | inl e ↦ rw e (ap lines_of (append_self adjustment_csv _ fs))
    | inr e ↦ rw e (ap lines_of (append_self adjustment_csv _ fs))
  ]

  -- However often adjustments are saved, their file has one header, above all entries.
  pub save_adjustments-IsHistory :
      (seed : ℕ) (history : List Adjustment) (fs : Files (Line Float))
      → IsHistory (lines_of (fs adjustment_csv))
      → IsHistory (lines_of (save_adjustments seed history fs adjustment_csv))
  save_adjustments-IsHistory seed history fs h =
      rw (saved seed history fs) (extended-IsHistory _ seed history h)

  pub count_headers : List (Line Float) → ℕ
  count_headers [] = 0
  count_headers (header _ ∷ ls) = suc (count_headers ls)
  count_headers (_ ∷ ls) = count_headers ls

  pub count_rows : List (Line Float) → ℕ
  count_rows [] = 0
  count_rows (row _ ∷ ls) = suc (count_rows ls)
  count_rows (_ ∷ ls) = count_rows ls

  count_headers-++ :
      (xs ys : List (Line Float)) → count_headers (xs ++ ys) ≡ count_headers xs + count_headers ys
  unfolding count_headers
  count_headers-++ [] ys = omega arith
  count_headers-++ (header _ ∷ xs) ys = omega (arith, count_headers-++ xs ys)
  count_headers-++ (row _ ∷ xs) ys = count_headers-++ xs ys
  count_headers-++ (adjustments_header ∷ xs) ys = count_headers-++ xs ys
  count_headers-++ (adjustment _ _ ∷ xs) ys = count_headers-++ xs ys

  count_rows-++ :
      (xs ys : List (Line Float)) → count_rows (xs ++ ys) ≡ count_rows xs + count_rows ys
  unfolding count_rows
  count_rows-++ [] ys = omega arith
  count_rows-++ (header _ ∷ xs) ys = count_rows-++ xs ys
  count_rows-++ (row _ ∷ xs) ys = omega (arith, count_rows-++ xs ys)
  count_rows-++ (adjustments_header ∷ xs) ys = count_rows-++ xs ys
  count_rows-++ (adjustment _ _ ∷ xs) ys = count_rows-++ xs ys

  -- How many headers a row brings along.
  abbrev pub headers_each : Files (Line Float) → ℕ
  headers_each fs = if is_file output_csv fs then 0 else 1

  pub save_results_lem :
      (path : String) (cells : List (Cell Float)) (fs : Files (Line Float))
      → let ls = lines_of (fs path) in
        let ls' = lines_of (save_results path cells fs path) in
        (count_rows ls' ≡ count_rows ls + 1)
        × (count_headers ls' ≡ count_headers ls + headers_each fs)
  unfolding save_results count_rows count_headers
  save_results_lem path cells fs = elim (Bool-cases (is_file output_csv fs)) [
    | inl e ↦
        rw (e, append_self path _ fs)
          (
            count_rows-++ (lines_of (fs path)) (row cells ∷ []),
            omega (arith, count_headers-++ (lines_of (fs path)) (row cells ∷ [])),
          )
    | inr e ↦
        rw (e, append_self path _ fs)
          (
            count_rows-++ (lines_of (fs path)) (header columns ∷ row cells ∷ []),
            count_headers-++ (lines_of (fs path)) (header columns ∷ row cells ∷ []),
          )
  ]

  pub save_results-other :
      (path other : String) (cells : List (Cell Float)) (fs : Files (Line Float))
      → path ≢ other
      → save_results path cells fs other ≡ fs other
  unfolding save_results
  save_results-other path other cells fs ne = elim (Bool-cases (is_file output_csv fs)) [
    | inl e ↦ rw e (append_other path other _ fs ne)
    | inr e ↦ rw e (append_other path other _ fs ne)
  ]

  -- Rows saved to another path than `output_csv` all arrive. Each brings a header along if there is
  -- no file at `output_csv`, and none does if there is one.
  pub save_results_headers :
      (path : String) (rows : List (List (Cell Float))) (fs : Files (Line Float))
      → path ≢ output_csv
      → let ls = lines_of (fs path) in
        let ls' = lines_of (for_each rows (save_results path) fs path) in
        (count_rows ls' ≡ count_rows ls + length rows)
        × (count_headers ls' ≡ count_headers ls + length rows * headers_each fs)
  unfolding for_each
  save_results_headers path [] fs ne = (omega arith, omega arith)
  save_results_headers path (r ∷ rs) fs ne =
      let fs' = save_results path r fs in
      let one = save_results_lem path r fs in
      let more = save_results_headers path rs fs' ne in
      let same : headers_each fs' ≡ headers_each fs =
        ap (λ (o : Option (List (Line Float))). let k : ℕ = if exists o then 0 else 1 in k)
          (save_results-other path output_csv r fs ne) in
      let h = one.1 in
      let m =
        subst
          (λ (k : ℕ).
            count_headers (lines_of (for_each rs (save_results path) fs' path))
            ≡ count_headers (lines_of (fs' path)) + length rs * k)
          same more.1 in
      (omega (arith, one.0, more.0), omega (arith, h, m))
