-- ===== src/Drivers/Matrix/Plots.antt =====
-- Where the results of the matrix go, and what the plots find.
use implementing_5g_nr_u_lte.Common.{
  ℕ, ◌+◌, ◌*◌, ◌≡◌, ◌≢◌, refl, sym, ap, ◌∙◌, arith, true, List, [], length, length-range_from,
  Outcome, ok, raised, empty_data_error, String, Option, some, write, write_self, write_other,
  lines_of, try_each, range_from,
}
use implementing_5g_nr_u_lte.Output.{Cell, Line, default_path}
use implementing_5g_nr_u_lte.Output.Headers.{count_rows}
use implementing_5g_nr_u_lte.Drivers.Runs.{Run, Progress, run_simulation}
use implementing_5g_nr_u_lte.Drivers.Runs.Counting.{
  NeverRaises, rows, Kept, run_simulation-Kept, try_each-Kept,
}
use implementing_5g_nr_u_lte.Drivers.NodeCounts.{Options, run_of}
use implementing_5g_nr_u_lte.Drivers.Matrix.HeatMaps.{Frames, visualize_results}
use implementing_5g_nr_u_lte.Drivers.Matrix.{run_matrix, run_coexistence_matrix}

module _ {Float : Type 0} (simulate : Run → Outcome (List (Cell Float)))
    (fine : NeverRaises simulate) (o : Options) (output : String) (ne : default_path ≢ output)
    (p : Progress Float) where
  abbrev cleared : Progress Float
  cleared = record p { files = write output [] p.files }

  loop_Kept :
      (wifi_count gnb_count : ℕ) (q : Progress Float)
      → Kept output cleared q
      → (r : Progress Float) × (try_each
            (range_from 0 o.runs)
            (λ run. run_simulation simulate (run_of o wifi_count gnb_count run))
            q
          ≡ ok r)
        × Kept output cleared r
        × (length r.runs ≡ length q.runs + o.runs)
  loop_Kept wifi_count gnb_count =
      let k : length (range_from 0 o.runs) * 1 ≡ o.runs =
        omega (arith, length-range_from 0 o.runs) in
      rw k at (
        try_each-Kept simulate fine output ne cleared (range_from 0 o.runs)
          (λ run. run_simulation simulate (run_of o wifi_count gnb_count run)) 1
          (λ run.
            run_simulation-Kept simulate fine output ne cleared
              (run_of o wifi_count gnb_count run)))

  -- If no simulation raises and the output file is not the default one, the loops end, with all
  -- rows in the file at the default path and none in the output file.
  pub run_matrix-rows :
      (q : Progress Float) × (run_matrix simulate o output p ≡ ok q)
      × (q.files output ≡ some [])
      × (rows q ≡ rows p + 25 * o.runs)
      × (length q.runs ≡ length p.runs + 25 * o.runs)
  unfolding run_matrix
  run_matrix-rows =
      let five = length-range_from 1 5 in
      let (q, e, h, n) =
        try_each-Kept simulate fine output ne cleared (range_from 1 5) _ _
          (λ w.
            try_each-Kept simulate fine output ne cleared (range_from 1 5) _ o.runs (loop_Kept w))
          cleared (record { file = refl; together = refl }) in
      let n' = rw five at n in
      let kept : rows cleared ≡ rows p =
        ap (λ (o : Option (List (Line Float))). count_rows (lines_of o))
          (write_other output default_path [] p.files (λ e. ne (sym e))) in
      (
        q,
        e,
        h.file ∙ write_self output [] p.files,
        omega (arith, h.together, n', kept),
        omega (arith, n'),
      )

  module _ {Table Grid Series Row : Type 0} (frames : Frames Float Table Grid Series Row)
      (empty_file : frames.read_csv [] ≡ raised empty_data_error) where
    -- Where pandas raises for an empty file, as it is documented to do, no simulation raises and
    -- the output file is not the default one, the command with its plots ends in the exception of
    -- pandas, whatever results the simulations give.
    pub run_coexistence_matrix_fails :
        run_coexistence_matrix simulate frames o output true p ≡ raised empty_data_error
    unfolding run_coexistence_matrix visualize_results
    run_coexistence_matrix_fails =
        let (q, e, file, _, _) = run_matrix-rows in rw (e, file) (rw empty_file refl)
