-- ===== src/Drivers/Runs/Counting.antt =====
-- Loops of runs: none raises if no simulation does, and each run leaves a row.
use implementing_5g_nr_u_lte.Common.{
  ℕ, ◌+◌, ◌*◌, ◌≡◌, ◌≢◌, refl, ◌∙◌, arith, List, [], ◌∷◌, ◌++◌, length, length-append, Outcome, ok,
  lines_of, String, try_each, try_each_grows,
}
use implementing_5g_nr_u_lte.Output.{Cell, save_results, default_path, output_csv}
use implementing_5g_nr_u_lte.Output.Headers.{
  count_rows, save_results_lem, save_results-other, default_path_other,
}
use implementing_5g_nr_u_lte.Drivers.Runs.{Run, Progress, run_simulation}

-- No simulation raises.
abbrev pub NeverRaises : {Float : Type 0} → (Run → Outcome (List (Cell Float))) → Type 0
NeverRaises {Float} simulate = (r : Run) → (cells : List (Cell Float)) × (simulate r ≡ ok cells)

-- The rows of results, and the runs made: they move together.
abbrev pub rows : {Float : Type 0} → Progress Float → ℕ
rows p = count_rows (lines_of (p.files default_path))

-- What was so of `p` about the difference of rows and runs, and about another file, is so of `q`.
pub record Kept {Float : Type 0} (other : String) (p q : Progress Float) : Type 0 where
  pub file : q.files other ≡ p.files other
  pub together : rows q + length p.runs ≡ rows p + length q.runs

module _ {Float : Type 0} (simulate : Run → Outcome (List (Cell Float)))
    (fine : NeverRaises simulate) (other : String) (ne : default_path ≢ other)
    (start : Progress Float) where
  abbrev Grown : (Progress Float → Outcome (Progress Float)) → ℕ → Type 0
  Grown body k =
      (p : Progress Float)
      → Kept other start p
      → (q : Progress Float) × (body p ≡ ok q)
        × Kept other start q
        × (length q.runs ≡ length p.runs + k)

  pub run_simulation-Kept : (r : Run) → Grown (run_simulation simulate r) 1
  unfolding run_simulation
  run_simulation-Kept r p h =
      let (cells, e) = fine r in
      (
        record p { files = save_results default_path cells p.files; runs = p.runs ++ r ∷ [] },
        rw e refl,
        record {
          file = save_results-other default_path other cells p.files ne ∙ h.file;
          together = omega (
            arith,
            h.together,
            (save_results_lem default_path cells p.files).0,
            length-append p.runs (r ∷ []),
          );
        },
        length-append p.runs (r ∷ []),
      )

  pub try_each-Kept :
      (xs : List ℕ) (body : ℕ → Progress Float → Outcome (Progress Float)) (k : ℕ)
      → ((x : ℕ) → Grown (body x) k)
      → Grown (try_each xs body) (length xs * k)
  try_each-Kept xs body k grow p h =
      try_each_grows (Kept other start) (λ (q : Progress Float). length q.runs) k xs body grow p h

module _ {Float : Type 0} (simulate : Run → Outcome (List (Cell Float)))
    (fine : NeverRaises simulate) (p : Progress Float) where
  -- The commands end, and each of their runs leaves a row.
  abbrev pub Done : Outcome (Progress Float) → ℕ → Type 0
  Done result k =
      (q : Progress Float) × (result ≡ ok q)
      × (length q.runs ≡ length p.runs + k)
      × (rows q ≡ rows p + k)

  Done-of :
      {other : String} (result : Outcome (Progress Float)) (k : ℕ)
      → ((q : Progress Float) × (result ≡ ok q)
          × Kept other p q
          × (length q.runs ≡ length p.runs + k))
      → Done result k
  Done-of result k (q, e, h, n) = (q, e, n, omega (arith, h.together, n))

  -- One loop of runs, and one loop in another.
  pub loop-Done :
      (xs : List ℕ) (run : ℕ → Run)
      → Done (try_each xs (λ x. run_simulation simulate (run x)) p) (length xs)
  loop-Done xs run =
      let one = run_simulation-Kept simulate fine output_csv default_path_other p in
      let k : length xs * 1 ≡ length xs = omega arith in
      Done-of _ _ (
        rw k at (
          try_each-Kept simulate fine output_csv default_path_other p xs _ 1 (λ x. one (run x)) p
            (record { file = refl; together = refl })))

  pub loops-Done :
      (xs : List ℕ) (ys : List ℕ) (run : ℕ → ℕ → Run)
      → Done
          (try_each xs (λ x. try_each ys (λ y. run_simulation simulate (run x y))) p)
          (length xs * length ys)
  loops-Done xs ys run =
      let one = run_simulation-Kept simulate fine output_csv default_path_other p in
      let k : length ys * 1 ≡ length ys = omega arith in
      let inner = λ (x : ℕ).
        try_each-Kept simulate fine output_csv default_path_other p ys
          (λ y. run_simulation simulate (run x y)) 1 (λ y. one (run x y)) in
      Done-of _ _ (
        (try_each-Kept simulate fine output_csv default_path_other p xs _ (length ys)
          (λ x. rw k at (inner x)) p (record { file = refl; together = refl })))
