-- ===== src/Tests/FigureTests.antt =====
-- The scripts that plot results, with stand-ins for pandas.
use implementing_5g_nr_u_lte.Common.{
  ℕ, ◌≡◌, refl, List, [], ◌∷◌, ◌++◌, map, String, Outcome, ok, raised, key_error, empty_data_error,
  if◌then◌else◌,
}
use implementing_5g_nr_u_lte.Output.{Line, header, row, whole}
use implementing_5g_nr_u_lte.Output.Columns.{columns, name, contains, contains_all}
use implementing_5g_nr_u_lte.Drivers.Matrix.HeatMaps.{Frames}
use implementing_5g_nr_u_lte.Drivers.Matrix.HeatMaps.Images.{keys}
use implementing_5g_nr_u_lte.Figures.{Pandas}
use implementing_5g_nr_u_lte.Figures.Results.{commands_refuse_results}
use implementing_5g_nr_u_lte.Figures.Validation.Coexistence.{coexistence_rs}
use implementing_5g_nr_u_lte.Figures.Analysis.Stations.{print_airtime_34}

-- A table is its columns.
abbrev read_lines : List (Line ℕ) → Outcome (List String)
read_lines [] = raised empty_data_error
read_lines (header cs ∷ lines) = ok (map name cs)
read_lines (line ∷ lines) = ok []

abbrev frames : Frames ℕ (List String) String String ℕ
frames = record {
  read_csv = read_lines;
  mean = λ t keys values.
      if contains_all (keys ++ values) t then ok (keys ++ values) else raised key_error;
  pivot = λ t index column value. ok value;
  column = λ t column. if contains column t then ok column else raised key_error;
  iterrows = λ t. 1 ∷ 2 ∷ [];
  perform = λ call. ok tt;
}

abbrev lines : List (Line ℕ)
lines = header columns ∷ row (whole 1 ∷ []) ∷ []

-- Tables with the columns of the simulator, except for those of other simulators, and a series is
-- its column.
abbrev pandas : Pandas (List String) String
pandas = record {
  read_csv = λ path. ok (map name columns);
  mean = λ t key column. if contains key t then ok column else raised key_error;
}

commands_refuse_results_example :
    (coexistence_rs pandas ≡ raised key_error) × (print_airtime_34 pandas ≡ raised key_error)
commands_refuse_results_example =
    commands_refuse_results pandas (λ t. t) (λ t key column h. rw h refl) (map name columns)
      (map name columns) refl refl refl refl refl
