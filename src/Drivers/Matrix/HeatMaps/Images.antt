-- ===== src/Drivers/Matrix/HeatMaps/Images.antt =====
-- What `visualize_results` of simulation/5G-Coexistence-SimPy/run_coexistenxe_matrix.py saves for a
-- file of results.
use implementing_5g_nr_u_lte.Common.{
  ◌≡◌, Bool, true, false, ◌&&◌, not, List, [], ◌∷◌, ◌++◌, String, ok, ℕ, Option, All,
}
use implementing_5g_nr_u_lte.Output.Columns.{contains, contains_all}
use implementing_5g_nr_u_lte.Drivers.Matrix.HeatMaps.{
  Colormap, Frames, Call, figure, heatmap, scatter, annotate, savefig, close, averaged,
}

module _ {Grid Series Row : Type 0} where
  -- The paths that images are saved to.
  abbrev pub images : List (Call Grid Series Row) → List String
  images [] = []
  images (savefig path ∷ calls) = path ∷ images calls
  images (call ∷ calls) = images calls

  -- A figure is opened where none is open, images are saved while one is open, and each is closed.
  abbrev pub tidy : (open_now : Bool) → List (Call Grid Series Row) → Bool
  tidy open_now [] = not open_now
  tidy open_now (figure ∷ calls) = not open_now && tidy true calls
  tidy open_now (close ∷ calls) = open_now && tidy false calls
  tidy open_now (savefig path ∷ calls) = open_now && tidy open_now calls
  tidy open_now (call ∷ calls) = tidy open_now calls

  -- A call that draws nothing of a table.
  abbrev pub IsPlain : Call Grid Series Row → Type 0
  IsPlain (heatmap g colours limits label) = ⊥
  IsPlain (scatter a b) = ⊥
  IsPlain (annotate r) = ⊥
  IsPlain call = Unit {0}

abbrev pub keys : List String
keys = "WiFi_Nodes" ∷ "NRU_Nodes" ∷ []

-- What is used of the libraries: `columns_of` is `table.columns`, and `IsNumeric` says that a table
-- has a row and that all its cells are numbers. The means of the columns of such a table by the
-- two numbers of nodes are a table of keys and means, which has one row for each pair of keys:
-- any of the means can be laid out by the keys and drawn as a map, its columns can be drawn, and
-- its rows have numbers of nodes.
module _ {Float Table Grid Series Row : Type 0} (frames : Frames Float Table Grid Series Row)
    (columns_of : Table → List String) (IsNumeric : Table → Type 0)
    (mean-ok : (t : Table)
      → IsNumeric t
      → contains_all (keys ++ averaged) (columns_of t) ≡ true
      → (u : Table) × (frames.mean t keys averaged ≡ ok u) × (columns_of u ≡ keys ++ averaged))
    (heatmap-ok : (t u : Table) (value : String)
      → IsNumeric t
      → frames.mean t keys averaged ≡ ok u
      → contains value averaged ≡ true
      → (g : Grid) × (frames.pivot u "WiFi_Nodes" "NRU_Nodes" value ≡ ok g)
        × ((colours : Colormap) (limits : Option (ℕ × ℕ)) (label : String)
            → frames.perform (heatmap g colours limits label) ≡ ok tt))
    (column-ok : (t : Table) (column : String)
      → contains column (columns_of t) ≡ true
      → (s : Series) × (frames.column t column ≡ ok s))
    (scatter-ok : (t u : Table) (x y : String) (a b : Series)
      → IsNumeric t
      → frames.mean t keys averaged ≡ ok u
      → frames.column u x ≡ ok a
      → frames.column u y ≡ ok b
      → frames.perform (scatter a b) ≡ ok tt)
    (annotate-ok : (t u : Table)
      → IsNumeric t
      → frames.mean t keys averaged ≡ ok u
      → All (λ r. frames.perform (annotate r) ≡ ok tt) (frames.iterrows u))
    (plain-ok : (call : Call Grid Series Row) → IsPlain call → frames.perform call ≡ ok tt) where
  abbrev Drawn : Call Grid Series Row → Type 0
  Drawn call = frames.perform call ≡ ok tt
