-- ===== src/Figures.antt =====
-- What the scripts of simulation/5G-Coexistence-SimPy that plot results do with pandas and pyplot.
-- Neither is part of the repository: what pandas makes of files and tables is a parameter, and what
-- pyplot is asked to do is the list of calls that a script makes where pandas raises nothing and
-- pyplot does as it is asked. Colours, limits of axes and
-- other fractions are in tenths; fonts and sizes are left out.
use implementing_5g_nr_u_lte.Common.{ℕ, Bool, Option, List, String, Outcome}
pub mod Validation
pub mod Analysis
pub mod Results

-- `read_csv(path)`, and `table.groupby([key])[column].mean()`.
pub record Pandas (Table Series : Type 0) : Type 0 where
  pub read_csv : String → Outcome Table
  pub mean : Table → String → String → Outcome Series

pub data Marker : Type 0 where
  circle cross triangle : Marker

pub data Linestyle : Type 0 where
  solid dashed dotted : Linestyle

-- A call of pyplot, or of `plot` of a series, which draws into the axes at hand.
pub data Call (Series : Type 0) : Type 0 where
  prop_cycle : (a b color_amount : ℕ) → Call Series
  plot :
      (title : Option String) (marker : Marker) (linestyle : Linestyle) (ylim : ℕ × ℕ)
      → Series
      → Call Series
  bar : (title : Option String) (ylim : ℕ × ℕ) → Series → Call Series
  legend : List String → Call Series
  set_xlabel set_ylabel : String → Call Series
  tight_layout : Call Series
  savefig : String → Call Series
