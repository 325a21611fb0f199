-- ===== src/Common/Disk.antt =====
-- The files that a Python program opens: a path has lines, or no file stands there. Directories
-- exist.
use Prim.Native.String.{String}
use text.Mathlib.Text.{◌==◌ as same}
use text.Mathlib.TextEquality.{eq_iff}
use mathlib.Core.Path.{◌≡◌, refl}
use mathlib.Core.Logic.{◌≢◌, inl, inr}
use mathlib.Core.Bool.{Bool, true, false}
use mathlib.Core.List.{List, [], ◌++◌}
use mathlib.Core.Option.{Option, none, some}
use implementing_5g_nr_u_lte.Common.Tests.{if◌then◌else◌, Bool-cases}

abbrev pub Files {ℓ} : Type ℓ → Type ℓ
Files Line = String → Option (List Line)

same_self : (path : String) → same path path ≡ true
same_self path = (eq_iff path path).1 refl

same_other : (path other : String) → path ≢ other → same path other ≡ false
same_other path other ne = elim (Bool-cases (same path other)) [
  | inl e ↦ absurd (ne ((eq_iff path other).0 e))
  | inr e ↦ e
]

-- Different literals are told apart by evaluation.
pub differ : (a b : String) → same a b ≡ false → a ≢ b
differ a b h e = let k = (eq_iff a b).1 e in cc

module _ {ℓ} {Line : Type ℓ} where
  abbrev pub lines_of : Option (List Line) → List Line
  lines_of none = []
  lines_of (some ls) = ls

  abbrev pub exists : Option (List Line) → Bool
  exists none = false
  exists (some ls) = true

  -- `os.path.isfile(path)`
  abbrev pub is_file : String → Files Line → Bool
  is_file path fs = exists (fs path)

  -- `open(path, 'w')`, then the lines.
  unfoldable pub write : String → List Line → Files Line → Files Line
  write path ls fs p = if same path p then some ls else fs p

  -- `open(path, 'a')`, then the lines.
  unfoldable pub append : String → List Line → Files Line → Files Line
  unfolding write
  append path ls fs = write path (lines_of (fs path) ++ ls) fs

  pub write_self :
      (path : String) (ls : List Line) (fs : Files Line) → write path ls fs path ≡ some ls
  unfolding write
  write_self path ls fs = rw (same_self path) refl

  pub write_other :
      (path other : String) (ls : List Line) (fs : Files Line)
      → path ≢ other
      → write path ls fs other ≡ fs other
  unfolding write
  write_other path other ls fs ne = rw (same_other path other ne) refl

  pub append_self :
      (path : String) (ls : List Line) (fs : Files Line)
      → append path ls fs path ≡ some (lines_of (fs path) ++ ls)
  unfolding append
  append_self path ls fs = write_self path _ fs

  pub append_other :
      (path other : String) (ls : List Line) (fs : Files Line)
      → path ≢ other
      → append path ls fs other ≡ fs other
  unfolding append
  append_other path other ls fs ne = write_other path other _ fs ne
