-- ===== src/Sampling.antt =====
-- `random_sample` of Coexistence.py, which spreads numbers over a range with a distance between
-- them. `random.sample` is a parameter.
use implementing_5g_nr_u_lte.Common.{
  ℕ, zero, suc, ◌+◌, ◌*◌, ℤ, pos, ◌+ℤ◌, ◌-ℤ◌, List, [], ◌∷◌, length, Outcome, ok, ◌>>=◌, leb,
  range_from, if◌then◌else◌,
}
pub mod Order
pub mod Ranks
pub mod Places
pub mod Distances

-- `xs[i]`, for an index of the list.
unfoldable pub nth : List ℕ → ℕ → ℕ
nth [] i = 0
nth (x ∷ xs) zero = x
nth (x ∷ xs) (suc i) = nth xs i

-- `sorted(xs, key)`
unfoldable pub insert_by : (ℕ → ℕ) → ℕ → List ℕ → List ℕ
insert_by key x [] = x ∷ []
insert_by key x (y ∷ ys) =
    let rest = insert_by key x ys in if leb (key x) (key y) then x ∷ y ∷ ys else y ∷ rest

unfoldable pub sort_by : (ℕ → ℕ) → List ℕ → List ℕ
unfolding insert_by
sort_by key [] = []
sort_by key (x ∷ xs) = insert_by key x (sort_by key xs)

unfoldable pub indices_of : List ℕ → List ℕ
unfolding sort_by nth range_from
indices_of samples = sort_by (nth samples) (range_from 0 (length samples))

unfoldable pub ranks_of : List ℕ → List ℕ
unfolding sort_by nth indices_of
ranks_of samples = sort_by (nth (indices_of samples)) (indices_of samples)

-- `sample + (min_distance - 1) * rank`
abbrev pub spread_one : ℕ → ℕ → ℕ → ℤ
spread_one min_distance sample rank = pos sample +ℤ (pos (min_distance * rank) -ℤ pos rank)

unfoldable pub spread : ℕ → List ℕ → List ℕ → List ℤ
spread min_distance (sample ∷ samples) (rank ∷ ranks) =
    spread_one min_distance sample rank ∷ spread min_distance samples ranks
spread min_distance _ _ = []

-- `max - (number - 1) * (min_distance - 1)`, multiplied out.
abbrev pub population : ℕ → ℕ → ℕ → ℤ
population max number min_distance =
    pos (max + number + min_distance) -ℤ pos (min_distance * number + 1)

-- `sample(n, number)` is `random.sample(range(n), number)`.
module _ (sample : ℤ → ℕ → Outcome (List ℕ)) where
  unfoldable pub random_sample : ℕ → ℕ → ℕ → Outcome (List ℤ)
  unfolding spread ranks_of
  random_sample max number min_distance = do
    samples ← sample (population max number min_distance) number
    ok (spread min_distance samples (ranks_of samples))
