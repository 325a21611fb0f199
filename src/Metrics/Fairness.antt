-- ===== src/Metrics/Fairness.antt =====
-- Bounds of the metrics.
use implementing_5g_nr_u_lte.Common.{
  ℕ, zero, suc, ◌+◌, ◌-◌, ◌*◌, ◌≤◌, ◌<◌, ◌≡◌, refl, ap, arith, ◌⊎◌, inl, inr, lt→ltb, ltb,
  Bool-cases, List, [], ◌∷◌, map, ℤ, pos, ◌+ℤ◌, pos-add, length,
}
use implementing_5g_nr_u_lte.Controller.{Ratio, calculate_jains_fairness}
use implementing_5g_nr_u_lte.Controller.Fairness.{products_le, jains_fairness-Plain}
use implementing_5g_nr_u_lte.Metrics.{
  collision_probability, normalized, traditional_fairness, sum_throughput, sum_squared_throughput,
  jains_fairness, penalised,
}

-- A probability of collision is a fraction between 0 and 1.
pub collision_probability_bounds :
    (n failed succeeded : ℕ)
    → let p = collision_probability n failed succeeded in (0 < p.den) × (p.num ≤ p.den)
unfolding collision_probability
collision_probability_bounds n failed succeeded = ground arith

abbrev pub positive : List ℕ → List ℤ
positive xs = map pos xs

total : List ℕ → ℕ
total [] = 0
total (x ∷ xs) = x + total xs

squares : List ℕ → ℕ
squares [] = 0
squares (x ∷ xs) = x * x + squares xs

sum_throughput-positive : (xs : List ℕ) → sum_throughput (positive xs) ≡ pos (total xs)
unfolding sum_throughput total
sum_throughput-positive [] = refl
sum_throughput-positive (x ∷ xs) = rw (sum_throughput-positive xs) (pos-add _ _)

sum_squared-positive : (xs : List ℕ) → sum_squared_throughput (positive xs) ≡ squares xs
unfolding sum_squared_throughput squares
sum_squared-positive [] = refl
sum_squared-positive (x ∷ xs) = rw (sum_squared-positive xs) refl

length-positive : (xs : List ℕ) → length (positive xs) ≡ length xs
length-positive [] = refl
length-positive (x ∷ xs) = ap suc (length-positive xs)

-- Twice the products with `x` against the squares.
cross_le : (x : ℕ) (xs : List ℕ) → 2 * (x * total xs) ≤ length xs * (x * x) + squares xs
unfolding total squares
cross_le x [] = omega arith
cross_le x (y ∷ ys) = omega (arith, cross_le x ys, products_le x y)

-- The inequality of Cauchy and Schwarz.
square_total_le : (xs : List ℕ) → total xs * total xs ≤ length xs * squares xs
unfolding total squares
square_total_le [] = omega arith
square_total_le (x ∷ xs) = omega (arith, square_total_le xs, cross_le x xs)

squares_le : (xs : List ℕ) → squares xs ≤ total xs * total xs
unfolding total squares
squares_le [] = omega arith
squares_le (x ∷ xs) = omega (arith, squares_le xs)

length_pos : (xs : List ℕ) → 0 < squares xs → 0 < length xs
unfolding squares
length_pos [] h = h
length_pos (x ∷ xs) h = omega arith

-- The index in plain numbers.
jains_fairness_plain :
    (xs : List ℕ)
    → 0 < squares xs
    → (jains_fairness (positive xs)
        ≡ record { num = total xs * total xs; den = length xs * squares xs })
unfolding jains_fairness
jains_fairness_plain xs h =
    let some_nodes = lt→ltb 0 (length xs) (length_pos xs h) in
    rw
      (
        sum_throughput-positive xs,
        sum_squared-positive xs,
        length-positive xs,
        some_nodes,
        lt→ltb 0 (squares xs) h,
      )
      refl

times_le : (b x y : ℕ) → x ≤ y → x * b ≤ y * b
times_le b x y h = let e : y ≡ x + (y - x) = omega arith in rw e (omega arith)

product_pos : (a b : ℕ) → 0 < a → 0 < b → 0 < a * b
product_pos a b h k = grind arith

-- Jain's index of `n` throughputs that are not negative and not all 0 lies between 1/n and 1.
pub jains_fairness_range :
    (xs : List ℕ)
    → 0 < sum_squared_throughput (positive xs)
    → let r = jains_fairness (positive xs) in
      (0 < r.den) × (r.num ≤ r.den) × (r.den ≤ length xs * r.num)
jains_fairness_range xs h =
    let k : 0 < squares xs = omega (arith, h, sum_squared-positive xs) in
    let s = squares_le xs in
    rw (jains_fairness_plain xs k) (
      product_pos _ _ (length_pos xs k) k,
      square_total_le xs,
      omega (arith, times_le (length xs) _ _ s),
    )

-- The fraction of the normalized times, without the length `t` of the run.
length_cancels :
    (a b c t : ℕ)
    → a * ((t * t) * (t * t)) * (2 * (b + c)) ≡ a * ((t * t) * (2 * (b * (t * t) + c * (t * t))))
length_cancels a b c t = omega arith

length_pos_den : (b c t : ℕ) → 0 < t → 0 < b + c → 0 < (t * t) * (2 * (b * (t * t) + c * (t * t)))
length_pos_den b c t ht h =
    let square_pos = product_pos t t ht ht in
    let fourth = product_pos _ _ (product_pos _ _ square_pos square_pos) h in omega (arith, fourth)

traditional_fairness-plain :
    (a b t : ℕ)
    → 0 < a + b
    → (traditional_fairness
          (normalized (pos a) t)
          (normalized (pos b) t)
          (normalized (pos a +ℤ pos b) t)
        ≡ record {
          num = (a + b) * (a + b) * ((t * t) * (t * t));
          den = (t * t) * (2 * (a * a * (t * t) + b * b * (t * t)));
        })
unfolding traditional_fairness
traditional_fairness-plain zero zero t h = elim h [ ]
traditional_fairness-plain zero (suc b) t h =
    let busy = lt→ltb 0 (suc b + 0) (omega arith) in rw (pos-add 0 (suc b), busy) refl
traditional_fairness-plain (suc a) b t h =
    let busy = lt→ltb 0 (suc a + 0) (omega arith) in rw (pos-add (suc a) b, busy) refl

-- The index of fairness that a run of positive length reports, from the normalized occupancy times,
-- is the fraction that the controller computes from the times themselves, where no time is negative
-- and a node was on the air: the length of the run does not count. Where none was, the index is 0
-- and the controller's is 1.
pub traditional_fairness-jains :
    (wifi nru time : ℕ)
    → 0 < time
    → let r =
        traditional_fairness
          (normalized (pos wifi) time)
          (normalized (pos nru) time)
          (normalized (pos wifi +ℤ pos nru) time) in
      let j = calculate_jains_fairness (pos wifi) (pos nru) in
      ((0 < wifi + nru) × (0 < r.den) × (0 < j.den) × (r.num * j.den ≡ j.num * r.den))
      ⊎ ((wifi + nru ≡ 0) × (r.num ≡ 0) × (r.den ≡ 1) × (j.num ≡ 1) × (j.den ≡ 1))
unfolding traditional_fairness
traditional_fairness-jains wifi nru time h = elim (jains_fairness-Plain wifi nru) [
  | inl (a, b, n, d) ↦ inr (omega arith, rw (a, b) refl, rw (a, b) refl, n, d)
  | inr (busy, k, n, d) ↦
      let r = traditional_fairness-plain wifi nru time busy in
      let e = length_cancels ((wifi + nru) * (wifi + nru)) (wifi * wifi) (nru * nru) time in
      inl (
        busy,
        rw r (length_pos_den (wifi * wifi) (nru * nru) time h k),
        omega (arith, d, k),
        rw (r, n, d) e,
      )
]

more_of : (a p q : ℕ) → a * q ≤ a * (q + 2 * p)
more_of a p q = omega arith

thrice : (a p q : ℕ) → p ≤ q → a * (q + 2 * p) ≤ 3 * (a * q)
thrice a p q h = let e : q ≡ p + (q - p) = omega arith in rw e (omega arith)

-- The penalty for collisions never shortens a delay, and makes it three times as long at most.
penalised_bounds :
    (delay : Ratio) (n failed succeeded : ℕ)
    → 0 < delay.den
    → let d = penalised delay (collision_probability n failed succeeded) in
      (0 < d.den)
      × (delay.num * d.den ≤ d.num * delay.den)
      × (d.num * delay.den ≤ 3 * (delay.num * d.den))
penalised_bounds delay n failed succeeded h =
    let p = collision_probability n failed succeeded in
    let b = collision_probability_bounds n failed succeeded in
    elim (Bool-cases (ltb 0 p.num)) [
      | inl e ↦ rw e (
        product_pos _ _ h b.0,
        omega (arith, times_le delay.den _ _ (more_of delay.num p.num p.den)),
        omega (arith, times_le delay.den _ _ (thrice delay.num p.num p.den b.1)),
      )
      | inr e ↦ rw e (h, omega arith, omega arith)
    ]
