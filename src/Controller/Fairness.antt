-- ===== src/Controller/Fairness.antt =====
-- What Jain's index says of two airtimes, and what the controller makes of it.
use native.Mathlib.Decide.{dec_le, dec_lt}
use implementing_5g_nr_u_lte.Common.{
  ℕ, zero, suc, ◌+◌, ◌-◌, ◌*◌, ◌≤◌, ◌<◌, ◌≡◌, ◌↔◌, ◌⊎◌, inl, inr, true, pos, pos-add, arith, refl,
  ltb→lt,
}
use implementing_5g_nr_u_lte.Controller.{Ratio, lt_ratio, calculate_jains_fairness, exceeds}

-- Twice a product against the squares, for factors that differ by `d`.
product_bound : (a d : ℕ) → 2 * (a * (a + d)) + d * d ≡ a * a + (a + d) * (a + d)
product_bound a d = omega arith

pub products_le : (a b : ℕ) → 2 * (a * b) ≤ a * a + b * b
products_le a b = elim (dec_le a b) [
  | yes h ↦ let e : b ≡ a + (b - a) = omega arith in rw e (omega (arith, product_bound a (b - a)))
  | no h ↦ let e : a ≡ b + (a - b) = omega arith in rw e (omega (arith, product_bound b (a - b)))
]

-- The index in plain numbers.
abbrev pub Plain : ℕ → ℕ → Ratio → Type 0
Plain a b r =
    ((a ≡ 0) × (b ≡ 0) × (r.num ≡ 1) × (r.den ≡ 1))
    ⊎ ((0 < a + b)
        × (0 < a * a + b * b)
        × (r.num ≡ (a + b) * (a + b))
        × (r.den ≡ 2 * (a * a + b * b)))

squares_pos : (a b : ℕ) → 0 < a + b → 0 < a * a + b * b
squares_pos zero zero h = omega arith
squares_pos zero (suc b) h = omega arith
squares_pos (suc a) b h = omega arith

pub jains_fairness-Plain : (a b : ℕ) → Plain a b (calculate_jains_fairness (pos a) (pos b))
unfolding calculate_jains_fairness
jains_fairness-Plain zero zero = inl (refl, refl, refl, refl)
jains_fairness-Plain zero (suc b) =
    let h : 0 < 0 + suc b = omega arith in
    let k = squares_pos 0 (suc b) h in
    rw (pos-add 0 (suc b)) (inr (h, k, ground (arith, k), ground (arith, k)))
jains_fairness-Plain (suc a) b =
    let h : 0 < suc a + b = omega arith in
    let k = squares_pos (suc a) b h in
    rw (pos-add (suc a) b) (inr (h, k, ground (arith, k), ground (arith, k)))

-- Jain's index of two airtimes that are not negative lies between 1/2 and 1, and its denominator is
-- positive.
pub jains_fairness_bounds :
    (a b : ℕ)
    → let r = calculate_jains_fairness (pos a) (pos b) in
      (0 < r.den) × (r.num ≤ r.den) × (r.den ≤ 2 * r.num)
jains_fairness_bounds a b =
    let p = jains_fairness-Plain a b in
    let q = products_le a b in
    elim p [
      | inl e ↦ (omega arith, omega arith, omega arith)
      | inr e ↦ (omega arith, omega arith, omega arith)
    ]

strict_bound : (a d : ℕ) → 2 * (a * (a + suc d)) < a * a + (a + suc d) * (a + suc d)
strict_bound a d = omega arith

strict_products : (a b : ℕ) → a < b → 2 * (a * b) < a * a + b * b
strict_products a b h =
    let e : b ≡ a + suc (b - a - 1) = omega arith in rw e (strict_bound a (b - a - 1))

eq_of_products : (a b : ℕ) → 2 * (a * b) ≡ a * a + b * b → a ≡ b
eq_of_products a b h = elim (dec_lt a b) [
  | yes lt ↦ absurd (omega (arith, strict_products a b lt))
  | no not_lt ↦ elim (dec_lt b a) [
    | yes lt ↦ absurd (omega (arith, strict_products b a lt))
    | no not_gt ↦ omega arith
  ]
]

-- The index of two airtimes that are not negative is 1 exactly when they are equal.
jains_fairness-eq_one :
    (a b : ℕ) → let r = calculate_jains_fairness (pos a) (pos b) in (r.num ≡ r.den) ↔ (a ≡ b)
jains_fairness-eq_one a b = elim (jains_fairness-Plain a b) [
  | inl e ↦ (λ h. omega arith, λ h. omega arith)
  | inr e ↦ (
    λ h. eq_of_products a b (omega arith),
    λ h. let same : (a + b) * (a + b) ≡ 2 * (a * a + b * b) = rw h (omega arith) in omega arith,
  )
]

-- With a difference of a tenth at most the index is high.
close_enough : (a b d r : ℕ) → a ≡ 10 * d + r → b ≡ a + d → 9 * (a * a + b * b) ≤ 20 * (a * b)
close_enough a b d r ea eb = rw (eb, ea) (omega arith)

far_apart : (a b : ℕ) → a ≤ b → 20 * (a * b) < 9 * (a * a + b * b) → 11 * a < 10 * b
far_apart a b le h = elim (dec_lt (11 * a) (10 * b)) [
  | yes far ↦ far
  | no near ↦
      let k = close_enough a b (b - a) (a - 10 * (b - a)) (omega arith) (omega arith) in
      absurd (omega arith)
]

-- For airtimes that are not negative an index below 0.95 means that one of the two airtimes exceeds
-- the other by more than a tenth, so a measurement that asks for an adjustment always gets one.
pub low_fairness-exceeds :
    (a b : ℕ)
    → lt_ratio (calculate_jains_fairness (pos a) (pos b)) (record { num = 19; den = 20 }) ≡ true
    → (exceeds (pos a) (pos b) ≡ true) ⊎ (exceeds (pos b) (pos a) ≡ true)
unfolding exceeds
low_fairness-exceeds a b h =
    let low = ltb→lt _ _ h in
    let apart : 20 * (a * b) < 9 * (a * a + b * b) = elim (jains_fairness-Plain a b) [
      | inl e ↦ absurd (omega arith)
      | inr e ↦ omega arith
    ] in
    elim (dec_le a b) [
      | yes le ↦ let far = far_apart a b le apart in inr (ground arith)
      | no not_le ↦ let far = far_apart b a (omega arith) (omega arith) in inl (ground arith)
    ]
