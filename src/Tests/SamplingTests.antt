-- ===== src/Tests/SamplingTests.antt =====
-- `random_sample` with a stand-in for `random.sample`.
use implementing_5g_nr_u_lte.Common.{
  ℕ, ◌≡◌, refl, arith, true, ℤ, pos, ◌+ℤ◌, ◌-ℤ◌, ◌≤ℤ◌, ltb_ℤ, List, [], ◌∷◌, length, All, Outcome,
  ok, raised, value_error, ◌==◌, ◌&&◌, if◌then◌else◌, Bool-cases, inl, inr, ==→eq, subst, sym,
  ok-injective,
}
use implementing_5g_nr_u_lte.Sampling.{
  random_sample, population, spread, ranks_of, indices_of, sort_by, insert_by, nth,
}
use implementing_5g_nr_u_lte.Sampling.Order.{count_if, AreDistinct}
use implementing_5g_nr_u_lte.Sampling.Distances.{IsSpread, random_sample-IsSpread}

abbrev three : List ℕ
three = 5 ∷ 1 ∷ 3 ∷ []

-- It answers where three numbers below 6 are asked for.
abbrev sample : ℤ → ℕ → Outcome (List ℕ)
sample n k = if ltb_ℤ (pos 5) n && (k == 3) then ok three else raised value_error

three-AreDistinct : AreDistinct (λ s. s) three
unfolding count_if
three-AreDistinct k = ground arith

chosen :
    (n : ℤ) (k : ℕ) (xs : List ℕ)
    → sample n k ≡ ok xs
    → (length xs ≡ k) × All (λ x. ltb_ℤ (pos x) n ≡ true) xs × AreDistinct (λ x. x) xs
chosen n k xs e = elim (Bool-cases (ltb_ℤ (pos 5) n)) [
  | inl a ↦ elim (Bool-cases (k == 3)) [
    | inl b ↦
        let same : three ≡ xs = ok-injective (rw (a, b) at e) in
        subst
          (λ xs. (length xs ≡ k) × All (λ x. ltb_ℤ (pos x) n ≡ true) xs × AreDistinct (λ x. x) xs)
          same
          (sym (==→eq k 3 b), (a, (ground (arith, a), (ground (arith, a), tt))), three-AreDistinct)
    | inr b ↦ let no = rw (a, b) at e in cc
  ]
  | inr a ↦ let no = rw a at e in cc
]

random_sample_result : random_sample sample 10 3 3 ≡ ok (pos 9 ∷ pos 1 ∷ pos 5 ∷ [])
unfolding random_sample spread ranks_of indices_of sort_by insert_by nth ◌+ℤ◌ ◌-ℤ◌
random_sample_result = refl

sampled : sample (population 10 3 3) 3 ≡ ok three
unfolding ◌-ℤ◌
sampled = refl

random_sample-IsSpread_example :
    (results : List ℤ) × (random_sample sample 10 3 3 ≡ ok results)
    × (length results ≡ 3)
    × All (λ r. (pos 0 ≤ℤ r) × (r +ℤ pos 1 ≤ℤ pos 10)) results
    × IsSpread 3 results
random_sample-IsSpread_example = random_sample-IsSpread sample chosen 10 3 3 three sampled
