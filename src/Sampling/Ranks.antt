-- ===== src/Sampling/Ranks.antt =====
-- The ranks of `random_sample`: sorting twice counts the smaller samples.
use implementing_5g_nr_u_lte.Common.{
  ℕ, zero, suc, ◌+◌, ◌<◌, ◌≤◌, ◌≡◌, refl, sym, ◌∙◌, arith, Bool, List, [], ◌∷◌, length, ltb, ◌==◌,
  All, range_from, length-range_from, subst, inl, inr, Bool-cases,
}
use implementing_5g_nr_u_lte.Sampling.{nth, indices_of, ranks_of}
use implementing_5g_nr_u_lte.Sampling.Order.{
  count_if, AreDistinct, All-nth, count_if-sort_by, All-sort_by, length-sort_by, sort_by-InOrder,
  place,
}

count_if-range_suc :
    (p : ℕ → Bool) (a n : ℕ)
    → count_if p (range_from (a + 1) n) ≡ count_if (λ i. p (suc i)) (range_from a n)
unfolding count_if range_from
count_if-range_suc p a zero = refl
count_if-range_suc p a (suc n) = ground (arith, count_if-range_suc p (a + 1) n)

-- Counting places by what stands there is counting what stands there.
count_if-nth :
    (p : ℕ → Bool) (xs : List ℕ)
    → count_if (λ i. p (nth xs i)) (range_from 0 (length xs)) ≡ count_if p xs
unfolding count_if nth range_from
count_if-nth p [] = refl
count_if-nth p (x ∷ xs) =
    let rest = count_if-range_suc (λ i. p (nth (x ∷ xs) i)) 0 (length xs) ∙ count_if-nth p xs in
    ground arith

range-below : (a n top : ℕ) → a + n ≤ top → All (λ i. i < top) (range_from a n)
unfolding range_from
range-below a zero top le = tt
range-below a (suc n) top le = (omega arith, range-below (a + 1) n top (omega arith))

none_below_range : (k a n : ℕ) → k ≤ a → count_if (λ i. ltb i k) (range_from a n) ≡ 0
unfolding count_if range_from
none_below_range k a zero le = refl
none_below_range k a (suc n) le = ground (arith, none_below_range k (a + 1) n (omega arith))

below_range : (k a n : ℕ) → a ≤ k → k ≤ a + n → count_if (λ i. ltb i k) (range_from a n) + a ≡ k
unfolding count_if range_from
below_range k a zero le up = omega arith
below_range k a (suc n) le up = elim (Bool-cases (ltb a k)) [
  | inl e ↦ ground (arith, e, below_range k (a + 1) n)
  | inr e ↦ ground (arith, e, none_below_range k (a + 1) n)
]

count_if-below : (k n : ℕ) → k ≤ n → count_if (λ i. ltb i k) (range_from 0 n) ≡ k
count_if-below k n le = omega (arith, below_range k 0 n (omega arith) (omega arith))

none_equal : (k a n : ℕ) → k < a → count_if (λ i. i == k) (range_from a n) ≡ 0
unfolding count_if range_from
none_equal k a zero lt = refl
none_equal k a (suc n) lt = ground (arith, none_equal k (a + 1) n (omega arith))

one_equal : (k a n : ℕ) → count_if (λ i. i == k) (range_from a n) ≤ 1
unfolding count_if range_from
one_equal k a zero = omega arith
one_equal k a (suc n) = elim (Bool-cases (a == k)) [
  | inl e ↦ ground (arith, e, none_equal k (a + 1) n)
  | inr e ↦ ground (arith, e, one_equal k (a + 1) n)
]

range-AreDistinct : (n : ℕ) → AreDistinct (λ i. i) (range_from 0 n)
range-AreDistinct n k = one_equal k 0 n

module _ (samples : List ℕ) (distinct : AreDistinct (λ s. s) samples) where
  abbrev is : List ℕ
  is = indices_of samples

  length-is : length is ≡ length samples
  unfolding indices_of
  length-is =
      length-sort_by (nth samples) (range_from 0 (length samples))
      ∙ length-range_from 0 (length samples)

  count_if-is : (p : ℕ → Bool) → count_if p is ≡ count_if p (range_from 0 (length samples))
  unfolding indices_of
  count_if-is p = count_if-sort_by (nth samples) p (range_from 0 (length samples))

  -- Counting places by what stands in `is` there.
  count_if-nth_is :
      (p : ℕ → Bool) → count_if (λ i. p (nth is i)) is ≡ count_if p (range_from 0 (length samples))
  count_if-nth_is p =
      count_if-is (λ i. p (nth is i))
      ∙ subst (λ n. count_if (λ i. p (nth is i)) (range_from 0 n) ≡ count_if p is) length-is
          (count_if-nth p is)
      ∙ count_if-is p

  indices-AreDistinct : AreDistinct (nth samples) is
  indices-AreDistinct k =
      rw (count_if-is (λ i. nth samples i == k), count_if-nth (λ s. s == k) samples) (distinct k)

  ranks-AreDistinct : AreDistinct (nth is) (ranks_of samples)
  unfolding ranks_of
  ranks-AreDistinct k =
      rw (count_if-sort_by (nth is) (λ i. nth is i == k) is, count_if-nth_is (λ i. i == k))
        (range-AreDistinct (length samples) k)

  is-below : All (λ i. i < length samples) is
  unfolding indices_of
  is-below =
      All-sort_by (nth samples) (λ i. i < length samples) _
        (range-below 0 (length samples) (length samples) (omega arith))

  ranks-below : All (λ i. i < length samples) (ranks_of samples)
  unfolding ranks_of
  ranks-below = All-sort_by (nth is) (λ i. i < length samples) is is-below

  pub length-ranks : length (ranks_of samples) ≡ length samples
  unfolding ranks_of
  length-ranks = length-sort_by (nth is) is ∙ length-is

  -- The second list of places is the inverse of the first.
  nth-ranks_inverse : (p : ℕ) → p < length samples → nth is (nth (ranks_of samples) p) ≡ p
  unfolding ranks_of
  nth-ranks_inverse p lt =
      let r = nth (ranks_of samples) p in
      let below =
        All-nth (λ i. i < length samples) (ranks_of samples) p ranks-below (rw length-ranks lt) in
      let small = All-nth (λ i. i < length samples) is r is-below (rw length-is below) in
      let at =
        place (nth is) (ranks_of samples) p (sort_by-InOrder (nth is) is) ranks-AreDistinct
          (rw length-ranks lt) in
      let all =
        count_if-sort_by (nth is) (λ i. ltb (nth is i) (nth is r)) is
        ∙ count_if-nth_is (λ i. ltb i (nth is r)) in
      sym (count_if-below (nth is r) (length samples) (omega (arith, small))) ∙ sym all ∙ at

  -- The rank of a sample is the number of smaller samples.
  pub nth-ranks_of :
      (p : ℕ)
      → p < length samples
      → nth (ranks_of samples) p ≡ count_if (λ s. ltb s (nth samples p)) samples
  unfolding indices_of
  nth-ranks_of p lt =
      let r = nth (ranks_of samples) p in
      let below =
        All-nth (λ i. i < length samples) (ranks_of samples) p ranks-below (rw length-ranks lt) in
      let at =
        place (nth samples) is r (sort_by-InOrder (nth samples) (range_from 0 (length samples)))
          indices-AreDistinct (rw length-is below) in
      let all =
        count_if-is (λ i. ltb (nth samples i) (nth samples p))
        ∙ count_if-nth (λ s. ltb s (nth samples p)) samples in
      sym (rw (nth-ranks_inverse p lt) at at) ∙ all
