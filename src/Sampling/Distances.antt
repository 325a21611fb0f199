-- ===== src/Sampling/Distances.antt =====
-- How far apart the numbers of `random_sample` are, where `random.sample` does what it is
-- documented to do.
use native.Mathlib.Nat.{mul-le-mul_left}
use implementing_5g_nr_u_lte.Common.{
  ℕ, zero, suc, ◌+◌, ◌-◌, ◌*◌, ◌<◌, ◌≤◌, ◌≡◌, ◌≢◌, ◌⊎◌, inl, inr, refl, sym, ap, ◌∙◌, arith,
  int_laws, true, ℤ, pos, ◌+ℤ◌, ◌≤ℤ◌, ltb_ℤ, List, [], ◌∷◌, map, length, ltb, ◌==◌, All, All-map,
  subst, Outcome, ok, Bool-cases,
}
use implementing_5g_nr_u_lte.Sampling.{nth, ranks_of, spread_one, population, random_sample}
use implementing_5g_nr_u_lte.Sampling.Order.{
  count_if, AreDistinct, AreDistinct-tail, All-nth, found,
}
use implementing_5g_nr_u_lte.Sampling.Ranks.{nth-ranks_of, length-ranks}
use implementing_5g_nr_u_lte.Sampling.Places.{
  All-places, same_places, spread-map, count_if-suc, count_if_everyone, count_if-length,
  below_difference, All-of_map, length-map, differs,
}

abbrev pub Apart : ℕ → ℤ → ℤ → Type 0
Apart d a b = (a +ℤ pos d ≤ℤ b) ⊎ (b +ℤ pos d ≤ℤ a)

-- Any two are apart.
abbrev pub IsSpread : ℕ → List ℤ → Type 0
IsSpread d [] = Unit
IsSpread d (r ∷ rs) = All (Apart d r) rs × IsSpread d rs

module _ (samples : List ℕ) (distinct : AreDistinct (λ s. s) samples) where
  abbrev rank : ℕ → ℕ
  rank s = count_if (λ t. ltb t s) samples

  -- From `a` to `a + m` there are at most `m` samples.
  rank-grows : (a m : ℕ) → (rank a ≤ rank (a + m)) × (rank (a + m) ≤ rank a + m)
  rank-grows a zero = let same : a + zero ≡ a = omega arith in rw same (omega arith, omega arith)
  rank-grows a (suc m) =
      let (low, high) = rank-grows a m in
      let step = count_if-suc (a + m) samples in
      let same : a + suc m ≡ suc (a + m) = omega arith in
      (rw same (omega (arith, step, low)), rw same (omega (arith, step, distinct (a + m), high)))

  rank_diff : (a b : ℕ) → a ≤ b → (rank a ≤ rank b) × (rank b + a ≤ rank a + b)
  rank_diff a b le =
      let (low, high) = rank-grows a (b - a) in
      let same : a + (b - a) ≡ b = omega (arith, le) in
      let low' = rw same at low in let high' = rw same at high in (low', omega (arith, high', le))

  rank-zero : (xs : List ℕ) → count_if (λ t. ltb t 0) xs ≡ 0
  unfolding count_if
  rank-zero [] = refl
  rank-zero (x ∷ xs) = ground (arith, rank-zero xs)

  rank-le : (s : ℕ) → rank s ≤ s
  rank-le s = omega (arith, (rank_diff 0 s (omega arith)).1, rank-zero samples)

  -- The rank of a sample goes up with the sample.
  rank-less : (s t : ℕ) → 0 < count_if (λ u. u == s) samples → s < t → suc (rank s) ≤ rank t
  rank-less s t here lt =
      omega (arith, count_if-suc s samples, here, (rank_diff (suc s) t (omega (arith, lt))).0)

  module _ (d : ℕ) where
    abbrev value : ℕ → ℤ
    value s = spread_one d s (rank s)

    steps : (a b : ℕ) → suc a ≤ b → d * a + d ≤ d * b
    steps a b le = omega (arith, mul-le-mul_left d le)

    value-Apart :
        (s t : ℕ) → 0 < count_if (λ u. u == s) samples → s < t → value s +ℤ pos d ≤ℤ value t
    value-Apart s t here lt =
        let more = steps (rank s) (rank t) (rank-less s t here lt) in
        let near = (rank_diff s t (omega (arith, lt))).1 in omega (int_laws, more, near)

    abbrev InRange : ℕ → ℕ → Type 0
    InRange max t = ltb_ℤ (pos t) (population max (length samples) d) ≡ true

    value-range :
        (max s : ℕ)
        → 0 < count_if (λ u. u == s) samples
        → InRange max s
        → All (InRange max) samples
        → (pos 0 ≤ℤ value s) × (value s +ℤ pos 1 ≤ℤ pos max)
    value-range max s here own below =
        let n = length samples in
        let a = max + n + d in
        let b = d * n + 1 in
        let own' = below_difference s a b own in
        let all = count_if_everyone (a - b) samples (
          All-map (InRange max) (λ t. t < a - b) (λ t h. omega (arith, below_difference t a b h))
            samples below) in
        let more = (rank_diff s (a - b) (omega (arith, own'))).1 in
        let some_more = steps (rank s) n (
          omega
            (arith, count_if-suc s samples, here, count_if-length (λ t. ltb t (suc s)) samples)) in
        (omega (int_laws, rank-le s), omega (int_laws, own', all, more, some_more))

    Present : ℕ → Type 0
    Present s = 0 < count_if (λ u. u == s) samples

    value-either : (s t : ℕ) → Present s → Present t → t ≢ s → Apart d (value s) (value t)
    unfolding Present
    value-either s t h k ne = elim (Bool-cases (ltb s t)) [
      | inl e ↦ inl (value-Apart s t h (ground (arith, e)))
      | inr e ↦ inr (value-Apart t s k (ground (arith, e, ne)))
    ]

    values-IsSpread :
        (xs : List ℕ) → AreDistinct (λ s. s) xs → All Present xs → IsSpread d (map value xs)
    values-IsSpread [] one h = tt
    values-IsSpread (x ∷ xs) one h = (
      All-of_map (Apart d (value x)) value xs (
          All-places (λ y. Apart d (value x) (value y)) xs
            λ i lt.
              value-either x (nth xs i) h.0 (All-nth Present xs i h.1 lt) (differs x xs i one lt)),
      values-IsSpread xs (AreDistinct-tail (λ s. s) x xs one) h.1,
    )

    present : All Present samples
    unfolding Present
    present = All-places Present samples (found (λ s. s) samples)

    abbrev Within : ℕ → ℤ → Type 0
    Within max r = (pos 0 ≤ℤ r) × (r +ℤ pos 1 ≤ℤ pos max)

    values-Within : (max : ℕ) → All (InRange max) samples → All (Within max) (map value samples)
    unfolding Present
    values-Within max below = All-of_map (Within max) value samples (
        All-places (λ s. Within max (value s)) samples
          λ i lt.
            value-range max (nth samples i) (All-nth Present samples i present lt)
              (All-nth (InRange max) samples i below lt) below)

-- `random.sample(range(n), k)`: `k` different numbers below `n`, or an exception.
module _ (sample : ℤ → ℕ → Outcome (List ℕ))
    (chosen : (n : ℤ) (k : ℕ) (xs : List ℕ)
      → sample n k ≡ ok xs
      → (length xs ≡ k) × All (λ x. ltb_ℤ (pos x) n ≡ true) xs × AreDistinct (λ x. x) xs) where
  -- Where `random.sample` gives that many different numbers of its range, `random_sample` ends with
  -- `number` numbers from 0 to below `max`, any two of which are at least `min_distance` apart.
  pub random_sample-IsSpread :
      (max number min_distance : ℕ) (samples : List ℕ)
      → sample (population max number min_distance) number ≡ ok samples
      → (results : List ℤ) × (random_sample sample max number min_distance ≡ ok results)
        × (length results ≡ number)
        × All (λ r. (pos 0 ≤ℤ r) × (r +ℤ pos 1 ≤ℤ pos max)) results
        × IsSpread min_distance results
  unfolding random_sample
  random_sample-IsSpread max number min_distance samples e =
      let (len, below, distinct) = chosen (population max number min_distance) number samples e in
      let ranked : ranks_of samples ≡ map (rank samples distinct) samples =
        same_places (rank samples distinct) samples (ranks_of samples)
          (length-ranks samples distinct) (nth-ranks_of samples distinct) in
      (
        map (value samples distinct min_distance) samples,
        rw (e, ranked) (ap ok (spread-map min_distance (rank samples distinct) samples)),
        length-map _ samples ∙ len,
        values-Within samples distinct min_distance max (
            subst (λ n. All (λ x. ltb_ℤ (pos x) (population max n min_distance) ≡ true) samples)
              (sym len) below),
        values-IsSpread samples distinct min_distance samples distinct
            (present samples distinct min_distance),
      )
