-- ===== src/Metrics/Sinr/Sources.antt =====
-- Whose power `Channel.calculate_sinr` adds up.
use implementing_5g_nr_u_lte.Common.{
  ℕ, zero, suc, ◌+◌, ◌≤◌, ◌<◌, ◌≡◌, refl, arith, ap, ◌∙◌, Bool, not, ◌&&◌, List, [], ◌∷◌, ◌++◌, map,
  ◌==◌, if◌then◌else◌, for_each, range_from, count, Bool-cases, inl, inr, ==→eq, ==-false→ne,
}
use implementing_5g_nr_u_lte.Data.{Channel}
use implementing_5g_nr_u_lte.Metrics.Sinr.{
  Floats, Node, station, gnb, listed, disturbs, add_interference, all_nodes, calculate_sinr,
  noise_floor_dbm, transmit_power_dbm,
}

-- 1 for a number that stands on the list, else 0.
abbrev pub presence : ℕ → List ℕ → ℕ
presence x xs = if count x xs == 0 then 0 else 1

-- How many of the `n` numbers from `a` on stand on the list.
unfoldable pub members : List ℕ → (a n : ℕ) → ℕ
members xs a zero = 0
members xs a (suc n) = presence a xs + members xs (a + 1) n

-- How many of them pass a test.
tally : (ℕ → Bool) → (a n : ℕ) → ℕ
tally test a zero = 0
tally test a (suc n) = (if test a then 1 else 0) + tally test (a + 1) n

tally-listed : (xs : List ℕ) (a n : ℕ) → tally (λ x. listed x xs) a n ≡ members xs a n
unfolding tally members
tally-listed xs a zero = refl
tally-listed xs a (suc n) = ground (arith, tally-listed xs (a + 1) n)

abbrev other_than : ℕ → List ℕ → ℕ → Bool
other_than i xs x = not (x == i) && listed x xs

tally-others_above :
    (xs : List ℕ) (i a n : ℕ) → i < a → tally (other_than i xs) a n ≡ members xs a n
unfolding tally members
tally-others_above xs i a zero h = refl
tally-others_above xs i a (suc n) h =
    let more = tally-others_above xs i (a + 1) n (omega arith) in ground arith

tally-others :
    (xs : List ℕ) (i a n : ℕ)
    → a ≤ i
    → i < a + n
    → tally (other_than i xs) a n + presence i xs ≡ members xs a n
unfolding tally members
tally-others xs i a zero h k = absurd (omega arith)
tally-others xs i a (suc n) h k = elim (Bool-cases (a == i)) [
  | inl e ↦
      let same = ==→eq a i e in
      let more = tally-others_above xs i (a + 1) n (omega arith) in rw (e, more, same) (omega arith)
  | inr e ↦
      let ne = ==-false→ne a i e in
      let more = tally-others xs i (a + 1) n (ground arith) (omega arith) in ground arith
]

module _ (f : Floats) where
  open f use {Float, of_nat, plus, over, is_positive, ten_to_tenth, ten_log10}

  -- A power, added `k` times.
  pub raised_by : ℕ → Float → Float
  raised_by zero power = power
  raised_by (suc k) power = raised_by k (plus power (ten_to_tenth transmit_power_dbm))

  -- The ratio for `k` sources of interference.
  abbrev pub ratio_with : ℕ → Float
  ratio_with k =
      let total = plus (raised_by k (of_nat 0)) (ten_to_tenth noise_floor_dbm) in
      if is_positive total
      then ten_log10 (over (ten_to_tenth transmit_power_dbm) total)
      else of_nat 100

  module _ (c : Channel) (node : Node) where
    -- The nodes of a list that the loop adds the power of.
    disturbers : List Node → ℕ
    disturbers [] = 0
    disturbers (x ∷ xs) = if disturbs f c node x then suc (disturbers xs) else disturbers xs

    interference_lem :
        (xs : List Node) (power : Float)
        → for_each xs (add_interference f c node) power ≡ raised_by (disturbers xs) power
    unfolding for_each disturbers raised_by
    interference_lem [] power = refl
    interference_lem (x ∷ xs) power = elim (Bool-cases (disturbs f c node x)) [
      | inl e ↦ rw e (interference_lem xs _)
      | inr e ↦ rw e (interference_lem xs power)
    ]

    disturbers-append : (xs ys : List Node) → disturbers (xs ++ ys) ≡ disturbers xs + disturbers ys
    unfolding disturbers
    disturbers-append [] ys = omega arith
    disturbers-append (x ∷ xs) ys = ground (arith, disturbers-append xs ys)

    disturbers-map :
        (make : ℕ → Node) (a n : ℕ)
        → disturbers (map make (range_from a n)) ≡ tally (λ x. disturbs f c node (make x)) a n
    unfolding disturbers tally range_from
    disturbers-map make a zero = refl
    disturbers-map make a (suc n) = ground (arith, disturbers-map make (a + 1) n)

    disturbers-all_nodes :
        (n m : ℕ)
        → disturbers (all_nodes n m)
          ≡ tally (λ x. disturbs f c node (station x)) 0 n
            + tally (λ x. disturbs f c node (gnb x)) 0 m
    disturbers-all_nodes n m = omega (
      arith,
      disturbers-append (map station (range_from 0 n)) (map gnb (range_from 0 m)),
      disturbers-map station 0 n,
      disturbers-map gnb 0 m,
    )

    calculate_sinr-disturbers :
        (xs : List Node) → calculate_sinr f c node xs ≡ ratio_with (disturbers xs)
    unfolding calculate_sinr
    calculate_sinr-disturbers xs = rw (interference_lem xs (of_nat 0)) refl

  -- A node of the simulation is disturbed by as many others as there are stations on `tx_list` and
  -- gNBs on `tx_list_NR`, itself not counted, and each adds the same power: that makes the ratio of
  -- signal to interference and noise, for station `i` of `n` and gNB `j` of `m`.
  pub calculate_sinr_lem :
      (c : Channel) (n m i j k l : ℕ)
      → i < n
      → j < m
      → k + presence i c.tx_list ≡ members c.tx_list 0 n + members c.tx_list_nr 0 m
      → l + presence j c.tx_list_nr ≡ members c.tx_list 0 n + members c.tx_list_nr 0 m
      → (calculate_sinr f c (station i) (all_nodes n m) ≡ ratio_with k)
        × (calculate_sinr f c (gnb j) (all_nodes n m) ≡ ratio_with l)
  calculate_sinr_lem c n m i j k l hi hj hk hl =
      let stations = tally-others c.tx_list i 0 n (omega arith) (omega arith) in
      let gnbs = tally-others c.tx_list_nr j 0 m (omega arith) (omega arith) in
      let all_stations = tally-listed c.tx_list 0 n in
      let all_gnbs = tally-listed c.tx_list_nr 0 m in
      let split = disturbers-all_nodes c (station i) n m in
      let split_nr = disturbers-all_nodes c (gnb j) n m in
      let at_station : disturbers c (station i) (all_nodes n m) ≡ k = omega arith in
      let at_gnb : disturbers c (gnb j) (all_nodes n m) ≡ l = omega arith in
      (
        calculate_sinr-disturbers c (station i) (all_nodes n m) ∙ ap ratio_with at_station,
        calculate_sinr-disturbers c (gnb j) (all_nodes n m) ∙ ap ratio_with at_gnb,
      )
