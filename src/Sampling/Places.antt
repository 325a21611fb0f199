-- ===== src/Sampling/Places.antt =====
-- Lists by their places, and how many elements pass a test.
use implementing_5g_nr_u_lte.Common.{
  ℕ, suc, ◌+◌, ◌<◌, ◌≤◌, ◌≡◌, ◌≢◌, refl, ap, arith, Bool, true, pos, ◌-ℤ◌, ltb_ℤ, List, [], ◌∷◌,
  map, length, ltb, ◌==◌, All,
}
use implementing_5g_nr_u_lte.Sampling.{nth, spread_one, spread}
use implementing_5g_nr_u_lte.Sampling.Order.{count_if, AreDistinct, found}

-- What holds at all places holds of all.
pub All-places :
    (P : ℕ → Type 0) (ys : List ℕ) → ((i : ℕ) → i < length ys → P (nth ys i)) → All P ys
unfolding nth
All-places P [] h = tt
All-places P (y ∷ ys) h = (h 0 (omega arith), All-places P ys λ i lt. h (suc i) (omega (arith, lt)))

pub same_places :
    (f : ℕ → ℕ) (xs ys : List ℕ)
    → length ys ≡ length xs
    → ((i : ℕ) → i < length xs → nth ys i ≡ f (nth xs i))
    → ys ≡ map f xs
unfolding nth
same_places f [] [] l h = refl
same_places f [] (y ∷ ys) l h = cc
same_places f (x ∷ xs) [] l h = cc
same_places f (x ∷ xs) (y ∷ ys) l h =
    let rest = same_places f xs ys (omega (arith, l)) λ i lt. h (suc i) (omega (arith, lt)) in
    rw (h 0 (omega arith), rest) refl

pub spread-map :
    (d : ℕ) (f : ℕ → ℕ) (xs : List ℕ) → spread d xs (map f xs) ≡ map (λ s. spread_one d s (f s)) xs
unfolding spread
spread-map d f [] = refl
spread-map d f (x ∷ xs) = ap (λ rest. spread_one d x (f x) ∷ rest) (spread-map d f xs)

-- The numbers below one more than `c` are those below `c` and `c`.
pub count_if-suc :
    (c : ℕ) (xs : List ℕ)
    → count_if (λ s. ltb s (suc c)) xs ≡ count_if (λ s. ltb s c) xs + count_if (λ s. s == c) xs
unfolding count_if
count_if-suc c [] = refl
count_if-suc c (x ∷ xs) = ground (arith, count_if-suc c xs)

pub count_if_everyone :
    (top : ℕ) (xs : List ℕ) → All (λ s. s < top) xs → count_if (λ s. ltb s top) xs ≡ length xs
unfolding count_if
count_if_everyone top [] h = refl
count_if_everyone top (x ∷ xs) h = ground (arith, h.0, count_if_everyone top xs h.1)

pub count_if-length : (p : ℕ → Bool) (xs : List ℕ) → count_if p xs ≤ length xs
unfolding count_if
count_if-length p [] = omega arith
count_if-length p (x ∷ xs) = ground (arith, count_if-length p xs)

pub below_difference : (t a b : ℕ) → ltb_ℤ (pos t) (pos a -ℤ pos b) ≡ true → t + b < a
unfolding ◌-ℤ◌
below_difference t a b h = ground arith

pub All-of_map :
    {A : Type 0} (P : A → Type 0) (f : ℕ → A) (xs : List ℕ)
    → All (λ x. P (f x)) xs
    → All P (map f xs)
All-of_map P f [] h = tt
All-of_map P f (x ∷ xs) h = (h.0, All-of_map P f xs h.1)

pub length-map : {A : Type 0} (f : ℕ → A) (xs : List ℕ) → length (map f xs) ≡ length xs
length-map f [] = refl
length-map f (x ∷ xs) = ap suc (length-map f xs)

-- No other element is the same as the first.
pub differs :
    (x : ℕ) (xs : List ℕ) (i : ℕ) → AreDistinct (λ s. s) (x ∷ xs) → i < length xs → nth xs i ≢ x
unfolding count_if
differs x xs i d lt e = let one = d x in let more = rw e at (found (λ s. s) xs i lt) in ground arith
