-- ===== src/Sampling/Order.antt =====
-- A list in order: `sorted` keeps what is counted and puts an element at the place that says how
-- many are before it.
use implementing_5g_nr_u_lte.Common.{
  ℕ, zero, suc, ◌<◌, ◌≤◌, ◌≡◌, refl, arith, Bool, List, [], ◌∷◌, length, leb, ltb, ◌==◌, All,
  if◌then◌else◌, Bool-cases, inl, inr,
}
use implementing_5g_nr_u_lte.Sampling.{nth, insert_by, sort_by}

unfoldable pub count_if : (ℕ → Bool) → List ℕ → ℕ
count_if p [] = 0
count_if p (x ∷ xs) = if p x then suc (count_if p xs) else count_if p xs

-- No two have the same key.
abbrev pub AreDistinct : (ℕ → ℕ) → List ℕ → Type 0
AreDistinct key xs = (k : ℕ) → count_if (λ y. key y == k) xs ≤ 1

abbrev pub InOrder : (ℕ → ℕ) → List ℕ → Type 0
InOrder key [] = Unit
InOrder key (x ∷ xs) = All (λ y. key x ≤ key y) xs × InOrder key xs

pub All-nth : (P : ℕ → Type 0) (ys : List ℕ) (i : ℕ) → All P ys → i < length ys → P (nth ys i)
unfolding nth
All-nth P [] i h lt = ground arith
All-nth P (y ∷ ys) zero h lt = h.0
All-nth P (y ∷ ys) (suc i) h lt = All-nth P ys i h.1 (omega (arith, lt))

module _ (key : ℕ → ℕ) where
  count_if-insert_by :
      (p : ℕ → Bool) (x : ℕ) (ys : List ℕ) → count_if p (insert_by key x ys) ≡ count_if p (x ∷ ys)
  unfolding count_if insert_by
  count_if-insert_by p x [] = refl
  count_if-insert_by p x (y ∷ ys) = ground (arith, count_if-insert_by p x ys)

  pub count_if-sort_by : (p : ℕ → Bool) (xs : List ℕ) → count_if p (sort_by key xs) ≡ count_if p xs
  unfolding count_if sort_by
  count_if-sort_by p [] = refl
  count_if-sort_by p (x ∷ xs) =
      ground (arith, count_if-insert_by p x (sort_by key xs), count_if-sort_by p xs)

  All-insert_by :
      (P : ℕ → Type 0) (x : ℕ) (ys : List ℕ) → P x → All P ys → All P (insert_by key x ys)
  unfolding insert_by
  All-insert_by P x [] h hs = (h, tt)
  All-insert_by P x (y ∷ ys) h hs = elim (Bool-cases (leb (key x) (key y))) [
    | inl e ↦ rw e (h, hs)
    | inr e ↦ rw e (hs.0, All-insert_by P x ys h hs.1)
  ]

  pub All-sort_by : (P : ℕ → Type 0) (xs : List ℕ) → All P xs → All P (sort_by key xs)
  unfolding sort_by
  All-sort_by P [] h = tt
  All-sort_by P (x ∷ xs) h = All-insert_by P x (sort_by key xs) h.0 (All-sort_by P xs h.1)

  length-insert_by : (x : ℕ) (ys : List ℕ) → length (insert_by key x ys) ≡ suc (length ys)
  unfolding insert_by
  length-insert_by x [] = refl
  length-insert_by x (y ∷ ys) = ground (arith, length-insert_by x ys)

  pub length-sort_by : (xs : List ℕ) → length (sort_by key xs) ≡ length xs
  unfolding sort_by
  length-sort_by [] = refl
  length-sort_by (x ∷ xs) = omega (arith, length-insert_by x (sort_by key xs), length-sort_by xs)

  above : (a b : ℕ) (ys : List ℕ) → a ≤ b → All (λ y. b ≤ key y) ys → All (λ y. a ≤ key y) ys
  above a b [] le h = tt
  above a b (y ∷ ys) le h = (omega (arith, le, h.0), above a b ys le h.1)

  insert_by-InOrder : (x : ℕ) (ys : List ℕ) → InOrder key ys → InOrder key (insert_by key x ys)
  unfolding insert_by
  insert_by-InOrder x [] h = (tt, tt)
  insert_by-InOrder x (y ∷ ys) h = elim (Bool-cases (leb (key x) (key y))) [
    | inl e ↦
        let le : key x ≤ key y = ground (arith, e) in
        rw e ((le, above (key x) (key y) ys le h.0), h)
    | inr e ↦
        let le : key y ≤ key x = ground (arith, e) in
        rw e (All-insert_by (λ z. key y ≤ key z) x ys le h.0, insert_by-InOrder x ys h.1)
  ]

  pub sort_by-InOrder : (xs : List ℕ) → InOrder key (sort_by key xs)
  unfolding sort_by
  sort_by-InOrder [] = tt
  sort_by-InOrder (x ∷ xs) = insert_by-InOrder x (sort_by key xs) (sort_by-InOrder xs)

  pub AreDistinct-tail : (y : ℕ) (ys : List ℕ) → AreDistinct key (y ∷ ys) → AreDistinct key ys
  unfolding count_if
  AreDistinct-tail y ys d k = let all = d k in ground arith

  none_below :
      (k : ℕ) (ys : List ℕ) → All (λ y. k ≤ key y) ys → count_if (λ y. ltb (key y) k) ys ≡ 0
  unfolding count_if
  none_below k [] h = refl
  none_below k (y ∷ ys) h = ground (arith, h.0, none_below k ys h.1)

  pub found : (ys : List ℕ) (i : ℕ) → i < length ys → 0 < count_if (λ y. key y == key (nth ys i)) ys
  unfolding count_if nth
  found [] i h = ground arith
  found (y ∷ ys) zero h = ground arith
  found (y ∷ ys) (suc i) h = ground (arith, found ys i)

  -- Who comes first has the smallest key, and no other has the same.
  first_below :
      (y : ℕ) (ys : List ℕ) (i : ℕ)
      → InOrder key (y ∷ ys)
      → AreDistinct key (y ∷ ys)
      → i < length ys
      → key y < key (nth ys i)
  unfolding count_if
  first_below y ys i o d h =
      let le = All-nth (λ z. key y ≤ key z) ys i o.0 h in
      let one = d (key (nth ys i)) in let two = found ys i h in ground arith

  -- The element at a place has as many before it as the place says.
  pub place :
      (ys : List ℕ) (i : ℕ)
      → InOrder key ys
      → AreDistinct key ys
      → i < length ys
      → count_if (λ y. ltb (key y) (key (nth ys i))) ys ≡ i
  unfolding count_if nth
  place [] i o d h = ground arith
  place (y ∷ ys) zero o d h = ground (arith, none_below (key y) ys o.0)
  place (y ∷ ys) (suc i) o d h =
      let lt : i < length ys = omega (arith, h) in
      let rest = place ys i o.1 (AreDistinct-tail y ys d) lt in
      let less = first_below y ys i o d lt in ground arith
