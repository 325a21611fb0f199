-- ===== src/Common/Lists.antt =====
-- Lists measured by native numbers, and Python's `list.remove`.
use Prim.Native.Nat.{ℕ, zero, suc, ◌+◌, ◌*◌, ◌<◌}
use mathlib.Core.Path.{◌≡◌, refl, ap}
use mathlib.Core.List.{List, [], ◌∷◌, ◌++◌}
use mathlib.Core.Option
use mathlib.Core.Option.{Option, none, some}
use native.Mathlib.Omega.{arith}
use implementing_5g_nr_u_lte.Common.Tests.{◌==◌, if◌then◌else◌, Bool-cases}
use mathlib.Core.Logic.{◌≢◌, inl, inr}

module _ {ℓ} {A : Type ℓ} where
  abbrev pub length : List A → ℕ
  length [] = 0
  length (x ∷ xs) = suc (length xs)

  pub length-append : (xs ys : List A) → length (xs ++ ys) ≡ length xs + length ys
  length-append [] ys = omega arith
  length-append (x ∷ xs) ys = omega (arith, length-append xs ys)

-- `list.remove(x)`: the first occurrence goes; `none` stands for the ValueError of a missing one.
unfoldable pub remove : ℕ → List ℕ → Option (List ℕ)
remove x [] = none
remove x (y ∷ ys) = if y == x then some ys else Option.map (λ r. y ∷ r) (remove x ys)

-- How often a node stands in a list.
unfoldable pub count : ℕ → List ℕ → ℕ
count x [] = 0
count x (y ∷ ys) = if y == x then suc (count x ys) else count x ys

pub count-append : (x : ℕ) (xs ys : List ℕ) → count x (xs ++ ys) ≡ count x xs + count x ys
unfolding count
count-append x [] ys = omega arith
count-append x (y ∷ xs) ys = ground (arith, count-append x xs ys)

-- Removal takes exactly one occurrence.
pub count-remove :
    (x : ℕ) (xs : List ℕ) {r : List ℕ} → remove x xs ≡ some r → suc (count x r) ≡ count x xs
unfolding remove count
count-remove x [] h = ground arith
count-remove x (y ∷ ys) {r} h = go (remove x ys) (λ s. count-remove x ys {r = s}) h
  where
    go :
        (o : Option (List ℕ))
        → ((s : List ℕ) → o ≡ some s → suc (count x s) ≡ count x ys)
        → (if y == x then some ys else Option.map (λ s. y ∷ s) o) ≡ some r
        → suc (count x r) ≡ count x (y ∷ ys)
    go none f e = ground arith
    go (some s) f e = ground (arith, f s)

-- Removal leaves the others.
pub count-remove_other :
    (y x : ℕ) (xs : List ℕ) {r : List ℕ} → y ≢ x → remove y xs ≡ some r → count x r ≡ count x xs
unfolding remove count
count-remove_other y x [] ne h = ground arith
count-remove_other y x (z ∷ zs) {r} ne h =
    go (remove y zs) (λ s. count-remove_other y x zs {r = s} ne) h
  where
    go :
        (o : Option (List ℕ))
        → ((s : List ℕ) → o ≡ some s → count x s ≡ count x zs)
        → (if z == y then some zs else Option.map (λ s. z ∷ s) o) ≡ some r
        → count x r ≡ count x (z ∷ zs)
    go none f e = ground arith
    go (some s) f e = ground (arith, f s)

-- What is listed can be removed.
pub remove-some : (x : ℕ) (xs : List ℕ) → 0 < count x xs → (r : List ℕ) × (remove x xs ≡ some r)
unfolding remove count
remove-some x [] h = elim h [ ]
remove-some x (y ∷ ys) h = elim (Bool-cases (y == x)) [
  | inl e ↦ (ys, rw e refl)
  | inr e ↦ let (r, er) = remove-some x ys (rw e at h) in (y ∷ r, rw (e, er) refl)
]

-- `list.append`.
pub count-append_self : (x : ℕ) (xs : List ℕ) → count x (xs ++ x ∷ []) ≡ suc (count x xs)
unfolding count
count-append_self x xs = ground (arith, count-append x xs (x ∷ []))

-- `for x in xs: s = body(x, s)`
unfoldable pub for_each {ℓ κ} : {A : Type ℓ} {S : Type κ} → List A → (A → S → S) → S → S
for_each [] body s = s
for_each (x ∷ xs) body s = for_each xs body (body x s)

-- What the body keeps, the loop keeps.
pub for_each_inv {ℓ κ μ} :
    {A : Type ℓ} {S : Type κ} (P : S → Type μ) (xs : List A) (body : A → S → S)
    → ((x : A) (s : S) → P s → P (body x s))
    → (s : S) → P s
    → P (for_each xs body s)
unfolding for_each
for_each_inv P [] body keep s h = h
for_each_inv P (x ∷ xs) body keep s h = for_each_inv P xs body keep (body x s) (keep x s h)

-- A measure that grows by `k` in each round grows by `k` times the rounds.
pub for_each_grows {ℓ κ} :
    {A : Type ℓ} {S : Type κ} (m : S → ℕ) (k : ℕ) (xs : List A) (body : A → S → S)
    → ((x : A) (s : S) → m (body x s) ≡ m s + k)
    → (s : S) → m (for_each xs body s) ≡ m s + length xs * k
unfolding for_each
for_each_grows m k [] body h s = omega arith
for_each_grows m k (x ∷ xs) body h s = omega (arith, h x s, for_each_grows m k xs body h (body x s))

-- `range(i, i + n)`
unfoldable pub range_from : ℕ → ℕ → List ℕ
range_from i zero = []
range_from i (suc n) = i ∷ range_from (i + 1) n

pub length-range_from : (i n : ℕ) → length (range_from i n) ≡ n
unfolding range_from
length-range_from i zero = refl
length-range_from i (suc n) = ap suc (length-range_from (i + 1) n)

-- A predicate on all members.
abbrev pub All {ℓ κ} : {A : Type ℓ} → (A → Type κ) → List A → Type κ
All P [] = Unit
All P (x ∷ xs) = P x × All P xs

pub All-append_one {ℓ κ} :
    {A : Type ℓ} (P : A → Type κ) (xs : List A) (x : A) → All P xs → P x → All P (xs ++ x ∷ [])
All-append_one P [] x h p = (p, tt)
All-append_one P (y ∷ xs) x h p = (h.0, All-append_one P xs x h.1 p)

pub All-map {ℓ κ μ} :
    {A : Type ℓ} (P : A → Type κ) (Q : A → Type μ)
    → ((x : A) → P x → Q x)
    → (xs : List A) → All P xs
    → All Q xs
All-map P Q f [] h = tt
All-map P Q f (x ∷ xs) h = (f x h.0, All-map P Q f xs h.1)
