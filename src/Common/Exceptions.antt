-- ===== src/Common/Exceptions.antt =====
-- Python code that may raise: the value, or the exception that ends the simulation.
use Prim.Native.Nat.{ℕ, ◌+◌, ◌*◌}
use mathlib.Core.Path.{◌≡◌, refl}
use mathlib.Core.Logic.{◌⊎◌, inl, inr}
use mathlib.Core.List.{List, [], ◌∷◌}
use native.Mathlib.Omega.{arith}
use implementing_5g_nr_u_lte.Common.Lists.{length}
use mathlib.Core.Option.{Option, none, some}

pub data Error : Type 0 where
  key_error value_error attribute_error name_error assertion_error empty_data_error
        zero_division_error :
      Error
  -- The loop did not end within the fuel.
  no_end : Error
  -- SimPy never resumes a process in this way.
  not_delivered : Error

pub data Outcome {ℓ} (A : Type ℓ) : Type ℓ where
  ok : A → Outcome A
  raised : Error → Outcome A

infixl 5 ◌>>=◌
abbrev pub ◌>>=◌ {ℓ κ} : {A : Type ℓ} {B : Type κ} → Outcome A → (A → Outcome B) → Outcome B
ok a >>= f = f a
raised e >>= f = raised e

abbrev pub or_raise {ℓ} : {A : Type ℓ} → Option A → Error → Outcome A
or_raise none e = raised e
or_raise (some a) e = ok a

-- What a chain that does not raise has gone through.
pub >>=-eq-ok {ℓ κ} :
    {A : Type ℓ} {B : Type κ} (first : Outcome A) (next : A → Outcome B) {result : B}
    → (first >>= next) ≡ ok result
    → (x : A) × (first ≡ ok x) × (next x ≡ ok result)
>>=-eq-ok (raised _) next e = cc
>>=-eq-ok (ok x) next e = (x, refl, e)

pub outcome_cases {ℓ} :
    {A : Type ℓ} (o : Outcome A) → ((a : A) × (o ≡ ok a)) ⊎ ((e : Error) × (o ≡ raised e))
outcome_cases (ok a) = inl (a, refl)
outcome_cases (raised e) = inr (e, refl)

pub or_raise-eq-ok {ℓ} :
    {A : Type ℓ} (o : Option A) (e : Error) {a : A} → or_raise o e ≡ ok a → o ≡ some a
or_raise-eq-ok none e h = cc
or_raise-eq-ok (some a) e h = cc

pub ok-injective {ℓ} : {A : Type ℓ} {a b : A} → ok a ≡ ok b → a ≡ b
ok-injective h = cc

-- `for x in xs: s = body(x, s)`, where an exception ends the loop.
unfoldable pub try_each {ℓ κ} :
    {A : Type ℓ} {S : Type κ} → List A → (A → S → Outcome S) → S → Outcome S
try_each [] body s = ok s
try_each (x ∷ xs) body s = body x s >>= try_each xs body

-- What the body keeps, the loop keeps, and it ends if no body raises.
pub try_each_inv {ℓ κ μ} :
    {A : Type ℓ} {S : Type κ} (P : S → Type μ) (xs : List A) (body : A → S → Outcome S)
    → ((x : A) (s : S) → P s → (t : S) × (body x s ≡ ok t) × P t)
    → (s : S) → P s
    → (t : S) × (try_each xs body s ≡ ok t) × P t
unfolding try_each
try_each_inv P [] body keep s h = (s, refl, h)
try_each_inv P (x ∷ xs) body keep s h =
    let (t, e, p) = keep x s h in let (u, f, q) = try_each_inv P xs body keep t p in (u, rw e f, q)

-- A measure that grows by `k` in each round grows by `k` times the rounds.
pub try_each_grows {ℓ κ μ} :
    {A : Type ℓ} {S : Type κ} (P : S → Type μ) (m : S → ℕ) (k : ℕ) (xs : List A)
    (body : A → S → Outcome S)
    → ((x : A) (s : S) → P s → (t : S) × (body x s ≡ ok t) × P t × (m t ≡ m s + k))
    → (s : S) → P s
    → (t : S) × (try_each xs body s ≡ ok t) × P t × (m t ≡ m s + length xs * k)
unfolding try_each
try_each_grows P m k [] body grow s h = (s, refl, h, omega arith)
try_each_grows P m k (x ∷ xs) body grow s h =
    let (t, e, p, g) = grow x s h in
    let (u, f, q, more) = try_each_grows P m k xs body grow t p in
    (u, rw e f, q, omega (arith, g, more))
