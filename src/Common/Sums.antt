-- ===== src/Common/Sums.antt =====
-- Families indexed by node number: an update at one index, and sums over the first `n` nodes.
use mathlib.Core.Path.{◌≡◌, refl}
use native.Mathlib.Decide.{dec_lt}
use native.Mathlib.Omega.{arith}
use Prim.Native.Nat.{ℕ, zero, suc, ◌+◌, ◌<◌, ◌≤◌}
use implementing_5g_nr_u_lte.Common.Tests.{◌==◌, if◌then◌else◌}

abbrev pub update {ℓ} : {A : Type ℓ} → (ℕ → A) → ℕ → A → ℕ → A
update f i a j = if i == j then a else f j

module _ {ℓ} {A : Type ℓ} (w : A → ℕ) where
  unfoldable pub sum_of : ℕ → (ℕ → A) → ℕ
  sum_of zero f = 0
  sum_of (suc n) f = sum_of n f + w (f n)

  sum_of-update_above :
      (n : ℕ) (f : ℕ → A) (i : ℕ) (a : A) → n ≤ i → sum_of n (update f i a) ≡ sum_of n f
  unfolding sum_of
  sum_of-update_above zero f i a h = refl
  sum_of-update_above (suc n) f i a h = ground (arith, sum_of-update_above n f i a)

  -- A change at one index below `n` moves the sum by the change of the weight there.
  pub sum_of-update :
      (n : ℕ) (f : ℕ → A) (i : ℕ) (a : A)
      → i < n
      → sum_of n (update f i a) + w (f i) ≡ sum_of n f + w a
  unfolding sum_of
  sum_of-update zero f i a h = elim h [ ]
  sum_of-update (suc n) f i a h = elim (dec_lt i n) [
    | yes below ↦ ground (arith, sum_of-update n f i a below)
    | no last ↦ ground (arith, sum_of-update_above n f i a)
  ]

-- Only the weights count.
pub sum_of-congr {ℓ} :
    {A : Type ℓ} (w : A → ℕ) (n : ℕ) (f g : ℕ → A)
    → ((i : ℕ) → w (f i) ≡ w (g i))
    → sum_of w n f ≡ sum_of w n g
unfolding sum_of
sum_of-congr w zero f g h = refl
sum_of-congr w (suc n) f g h = omega (arith, sum_of-congr w n f g h, h n)

pub sum_of-eq_zero {ℓ} :
    {A : Type ℓ} (w : A → ℕ) (n : ℕ) (f : ℕ → A) → ((i : ℕ) → w (f i) ≡ 0) → sum_of w n f ≡ 0
unfolding sum_of
sum_of-eq_zero w zero f h = refl
sum_of-eq_zero w (suc n) f h = omega (arith, sum_of-eq_zero w n f h, h n)

pub update_self {ℓ} : {A : Type ℓ} (f : ℕ → A) (i : ℕ) (a : A) → update f i a i ≡ a
update_self f i a = ground arith
