-- ===== src/Window/Bounds.antt =====
-- Bounds of the contention window, and its binary exponential growth.
use native.Mathlib.Nat.{two-pow-succ}
use implementing_5g_nr_u_lte.Common.{ℕ, zero, suc, ◌+◌, ◌*◌, ◌^◌, ◌≤◌, ◌≡◌, arith, min}
use implementing_5g_nr_u_lte.Window.{upper_limit}

pub pow-pos : (n : ℕ) → 1 ≤ 2 ^ n
pow-pos zero = omega arith
pow-pos (suc n) = omega (arith, two-pow-succ n, pow-pos n)

pow_times-pos : (n c : ℕ) → 1 ≤ 2 ^ n * (c + 1)
pow_times-pos n c = let h = pow-pos n in grind arith

pow_times-suc : (n c : ℕ) → 2 ^ suc n * (c + 1) ≡ 2 * (2 ^ n * (c + 1))
pow_times-suc n c = rw (two-pow-succ n) (omega arith)

-- The first attempt draws from the smallest window.
pub upper_limit_first : (cw_min cw_max : ℕ) → upper_limit cw_min cw_max 0 ≡ min cw_min cw_max
unfolding upper_limit
upper_limit_first cw_min cw_max = ground arith

pub upper_limit-le : (cw_min cw_max f : ℕ) → upper_limit cw_min cw_max f ≤ cw_max
unfolding upper_limit
upper_limit-le cw_min cw_max f = ground arith

-- Each further failure in a row doubles the window, up to its cap.
upper_limit_doubles :
    (cw_min cw_max f : ℕ)
    → upper_limit cw_min cw_max (suc f) ≡ min (2 * upper_limit cw_min cw_max f + 1) cw_max
unfolding upper_limit
upper_limit_doubles cw_min cw_max f = ground (arith, pow_times-pos f cw_min, pow_times-suc f cw_min)

-- After `f` failures the window is at least the one of any fewer failures.
pub upper_limit_mono :
    (cw_min cw_max f d : ℕ) → upper_limit cw_min cw_max f ≤ upper_limit cw_min cw_max (d + f)
upper_limit_mono cw_min cw_max f zero = let e : 0 + f ≡ f = omega arith in rw e (omega arith)
upper_limit_mono cw_min cw_max f (suc d) =
    let e : suc d + f ≡ suc (d + f) = omega arith in
    rw e (
      omega (
        arith,
        upper_limit_doubles cw_min cw_max (d + f),
        upper_limit-le cw_min cw_max f,
        upper_limit_mono cw_min cw_max f d,
      ))
