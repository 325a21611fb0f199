-- ===== src/Times/Durations.antt =====
-- How the durations relate to the bits and the rates.
use native.Mathlib.Nat.{div-mul-le_self, lt-mul-div-succ}
use implementing_5g_nr_u_lte.Common.{ℕ, ◌+◌, ◌-◌, ◌*◌, ◌≤◌, ◌<◌, ◌≡◌, arith}
use implementing_5g_nr_u_lte.Times.{Times, ceil_div, frame_bits, symbols, get_ppdu_frame_time}

-- Rounding up adds less than one.
ceil_div_lem : (a b : ℕ) → 0 < b → (a ≤ ceil_div a b * b) × (ceil_div a b * b < a + b)
ceil_div_lem a b h =
    let low = lt-mul-div-succ (a + b - 1) h in
    let high = div-mul-le_self (a + b - 1) b in (omega arith, omega arith)

times_le : (k x y : ℕ) → x ≤ y → x * k ≤ y * k
times_le k x y h = let e : y ≡ x + (y - x) = omega arith in rw e (omega arith)

product_pos : (a b : ℕ) → 0 < a → 0 < b → 0 < a * b
product_pos a b h k = grind arith

-- The bounds in numbers: `k` symbols of `b` bits, and `q` microseconds, at the rates `d` and `c`.
exact_bounds :
    (b d c k q : ℕ)
    → 0 < d
    → 0 < c
    → (b * 1000000 ≤ k * (4 * d)) × (k * (4 * d) < b * 1000000 + 4 * d)
    → (24 * 1000000 + k * 4 * c ≤ q * (c * 1000000))
      × (q * (c * 1000000) < 24 * 1000000 + k * 4 * c + c * 1000000)
    → (16 * (c * d) + 24 * d + b * c ≤ (16 + q) * (c * d))
      × (1000000 * ((16 + q) * (c * d))
          < 1000000 * (16 * (c * d) + 24 * d + b * c) + 1000004 * (c * d))
exact_bounds b d c k q hd hc bits whole =
    let b0 = times_le c _ _ bits.0 in
    let b1 = times_le c _ _ bits.1 in
    let w0 = times_le d _ _ whole.0 in
    let w1 = times_le d _ _ whole.1 in (omega (arith, b0, w0), omega (arith, b1, w1))

-- At positive rates a frame lasts for preamble, signal and its bits at the data rate, rounded up to
-- a microsecond. The padding to whole symbols adds less than 4 millionths of one.
pub get_ppdu_frame_time_bounds :
    (t : Times)
    → 0 < t.data_rate
    → 0 < t.ctr_rate
    → let rate = t.ctr_rate * t.data_rate in
      let exact = 16 * rate + 24 * t.data_rate + frame_bits t * t.ctr_rate in
      (exact ≤ get_ppdu_frame_time t * rate)
      × (1000000 * (get_ppdu_frame_time t * rate) < 1000000 * exact + 1000004 * rate)
unfolding get_ppdu_frame_time symbols
get_ppdu_frame_time_bounds t hd hc =
    let c = t.ctr_rate in
    exact_bounds (frame_bits t) t.data_rate c (symbols t) _ hd hc
      (ceil_div_lem (frame_bits t * 1000000) (4 * t.data_rate) (omega arith))
      (ceil_div_lem (24 * 1000000 + symbols t * 4 * c) (c * 1000000) (omega arith))
