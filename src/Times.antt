-- ===== src/Times.antt =====
-- The class `Times` of coexistanceSimpy/Times.py: how long a frame and an ACK take. The floats are
-- exact fractions here, so a quotient that is rounded up is `ceil_div`; a rate of `r` Mb/s is `r`
-- b/us.
use implementing_5g_nr_u_lte.Common.{
  ℕ, zero, suc, ◌+◌, ◌-◌, ◌*◌, ◌/◌, Option, none, some, List, [], ◌∷◌, Outcome, ok, or_raise, ◌>>=◌,
  key_error,
}
use implementing_5g_nr_u_lte.Station.{t_sifs, t_difs, ack_frame_time}
use implementing_5g_nr_u_lte.Controller.{Ratio}
pub mod Durations

-- The table `MCS`: the data rate and the control rate by the keys from 0 on.
abbrev pub mcs_table : List (ℕ × ℕ)
mcs_table = (6, 6) ∷ (9, 6) ∷ (12, 12) ∷ (18, 12) ∷ (24, 24) ∷ (36, 24) ∷ (48, 24) ∷ (54, 24) ∷ []

abbrev pub entry : List (ℕ × ℕ) → ℕ → Option (ℕ × ℕ)
entry [] key = none
entry (x ∷ xs) zero = some x
entry (x ∷ xs) (suc key) = entry xs key

unfoldable pub rates : ℕ → Option (ℕ × ℕ)
rates mcs = entry mcs_table mcs

pub record Times : Type 0 where
  pub payload : ℕ
  pub data_rate : ℕ
  pub ctr_rate : ℕ

-- `Times.__init__`, less what follows from the rates.
unfoldable pub new_times : ℕ → ℕ → Outcome Times
unfolding rates
new_times payload mcs = or_raise (rates mcs) key_error >>= λ (data_rate, ctr_rate).
    ok (record { payload = payload; data_rate = data_rate; ctr_rate = ctr_rate })

abbrev pub mac_overhead : ℕ
mac_overhead = 40 * 8

abbrev pub ack_size : ℕ
ack_size = 14 * 8

abbrev pub overhead : ℕ
overhead = 22

abbrev pub ofdm_preamble : ℕ
ofdm_preamble = 16

-- `math.ceil(a / b)`
abbrev pub ceil_div : ℕ → ℕ → ℕ
ceil_div a b = (a + b - 1) / b

-- The bits of a frame before the padding.
abbrev pub frame_bits : Times → ℕ
frame_bits t = overhead + (mac_overhead + t.payload * 8)

-- `math.ceil((Times._overhead + mac_frame) / self.n_data)`, where `n_data` is 4 times the rate
-- times a millionth.
unfoldable pub symbols : Times → ℕ
symbols t = ceil_div (frame_bits t * 1000000) (4 * t.data_rate)

-- The frame with its padding is `symbols * n_data` bits long, so it lasts 4 millionths of a
-- microsecond for each symbol; preamble and signal come first.
unfoldable pub get_ppdu_frame_time : Times → ℕ
get_ppdu_frame_time t =
    ofdm_preamble + ceil_div (24 * 1000000 + symbols t * 4 * t.ctr_rate) (t.ctr_rate * 1000000)

-- What `get_ack_frame_time` computes, rounded up as its comment has it, before it returns a
-- constant.
unfoldable pub ack_tx_time : Times → ℕ
ack_tx_time t = t_sifs + ofdm_preamble + ceil_div (24 + (overhead + ack_size)) t.ctr_rate

unfoldable pub get_thr : Times → Ratio
unfolding get_ppdu_frame_time
get_thr t = record { num = t.payload * 8; den = get_ppdu_frame_time t + ack_frame_time + t_difs }
