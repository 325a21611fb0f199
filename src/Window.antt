-- ===== src/Window.antt =====
-- The contention window of Coexistence.py, which the classes `Station` and `Gnb` compute alike:
-- the upper limit of the draw, and the table of draws `channel.backoffs`.
use implementing_5g_nr_u_lte.Common.{
  ℕ, ◌+◌, ◌-◌, ◌*◌, ◌^◌, Option, none, some, leb, ◌==◌, if◌then◌else◌, Outcome, ok, raised,
  key_error, update,
}
use implementing_5g_nr_u_lte.Data.{Channel}
pub mod Bounds

-- `pow(2, failed_transmissions_in_row) * (cw_min + 1) - 1`, at most `cw_max`.
unfoldable pub upper_limit : ℕ → ℕ → ℕ → ℕ
upper_limit cw_min cw_max failed_in_row =
    let limit = 2 ^ failed_in_row * (cw_min + 1) - 1 in if leb limit cw_max then limit else cw_max

-- `channel.backoffs[back_off][channel.n_of_stations] += 1`
unfoldable pub store_draw : ℕ → Channel → Outcome Channel
store_draw back_off c = elim (c.backoffs back_off c.n_of_stations) [
  | none ↦ raised key_error
  | some n ↦ ok (record c {
    backoffs =
        update c.backoffs back_off (update (c.backoffs back_off) c.n_of_stations (some (n + 1)));
  })
]

-- `{key: {stations: 0} for key in range(cw_max + 1)}`, the table that the callers hand in.
unfoldable pub new_backoffs : ℕ → ℕ → ℕ → ℕ → Option ℕ
new_backoffs cw_max stations key n =
    if leb key cw_max then (if n == stations then some 0 else none) else none
