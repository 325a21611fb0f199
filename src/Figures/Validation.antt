-- ===== src/Figures/Validation.antt =====
-- simulation/5G-Coexistence-SimPy/validation.py: figures that compare results with those of other
-- simulators.
use implementing_5g_nr_u_lte.Common.{ℕ}
use implementing_5g_nr_u_lte.Figures.{Call, prop_cycle}
pub mod Alone
pub mod Coexistence
pub mod Intervals

-- `viridis`: a cycle of colours from a part of the map of that name.
abbrev pub viridis : {Series : Type 0} → ℕ → ℕ → ℕ → Call Series
viridis a b color_amount = prop_cycle a b color_amount
