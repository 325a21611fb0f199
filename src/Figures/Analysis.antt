-- ===== src/Figures/Analysis.antt =====
-- simulation/5G-Coexistence-SimPy/resultAnalysis.py: figures of airtimes and collisions.
use implementing_5g_nr_u_lte.Common.{ℕ}
use implementing_5g_nr_u_lte.Figures.{Call, prop_cycle}
pub mod Stations
pub mod Gnbs
pub mod Coexistence

-- `n` of the module.
abbrev n : ℕ
n = 4

-- `viridis`, which takes the number of colours from the module, not from its argument.
abbrev pub viridis : {Series : Type 0} → ℕ → ℕ → ℕ → Call Series
viridis a b color_amount = prop_cycle a b n
