-- ===== src/Drivers.antt =====
-- The command-line drivers of simulation/5G-Coexistence-SimPy that call `run_simulation`.
pub mod AllModes
pub mod Runs
pub mod NodeCounts
pub mod Matrix
