-- ===== src/Simulation/Lock/GnbProgress.antt =====
-- The gNBs of a simulation without `gap` go on: no run of theirs raises.
use implementing_5g_nr_u_lte.Gnb.Errors as Errors
use implementing_5g_nr_u_lte.Controller.{Controller}
