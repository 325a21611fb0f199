-- ===== src/Tests.antt =====
-- Tests on concrete inputs, and each theorem applied to one.
pub mod SimulationTests
pub mod StationTests
pub mod ControllerTests
pub mod MetricsTests
pub mod OutputTests
pub mod LockTests
pub mod DriverTests
pub mod FigureTests
pub mod SamplingTests
