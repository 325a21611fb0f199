-- ===== src/Lib.antt =====
-- A model of the discrete-event simulator of Wi-Fi and NR-U coexistence under
-- simulation/5G-Coexistence-SimPy, and of what its runs guarantee.
--
-- coexistanceSimpy/Coexistence.py simulates Wi-Fi stations and NR-U base stations (gNBs) that
-- contend for one channel. Each node is a SimPy process; all share one `Channel` object with the
-- books (counts, bytes, airtimes) and the lists of nodes that transmit or count down. A node that
-- takes the channel interrupts the others' back-offs. A controller may move the contention windows
-- while the simulation runs. run_all_modes.py calls `run_simulation` for every scenario, node count
-- and seed.
--
-- Files, and the code that each is about:
--   Common      names of the libraries, Boolean tests, lists, integers, sums, exceptions.
--   Data        Config, Config_NR, Packet, Frame, Transmission_NR, Channel.
--   Window      the upper limit of a draw and the table `backoffs`; Window/Bounds, its laws.
--   Station     class Station: frames, draws, sent_failed, sent_completed, check_collision, and the
--               constants of coexistanceSimpy/Times.py that it uses. Station/Process cuts `start`,
--               `wait_back_off` and `send_frame` at their yields. Station/Accounts, Ends and
--               Runs are about its counters, Station/Freeze about its timer, Station/Waiting,
--               Frames and Errors about its lists, its frames and its exceptions.
--   Gnb         class Gnb in the same way: Gnb/Backoff has `wait_back_off_gap` and `wait_back_off`,
--               Gnb/Process has `send_transmission`; Gnb/Accounts, Ends and Runs are about its
--               counters, Gnb/Alignment and Gnb/Timer about its back-off, Gnb/Waiting and
--               Gnb/Errors about what the lock needs of it, Gnb/Contending about the list of
--               gNBs that count down in the mode of reservation signals, Gnb/GapMode about the
--               exceptions of the gap mode.
--   World       the state of a simulation, as `run_simulation` sets it up, and `process.interrupt`.
--   Controller  class DynamicCWController; Controller/Fairness, Windows and Keeps, its laws.
--   Simulation  the event loop as a relation: any process may take its next run. Simulation/Ledger,
--               Books and Outcomes are about every reachable state, Simulation/Supply and
--               Keys about the draws that the table covers, Simulation/GapProgress about gNBs in the
--               gap mode,
--               Simulation/Schedule evaluates a chosen order.
--               Simulation/Lock adds the guards of the lock `tx_lock` and of pending interrupts;
--               its Guards, Stations and Invariant keep its invariant, Signals and SignalSteps
--               that of the gNBs without `gap`, Exclusion, Progress, GnbProgress and Release say
--               what follows, and Schedule evaluates a chosen order.
--   Metrics     the figures that `run_simulation` reports at the end, with Metrics/Throughput for those
--               divided by its length and Metrics/Sinr for `calculate_sinr`; Metrics/Fairness has
--               bounds, Metrics/Books what the figures are in a reachable state.
--   Output      the CSV files of `run_simulation` and `create_csv_with_header`: Output/Columns has
--               their columns, Output/Headers where headers end up.
--   Times       coexistanceSimpy/Times.py; Times/Durations relates its durations to bits and rates.
--   Drivers     Drivers/AllModes is run_all_modes.py: its loops, the variable `gap` (GapMode) and
--               its output files (Rows, Tables and Scenarios). Drivers/Runs is what the other
--               commands share: Drivers/NodeCounts has singleRun.py, client_coex.py and
--               changingNodesNumber.py, Drivers/Matrix run_coexistenxe_matrix.py, with
--               Drivers/Matrix/HeatMaps for its `visualize_results`.
--   Figures     the scripts validation.py (Figures/Validation) and resultAnalysis.py
--               (Figures/Analysis), but for `valid_wifi` of the latter; Figures/Results runs them
--               on files of the simulator.
--   Sampling    `random_sample`: Sampling/Order and Ranks are about its ranks, Sampling/Distances
--               about its results.
--   Tests       concrete runs, and each theorem applied to concrete inputs.
--
-- State and operations. The attributes of an object are the fields of a record under the same
-- names, plus `pc`, the yield where its process is suspended. One run of a process, from one yield
-- to the next, is a function that takes the way in which SimPy resumes it (`Event`), the time, the
-- draw of `random.randint`, the node and the channel, and returns them changed with the nodes it
-- interrupts; an exception is an `Outcome`. SimPy is not part of the repository: a step of the
-- relation runs one process with any event that its state can take, so what is proved of reachable
-- states holds for every order of events, timeouts, locks and preemptions. Draws are bounded by the
-- contention window. Simulation/Lock keeps three things that SimPy documents: a resource of
-- capacity 1 is granted to one request at a time, leaving a `with` block gives the request back,
-- and interrupts come before other events of the same time.
--
-- Numbers. Times are whole microseconds in ℕ; where the source may go below 0, an integer. Floats
-- of the controller and of the metrics are fractions, without rounding. Nodes are numbered from 0,
-- where the names count from 1. The one loop with fuel is the search for the next slot boundary:
-- its fuel is the distance to the back-off plus 2, enough since each round goes on by at least 1 if
-- slots last.
--
-- Files are a function from paths to lines, where directories exist and no write fails. What is not
-- in the repository is a parameter: the floats of `calculate_sinr`, `random.sample`, pandas, and
-- the calls of pyplot and seaborn in `visualize_results`. Theorems assume documented behaviour of
-- them by name: the exception for an empty file or for a missing column, and that means of numbers,
-- maps and columns of them can be made and drawn. A script of Figures is the list of the calls of
-- pyplot that it asks for, if pandas and pyplot raise nothing. The commands take a simulation as a
-- parameter that raises or gives a row of results.
--
-- Not modelled: output and log text, fonts and sizes, `valid_wifi` of resultAnalysis.py, and the C
-- and C++ code under "SDR IMPLEMENTATIONS". The transmitting queue belongs to SimPy, and so do due
-- times; the requests of a station are listed by `request_of` of Station/Process.
pub mod Common
pub mod Data
pub mod Window
pub mod Station
pub mod Gnb
pub mod World
pub mod Controller
pub mod Simulation
pub mod Metrics
pub mod Output
pub mod Times
pub mod Tests
pub mod Drivers
pub mod Figures
pub mod Sampling
