-- ===== src/Gnb.antt =====
-- The class `Gnb` of Coexistence.py: an NR-U base station. Its data, its transmissions and how they
-- end; `Gnb.Backoff` has the back-off in both modes of the module's variable `gap`,
-- and `Gnb.Process` the runs of the process.
use implementing_5g_nr_u_lte.Common.{
  ℕ, suc, ◌+◌, ◌-◌, ◌*◌, Bool, true, false, ◌||◌, Option, none, some, List, [], ◌∷◌, ◌++◌, ℤ, pos,
  negsuc, ◌+ℤ◌, ◌-ℤ◌, sub_ℕ, ltb, leb, ◌==◌, if◌then◌else◌, length, Outcome, ok, raised, or_raise,
  ◌>>=◌, Error, attribute_error, value_error, update,
}
use implementing_5g_nr_u_lte.Data.{ConfigNr, TransmissionNr, Channel}
use implementing_5g_nr_u_lte.Window.{upper_limit, store_draw}
use implementing_5g_nr_u_lte.Station.{Checked, on_air}
pub mod Backoff
pub mod Process
pub mod Accounts
pub mod Ends
pub mod Runs
pub mod Waiting
pub mod Contending
pub mod Errors
pub mod GapMode
pub mod Timer
pub mod Alignment

pub data Pc : Type 0 where
  boot : Pc  -- created by `env.process(self.start())`, not yet run
  gap_lock_wait : Pc  -- `wait_back_off_gap`: the first `yield req`
  gap_wait : Pc  -- the gap before the back-off
  busy_wait : Pc  -- the second `yield req`, the channel being busy
  gap_counting : Pc  -- the back-off itself
  rs_lock_wait : Pc  -- `wait_back_off`: `yield req`
  rs_counting : Pc  -- the back-off itself
  waited : Pc  -- the back-off has returned to `start`
  queue_wait : Pc  -- `yield res | self.env.timeout(0)`
  own_lock_wait : Pc  -- `yield lock` in `send_transmission`
  sending : Pc  -- the transmission time, under the lock
  slave_sending : Pc  -- the transmission time, without the lock
  sent : (was_sent : Bool) → Pc  -- `send_transmission` has returned to `start`

pub record Gnb : Type 0 where
  pub transmission_to_send : Option TransmissionNr
  pub succeeded_transmissions : ℕ
  pub failed_transmissions : ℕ
  pub failed_transmissions_in_row : ℕ
  pub cw_min : ℕ
  pub cw_max : ℕ
  pub desync : ℕ
  pub next_sync_slot_boundry : ℕ
  pub first_interrupt : Bool
  pub back_off_time : ℤ
  pub time_to_next_sync_slot : ℤ
  pub waiting_backoff : Bool
  pub start_nr : ℕ
  pub total_latency : ℕ
  pub packet_count : ℕ
  pub is_transmitting : Bool
  pub pc : Pc

-- `Gnb.__init__`, less the airtime entries, which `new_world` sets, and attributes never used.
unfoldable pub new_gnb : ConfigNr → Gnb
new_gnb cfg = record {
  transmission_to_send = none;
  succeeded_transmissions = 0;
  failed_transmissions = 0;
  failed_transmissions_in_row = 0;
  cw_min = cfg.cw_min;
  cw_max = cfg.cw_max;
  desync = 0;
  next_sync_slot_boundry = 0;
  first_interrupt = false;
  back_off_time = pos 0;
  time_to_next_sync_slot = pos 0;
  waiting_backoff = false;
  start_nr = 0;
  total_latency = 0;
  packet_count = 0;
  is_transmitting = false;
  pc = Pc.boot;
}

-- `random.randint(min, max)` for the offset of `sync_slot_counter`: `draw` is the number that it
-- chooses, and with nothing to choose from it raises.
unfoldable pub sync_offset : ConfigNr → ℕ → Outcome ℕ
sync_offset cfg draw =
    if leb cfg.min_sync_slot_desync cfg.max_sync_slot_desync then ok draw else raised value_error

-- `sync_slot_counter` up to its first yield: `desync` is what `random.randint` returns.
unfoldable pub start_sync_slots : ℕ → Gnb → Gnb
start_sync_slots desync g = record g { desync = desync; next_sync_slot_boundry = desync }

-- One round of its loop.
unfoldable pub next_sync_slot : ConfigNr → Gnb → Gnb
next_sync_slot cfg g = record g {
  next_sync_slot_boundry = g.next_sync_slot_boundry + cfg.synchronization_slot_duration;
}

-- The transmission starts now; without the gap mode a reservation signal fills the time up to the
-- next boundary.
unfoldable pub gen_new_transmission : Bool → ConfigNr → ℕ → ℕ → Gnb → TransmissionNr
gen_new_transmission gap cfg now i g =
    let time = cfg.mcot * 1000 in
    let rs_time : ℤ = if gap then pos 0 else sub_ℕ g.next_sync_slot_boundry now in
    record {
      transmission_time = time;
      enb_name = i;
      t_start = now;
      airtime = pos time -ℤ rs_time;
      rs_time = rs_time;
      number_of_retransmissions = 0;
      t_end = none;
      t_to_send = none;
    }

-- The time of the drawn slots, and the channel with the draw stored.
unfoldable pub generate_new_back_off_time : ConfigNr → ℕ → Channel → Outcome (ℕ × Channel)
generate_new_back_off_time cfg draw c =
    store_draw draw c >>= λ c'. ok (draw * cfg.observation_slot_duration, c')

-- The draws that `random.randint(0, upper_limit)` may return.
unfoldable pub largest_draw : Gnb → ℕ
largest_draw g = upper_limit g.cw_min g.cw_max g.failed_transmissions_in_row

-- `sent_failed` and `sent_completed`, and the same with the transmission at hand.
unfoldable pub fail_transmission : TransmissionNr → Gnb → Channel → Gnb × Channel
fail_transmission t g c =
    let n = t.number_of_retransmissions + 1 in
    (
      record g {
        transmission_to_send = some (record t { number_of_retransmissions = n });
        failed_transmissions = g.failed_transmissions + 1;
        failed_transmissions_in_row = if ltb 7 n then 0 else g.failed_transmissions_in_row + 1;
      },
      record c { failed_transmissions_nr = c.failed_transmissions_nr + 1 },
    )

unfoldable pub sent_failed : Gnb → Channel → Outcome (Gnb × Channel)
sent_failed g c =
    or_raise g.transmission_to_send attribute_error >>= λ t. ok (fail_transmission t g c)

unfoldable pub complete_transmission : ℕ → TransmissionNr → Gnb → Channel → Gnb × Channel
complete_transmission now t g c = (
  record g {
    transmission_to_send = some (record t { t_end = some now; t_to_send = some (now - t.t_start) });
    succeeded_transmissions = g.succeeded_transmissions + 1;
    failed_transmissions_in_row = 0;
  },
  record c { succeeded_transmissions_nr = c.succeeded_transmissions_nr + 1 },
)

unfoldable pub sent_completed : ℕ → Gnb → Channel → Outcome (Gnb × Channel)
sent_completed now g c =
    or_raise g.transmission_to_send attribute_error >>= λ t. ok (complete_transmission now t g c)

-- Both branches of the source on `gap` are the same code.
unfoldable pub check_collision : ℕ → Gnb → Channel → Outcome (Checked Gnb)
check_collision now g c =
    if ltb 1 (on_air c) || on_air c == 0
    then (sent_failed g c >>= λ (g', c'). ok (record { was_sent = false; self = g'; channel = c' }))
    else (sent_completed now g c >>= λ (g', c').
        ok (record { was_sent = true; self = g'; channel = c' }))
