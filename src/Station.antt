-- ===== src/Station.antt =====
-- The class `Station` of Coexistence.py: a Wi-Fi station that contends by DIFS and back-off. A run
-- of its process from one yield to the next is a function here; `Pc` names the yield where it is
-- suspended. `start`, `wait_back_off` and `send_frame` are one process here, since a parent that
-- resumes after its child does nothing before it starts the next one.
use implementing_5g_nr_u_lte.Common.{
  ℕ, suc, ◌+◌, ◌-◌, ◌*◌, ◌/◌, Bool, true, false, ◌||◌, Option, none, some, List, [], ◌∷◌, ◌++◌, ℤ,
  pos, negsuc, ◌+ℤ◌, ◌-ℤ◌, ltb, leb, ◌==◌, if◌then◌else◌, length, Outcome, ok, raised, or_raise,
  ◌>>=◌, Error, attribute_error, value_error, not_delivered, update, remove,
}
use implementing_5g_nr_u_lte.Data.{Config, Packet, Frame, Channel, Turn}
use implementing_5g_nr_u_lte.Window.{upper_limit, store_draw}
pub mod Process
pub mod Accounts
pub mod Ends
pub mod Runs
pub mod Freeze
pub mod Waiting
pub mod Frames
pub mod Errors

-- `Times.t_slot`, `Times.t_difs`, `Times.ack_timeout`, and what `get_ack_frame_time` returns.
abbrev pub t_slot : ℕ
t_slot = 9

abbrev pub t_sifs : ℕ
t_sifs = 16

abbrev pub t_difs : ℕ
t_difs = 3 * t_slot + t_sifs

abbrev pub ack_timeout : ℕ
ack_timeout = 45

abbrev pub ack_frame_time : ℕ
ack_frame_time = 44

abbrev pub big_num : ℕ
big_num = 100000

pub data Pc : Type 0 where
  boot : Pc  -- created by `env.process(self.start())`, not yet run
  lock_wait : Pc  -- `yield req` in `wait_back_off`
  counting : Pc  -- `yield self.env.timeout(self.back_off_time)`
  waited : Pc  -- `wait_back_off` has returned to `start`
  queue_wait : Pc  -- `yield res | self.env.timeout(0)`
  own_lock_wait : Pc  -- `yield lock` in `send_frame`
  sending : Pc  -- the frame time, under the lock
  acking : Pc  -- the ACK time, under the lock
  missing_ack : Pc  -- the ACK timeout, under the lock
  slave_sending : Pc  -- the frame time, without the lock
  slave_ack : (was_sent : Bool) → Pc  -- the ACK or its timeout, without the lock
  sent : (was_sent : Bool) → Pc  -- `send_frame` has returned to `start`

pub record Station : Type 0 where
  pub frame_to_send : Option Frame
  pub succeeded_transmissions : ℕ
  pub failed_transmissions : ℕ
  pub failed_transmissions_in_row : ℕ
  pub cw_min : ℕ
  pub cw_max : ℕ
  pub first_interrupt : Bool
  pub back_off_time : ℤ
  pub start : ℕ
  pub total_latency : ℕ
  pub packet_count : ℕ
  pub next_packet_id : ℕ
  pub packet_queue : List Packet
  pub is_transmitting : Bool
  pub pc : Pc

-- `Station.__init__`, less the airtime entries, which `new_world` sets.
unfoldable pub new_station : Config → Station
new_station cfg = record {
  frame_to_send = none;
  succeeded_transmissions = 0;
  failed_transmissions = 0;
  failed_transmissions_in_row = 0;
  cw_min = cfg.cw_min;
  cw_max = cfg.cw_max;
  first_interrupt = false;
  back_off_time = pos 0;
  start = 0;
  total_latency = 0;
  packet_count = 0;
  next_packet_id = 0;
  packet_queue = [];
  is_transmitting = false;
  pc = Pc.boot;
}

-- The second definition of this method replaces the first one: `Config` has no `payload_size`, so
-- the call ends in an AttributeError before anything is queued.
unfoldable pub create_and_queue_packet : Station → Outcome Station
create_and_queue_packet s = raised attribute_error

unfoldable pub generate_new_frame : Config → ℕ → ℕ → Frame
generate_new_frame cfg now i = record {
  frame_time = 5400;
  station_name = i;
  data_size = cfg.data_size;
  t_start = now;
  number_of_retransmissions = 0;
  t_end = none;
  t_to_send = none;
}

-- The time of the drawn slots, and the channel with the draw stored.
unfoldable pub generate_new_back_off_time : ℕ → Channel → Outcome (ℕ × Channel)
generate_new_back_off_time draw c = store_draw draw c >>= λ c'. ok (draw * t_slot, c')

-- The arguments of `random.randint(0, upper_limit)`: the draws that it may return.
unfoldable pub largest_draw : Station → ℕ
largest_draw s = upper_limit s.cw_min s.cw_max s.failed_transmissions_in_row

-- `sent_failed`, and the same with the frame at hand.
unfoldable pub fail_frame : Config → ℕ → ℕ → Frame → Station → Channel → Station × Channel
fail_frame cfg now i f s c =
    let n = f.number_of_retransmissions + 1 in
    let failed = s.failed_transmissions + 1 in
    (
      if ltb cfg.r_limit n
          then record s {
            frame_to_send = some (generate_new_frame cfg now i);
            failed_transmissions = failed;
            failed_transmissions_in_row = 0;
          }
          else record s {
            frame_to_send = some (record f { number_of_retransmissions = n });
            failed_transmissions = failed;
            failed_transmissions_in_row = s.failed_transmissions_in_row + 1;
          },
      record c { failed_transmissions = c.failed_transmissions + 1 },
    )

unfoldable pub sent_failed : Config → ℕ → ℕ → Station → Channel → Outcome (Station × Channel)
sent_failed cfg now i s c =
    or_raise s.frame_to_send attribute_error >>= λ f. ok (fail_frame cfg now i f s c)

-- The end of `sent_completed`: the oldest packet is delivered.
unfoldable pub deliver_packet : ℕ → Station → List Packet → Station
deliver_packet now s [] = s
deliver_packet now s (p ∷ ps) = record s {
  packet_queue = ps;
  total_latency = s.total_latency + (now - p.gen_time);
  packet_count = s.packet_count + 1;
}

-- `sent_completed`, and the same with the frame at hand.
unfoldable pub complete_frame : ℕ → ℕ → Frame → Station → Channel → Station × Channel
complete_frame now i f s c =
    let s' = record s {
      frame_to_send = some (record f { t_end = some now; t_to_send = some (now - f.t_start) });
      succeeded_transmissions = s.succeeded_transmissions + 1;
      failed_transmissions_in_row = 0;
    } in
    (
      deliver_packet now s' s.packet_queue,
      record c {
        succeeded_transmissions = c.succeeded_transmissions + 1;
        bytes_sent = c.bytes_sent + f.data_size;
        airtime_data = update c.airtime_data i (c.airtime_data i + f.frame_time);
      },
    )

unfoldable pub sent_completed : ℕ → ℕ → Station → Channel → Outcome (Station × Channel)
sent_completed now i s c =
    or_raise s.frame_to_send attribute_error >>= λ f. ok (complete_frame now i f s c)

-- How many nodes are on the two lists of transmitting nodes.
abbrev pub on_air : Channel → ℕ
on_air c = length c.tx_list + length c.tx_list_nr

pub record Checked (A : Type 0) : Type 0 where
  pub was_sent : Bool
  pub self : A
  pub channel : Channel

unfoldable pub check_collision : Config → ℕ → ℕ → Station → Channel → Outcome (Checked Station)
check_collision cfg now i s c =
    if ltb 1 (on_air c) || on_air c == 0
    then (sent_failed cfg now i s c >>= λ (s', c').
        ok (record { was_sent = false; self = s'; channel = c' }))
    else (sent_completed now i s c >>= λ (s', c').
        ok (record { was_sent = true; self = s'; channel = c' }))
