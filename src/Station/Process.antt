-- ===== src/Station/Process.antt =====
-- The process of a `Station`: what it runs from each yield to the next, for each way in which SimPy
-- resumes it. `draw` is what `random.randint` returns if the run draws a back-off.
use implementing_5g_nr_u_lte.Common.{
  ℕ, ◌+◌, ◌-◌, ◌*◌, ◌/◌, true, false, Option, none, some, [], ◌∷◌, ◌++◌, ℤ, pos, negsuc, Bool, ◌+ℤ◌,
  ◌-ℤ◌, leb, if◌then◌else◌, Outcome, ok, raised, or_raise, ◌>>=◌, value_error, not_delivered,
  update, remove,
}
use implementing_5g_nr_u_lte.Data.{Config, Channel, Event, done, too_late, interrupted, Turn, Frame}
use implementing_5g_nr_u_lte.Station.{
  Station, Pc, boot, lock_wait, counting, waited, queue_wait, own_lock_wait, sending, acking,
  missing_ack, slave_sending, slave_ack, sent, t_slot, t_difs, ack_timeout, ack_frame_time,
  generate_new_frame, generate_new_back_off_time, check_collision, big_num,
}

abbrev pub turn : Station → Channel → Turn Station
turn s c = record { self = s; channel = c; interrupts = []; interrupts_nr = [] }

-- `while self.back_off_time > -1`: back to the lock, or return from `wait_back_off`.
abbrev pub loop_test : ℤ → Pc
loop_test (pos n) = lock_wait
loop_test (negsuc n) = waited

-- `wait_back_off` up to its first yield.
unfoldable pub begin_back_off : ℕ → Station → Channel → Outcome (Turn Station)
begin_back_off draw s c = generate_new_back_off_time draw c >>= λ (time, c').
    ok (turn (record s { back_off_time = pos time; pc = loop_test (pos time) }) c')

-- The head of the outer loop of `start`.
unfoldable pub next_frame : Config → ℕ → ℕ → ℕ → Station → Channel → Outcome (Turn Station)
next_frame cfg now draw i s c =
    begin_back_off draw (record s { frame_to_send = some (generate_new_frame cfg now i) }) c

-- The channel is idle: add DIFS, join the waiting stations, and count down.
unfoldable pub start_counting : ℕ → ℕ → Station → Channel → Turn Station
start_counting now i s c =
    turn
      (record s {
        back_off_time = s.back_off_time +ℤ pos t_difs;
        first_interrupt = true;
        start = now;
        pc = counting;
      })
      (record c { back_off_list = c.back_off_list ++ i ∷ [] })

-- The back-off has run down: `list.remove` raises if the station is not listed.
unfoldable pub finish_counting : ℕ → Station → Channel → Outcome (Turn Station)
finish_counting i s c = do
  l ← or_raise (remove i c.back_off_list) value_error
  ok (
      turn (record s { back_off_time = negsuc 0; pc = loop_test (negsuc 0) })
        (record c { back_off_list = l }))

-- The slots that are complete after `all_waited`, which DIFS precedes.
unfoldable pub slots_waited : ℕ → ℕ
slots_waited all_waited = (all_waited - t_difs) / t_slot

-- The `except simpy.Interrupt` of `wait_back_off`: keep what is left of the back-off. The clock
-- never runs back, so `now - start` is not negative.
unfoldable pub freeze : ℕ → Station → Station
freeze now s =
    let all_waited = now - s.start in
    let full = record s {
      back_off_time = s.back_off_time -ℤ pos (slots_waited all_waited * t_slot + t_difs);
      first_interrupt = false;
    } in
    if s.first_interrupt
    then (if leb all_waited t_difs
        then record s { back_off_time = s.back_off_time -ℤ pos t_difs; first_interrupt = false }
        else full)
    else s

unfoldable pub interrupt_back_off : ℕ → Station → Channel → Turn Station
interrupt_back_off now s c =
    let s' = freeze now s in turn (record s' { pc = loop_test s'.back_off_time }) c

-- `send_frame` up to its first yield.
unfoldable pub begin_send : ℕ → Station → Channel → Turn Station
begin_send i s c =
    turn (record s { is_transmitting = true; pc = queue_wait })
      (record c { tx_list = c.tx_list ++ i ∷ [] })

-- The lock is ours: stop everyone who counts down, and send.
unfoldable pub seize : Station → Channel → Turn Station
seize s c = record {
  self = record s { pc = sending };
  channel = c;
  interrupts = c.back_off_list;
  interrupts_nr = c.back_off_list_nr;
}

abbrev pub clear_tx : Channel → Channel
clear_tx c = record c { tx_list = []; tx_list_nr = [] }

-- What follows the check: the ACK, or the ACK timeout. After a collision the transmitting queue is
-- made anew, which only the scheduler sees.
unfoldable pub after_frame : ℕ → Bool → Station → Channel → Turn Station
after_frame i true s c =
    turn (record s { pc = acking })
      (record c {
        airtime_control = update c.airtime_control i (c.airtime_control i + ack_frame_time);
      })
after_frame i false s c = turn (record s { pc = missing_ack }) (clear_tx c)

-- The frame of the station with the lock is over.
unfoldable pub finish_frame : Config → ℕ → ℕ → Station → Channel → Outcome (Turn Station)
finish_frame cfg now i s c = do
  r ← check_collision cfg now i s (record c { back_off_list = [] })
  ok (after_frame i r.was_sent r.self r.channel)

-- The frame of a station without the lock is over.
unfoldable pub finish_slave : Config → ℕ → ℕ → Station → Channel → Outcome (Turn Station)
finish_slave cfg now i s c = do
  r ← check_collision cfg now i s c
  ok (turn (record (r.self) { pc = slave_ack r.was_sent }) r.channel)

-- One run of the process, by where it is suspended and how it is resumed. An interrupt in
-- `send_frame` is the preemption of its queue request, or the one that it raises itself.
unfoldable pub run_from :
    Pc → Event → Config → ℕ → ℕ → ℕ → Station → Channel → Outcome (Turn Station)
run_from boot done cfg now draw i s c = next_frame cfg now draw i s c
run_from lock_wait done cfg now draw i s c = ok (start_counting now i s c)
run_from lock_wait interrupted cfg now draw i s c = ok (interrupt_back_off now s c)
run_from counting done cfg now draw i s c = finish_counting i s c
run_from counting interrupted cfg now draw i s c = ok (interrupt_back_off now s c)
run_from waited done cfg now draw i s c = ok (begin_send i s c)
run_from queue_wait done cfg now draw i s c = ok (turn (record s { pc = own_lock_wait }) c)
run_from queue_wait too_late cfg now draw i s c = ok (turn (record s { pc = slave_sending }) c)
run_from queue_wait interrupted cfg now draw i s c = ok (turn (record s { pc = slave_sending }) c)
run_from own_lock_wait done cfg now draw i s c = ok (seize s c)
run_from own_lock_wait interrupted cfg now draw i s c =
    ok (turn (record s { pc = slave_sending }) c)
run_from sending done cfg now draw i s c = finish_frame cfg now i s c
run_from sending interrupted cfg now draw i s c = ok (turn (record s { pc = slave_sending }) c)
run_from acking done cfg now draw i s c = ok (turn (record s { pc = sent true }) (clear_tx c))
run_from acking interrupted cfg now draw i s c = ok (turn (record s { pc = slave_sending }) c)
run_from missing_ack done cfg now draw i s c = ok (turn (record s { pc = sent false }) c)
run_from missing_ack interrupted cfg now draw i s c = ok (turn (record s { pc = slave_sending }) c)
run_from slave_sending done cfg now draw i s c = finish_slave cfg now i s c
run_from (slave_ack b) done cfg now draw i s c =
    ok (turn (record s { is_transmitting = false; pc = sent b }) c)
run_from (sent true) done cfg now draw i s c = next_frame cfg now draw i s c
run_from (sent false) done cfg now draw i s c = begin_back_off draw s c
run_from _ _ cfg now draw i s c = raised not_delivered

unfoldable pub resume : Event → Config → ℕ → ℕ → ℕ → Station → Channel → Outcome (Turn Station)
unfolding run_from
resume e cfg now draw i s c = run_from s.pc e cfg now draw i s c

-- What a suspended process waits for, in SimPy's terms.
pub data Request : Type 0 where
  start_up : Request
  tx_lock : Request
  tx_queue : (priority : ℤ) → Request
  timeout : (delay : ℤ) → Request
  child : Request

abbrev frame_time : Option Frame → ℕ
frame_time none = 0
frame_time (some f) = f.frame_time

unfoldable pub request_of : Station → Pc → Request
request_of s boot = start_up
request_of s lock_wait = tx_lock
request_of s counting = timeout s.back_off_time
request_of s waited = child
request_of s queue_wait = tx_queue (pos big_num -ℤ pos (frame_time s.frame_to_send))
request_of s own_lock_wait = tx_lock
request_of s sending = timeout (pos (frame_time s.frame_to_send))
request_of s acking = timeout (pos ack_frame_time)
request_of s missing_ack = timeout (pos ack_timeout)
request_of s slave_sending = timeout (pos (frame_time s.frame_to_send))
request_of s (slave_ack true) = timeout (pos ack_frame_time)
request_of s (slave_ack false) = timeout (pos ack_timeout)
request_of s (sent b) = child
