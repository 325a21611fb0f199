-- ===== src/Gnb/Process.antt =====
-- The process of a `Gnb`: the transmission, and what it runs from each yield to the next.
use implementing_5g_nr_u_lte.Common.{
  ℕ, Bool, true, false, Option, some, [], ◌∷◌, ◌++◌, ◌+ℤ◌, Outcome, ok, raised, or_raise, ◌>>=◌,
  not_delivered, update, attribute_error,
}
use implementing_5g_nr_u_lte.Data.{
  ConfigNr, Channel, Event, done, too_late, interrupted, TransmissionNr,
}
use implementing_5g_nr_u_lte.Gnb.{
  Gnb, Pc, boot, gap_lock_wait, gap_wait, busy_wait, gap_counting, rs_lock_wait, rs_counting,
  waited, queue_wait, own_lock_wait, sending, slave_sending, sent, gen_new_transmission,
  check_collision,
}
use implementing_5g_nr_u_lte.Gnb.Backoff.{
  TurnNr, turn, loop_test, begin_back_off, start_gap, finish_gap, finish_gap_counting,
  interrupt_gap, start_counting, finish_counting, interrupt_back_off,
}

-- `send_transmission` up to its first yield.
unfoldable pub begin_send : Bool → ConfigNr → ℕ → ℕ → Gnb → Channel → Option ℕ → TurnNr
begin_send gap cfg now i g c start =
    turn
      (record g {
        is_transmitting = true;
        transmission_to_send = some (gen_new_transmission gap cfg now i g);
        pc = queue_wait;
      })
      (record c { tx_list_nr = c.tx_list_nr ++ i ∷ [] }) start

-- The lock is ours: stop everyone who counts down, and transmit.
unfoldable pub seize : Gnb → Channel → Option ℕ → TurnNr
seize g c start = record {
  self = record g { pc = sending };
  channel = c;
  start = start;
  interrupts = c.back_off_list;
  interrupts_nr = c.back_off_list_nr;
}

-- What follows the check. A transmission that was sent enters the books; in either case the lists
-- of transmitting nodes are cleared. After a collision the transmitting queue is made anew, which
-- only the scheduler sees.
unfoldable pub after_transmission : ℕ → Bool → TransmissionNr → Gnb → Channel → Option ℕ → TurnNr
after_transmission i true t g c start =
    turn (record g { pc = sent true })
      (record c {
        airtime_control_nr = update c.airtime_control_nr i (c.airtime_control_nr i +ℤ t.rs_time);
        airtime_data_nr = update c.airtime_data_nr i (c.airtime_data_nr i +ℤ t.airtime);
        tx_list = [];
        tx_list_nr = [];
      })
      start
after_transmission i false t g c start =
    turn (record g { pc = sent false }) (record c { tx_list = []; tx_list_nr = [] }) start

-- The transmission of the gNB with the lock is over.
unfoldable pub finish_transmission : ℕ → ℕ → Gnb → Channel → Option ℕ → Outcome TurnNr
finish_transmission now i g c start = do
  r ← check_collision now g (record c { back_off_list_nr = [] })
  t ← or_raise (r.self.transmission_to_send) attribute_error
  ok (after_transmission i r.was_sent t r.self r.channel start)

-- The transmission of a gNB without the lock is over.
unfoldable pub finish_slave : ℕ → Gnb → Channel → Option ℕ → Outcome TurnNr
finish_slave now g c start = do
  r ← check_collision now g c
  ok (turn (record (r.self) { is_transmitting = false; pc = sent r.was_sent }) r.channel start)

-- One run of the process, by where it is suspended and how it is resumed.
unfoldable pub run_from :
    Pc → Event → Bool → ConfigNr → ℕ → ℕ → ℕ → Gnb → Channel → Option ℕ → Outcome TurnNr
run_from boot done gap cfg now draw i g c st = begin_back_off gap cfg draw g c st
run_from gap_lock_wait done gap cfg now draw i g c st = start_gap cfg now g c st
run_from gap_lock_wait interrupted gap cfg now draw i g c st = ok (interrupt_gap cfg now g c st)
run_from gap_wait done gap cfg now draw i g c st = ok (finish_gap now i g c st)
run_from gap_wait interrupted gap cfg now draw i g c st = ok (interrupt_gap cfg now g c st)
run_from busy_wait done gap cfg now draw i g c st =
    ok (turn (record g { pc = loop_test true g.back_off_time }) c st)
run_from busy_wait interrupted gap cfg now draw i g c st = ok (interrupt_gap cfg now g c st)
run_from gap_counting done gap cfg now draw i g c st = finish_gap_counting i g c st
run_from gap_counting interrupted gap cfg now draw i g c st = ok (interrupt_gap cfg now g c st)
run_from rs_lock_wait done gap cfg now draw i g c st = ok (start_counting cfg now i g c)
run_from rs_lock_wait interrupted gap cfg now draw i g c st = interrupt_back_off cfg now g c st
run_from rs_counting done gap cfg now draw i g c st = finish_counting i g c st
run_from rs_counting interrupted gap cfg now draw i g c st = interrupt_back_off cfg now g c st
run_from waited done gap cfg now draw i g c st = ok (begin_send gap cfg now i g c st)
run_from queue_wait done gap cfg now draw i g c st =
    ok (turn (record g { pc = own_lock_wait }) c st)
run_from queue_wait too_late gap cfg now draw i g c st =
    ok (turn (record g { pc = slave_sending }) c st)
run_from queue_wait interrupted gap cfg now draw i g c st =
    ok (turn (record g { pc = slave_sending }) c st)
run_from own_lock_wait done gap cfg now draw i g c st = ok (seize g c st)
run_from own_lock_wait interrupted gap cfg now draw i g c st =
    ok (turn (record g { pc = slave_sending }) c st)
run_from sending done gap cfg now draw i g c st = finish_transmission now i g c st
run_from sending interrupted gap cfg now draw i g c st =
    ok (turn (record g { pc = slave_sending }) c st)
run_from slave_sending done gap cfg now draw i g c st = finish_slave now g c st
run_from (sent b) done gap cfg now draw i g c st = begin_back_off gap cfg draw g c st
run_from _ _ gap cfg now draw i g c st = raised not_delivered

unfoldable pub resume :
    Event → Bool → ConfigNr → ℕ → ℕ → ℕ → Gnb → Channel → Option ℕ → Outcome TurnNr
unfolding run_from
resume e gap cfg now draw i g c st = run_from g.pc e gap cfg now draw i g c st
