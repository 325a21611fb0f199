-- ===== src/Station/Runs.antt =====
-- Every run of the process of a station keeps the books.
use implementing_5g_nr_u_lte.Common.{
  ℕ, ◌≡◌, refl, arith, Bool, true, false, [], ok, subst, >>=-eq-ok, ok-injective,
}
use implementing_5g_nr_u_lte.Data.{Config, Channel, Turn, Event, done, too_late, interrupted}
use implementing_5g_nr_u_lte.Station.{
  Station, Pc, boot, lock_wait, counting, waited, queue_wait, own_lock_wait, sending, acking,
  missing_ack, slave_sending, slave_ack, sent, check_collision,
}
use implementing_5g_nr_u_lte.Station.Process.{
  run_from, resume, next_frame, after_frame, finish_frame, turn,
}
use implementing_5g_nr_u_lte.Station.Accounts.{RowOk, IsSound, Kept, Ended, Ended-Kept, same_books}
use implementing_5g_nr_u_lte.Station.Ends.{
  begin_back_off-Kept, finish_counting-Kept, interrupt_back_off-Kept, check_collision-Ended,
  finish_slave-Kept, pc-Kept, begin_send-Kept, start_counting-Kept, seize-Kept, cleared-Kept,
  released-Kept, framed,
}

module _ (cfg : Config) (now draw i : ℕ) (s : Station) (c : Channel) (sound : IsSound cfg s) where
  after_frame-Kept :
      (b : Bool) (s' : Station) (c' : Channel)
      → Ended cfg i s s' (record c { back_off_list = [] }) c' b
      → let t = after_frame i b s' c' in Kept cfg i s t.self c t.channel
  unfolding after_frame
  after_frame-Kept true s' c' e =
      Ended-Kept cfg i s s' c _ c' _ true acking (same_books c) (same_books c') (e.row refl) e
  after_frame-Kept false s' c' e =
      Ended-Kept cfg i s s' c _ c' _ false missing_ack (same_books c) (same_books c') tt e

  finish_frame-Kept :
      {t : Turn Station} → finish_frame cfg now i s c ≡ ok t → Kept cfg i s t.self c t.channel
  unfolding finish_frame
  finish_frame-Kept e =
      let (r, er, et) =
        >>=-eq-ok (check_collision cfg now i s (record c { back_off_list = [] })) _ e in
      subst (λ (t : Turn Station). Kept cfg i s t.self c t.channel) (ok-injective et)
        (after_frame-Kept r.was_sent r.self r.channel
          (check_collision-Ended cfg now draw i s _ sound er))

  next_frame-Kept :
      {t : Turn Station}
      → s.failed_transmissions_in_row ≡ 0
      → next_frame cfg now draw i s c ≡ ok t
      → Kept cfg i s t.self c t.channel
  unfolding next_frame
  next_frame-Kept row e =
      let k = begin_back_off-Kept cfg now draw i _ c (framed cfg now draw i s c sound row) e in
      let b = k.booked in record { sound = k.sound; booked = ground arith }

  is_Kept :
      {t₀ t : Turn Station}
      → Kept cfg i s t₀.self c t₀.channel
      → ok t₀ ≡ ok t
      → Kept cfg i s t.self c t.channel
  is_Kept k e = subst (λ (t : Turn Station). Kept cfg i s t.self c t.channel) (ok-injective e) k

  moved :
      (pc : Pc)
      → RowOk pc s.failed_transmissions_in_row
      → {t : Turn Station} → ok (turn (record s { pc = pc }) c) ≡ ok t
      → Kept cfg i s t.self c t.channel
  moved pc row e = is_Kept (pc-Kept cfg now draw i s c sound pc row) e

  row_at : {pc : Pc} → s.pc ≡ pc → RowOk pc s.failed_transmissions_in_row
  row_at p = subst (λ pc. RowOk pc s.failed_transmissions_in_row) p sound.row

  run_from-Kept :
      (pc : Pc) (v : Event) {t : Turn Station}
      → s.pc ≡ pc
      → run_from pc v cfg now draw i s c ≡ ok t
      → Kept cfg i s t.self c t.channel
  unfolding run_from
  run_from-Kept boot done p e = next_frame-Kept (row_at p) e
  run_from-Kept lock_wait done p e = is_Kept (start_counting-Kept cfg now draw i s c sound) e
  run_from-Kept lock_wait interrupted p e =
      is_Kept (interrupt_back_off-Kept cfg now draw i s c sound) e
  run_from-Kept counting done p e = finish_counting-Kept cfg now draw i s c sound e
  run_from-Kept counting interrupted p e =
      is_Kept (interrupt_back_off-Kept cfg now draw i s c sound) e
  run_from-Kept waited done p e = is_Kept (begin_send-Kept cfg now draw i s c sound) e
  run_from-Kept queue_wait done p e = moved own_lock_wait tt e
  run_from-Kept queue_wait too_late p e = moved slave_sending tt e
  run_from-Kept queue_wait interrupted p e = moved slave_sending tt e
  run_from-Kept own_lock_wait done p e = is_Kept (seize-Kept cfg now draw i s c sound) e
  run_from-Kept own_lock_wait interrupted p e = moved slave_sending tt e
  run_from-Kept sending done p e = finish_frame-Kept e
  run_from-Kept sending interrupted p e = moved slave_sending tt e
  run_from-Kept acking done p e = is_Kept (cleared-Kept cfg now draw i s c sound (row_at p)) e
  run_from-Kept acking interrupted p e = moved slave_sending tt e
  run_from-Kept missing_ack done p e = moved (sent false) tt e
  run_from-Kept missing_ack interrupted p e = moved slave_sending tt e
  run_from-Kept slave_sending done p e = finish_slave-Kept cfg now draw i s c sound e
  run_from-Kept (slave_ack true) done p e =
      is_Kept (released-Kept cfg now draw i s c sound true (row_at p)) e
  run_from-Kept (slave_ack false) done p e =
      is_Kept (released-Kept cfg now draw i s c sound false tt) e
  run_from-Kept (sent true) done p e = next_frame-Kept (row_at p) e
  run_from-Kept (sent false) done p e = begin_back_off-Kept cfg now draw i s c sound e
  run_from-Kept _ _ p e = cc

  -- Every run of the process of a station that is sound keeps it so, and moves the books of the
  -- channel exactly as it moves the station's own counters.
  pub resume-Kept :
      (v : Event) {t : Turn Station}
      → resume v cfg now draw i s c ≡ ok t
      → Kept cfg i s t.self c t.channel
  unfolding resume
  resume-Kept v e = run_from-Kept s.pc v refl e
