-- ===== src/Station/Waiting.antt =====
-- What a run of the process of a station does to the list of those that count down, and when it may
-- count down or send afterwards.
use implementing_5g_nr_u_lte.Common.{
  ℕ, ◌≡◌, refl, arith, Bool, true, false, some, [], ◌∷◌, ◌++◌, ok, or_raise, subst, >>=-eq-ok,
  or_raise-eq-ok, ok-injective, remove, value_error, ℤ, if◌then◌else◌,
}
use implementing_5g_nr_u_lte.Data.{Config, Channel, Turn, Event, done, too_late, interrupted}
use implementing_5g_nr_u_lte.Window.{store_draw}
use implementing_5g_nr_u_lte.Station.{
  Station, Pc, boot, lock_wait, counting, waited, queue_wait, own_lock_wait, sending, acking,
  missing_ack, slave_sending, slave_ack, sent, Checked, check_collision, sent_failed,
  sent_completed, fail_frame, complete_frame, generate_new_back_off_time,
}
use implementing_5g_nr_u_lte.Station.Process.{
  run_from, resume, begin_back_off, next_frame, start_counting, finish_counting, interrupt_back_off,
  begin_send, seize, after_frame, finish_frame, finish_slave, loop_test,
}

-- Neither counting down nor past the request for the lock to send.
abbrev pub idle : Pc → Bool
idle counting = false
idle sending = false
idle acking = false
idle missing_ack = false
idle _ = true

-- The ways in which a run of station `i` from `pc` may end.
pub data Effect (i : ℕ) (pc : Pc) (v : Event) (c : Channel) (t : Turn Station) : Type 0 where
  quiet : idle t.self.pc ≡ true → t.channel.back_off_list ≡ c.back_off_list → Effect i pc v c t
  joins :
      pc ≡ lock_wait
      → v ≡ done
      → t.self.pc ≡ counting
      → t.channel.back_off_list ≡ c.back_off_list ++ i ∷ []
      → Effect i pc v c t
  leaves :
      idle t.self.pc ≡ true
      → remove i c.back_off_list ≡ some t.channel.back_off_list
      → Effect i pc v c t
  seizes :
      pc ≡ own_lock_wait
      → v ≡ done
      → t.self.pc ≡ sending
      → t.channel.back_off_list ≡ c.back_off_list
      → t.interrupts ≡ c.back_off_list
      → Effect i pc v c t
  answers :
      pc ≡ sending
      → v ≡ done
      → (b : Bool) → t.self.pc ≡ (if b then acking else missing_ack)
      → t.channel.back_off_list ≡ []
      → Effect i pc v c t

module _ (cfg : Config) (now draw i : ℕ) (s : Station) (c : Channel) where
  check_collision-list :
      {r : Checked Station}
      → check_collision cfg now i s c ≡ ok r
      → r.channel.back_off_list ≡ c.back_off_list
  unfolding check_collision sent_failed sent_completed fail_frame complete_frame
  check_collision-list h = ground arith

  loop_test-idle : (b : ℤ) → idle (loop_test b) ≡ true
  loop_test-idle b = ground arith

  abbrev Does : Pc → Event → Turn Station → Type 0
  Does pc v t = Effect i pc v c t

  is_quiet :
      (pc : Pc) (v : Event) {t₀ t : Turn Station}
      → idle t₀.self.pc ≡ true
      → t₀.channel.back_off_list ≡ c.back_off_list
      → ok t₀ ≡ ok t
      → Does pc v t
  is_quiet pc v h l e = subst (Does pc v) (ok-injective e) (quiet h l)

  begin_back_off-Effect :
      (pc : Pc) (v : Event) {t : Turn Station} → begin_back_off draw s c ≡ ok t → Does pc v t
  unfolding begin_back_off generate_new_back_off_time store_draw
  begin_back_off-Effect pc v h = quiet (ground arith) (ground arith)

  next_frame-Effect :
      (pc : Pc) (v : Event) {t : Turn Station} → next_frame cfg now draw i s c ≡ ok t → Does pc v t
  unfolding next_frame begin_back_off generate_new_back_off_time store_draw
  next_frame-Effect pc v h = quiet (ground arith) (ground arith)

  interrupt-Effect :
      (pc : Pc) (v : Event) {t : Turn Station}
      → ok (interrupt_back_off now s c) ≡ ok t
      → Does pc v t
  unfolding interrupt_back_off
  interrupt-Effect pc v e = is_quiet pc v (loop_test-idle _) refl e

  finish_counting-Effect :
      (pc : Pc) (v : Event) {t : Turn Station} → finish_counting i s c ≡ ok t → Does pc v t
  unfolding finish_counting
  finish_counting-Effect pc v e =
      let (l, el, et) = >>=-eq-ok (or_raise (remove i c.back_off_list) value_error) _ e in
      subst (Does pc v) (ok-injective et) (leaves refl (or_raise-eq-ok _ _ el))

  after_frame-Effect :
      (b : Bool) (s' : Station) (c' : Channel) {t : Turn Station}
      → c'.back_off_list ≡ []
      → ok (after_frame i b s' c') ≡ ok t
      → Does sending done t
  unfolding after_frame
  after_frame-Effect true s' c' h e =
      subst (Does sending done) (ok-injective e) (answers refl refl true refl h)
  after_frame-Effect false s' c' h e =
      subst (Does sending done) (ok-injective e) (answers refl refl false refl h)

module _ (cfg : Config) (now draw i : ℕ) (s : Station) (c : Channel) where
  finish_frame-Effect :
      {t : Turn Station} → finish_frame cfg now i s c ≡ ok t → Effect i sending done c t
  unfolding finish_frame
  finish_frame-Effect e =
      let (r, er, et) =
        >>=-eq-ok (check_collision cfg now i s (record c { back_off_list = [] })) _ e in
      after_frame-Effect cfg now draw i s c r.was_sent r.self r.channel
        (check_collision-list cfg now draw i s (record c { back_off_list = [] }) er) et

  finish_slave-Effect :
      (v : Event) {t : Turn Station}
      → finish_slave cfg now i s c ≡ ok t
      → Effect i slave_sending v c t
  unfolding finish_slave
  finish_slave-Effect v e =
      let (r, er, et) = >>=-eq-ok (check_collision cfg now i s c) _ e in
      is_quiet cfg now draw i s c slave_sending v refl (check_collision-list cfg now draw i s c er)
        et

  run_from-Effect :
      (pc : Pc) (v : Event) {t : Turn Station}
      → run_from pc v cfg now draw i s c ≡ ok t
      → Effect i pc v c t
  unfolding run_from start_counting begin_send seize
  run_from-Effect boot done e = next_frame-Effect cfg now draw i s c _ _ e
  run_from-Effect lock_wait done e =
      subst (Effect i lock_wait done c) (ok-injective e) (joins refl refl refl refl)
  run_from-Effect lock_wait interrupted e = interrupt-Effect cfg now draw i s c _ _ e
  run_from-Effect counting done e = finish_counting-Effect cfg now draw i s c _ _ e
  run_from-Effect counting interrupted e = interrupt-Effect cfg now draw i s c _ _ e
  run_from-Effect own_lock_wait done e =
      subst (Effect i own_lock_wait done c) (ok-injective e) (seizes refl refl refl refl refl)
  run_from-Effect sending done e = finish_frame-Effect e
  run_from-Effect slave_sending done e = finish_slave-Effect done e
  run_from-Effect (sent true) done e = next_frame-Effect cfg now draw i s c _ _ e
  run_from-Effect (sent false) done e = begin_back_off-Effect cfg now draw i s c _ _ e
  run_from-Effect waited done e = is_quiet cfg now draw i s c _ _ refl refl e
  run_from-Effect queue_wait done e = is_quiet cfg now draw i s c _ _ refl refl e
  run_from-Effect queue_wait too_late e = is_quiet cfg now draw i s c _ _ refl refl e
  run_from-Effect queue_wait interrupted e = is_quiet cfg now draw i s c _ _ refl refl e
  run_from-Effect own_lock_wait interrupted e = is_quiet cfg now draw i s c _ _ refl refl e
  run_from-Effect sending interrupted e = is_quiet cfg now draw i s c _ _ refl refl e
  run_from-Effect acking done e = is_quiet cfg now draw i s c _ _ refl refl e
  run_from-Effect acking interrupted e = is_quiet cfg now draw i s c _ _ refl refl e
  run_from-Effect missing_ack done e = is_quiet cfg now draw i s c _ _ refl refl e
  run_from-Effect missing_ack interrupted e = is_quiet cfg now draw i s c _ _ refl refl e
  run_from-Effect (slave_ack b) done e = is_quiet cfg now draw i s c _ _ refl refl e
  run_from-Effect _ _ e = cc

  -- Every run of the process of a station that does not raise has one of the effects.
  pub resume-Effect :
      (v : Event) {t : Turn Station} → resume v cfg now draw i s c ≡ ok t → Effect i s.pc v c t
  unfolding resume
  resume-Effect v e = run_from-Effect s.pc v e
