-- ===== src/Gnb/Contending.antt =====
-- A run of the process of a gNB in the mode of reservation signals: what it does to the list of
-- gNBs that count down and to the variable `start` of the module.
use implementing_5g_nr_u_lte.Common.{
  ℕ, ◌≡◌, refl, arith, Bool, true, false, Option, some, [], ◌∷◌, ◌++◌, ok, or_raise, subst,
  >>=-eq-ok, or_raise-eq-ok, ok-injective, ℤ, remove, value_error,
}
use implementing_5g_nr_u_lte.Data.{ConfigNr, Channel, Event, done, too_late, interrupted}
use implementing_5g_nr_u_lte.Window.{store_draw}
use implementing_5g_nr_u_lte.Station.Frames.{given}
use implementing_5g_nr_u_lte.Gnb.{
  Gnb, Pc, boot, gap_lock_wait, gap_wait, busy_wait, gap_counting, rs_lock_wait, rs_counting,
  waited, queue_wait, own_lock_wait, sending, slave_sending, sent, check_collision, sent_failed,
  sent_completed, fail_transmission, complete_transmission, generate_new_back_off_time,
}
use implementing_5g_nr_u_lte.Gnb.Backoff.{
  TurnNr, turn, loop_test, begin_back_off, start_counting, finish_counting, freeze,
  interrupt_back_off,
}
use implementing_5g_nr_u_lte.Gnb.Process.{
  begin_send, seize, after_transmission, finish_transmission, finish_slave, run_from, resume,
}

-- The points of a process that it reaches without `gap`.
abbrev pub signals : Pc → Bool
signals gap_lock_wait = false
signals gap_wait = false
signals busy_wait = false
signals gap_counting = false
signals _ = true

-- Those where it neither counts down nor has the lock to send.
abbrev pub idle : Pc → Bool
idle rs_counting = false
idle sending = false
idle pc = signals pc

-- The ways in which a run of gNB `i` from `pc` may end.
pub data Effect (i : ℕ) (pc : Pc) (v : Event) (c : Channel) (t : TurnNr) : Type 0 where
  quiet :
      idle t.self.pc ≡ true → t.channel.back_off_list_nr ≡ c.back_off_list_nr → Effect i pc v c t
  joins :
      pc ≡ rs_lock_wait
      → v ≡ done
      → t.self.pc ≡ rs_counting
      → t.channel.back_off_list_nr ≡ c.back_off_list_nr ++ i ∷ []
      → Effect i pc v c t
  leaves :
      idle t.self.pc ≡ true
      → remove i c.back_off_list_nr ≡ some t.channel.back_off_list_nr
      → Effect i pc v c t
  seizes :
      pc ≡ own_lock_wait
      → v ≡ done
      → t.self.pc ≡ sending
      → t.channel.back_off_list_nr ≡ c.back_off_list_nr
      → t.interrupts_nr ≡ c.back_off_list_nr
      → Effect i pc v c t
  clears :
      pc ≡ sending
      → v ≡ done
      → idle t.self.pc ≡ true
      → t.channel.back_off_list_nr ≡ []
      → Effect i pc v c t

-- The limit of the window stays, and who has set out to count has set `start` before.
abbrev pub HasStart : Gnb → Option ℕ → Type 0
HasStart g st = g.first_interrupt ≡ true → given st ≡ true

pub record Contends (i : ℕ) (pc : Pc) (v : Event) (g : Gnb) (c : Channel) (st : Option ℕ)
    (t : TurnNr) : Type 0 where
  pub effect : Effect i pc v c t
  pub cw_max : t.self.cw_max ≡ g.cw_max
  pub start_kept : given st ≡ true → given t.start ≡ true
  pub start_set : HasStart g st → HasStart t.self t.start

module _ (cfg : ConfigNr) (now draw i : ℕ) (g : Gnb) (c : Channel) (st : Option ℕ) where
  abbrev Does : Pc → Event → TurnNr → Type 0
  Does pc v t = Contends i pc v g c st t

  loop_test-idle : (b : ℤ) → idle (loop_test false b) ≡ true
  loop_test-idle b = ground arith

  is_Contends : (pc : Pc) (v : Event) {t₀ t : TurnNr} → Does pc v t₀ → ok t₀ ≡ ok t → Does pc v t
  is_Contends pc v h e = subst (Does pc v) (ok-injective e) h

  -- Only the program counter moves.
  moved :
      (pc : Pc) (v : Event) (pc' : Pc) {t : TurnNr}
      → idle pc' ≡ true
      → ok (turn (record g { pc = pc' }) c st) ≡ ok t
      → Does pc v t
  moved pc v pc' h e =
      is_Contends pc v
        (record { effect = quiet h refl; cw_max = refl; start_kept = λ k. k; start_set = λ k. k }) e

  begin_back_off-Contends :
      (pc : Pc) (v : Event) {t : TurnNr} → begin_back_off false cfg draw g c st ≡ ok t → Does pc v t
  unfolding begin_back_off generate_new_back_off_time store_draw
  begin_back_off-Contends pc v h = record {
    effect = quiet (ground arith) (ground arith);
    cw_max = ground arith;
    start_kept = λ k. ground arith;
    start_set = λ k l. ground arith;
  }

  start_counting-Contends :
      {t : TurnNr} → ok (start_counting cfg now i g c) ≡ ok t → Does rs_lock_wait done t
  unfolding start_counting
  start_counting-Contends e =
      is_Contends rs_lock_wait done
        (record {
          effect = joins refl refl refl refl;
          cw_max = refl;
          start_kept = λ k. refl;
          start_set = λ k l. refl;
        })
        e

  finish_counting-Contends :
      (pc : Pc) (v : Event) {t : TurnNr} → finish_counting i g c st ≡ ok t → Does pc v t
  unfolding finish_counting
  finish_counting-Contends pc v e =
      let (l, el, et) = >>=-eq-ok (or_raise (remove i c.back_off_list_nr) value_error) _ e in
      is_Contends pc v
        (record {
          effect = leaves refl (or_raise-eq-ok _ _ el);
          cw_max = refl;
          start_kept = λ k. k;
          start_set = λ k. k;
        })
        et

  interrupt_back_off-Contends :
      (pc : Pc) (v : Event) {t : TurnNr} → interrupt_back_off cfg now g c st ≡ ok t → Does pc v t
  unfolding interrupt_back_off freeze
  interrupt_back_off-Contends pc v e = record {
    effect = quiet (ground arith) (ground arith);
    cw_max = ground arith;
    start_kept = λ k. ground arith;
    start_set = λ k l. ground arith;
  }

  begin_send-Contends :
      (pc : Pc) (v : Event) (gap : Bool) {t : TurnNr}
      → ok (begin_send gap cfg now i g c st) ≡ ok t
      → Does pc v t
  unfolding begin_send
  begin_send-Contends pc v gap e =
      is_Contends pc v
        (record {
          effect = quiet refl refl;
          cw_max = refl;
          start_kept = λ k. k;
          start_set = λ k. k;
        })
        e

  seize-Contends : {t : TurnNr} → ok (seize g c st) ≡ ok t → Does own_lock_wait done t
  unfolding seize
  seize-Contends e =
      is_Contends own_lock_wait done
        (record {
          effect = seizes refl refl refl refl refl;
          cw_max = refl;
          start_kept = λ k. k;
          start_set = λ k. k;
        })
        e

  finish_transmission-Contends :
      {t : TurnNr} → finish_transmission now i g c st ≡ ok t → Does sending done t
  unfolding finish_transmission check_collision sent_failed sent_completed fail_transmission
      complete_transmission after_transmission
  finish_transmission-Contends e = record {
    effect = clears refl refl (ground arith) (ground arith);
    cw_max = ground arith;
    start_kept = λ k. ground arith;
    start_set = λ k l. ground arith;
  }

  finish_slave-Contends : {t : TurnNr} → finish_slave now g c st ≡ ok t → Does slave_sending done t
  unfolding finish_slave check_collision sent_failed sent_completed fail_transmission
      complete_transmission
  finish_slave-Contends e = record {
    effect = quiet (ground arith) (ground arith);
    cw_max = ground arith;
    start_kept = λ k. ground arith;
    start_set = λ k l. ground arith;
  }

module _ (cfg : ConfigNr) (now draw i : ℕ) (g : Gnb) (c : Channel) (st : Option ℕ) where
  run_from-Contends :
      (pc : Pc) (v : Event) {t : TurnNr}
      → signals pc ≡ true
      → run_from pc v false cfg now draw i g c st ≡ ok t
      → Contends i pc v g c st t
  unfolding run_from
  run_from-Contends boot done s e = begin_back_off-Contends cfg now draw i g c st _ _ e
  run_from-Contends rs_lock_wait done s e = start_counting-Contends cfg now draw i g c st e
  run_from-Contends rs_lock_wait interrupted s e =
      interrupt_back_off-Contends cfg now draw i g c st _ _ e
  run_from-Contends rs_counting done s e = finish_counting-Contends cfg now draw i g c st _ _ e
  run_from-Contends rs_counting interrupted s e =
      interrupt_back_off-Contends cfg now draw i g c st _ _ e
  run_from-Contends waited done s e = begin_send-Contends cfg now draw i g c st _ _ false e
  run_from-Contends queue_wait done s e = moved cfg now draw i g c st _ _ own_lock_wait refl e
  run_from-Contends queue_wait too_late s e = moved cfg now draw i g c st _ _ slave_sending refl e
  run_from-Contends queue_wait interrupted s e =
      moved cfg now draw i g c st _ _ slave_sending refl e
  run_from-Contends own_lock_wait done s e = seize-Contends cfg now draw i g c st e
  run_from-Contends own_lock_wait interrupted s e =
      moved cfg now draw i g c st _ _ slave_sending refl e
  run_from-Contends sending done s e = finish_transmission-Contends cfg now draw i g c st e
  run_from-Contends sending interrupted s e = moved cfg now draw i g c st _ _ slave_sending refl e
  run_from-Contends slave_sending done s e = finish_slave-Contends cfg now draw i g c st e
  run_from-Contends (sent b) done s e = begin_back_off-Contends cfg now draw i g c st _ _ e
  run_from-Contends _ _ s e = cc

  -- Every run of the process without `gap` that does not raise has one of the effects.
  pub resume-Contends :
      (v : Event) {t : TurnNr}
      → signals g.pc ≡ true
      → resume v false cfg now draw i g c st ≡ ok t
      → Contends i g.pc v g c st t
  unfolding resume
  resume-Contends v s e = run_from-Contends g.pc v s e
