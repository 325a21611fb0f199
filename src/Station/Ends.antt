-- ===== src/Station/Ends.antt =====
-- The ends of a transmission of a station, and the runs that leave its books alone.
use implementing_5g_nr_u_lte.Common.{
  ℕ, ◌≡◌, refl, arith, Bool, true, false, some, ok, Error, subst, or_raise, >>=-eq-ok,
  or_raise-eq-ok, ok-injective, Bool-cases, inl, inr, ltb, ◌||◌, ◌==◌,
}
use implementing_5g_nr_u_lte.Data.{Config, Frame, Channel, Turn}
use implementing_5g_nr_u_lte.Window.{store_draw}
use implementing_5g_nr_u_lte.Station.{
  Station, Pc, slave_ack, sent, Checked, on_air, check_collision, sent_failed, sent_completed,
  fail_frame, complete_frame, deliver_packet, generate_new_frame, generate_new_back_off_time,
}
use implementing_5g_nr_u_lte.Station.Process.{
  begin_back_off, start_counting, finish_counting, interrupt_back_off, freeze, begin_send, seize,
  finish_slave, clear_tx,
}
use implementing_5g_nr_u_lte.Station.Accounts.{
  FrameOk, RowOk, IsSound, Kept, Ended, Ended-Kept, same_books, slave_row,
}

module _ (cfg : Config) (now draw i : ℕ) (s : Station) (c : Channel) (sound : IsSound cfg s) where
  complete_frame-Ended :
      (f : Frame)
      → FrameOk cfg s.failed_transmissions_in_row (some f)
      → let p = complete_frame now i f s c in Ended cfg i s p.0 c p.1 true
  unfolding complete_frame deliver_packet
  complete_frame-Ended f fine =
      rw (sound.no_packets, deliver_packet)
        (record {
          frame = omega arith;
          row = λ _. refl;
          no_packets = sound.no_packets;
          no_latency = sound.no_latency;
          no_count = sound.no_count;
          booked = record {
            succeeded = omega arith;
            failed = omega arith;
            bytes = omega arith;
            airtime = ground arith;
            other_airtime = λ j h. ground arith;
            succeeded_nr = refl;
            failed_nr = refl;
            airtime_nr = refl;
            control_nr = refl;
          };
        })

  fail_frame-Ended :
      (f : Frame)
      → FrameOk cfg s.failed_transmissions_in_row (some f)
      → let p = fail_frame cfg now i f s c in Ended cfg i s p.0 c p.1 false
  unfolding fail_frame generate_new_frame
  fail_frame-Ended f fine = ground arith

  pub begin_back_off-Kept :
      {t : Turn Station} → begin_back_off draw s c ≡ ok t → Kept cfg i s t.self c t.channel
  unfolding begin_back_off generate_new_back_off_time store_draw
  begin_back_off-Kept e = ground arith

  pub finish_counting-Kept :
      {t : Turn Station} → finish_counting i s c ≡ ok t → Kept cfg i s t.self c t.channel
  unfolding finish_counting
  finish_counting-Kept e = ground arith

  pub interrupt_back_off-Kept :
      let t = interrupt_back_off now s c in Kept cfg i s t.self c t.channel
  unfolding interrupt_back_off freeze
  interrupt_back_off-Kept = ground arith

  the_frame :
      {f : Frame} (e : Error)
      → or_raise s.frame_to_send e ≡ ok f
      → FrameOk cfg s.failed_transmissions_in_row (some f)
  the_frame e h =
      subst (FrameOk cfg s.failed_transmissions_in_row) (or_raise-eq-ok s.frame_to_send e h)
        sound.frame

  sent_failed-Ended :
      {p : Station × Channel} → sent_failed cfg now i s c ≡ ok p → Ended cfg i s p.0 c p.1 false
  unfolding sent_failed
  sent_failed-Ended h =
      let (f, ef, ep) = >>=-eq-ok (or_raise s.frame_to_send _) _ h in
      subst (λ p. Ended cfg i s p.0 c p.1 false) (ok-injective ep)
        (fail_frame-Ended f (the_frame _ ef))

  sent_completed-Ended :
      {p : Station × Channel} → sent_completed now i s c ≡ ok p → Ended cfg i s p.0 c p.1 true
  unfolding sent_completed
  sent_completed-Ended h =
      let (f, ef, ep) = >>=-eq-ok (or_raise s.frame_to_send _) _ h in
      subst (λ p. Ended cfg i s p.0 c p.1 true) (ok-injective ep)
        (complete_frame-Ended f (the_frame _ ef))

  pub check_collision-Ended :
      {r : Checked Station}
      → check_collision cfg now i s c ≡ ok r
      → Ended cfg i s r.self c r.channel r.was_sent
  unfolding check_collision
  check_collision-Ended {r} h = elim (Bool-cases (ltb 1 (on_air c) || on_air c == 0)) [
    | inl busy ↦
        let (p, ep, er) = >>=-eq-ok (sent_failed cfg now i s c) _ (rw busy at h) in
        subst (λ (r : Checked Station). Ended cfg i s r.self c r.channel r.was_sent)
          (ok-injective er) (sent_failed-Ended ep)
    | inr alone ↦
        let (p, ep, er) = >>=-eq-ok (sent_completed now i s c) _ (rw alone at h) in
        subst (λ (r : Checked Station). Ended cfg i s r.self c r.channel r.was_sent)
          (ok-injective er) (sent_completed-Ended ep)
  ]

  pub finish_slave-Kept :
      {t : Turn Station} → finish_slave cfg now i s c ≡ ok t → Kept cfg i s t.self c t.channel
  unfolding finish_slave
  finish_slave-Kept e =
      let (r, er, et) = >>=-eq-ok (check_collision cfg now i s c) _ e in
      let ended = check_collision-Ended er in
      subst (λ (t : Turn Station). Kept cfg i s t.self c t.channel) (ok-injective et)
        (Ended-Kept cfg i s r.self c c r.channel r.channel r.was_sent (slave_ack r.was_sent)
          (same_books c) (same_books r.channel) (slave_row _ _ ended.row) ended)

  pub pc-Kept :
      (pc : Pc) → RowOk pc s.failed_transmissions_in_row → Kept cfg i s (record s { pc = pc }) c c
  pc-Kept pc row = ground arith

  pub begin_send-Kept : let t = begin_send i s c in Kept cfg i s t.self c t.channel
  unfolding begin_send
  begin_send-Kept = ground arith

  pub start_counting-Kept : let t = start_counting now i s c in Kept cfg i s t.self c t.channel
  unfolding start_counting
  start_counting-Kept = ground arith

  pub seize-Kept : let t = seize s c in Kept cfg i s t.self c t.channel
  unfolding seize
  seize-Kept = ground arith

  pub cleared-Kept :
      s.failed_transmissions_in_row ≡ 0 → Kept cfg i s (record s { pc = sent true }) c (clear_tx c)
  cleared-Kept row = ground arith

  pub released-Kept :
      (b : Bool)
      → RowOk (sent b) s.failed_transmissions_in_row
      → Kept cfg i s (record s { is_transmitting = false; pc = sent b }) c c
  released-Kept b row = ground arith

  pub framed :
      s.failed_transmissions_in_row ≡ 0
      → IsSound cfg (record s { frame_to_send = some (generate_new_frame cfg now i) })
  unfolding generate_new_frame
  framed row = ground arith
