-- ===== src/Gnb/Ends.antt =====
-- The ends of a transmission of a gNB, and the runs that leave its books alone.
use implementing_5g_nr_u_lte.Common.{
  ℕ, ◌≡◌, inl, inr, refl, ap, subst, arith, Bool, true, false, Bool-cases, Option, some, sub-add,
  ok, Error, or_raise, >>=-eq-ok, or_raise-eq-ok, ok-injective, ltb, ◌||◌, ◌==◌,
}
use implementing_5g_nr_u_lte.Data.{ConfigNr, TransmissionNr, Channel}
use implementing_5g_nr_u_lte.Window.{store_draw}
use implementing_5g_nr_u_lte.Station.{Checked, on_air}
use implementing_5g_nr_u_lte.Gnb.{
  Gnb, Pc, sent, gen_new_transmission, generate_new_back_off_time, fail_transmission,
  complete_transmission, sent_failed, sent_completed, check_collision,
}
use implementing_5g_nr_u_lte.Gnb.Backoff.{
  TurnNr, turn, begin_back_off, start_gap, finish_gap, finish_gap_counting, interrupt_gap,
  freeze_gap, start_counting, finish_counting, interrupt_back_off, freeze,
}
use implementing_5g_nr_u_lte.Gnb.Process.{begin_send, seize, finish_slave}
use implementing_5g_nr_u_lte.Gnb.Accounts.{Unchecked, TransmissionOk, IsSound, Kept, Ended}

module _ (cfg : ConfigNr) (now draw i : ℕ) (g : Gnb) (c : Channel) (st : Option ℕ)
    (sound : IsSound cfg.mcot g) where
  abbrev KeptBy : TurnNr → Type 0
  KeptBy t = Kept cfg.mcot i g t.self c t.channel

  pub begin_back_off-Kept :
      (gap : Bool) {t : TurnNr} → begin_back_off gap cfg draw g c st ≡ ok t → KeptBy t
  unfolding begin_back_off generate_new_back_off_time store_draw
  begin_back_off-Kept true e = ground arith
  begin_back_off-Kept false e = ground arith

  pub start_gap-Kept : {t : TurnNr} → start_gap cfg now g c st ≡ ok t → KeptBy t
  unfolding start_gap
  start_gap-Kept e = ground arith

  pub finish_gap-Kept : KeptBy (finish_gap now i g c st)
  unfolding finish_gap
  finish_gap-Kept = ground arith

  pub finish_gap_counting-Kept : {t : TurnNr} → finish_gap_counting i g c st ≡ ok t → KeptBy t
  unfolding finish_gap_counting
  finish_gap_counting-Kept e = ground arith

  pub interrupt_gap-Kept : KeptBy (interrupt_gap cfg now g c st)
  unfolding interrupt_gap freeze_gap
  interrupt_gap-Kept = ground arith

  pub start_counting-Kept : KeptBy (start_counting cfg now i g c)
  unfolding start_counting
  start_counting-Kept = ground arith

  pub finish_counting-Kept : {t : TurnNr} → finish_counting i g c st ≡ ok t → KeptBy t
  unfolding finish_counting
  finish_counting-Kept e = ground arith

  pub interrupt_back_off-Kept : {t : TurnNr} → interrupt_back_off cfg now g c st ≡ ok t → KeptBy t
  unfolding interrupt_back_off freeze
  interrupt_back_off-Kept e = ground arith

  pub pc-Kept :
      (pc : Pc)
      → TransmissionOk cfg.mcot pc g.transmission_to_send
      → KeptBy (turn (record g { pc = pc }) c st)
  pc-Kept pc fine = ground arith

  pub seize-Kept : Unchecked cfg.mcot g.transmission_to_send → KeptBy (seize g c st)
  unfolding seize
  seize-Kept fine = ground arith

  pub begin_send-Kept : (gap : Bool) → KeptBy (begin_send gap cfg now i g c st)
  unfolding begin_send gen_new_transmission
  begin_send-Kept gap = record {
    sound = record {
      transmission = (refl, sub-add _ _);
      no_latency = sound.no_latency;
      no_count = sound.no_count;
    };
    booked = ground arith;
  }

  fail_transmission-Ended :
      (t : TransmissionNr)
      → Unchecked cfg.mcot (some t)
      → let p = fail_transmission t g c in Ended cfg.mcot g p.0 c p.1 false
  unfolding fail_transmission
  fail_transmission-Ended t fine = record {
    timed = fine.1;
    no_latency = sound.no_latency;
    no_count = sound.no_count;
    succeeded = omega arith;
    failed = omega arith;
    row = ground arith;
    grows = omega arith;
    success = λ e. cc;
    data_nr = refl;
    control_nr = refl;
    wifi = (refl, refl, refl, refl);
  }

  complete_transmission-Ended :
      (t : TransmissionNr)
      → Unchecked cfg.mcot (some t)
      → let p = complete_transmission now t g c in Ended cfg.mcot g p.0 c p.1 true
  unfolding complete_transmission
  complete_transmission-Ended t fine = record {
    timed = fine.1;
    no_latency = sound.no_latency;
    no_count = sound.no_count;
    succeeded = omega arith;
    failed = omega arith;
    row = λ e. absurd (omega arith);
    grows = omega arith;
    success = λ _. refl;
    data_nr = refl;
    control_nr = refl;
    wifi = (refl, refl, refl, refl);
  }

  module _ (unchecked : Unchecked cfg.mcot g.transmission_to_send) where
    the_transmission :
        {t : TransmissionNr} (e : Error)
        → or_raise g.transmission_to_send e ≡ ok t
        → Unchecked cfg.mcot (some t)
    the_transmission e h =
        subst (Unchecked cfg.mcot) (or_raise-eq-ok g.transmission_to_send e h) unchecked

    sent_failed-Ended :
        {p : Gnb × Channel} → sent_failed g c ≡ ok p → Ended cfg.mcot g p.0 c p.1 false
    unfolding sent_failed
    sent_failed-Ended h =
        let (t, et, ep) = >>=-eq-ok (or_raise g.transmission_to_send _) _ h in
        subst (λ p. Ended cfg.mcot g p.0 c p.1 false) (ok-injective ep)
          (fail_transmission-Ended t (the_transmission _ et))

    sent_completed-Ended :
        {p : Gnb × Channel} → sent_completed now g c ≡ ok p → Ended cfg.mcot g p.0 c p.1 true
    unfolding sent_completed
    sent_completed-Ended h =
        let (t, et, ep) = >>=-eq-ok (or_raise g.transmission_to_send _) _ h in
        subst (λ p. Ended cfg.mcot g p.0 c p.1 true) (ok-injective ep)
          (complete_transmission-Ended t (the_transmission _ et))

    pub check_collision-Ended :
        {r : Checked Gnb}
        → check_collision now g c ≡ ok r
        → Ended cfg.mcot g r.self c r.channel r.was_sent
    unfolding check_collision
    check_collision-Ended h = elim (Bool-cases (ltb 1 (on_air c) || on_air c == 0)) [
      | inl busy ↦
          let (p, ep, er) = >>=-eq-ok (sent_failed g c) _ (rw busy at h) in
          subst (λ (r : Checked Gnb). Ended cfg.mcot g r.self c r.channel r.was_sent)
            (ok-injective er) (sent_failed-Ended ep)
      | inr alone ↦
          let (p, ep, er) = >>=-eq-ok (sent_completed now g c) _ (rw alone at h) in
          subst (λ (r : Checked Gnb). Ended cfg.mcot g r.self c r.channel r.was_sent)
            (ok-injective er) (sent_completed-Ended ep)
    ]

    slave-Kept :
        (r : Checked Gnb)
        → Ended cfg.mcot g r.self c r.channel r.was_sent
        → KeptBy
            (turn (record (r.self) { is_transmitting = false; pc = sent r.was_sent }) r.channel st)
    slave-Kept r e = record {
      sound = record { transmission = tt; no_latency = e.no_latency; no_count = e.no_count };
      booked = record {
        succeeded = e.succeeded;
        failed = e.failed;
        row = e.row;
        grows = e.grows;
        on_the_air = inl (rw (e.data_nr, e.control_nr) refl);
        others = λ j _. (ap (λ f. f j) e.data_nr, ap (λ f. f j) e.control_nr);
        wifi = e.wifi;
      };
    }

    pub finish_slave-Kept : {t : TurnNr} → finish_slave now g c st ≡ ok t → KeptBy t
    unfolding finish_slave
    finish_slave-Kept e =
        let (r, er, et) = >>=-eq-ok (check_collision now g c) _ e in
        subst KeptBy (ok-injective et) (slave-Kept r (check_collision-Ended er))
