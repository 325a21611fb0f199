-- ===== src/Gnb/Runs.antt =====
-- Every run of the process of a gNB keeps the books.
use implementing_5g_nr_u_lte.Common.{
  ℕ, ◌*◌, ◌≡◌, inl, inr, refl, ap, subst, arith, Bool, true, false, Option, some, ℤ, pos, negsuc,
  ◌+ℤ◌, int_laws, [], ok, or_raise, >>=-eq-ok, or_raise-eq-ok, ok-injective, update_self,
}
use implementing_5g_nr_u_lte.Data.{
  ConfigNr, TransmissionNr, Channel, Event, done, too_late, interrupted,
}
use implementing_5g_nr_u_lte.Gnb.{
  Gnb, Pc, boot, gap_lock_wait, gap_wait, busy_wait, gap_counting, rs_lock_wait, rs_counting,
  waited, queue_wait, own_lock_wait, sending, slave_sending, sent, check_collision,
}
use implementing_5g_nr_u_lte.Gnb.Backoff.{TurnNr, turn, loop_test}
use implementing_5g_nr_u_lte.Gnb.Process.{after_transmission, finish_transmission, run_from, resume}
use implementing_5g_nr_u_lte.Gnb.Accounts.{
  Unchecked, TransmissionOk, IsSound, occupancy, Kept, Timed, Ended,
}
use implementing_5g_nr_u_lte.Gnb.Ends.{
  begin_back_off-Kept, start_gap-Kept, finish_gap-Kept, finish_gap_counting-Kept,
  interrupt_gap-Kept, start_counting-Kept, finish_counting-Kept, interrupt_back_off-Kept, pc-Kept,
  seize-Kept, begin_send-Kept, check_collision-Ended, finish_slave-Kept,
}

module _ (cfg : ConfigNr) (now draw i : ℕ) (g : Gnb) (c : Channel) (st : Option ℕ)
    (sound : IsSound cfg.mcot g) where
  abbrev Keeps : TurnNr → Type 0
  Keeps t = Kept cfg.mcot i g t.self c t.channel

  -- One more transmission in the books of gNB `i`.
  credited :
      (t : TransmissionNr) (c' : Channel)
      → Timed cfg.mcot (some t)
      → (c'.airtime_data_nr i +ℤ t.airtime) +ℤ (c'.airtime_control_nr i +ℤ t.rs_time)
        ≡ occupancy c' i +ℤ pos (cfg.mcot * 1000)
  credited t c' e = rw (← e) (omega int_laws)

  after_transmission-Kept :
      (b : Bool) (t : TransmissionNr) (g' : Gnb) (c' : Channel)
      → Timed cfg.mcot (some t)
      → Ended cfg.mcot g g' (record c { back_off_list_nr = [] }) c' b
      → Keeps (after_transmission i b t g' c' st)
  unfolding after_transmission
  after_transmission-Kept true t g' c' timed e = record {
    sound = record { transmission = tt; no_latency = e.no_latency; no_count = e.no_count };
    booked = record {
      succeeded = e.succeeded;
      failed = e.failed;
      row = e.row;
      grows = e.grows;
      on_the_air = inr (
        rw
            (
              update_self c'.airtime_data_nr i _,
              update_self c'.airtime_control_nr i _,
              ← e.data_nr,
              ← e.control_nr,
            )
            (credited t c' timed),
        e.success refl,
      );
      others = λ j h. ground (arith, ap (λ f. f j) e.data_nr, ap (λ f. f j) e.control_nr);
      wifi = e.wifi;
    };
  }
  after_transmission-Kept false t g' c' timed e = record {
    sound = record { transmission = tt; no_latency = e.no_latency; no_count = e.no_count };
    booked = record {
      succeeded = e.succeeded;
      failed = e.failed;
      row = e.row;
      grows = e.grows;
      on_the_air = inl (rw (e.data_nr, e.control_nr) refl);
      others = λ j _. (ap (λ f. f j) e.data_nr, ap (λ f. f j) e.control_nr);
      wifi = e.wifi;
    };
  }

  finish_transmission-Kept :
      {t : TurnNr}
      → Unchecked cfg.mcot g.transmission_to_send
      → finish_transmission now i g c st ≡ ok t
      → Keeps t
  unfolding finish_transmission
  finish_transmission-Kept fine h =
      let (r, er, et) =
        >>=-eq-ok (check_collision now g (record c { back_off_list_nr = [] })) _ h in
      let (t, e, eq) = >>=-eq-ok (or_raise (r.self.transmission_to_send) _) _ et in
      let ended = check_collision-Ended cfg now draw i g _ st sound fine er in
      subst Keeps (ok-injective eq) (
        after_transmission-Kept r.was_sent t r.self r.channel
          (subst (Timed cfg.mcot) (or_raise-eq-ok (r.self.transmission_to_send) _ e) ended.timed)
          ended)

  is_Kept : {t₀ t : TurnNr} → Keeps t₀ → ok t₀ ≡ ok t → Keeps t
  is_Kept k e = subst Keeps (ok-injective e) k

  moved :
      (pc : Pc) {t : TurnNr}
      → TransmissionOk cfg.mcot pc g.transmission_to_send
      → ok (turn (record g { pc = pc }) c st) ≡ ok t
      → Keeps t
  moved pc fine e = is_Kept (pc-Kept cfg now draw i g c st sound pc fine) e

  at_pc : {pc : Pc} → g.pc ≡ pc → TransmissionOk cfg.mcot pc g.transmission_to_send
  at_pc p = subst (λ pc. TransmissionOk cfg.mcot pc g.transmission_to_send) p sound.transmission

  restart : (b : ℤ) → TransmissionOk cfg.mcot (loop_test true b) g.transmission_to_send
  restart (pos n) = tt
  restart (negsuc n) = tt

  run_from-Kept :
      (pc : Pc) (v : Event) (gap : Bool) {t : TurnNr}
      → g.pc ≡ pc
      → run_from pc v gap cfg now draw i g c st ≡ ok t
      → Keeps t
  unfolding run_from
  run_from-Kept boot done gap p e = begin_back_off-Kept cfg now draw i g c st sound gap e
  run_from-Kept gap_lock_wait done gap p e = start_gap-Kept cfg now draw i g c st sound e
  run_from-Kept gap_lock_wait interrupted gap p e =
      is_Kept (interrupt_gap-Kept cfg now draw i g c st sound) e
  run_from-Kept gap_wait done gap p e = is_Kept (finish_gap-Kept cfg now draw i g c st sound) e
  run_from-Kept gap_wait interrupted gap p e =
      is_Kept (interrupt_gap-Kept cfg now draw i g c st sound) e
  run_from-Kept busy_wait done gap p e = moved _ (restart g.back_off_time) e
  run_from-Kept busy_wait interrupted gap p e =
      is_Kept (interrupt_gap-Kept cfg now draw i g c st sound) e
  run_from-Kept gap_counting done gap p e = finish_gap_counting-Kept cfg now draw i g c st sound e
  run_from-Kept gap_counting interrupted gap p e =
      is_Kept (interrupt_gap-Kept cfg now draw i g c st sound) e
  run_from-Kept rs_lock_wait done gap p e =
      is_Kept (start_counting-Kept cfg now draw i g c st sound) e
  run_from-Kept rs_lock_wait interrupted gap p e =
      interrupt_back_off-Kept cfg now draw i g c st sound e
  run_from-Kept rs_counting done gap p e = finish_counting-Kept cfg now draw i g c st sound e
  run_from-Kept rs_counting interrupted gap p e =
      interrupt_back_off-Kept cfg now draw i g c st sound e
  run_from-Kept waited done gap p e = is_Kept (begin_send-Kept cfg now draw i g c st sound gap) e
  run_from-Kept queue_wait done gap p e = moved own_lock_wait (at_pc p) e
  run_from-Kept queue_wait too_late gap p e = moved slave_sending (at_pc p) e
  run_from-Kept queue_wait interrupted gap p e = moved slave_sending (at_pc p) e
  run_from-Kept own_lock_wait done gap p e =
      is_Kept (seize-Kept cfg now draw i g c st sound (at_pc p)) e
  run_from-Kept own_lock_wait interrupted gap p e = moved slave_sending (at_pc p) e
  run_from-Kept sending done gap p e = finish_transmission-Kept (at_pc p) e
  run_from-Kept sending interrupted gap p e = moved slave_sending (at_pc p) e
  run_from-Kept slave_sending done gap p e =
      finish_slave-Kept cfg now draw i g c st sound (at_pc p) e
  run_from-Kept (sent b) done gap p e = begin_back_off-Kept cfg now draw i g c st sound gap e
  run_from-Kept _ _ gap p e = cc

  -- Every run of the process of a gNB that is sound keeps it so, and moves the books of the channel
  -- as it moves the gNB's own counters.
  pub resume-Kept :
      (v : Event) (gap : Bool) {t : TurnNr} → resume v gap cfg now draw i g c st ≡ ok t → Keeps t
  unfolding resume
  resume-Kept v gap e = run_from-Kept g.pc v gap refl e
