-- ===== src/Gnb/Waiting.antt =====
-- A run of the process of a gNB leaves the list of waiting stations alone, and sends only if it had
-- waited for the lock.
use implementing_5g_nr_u_lte.Common.{
  ℕ, ◌≡◌, refl, arith, Bool, true, false, Option, ok, or_raise, subst, >>=-eq-ok, ok-injective, ℤ,
  List, [],
}
use implementing_5g_nr_u_lte.Station.Frames.{given}
use implementing_5g_nr_u_lte.Data.{
  ConfigNr, TransmissionNr, Channel, Event, done, too_late, interrupted,
}
use implementing_5g_nr_u_lte.Window.{store_draw}
use implementing_5g_nr_u_lte.Station.{Checked}
use implementing_5g_nr_u_lte.Gnb.{
  Gnb, Pc, boot, gap_lock_wait, gap_wait, busy_wait, gap_counting, rs_lock_wait, rs_counting,
  waited, queue_wait, own_lock_wait, sending, slave_sending, sent, check_collision, sent_failed,
  sent_completed, fail_transmission, complete_transmission, generate_new_back_off_time,
}
use implementing_5g_nr_u_lte.Gnb.Backoff.{
  TurnNr, loop_test, begin_back_off, start_gap, finish_gap, finish_gap_counting, interrupt_gap,
  start_counting, finish_counting, freeze, interrupt_back_off,
}
use implementing_5g_nr_u_lte.Gnb.Process.{
  begin_send, seize, after_transmission, finish_transmission, finish_slave, run_from, resume,
}

-- Not past the request for the lock to send.
abbrev pub idle : Pc → Bool
idle sending = false
idle _ = true

-- What stays of the channel: the list of waiting stations, and every key of the table of draws.
pub record SparesAt (list : List ℕ) (nodes : ℕ) (table : ℕ → ℕ → Option ℕ) (list' : List ℕ)
    (nodes' : ℕ) (table' : ℕ → ℕ → Option ℕ) : Type 0 where
  pub back_off_list : list' ≡ list
  pub n_of_stations : nodes' ≡ nodes
  pub keys : (d : ℕ) → given (table' d nodes) ≡ given (table d nodes)

-- It reads these parts only, so changes elsewhere are free.
abbrev pub Spares : Channel → Channel → Type 0
Spares c c' =
    SparesAt c.back_off_list c.n_of_stations c.backoffs c'.back_off_list c'.n_of_stations
      c'.backoffs

spared : (c : Channel) → Spares c c
spared c = record { back_off_list = refl; n_of_stations = refl; keys = λ d. refl }

pub data Effect (pc : Pc) (v : Event) (c : Channel) (t : TurnNr) : Type 0 where
  quiet : idle t.self.pc ≡ true → Spares c t.channel → Effect pc v c t
  seizes : pc ≡ own_lock_wait → v ≡ done → Spares c t.channel → Effect pc v c t

pub spares : {pc : Pc} {v : Event} {c : Channel} {t : TurnNr} → Effect pc v c t → Spares c t.channel
spares (quiet _ l) = l
spares (seizes _ _ l) = l

module _ (cfg : ConfigNr) (now draw i : ℕ) (g : Gnb) (c : Channel) (st : Option ℕ) where
  check_collision-Spares : {r : Checked Gnb} → check_collision now g c ≡ ok r → Spares c r.channel
  unfolding check_collision sent_failed sent_completed fail_transmission complete_transmission
  check_collision-Spares h = record {
    back_off_list = ground arith;
    n_of_stations = ground arith;
    keys = λ d. ground arith;
  }

  loop_test-idle : (gap : Bool) (b : ℤ) → idle (loop_test gap b) ≡ true
  loop_test-idle gap b = ground arith

  is_quiet :
      (pc : Pc) (v : Event) {t₀ t : TurnNr}
      → idle t₀.self.pc ≡ true
      → Spares c t₀.channel
      → ok t₀ ≡ ok t
      → Effect pc v c t
  is_quiet pc v h l e = subst (Effect pc v c) (ok-injective e) (quiet h l)

  begin_back_off-Effect :
      (gap : Bool) (pc : Pc) (v : Event) {t : TurnNr}
      → begin_back_off gap cfg draw g c st ≡ ok t
      → Effect pc v c t
  unfolding begin_back_off generate_new_back_off_time store_draw
  begin_back_off-Effect gap pc v h = quiet (ground arith) (record {
    back_off_list = ground arith;
    n_of_stations = ground arith;
    keys = λ d. ground arith;
  })

  start_gap-Effect :
      (pc : Pc) (v : Event) {t : TurnNr} → start_gap cfg now g c st ≡ ok t → Effect pc v c t
  unfolding start_gap
  start_gap-Effect pc v h = quiet (ground arith) (record {
    back_off_list = ground arith;
    n_of_stations = ground arith;
    keys = λ d. ground arith;
  })

  finish_gap-Effect :
      (pc : Pc) (v : Event) {t : TurnNr} → ok (finish_gap now i g c st) ≡ ok t → Effect pc v c t
  unfolding finish_gap
  finish_gap-Effect pc v h = quiet (ground arith) (record {
    back_off_list = ground arith;
    n_of_stations = ground arith;
    keys = λ d. ground arith;
  })

  finish_gap_counting-Effect :
      (pc : Pc) (v : Event) {t : TurnNr} → finish_gap_counting i g c st ≡ ok t → Effect pc v c t
  unfolding finish_gap_counting
  finish_gap_counting-Effect pc v h = quiet (ground arith) (record {
    back_off_list = ground arith;
    n_of_stations = ground arith;
    keys = λ d. ground arith;
  })

  interrupt_gap-Effect :
      (pc : Pc) (v : Event) {t : TurnNr}
      → ok (interrupt_gap cfg now g c st) ≡ ok t
      → Effect pc v c t
  unfolding interrupt_gap
  interrupt_gap-Effect pc v e = is_quiet pc v (loop_test-idle true _) (spared c) e

  finish_counting-Effect :
      (pc : Pc) (v : Event) {t : TurnNr} → finish_counting i g c st ≡ ok t → Effect pc v c t
  unfolding finish_counting
  finish_counting-Effect pc v h = quiet (ground arith) (record {
    back_off_list = ground arith;
    n_of_stations = ground arith;
    keys = λ d. ground arith;
  })

  interrupt_back_off-Effect :
      (pc : Pc) (v : Event) {t : TurnNr}
      → interrupt_back_off cfg now g c st ≡ ok t
      → Effect pc v c t
  unfolding interrupt_back_off
  interrupt_back_off-Effect pc v e =
      let (g', eg, et) = >>=-eq-ok (freeze cfg now g st) _ e in
      is_quiet pc v (loop_test-idle false _) (spared c) et

  after_transmission-Effect :
      (b : Bool) (x : TransmissionNr) (g' : Gnb) (c' : Channel) {t : TurnNr}
      → Spares c c'
      → ok (after_transmission i b x g' c' st) ≡ ok t
      → Effect sending done c t
  unfolding after_transmission
  after_transmission-Effect true x g' c' h e = is_quiet sending done refl h e
  after_transmission-Effect false x g' c' h e = is_quiet sending done refl h e

module _ (cfg : ConfigNr) (now draw i : ℕ) (g : Gnb) (c : Channel) (st : Option ℕ) where
  finish_transmission-Effect :
      {t : TurnNr} → finish_transmission now i g c st ≡ ok t → Effect sending done c t
  unfolding finish_transmission
  finish_transmission-Effect e =
      let (r, er, et) =
        >>=-eq-ok (check_collision now g (record c { back_off_list_nr = [] })) _ e in
      let (x, ex, eq) = >>=-eq-ok (or_raise (r.self.transmission_to_send) _) _ et in
      after_transmission-Effect cfg now draw i g c st r.was_sent x r.self r.channel
        (check_collision-Spares cfg now draw i g (record c { back_off_list_nr = [] }) st er) eq

  finish_slave-Effect :
      (v : Event) {t : TurnNr} → finish_slave now g c st ≡ ok t → Effect slave_sending v c t
  unfolding finish_slave
  finish_slave-Effect v e =
      let (r, er, et) = >>=-eq-ok (check_collision now g c) _ e in
      is_quiet cfg now draw i g c st slave_sending v refl
        (check_collision-Spares cfg now draw i g c st er) et

  run_from-Effect :
      (pc : Pc) (v : Event) (gap : Bool) {t : TurnNr}
      → run_from pc v gap cfg now draw i g c st ≡ ok t
      → Effect pc v c t
  unfolding run_from start_counting begin_send seize
  run_from-Effect boot done gap e = begin_back_off-Effect cfg now draw i g c st gap _ _ e
  run_from-Effect gap_lock_wait done gap e = start_gap-Effect cfg now draw i g c st _ _ e
  run_from-Effect gap_lock_wait interrupted gap e = interrupt_gap-Effect cfg now draw i g c st _ _ e
  run_from-Effect gap_wait done gap e = finish_gap-Effect cfg now draw i g c st _ _ e
  run_from-Effect gap_wait interrupted gap e = interrupt_gap-Effect cfg now draw i g c st _ _ e
  run_from-Effect busy_wait done gap e =
      is_quiet cfg now draw i g c st _ _ (loop_test-idle cfg now draw i g c st true _) (spared c) e
  run_from-Effect busy_wait interrupted gap e = interrupt_gap-Effect cfg now draw i g c st _ _ e
  run_from-Effect gap_counting done gap e = finish_gap_counting-Effect cfg now draw i g c st _ _ e
  run_from-Effect gap_counting interrupted gap e = interrupt_gap-Effect cfg now draw i g c st _ _ e
  run_from-Effect rs_lock_wait done gap e = is_quiet cfg now draw i g c st _ _ refl (spared c) e
  run_from-Effect rs_lock_wait interrupted gap e =
      interrupt_back_off-Effect cfg now draw i g c st _ _ e
  run_from-Effect rs_counting done gap e = finish_counting-Effect cfg now draw i g c st _ _ e
  run_from-Effect rs_counting interrupted gap e =
      interrupt_back_off-Effect cfg now draw i g c st _ _ e
  run_from-Effect waited done gap e = is_quiet cfg now draw i g c st _ _ refl (spared c) e
  run_from-Effect queue_wait done gap e = is_quiet cfg now draw i g c st _ _ refl (spared c) e
  run_from-Effect queue_wait too_late gap e = is_quiet cfg now draw i g c st _ _ refl (spared c) e
  run_from-Effect queue_wait interrupted gap e =
      is_quiet cfg now draw i g c st _ _ refl (spared c) e
  run_from-Effect own_lock_wait done gap e =
      subst (Effect own_lock_wait done c) (ok-injective e) (seizes refl refl (spared c))
  run_from-Effect own_lock_wait interrupted gap e =
      is_quiet cfg now draw i g c st _ _ refl (spared c) e
  run_from-Effect sending done gap e = finish_transmission-Effect e
  run_from-Effect sending interrupted gap e = is_quiet cfg now draw i g c st _ _ refl (spared c) e
  run_from-Effect slave_sending done gap e = finish_slave-Effect done e
  run_from-Effect (sent b) done gap e = begin_back_off-Effect cfg now draw i g c st gap _ _ e
  run_from-Effect _ _ gap e = cc

  -- Every run of the process of a gNB that does not raise has one of the effects.
  pub resume-Effect :
      (v : Event) (gap : Bool) {t : TurnNr}
      → resume v gap cfg now draw i g c st ≡ ok t
      → Effect g.pc v c t
  unfolding resume
  resume-Effect v gap e = run_from-Effect g.pc v gap e
