-- ===== src/Gnb/GapMode.antt =====
-- A run of the process of a gNB in the gap mode: what it leaves as it was, and the exceptions that
-- it can end in.
use implementing_5g_nr_u_lte.Common.{
  ℕ, ◌≡◌, ◌<◌, ◌⊎◌, inl, inr, refl, arith, Bool, true, false, Option, raised, Error, ok, Bool-cases,
  value_error, count, remove-some, subst, ok-injective, ℤ, ==→eq, ◌==◌,
}
use implementing_5g_nr_u_lte.Data.{ConfigNr, Channel, Event, done, too_late, interrupted}
use implementing_5g_nr_u_lte.Window.{store_draw}
use implementing_5g_nr_u_lte.Station.Errors.{Expected}
use implementing_5g_nr_u_lte.Gnb.{
  Gnb, Pc, boot, gap_lock_wait, gap_wait, busy_wait, gap_counting, rs_lock_wait, rs_counting,
  waited, queue_wait, own_lock_wait, sending, slave_sending, sent, check_collision, sent_failed,
  sent_completed, fail_transmission, complete_transmission, generate_new_back_off_time,
}
use implementing_5g_nr_u_lte.Gnb.Accounts.{IsSound, TransmissionOk}
use implementing_5g_nr_u_lte.Gnb.Alignment.{start_gap_lem}
use implementing_5g_nr_u_lte.Gnb.Backoff.{
  TurnNr, loop_test, begin_back_off, start_gap, finish_gap, finish_gap_counting, freeze_gap,
  interrupt_gap,
}
use implementing_5g_nr_u_lte.Gnb.Errors.{finish_transmission-ok, finish_slave-ok}
use implementing_5g_nr_u_lte.Gnb.Process.{
  begin_send, seize, after_transmission, finish_transmission, finish_slave, run_from, resume,
}

-- The points of a process that it reaches with `gap`.
abbrev pub gaps : Pc → Bool
gaps rs_lock_wait = false
gaps rs_counting = false
gaps _ = true

module _ (cfg : ConfigNr) (now draw i : ℕ) (g : Gnb) (c : Channel) (st : Option ℕ) where
  abbrev Keeps : TurnNr → Type 0
  Keeps t = (gaps t.self.pc ≡ true) × (t.self.cw_max ≡ g.cw_max)

  keeps : {t₀ t : TurnNr} → Keeps t₀ → ok t₀ ≡ ok t → Keeps t
  keeps h e = subst Keeps (ok-injective e) h

  begin_back_off-Keeps : {t : TurnNr} → begin_back_off true cfg draw g c st ≡ ok t → Keeps t
  unfolding begin_back_off generate_new_back_off_time store_draw
  begin_back_off-Keeps h = (ground arith, ground arith)

  start_gap-Keeps : {t : TurnNr} → start_gap cfg now g c st ≡ ok t → Keeps t
  unfolding start_gap
  start_gap-Keeps h = (ground arith, ground arith)

  finish_gap-Keeps : {t : TurnNr} → ok (finish_gap now i g c st) ≡ ok t → Keeps t
  unfolding finish_gap
  finish_gap-Keeps h = (ground arith, ground arith)

  finish_gap_counting-Keeps : {t : TurnNr} → finish_gap_counting i g c st ≡ ok t → Keeps t
  unfolding finish_gap_counting
  finish_gap_counting-Keeps h = (ground arith, ground arith)

  interrupt_gap-Keeps : {t : TurnNr} → ok (interrupt_gap cfg now g c st) ≡ ok t → Keeps t
  unfolding interrupt_gap freeze_gap
  interrupt_gap-Keeps h = (ground arith, ground arith)

  begin_send-Keeps : {t : TurnNr} → ok (begin_send true cfg now i g c st) ≡ ok t → Keeps t
  unfolding begin_send
  begin_send-Keeps e = keeps (refl, refl) e

  seize-Keeps : {t : TurnNr} → ok (seize g c st) ≡ ok t → Keeps t
  unfolding seize
  seize-Keeps e = keeps (refl, refl) e

  finish_transmission-Keeps : {t : TurnNr} → finish_transmission now i g c st ≡ ok t → Keeps t
  unfolding finish_transmission check_collision sent_failed sent_completed fail_transmission
      complete_transmission after_transmission
  finish_transmission-Keeps e = (ground arith, ground arith)

  finish_slave-Keeps : {t : TurnNr} → finish_slave now g c st ≡ ok t → Keeps t
  unfolding finish_slave check_collision sent_failed sent_completed fail_transmission
      complete_transmission
  finish_slave-Keeps e = (ground arith, ground arith)

  loop_test-gaps : (b : ℤ) → gaps (loop_test true b) ≡ true
  loop_test-gaps b = ground arith

  run_from-Keeps :
      (pc : Pc) (v : Event) {t : TurnNr}
      → gaps pc ≡ true
      → run_from pc v true cfg now draw i g c st ≡ ok t
      → Keeps t
  unfolding run_from
  run_from-Keeps boot done s e = begin_back_off-Keeps e
  run_from-Keeps gap_lock_wait done s e = start_gap-Keeps e
  run_from-Keeps gap_lock_wait interrupted s e = interrupt_gap-Keeps e
  run_from-Keeps gap_wait done s e = finish_gap-Keeps e
  run_from-Keeps gap_wait interrupted s e = interrupt_gap-Keeps e
  run_from-Keeps busy_wait done s e = keeps (loop_test-gaps g.back_off_time, refl) e
  run_from-Keeps busy_wait interrupted s e = interrupt_gap-Keeps e
  run_from-Keeps gap_counting done s e = finish_gap_counting-Keeps e
  run_from-Keeps gap_counting interrupted s e = interrupt_gap-Keeps e
  run_from-Keeps waited done s e = begin_send-Keeps e
  run_from-Keeps queue_wait done s e = keeps (refl, refl) e
  run_from-Keeps queue_wait too_late s e = keeps (refl, refl) e
  run_from-Keeps queue_wait interrupted s e = keeps (refl, refl) e
  run_from-Keeps own_lock_wait done s e = seize-Keeps e
  run_from-Keeps own_lock_wait interrupted s e = keeps (refl, refl) e
  run_from-Keeps sending done s e = finish_transmission-Keeps e
  run_from-Keeps sending interrupted s e = keeps (refl, refl) e
  run_from-Keeps slave_sending done s e = finish_slave-Keeps e
  run_from-Keeps (sent b) done s e = begin_back_off-Keeps e
  run_from-Keeps _ _ s e = cc

  pub resume-Keeps :
      (v : Event) {t : TurnNr}
      → gaps g.pc ≡ true
      → resume v true cfg now draw i g c st ≡ ok t
      → Keeps t
  unfolding resume
  resume-Keeps v s e = run_from-Keeps g.pc v s e

  -- The gNB counts down, but it is no longer listed.
  abbrev pub Unlisted : Error → Pc → Type 0
  Unlisted e pc = (e ≡ value_error) × (pc ≡ gap_counting) × (count i c.back_off_list_nr ≡ 0)

  finish_gap_counting-Unlisted :
      {e : Error} → finish_gap_counting i g c st ≡ raised e → Unlisted e gap_counting
  unfolding finish_gap_counting
  finish_gap_counting-Unlisted h = elim (Bool-cases (count i c.back_off_list_nr == 0)) [
    | inl z ↦ (ground arith, refl, ==→eq _ _ z)
    | inr nz ↦
        let (l, r) = remove-some i c.back_off_list_nr (ground (arith, nz)) in
        let k = rw r at h in cc
  ]

  begin_back_off-Expected :
      {e : Error} → begin_back_off true cfg draw g c st ≡ raised e → Expected e c draw done
  unfolding begin_back_off generate_new_back_off_time store_draw
  begin_back_off-Expected h = inl (ground arith, ground arith)

  run_from-Raises :
      (pc : Pc) (v : Event) {e : Error}
      → gaps pc ≡ true
      → TransmissionOk cfg.mcot pc g.transmission_to_send
      → 0 < cfg.synchronization_slot_duration
      → run_from pc v true cfg now draw i g c st ≡ raised e
      → Expected e c draw v ⊎ Unlisted e pc
  unfolding run_from
  run_from-Raises boot done s x last k = inl (begin_back_off-Expected k)
  run_from-Raises gap_lock_wait done s x last k =
      let (t, fine, _, _, _, _) = start_gap_lem cfg now g c st last in let no = rw fine at k in cc
  run_from-Raises gap_counting done s x last k = inr (finish_gap_counting-Unlisted k)
  run_from-Raises sending done s x last k =
      elim (finish_transmission-ok cfg now draw i g c st g.transmission_to_send refl x k) [ ]
  run_from-Raises slave_sending done s x last k =
      elim (finish_slave-ok cfg now draw i g c st g.transmission_to_send refl x k) [ ]
  run_from-Raises (sent b) done s x last k = inl (begin_back_off-Expected k)
  run_from-Raises _ _ s x last k = inl (inr (ground arith, λ d. cc))

  -- In the gap mode with slots that last, a run raises for a draw that the table lacks, for an
  -- event that is never delivered, or because the gNB counts down without being listed.
  pub resume-Raises :
      (v : Event) {e : Error}
      → gaps g.pc ≡ true
      → IsSound cfg.mcot g
      → 0 < cfg.synchronization_slot_duration
      → resume v true cfg now draw i g c st ≡ raised e
      → Expected e c draw v ⊎ Unlisted e g.pc
  unfolding resume
  resume-Raises v s sound last k = run_from-Raises g.pc v s sound.transmission last k
