-- ===== src/Gnb/Errors.antt =====
-- The exceptions that a run of the process of a gNB can end in, without `gap`.
use implementing_5g_nr_u_lte.Common.{
  ℕ, ◌≡◌, ◌≢◌, ◌<◌, inl, inr, refl, arith, Option, none, some, raised, Error, Bool, true, false,
  subst, count, remove-some,
}
use implementing_5g_nr_u_lte.Window.{store_draw}
use implementing_5g_nr_u_lte.Station.Errors.{Expected}
use implementing_5g_nr_u_lte.Gnb.Backoff.{
  begin_back_off, finish_counting, freeze, interrupt_back_off,
}
use implementing_5g_nr_u_lte.Gnb.Contending.{signals, HasStart}
use implementing_5g_nr_u_lte.Data.{Event, interrupted, done, Channel, TransmissionNr, ConfigNr}
use implementing_5g_nr_u_lte.Gnb.{
  Gnb, Pc, boot, rs_lock_wait, rs_counting, sending, slave_sending, sent,
  generate_new_back_off_time, check_collision, sent_failed, sent_completed, fail_transmission,
  complete_transmission,
}
use implementing_5g_nr_u_lte.Gnb.Accounts.{Unchecked, IsSound, TransmissionOk}
use implementing_5g_nr_u_lte.Gnb.Process.{finish_transmission, finish_slave, resume, run_from}

module _ (cfg : ConfigNr) (now draw i : ℕ) (g : Gnb) (c : Channel) (start : Option ℕ)
    {e : Error} where
  pub finish_transmission-ok :
      (o : Option TransmissionNr)
      → g.transmission_to_send ≡ o
      → Unchecked cfg.mcot o
      → finish_transmission now i g c start ≢ raised e
  unfolding finish_transmission check_collision sent_failed sent_completed fail_transmission
      complete_transmission
  finish_transmission-ok none p fine h = elim fine [ ]
  finish_transmission-ok (some x) p fine h = ground arith

  -- A gNB that is sound ends its transmission under the lock without an exception.
  pub sending-ok :
      (gap : Bool)
      → IsSound cfg.mcot g
      → g.pc ≡ sending
      → resume done gap cfg now draw i g c start ≢ raised e
  unfolding resume run_from
  sending-ok gap sound p h =
      finish_transmission-ok g.transmission_to_send refl
        (subst (λ pc. TransmissionOk cfg.mcot pc g.transmission_to_send) p sound.transmission)
        (subst (λ pc. run_from pc done gap cfg now draw i g c start ≡ raised e) p h)

  pub finish_slave-ok :
      (o : Option TransmissionNr)
      → g.transmission_to_send ≡ o
      → Unchecked cfg.mcot o
      → finish_slave now g c start ≢ raised e
  unfolding finish_slave check_collision sent_failed sent_completed
  finish_slave-ok none p fine h = elim fine [ ]
  finish_slave-ok (some x) p fine h = ground arith

  begin_back_off-Expected :
      begin_back_off false cfg draw g c start ≡ raised e → Expected e c draw done
  unfolding begin_back_off generate_new_back_off_time store_draw
  begin_back_off-Expected h = inl (ground arith, ground arith)

  finish_counting-ok : 0 < count i c.back_off_list_nr → finish_counting i g c start ≢ raised e
  unfolding finish_counting
  finish_counting-ok listed h =
      let (l, r) = remove-some i c.back_off_list_nr listed in let k = rw r at h in cc

  interrupt_back_off-ok : HasStart g start → interrupt_back_off cfg now g c start ≢ raised e
  unfolding interrupt_back_off freeze
  interrupt_back_off-ok set h = ground arith

  run_from-Expected :
      (pc : Pc) (v : Event)
      → signals pc ≡ true
      → TransmissionOk cfg.mcot pc g.transmission_to_send
      → HasStart g start
      → (pc ≡ rs_counting → 0 < count i c.back_off_list_nr)
      → run_from pc v false cfg now draw i g c start ≡ raised e
      → Expected e c draw v
  unfolding run_from
  run_from-Expected boot done s x h l k = begin_back_off-Expected k
  run_from-Expected rs_lock_wait interrupted s x h l k = elim (interrupt_back_off-ok h k) [ ]
  run_from-Expected rs_counting done s x h l k = elim (finish_counting-ok (l refl) k) [ ]
  run_from-Expected rs_counting interrupted s x h l k = elim (interrupt_back_off-ok h k) [ ]
  run_from-Expected sending done s x h l k =
      elim (finish_transmission-ok g.transmission_to_send refl x k) [ ]
  run_from-Expected slave_sending done s x h l k =
      elim (finish_slave-ok g.transmission_to_send refl x k) [ ]
  run_from-Expected (sent b) done s x h l k = begin_back_off-Expected k
  run_from-Expected _ _ s x h l k = inr (ground arith, λ d. cc)

  pub resume-Expected :
      (v : Event)
      → signals g.pc ≡ true
      → IsSound cfg.mcot g
      → HasStart g start
      → (g.pc ≡ rs_counting → 0 < count i c.back_off_list_nr)
      → resume v false cfg now draw i g c start ≡ raised e
      → Expected e c draw v
  unfolding resume
  resume-Expected v s sound h l k = run_from-Expected g.pc v s sound.transmission h l k
