-- ===== src/Station/Errors.antt =====
-- The exceptions that a run of the process of a station can end in.
use implementing_5g_nr_u_lte.Common.{
  ℕ, ◌≡◌, ◌≢◌, ◌<◌, ◌⊎◌, inl, inr, refl, arith, true, false, raised, Error, key_error,
  not_delivered, count, remove-some,
}
use implementing_5g_nr_u_lte.Data.{Config, Channel, Event, done}
use implementing_5g_nr_u_lte.Window.{store_draw}
use implementing_5g_nr_u_lte.Station.{
  Station, Pc, boot, counting, sending, slave_sending, sent, check_collision, sent_failed,
  sent_completed, generate_new_back_off_time,
}
use implementing_5g_nr_u_lte.Station.Process.{
  run_from, resume, begin_back_off, next_frame, finish_counting, finish_frame, finish_slave,
}
use implementing_5g_nr_u_lte.Station.Frames.{HasFrame, Ready, given}

-- A missing key of the table of draws, or an event for which the process does not wait.
abbrev pub Expected : Error → Channel → ℕ → Event → Type 0
Expected e c draw v =
    ((e ≡ key_error) × (given (c.backoffs draw c.n_of_stations) ≡ false))
    ⊎ ((e ≡ not_delivered) × (v ≢ done))

module _ (cfg : Config) (now draw i : ℕ) (s : Station) (c : Channel) {e : Error} where
  next_frame-Expected : next_frame cfg now draw i s c ≡ raised e → Expected e c draw done
  unfolding next_frame begin_back_off generate_new_back_off_time store_draw
  next_frame-Expected h = inl (ground arith, ground arith)

  begin_back_off-Expected : begin_back_off draw s c ≡ raised e → Expected e c draw done
  unfolding begin_back_off generate_new_back_off_time store_draw
  begin_back_off-Expected h = inl (ground arith, ground arith)

  finish_counting-ok : 0 < count i c.back_off_list → finish_counting i s c ≢ raised e
  unfolding finish_counting
  finish_counting-ok listed h =
      let (l, r) = remove-some i c.back_off_list listed in let k = rw r at h in cc

  finish_frame-ok : HasFrame s → finish_frame cfg now i s c ≢ raised e
  unfolding finish_frame check_collision sent_failed sent_completed
  finish_frame-ok h k = ground arith

  finish_slave-ok : HasFrame s → finish_slave cfg now i s c ≢ raised e
  unfolding finish_slave check_collision sent_failed sent_completed
  finish_slave-ok h k = ground arith

  run_from-Expected :
      (pc : Pc) (v : Event)
      → (pc ≢ boot → HasFrame s)
      → (pc ≡ counting → 0 < count i c.back_off_list)
      → run_from pc v cfg now draw i s c ≡ raised e
      → Expected e c draw v
  unfolding run_from
  run_from-Expected boot done h l k = next_frame-Expected k
  run_from-Expected counting done h l k = elim (finish_counting-ok (l refl) k) [ ]
  run_from-Expected sending done h l k = elim (finish_frame-ok (h λ p. cc) k) [ ]
  run_from-Expected slave_sending done h l k = elim (finish_slave-ok (h λ p. cc) k) [ ]
  run_from-Expected (sent true) done h l k = next_frame-Expected k
  run_from-Expected (sent false) done h l k = begin_back_off-Expected k
  run_from-Expected _ _ h l k = inr (ground arith, λ d. cc)

  pub resume-Expected :
      (v : Event)
      → Ready s
      → (s.pc ≡ counting → 0 < count i c.back_off_list)
      → resume v cfg now draw i s c ≡ raised e
      → Expected e c draw v
  unfolding resume
  resume-Expected v h l k = run_from-Expected s.pc v h l k
