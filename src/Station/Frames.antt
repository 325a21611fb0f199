-- ===== src/Station/Frames.antt =====
-- From its first run on, a station has a frame to send.
use implementing_5g_nr_u_lte.Common.{
  ℕ, List, ◌≡◌, ◌≢◌, refl, subst, arith, Bool, true, false, Option, none, some, ok, >>=-eq-ok,
  ok-injective, [],
}
use implementing_5g_nr_u_lte.Data.{Config, Frame, Channel, Turn, Event, done, too_late, interrupted}
use implementing_5g_nr_u_lte.Window.{store_draw}
use implementing_5g_nr_u_lte.Station.{
  Station, Pc, boot, lock_wait, counting, waited, queue_wait, own_lock_wait, sending, acking,
  missing_ack, slave_sending, slave_ack, sent, Checked, check_collision, sent_failed,
  sent_completed, fail_frame, complete_frame, deliver_packet, generate_new_back_off_time,
}
use implementing_5g_nr_u_lte.Station.Process.{
  run_from, resume, begin_back_off, next_frame, start_counting, finish_counting, freeze,
  interrupt_back_off, begin_send, seize, after_frame, finish_frame, finish_slave,
}

abbrev pub given {ℓ} : {A : Type ℓ} → Option A → Bool
given none = false
given (some f) = true

abbrev pub HasFrame : Station → Type 0
HasFrame s = given s.frame_to_send ≡ true

abbrev pub Ready : Station → Type 0
Ready s = s.pc ≢ boot → HasFrame s

-- What a run leaves: a frame, the limits of the window, every key of the table of draws, and the
-- list of gNBs that count down.
pub record StableAt (max_limit min_limit nodes : ℕ) (table : ℕ → ℕ → Option ℕ) (gnbs : List ℕ)
    (frame_to_send : Option Frame) (max_limit' min_limit' nodes' : ℕ) (table' : ℕ → ℕ → Option ℕ)
    (gnbs' : List ℕ) : Type 0 where
  pub frame : given frame_to_send ≡ true
  pub cw_max : max_limit' ≡ max_limit
  pub cw_min : min_limit' ≡ min_limit
  pub n_of_stations : nodes' ≡ nodes
  pub back_off_list_nr : gnbs' ≡ gnbs
  pub keys : (d : ℕ) → given (table' d nodes) ≡ given (table d nodes)

-- It reads these parts only, so changes elsewhere are free.
abbrev pub Stable : Station → Channel → Station → Channel → Type 0
Stable s c s' c' =
    StableAt s.cw_max s.cw_min c.n_of_stations c.backoffs c.back_off_list_nr s'.frame_to_send
      s'.cw_max s'.cw_min c'.n_of_stations c'.backoffs c'.back_off_list_nr

module _ (cfg : Config) (now draw i : ℕ) (s : Station) (c : Channel) where
  abbrev Leaves : Turn Station → Type 0
  Leaves t = Stable s c t.self t.channel

  is_Stable : {t₀ t : Turn Station} → Leaves t₀ → ok t₀ ≡ ok t → Leaves t
  is_Stable h e = subst Leaves (ok-injective e) h

  next_frame-Stable : {t : Turn Station} → next_frame cfg now draw i s c ≡ ok t → Leaves t
  unfolding next_frame begin_back_off generate_new_back_off_time store_draw
  next_frame-Stable e = record {
    frame = ground arith;
    cw_max = ground arith;
    cw_min = ground arith;
    n_of_stations = ground arith;
    back_off_list_nr = ground arith;
    keys = λ d. ground arith;
  }

  begin_back_off-Stable :
      {t : Turn Station} → HasFrame s → begin_back_off draw s c ≡ ok t → Leaves t
  unfolding begin_back_off generate_new_back_off_time store_draw
  begin_back_off-Stable h e = record {
    frame = ground arith;
    cw_max = ground arith;
    cw_min = ground arith;
    n_of_stations = ground arith;
    back_off_list_nr = ground arith;
    keys = λ d. ground arith;
  }

  finish_counting-Stable : {t : Turn Station} → HasFrame s → finish_counting i s c ≡ ok t → Leaves t
  unfolding finish_counting
  finish_counting-Stable h e = record {
    frame = ground arith;
    cw_max = ground arith;
    cw_min = ground arith;
    n_of_stations = ground arith;
    back_off_list_nr = ground arith;
    keys = λ d. ground arith;
  }

  interrupt-Stable : HasFrame s → Leaves (interrupt_back_off now s c)
  unfolding interrupt_back_off freeze
  interrupt-Stable h = record {
    frame = ground arith;
    cw_max = ground arith;
    cw_min = ground arith;
    n_of_stations = refl;
    back_off_list_nr = refl;
    keys = λ d. refl;
  }

  check_collision-Stable :
      {r : Checked Station} → check_collision cfg now i s c ≡ ok r → Stable s c r.self r.channel
  unfolding check_collision sent_failed sent_completed fail_frame complete_frame deliver_packet
  check_collision-Stable h = record {
    frame = ground arith;
    cw_max = ground arith;
    cw_min = ground arith;
    n_of_stations = ground arith;
    back_off_list_nr = ground arith;
    keys = λ d. ground arith;
  }

module _ (cfg : Config) (now draw i : ℕ) (s : Station) (c : Channel) where
  after_frame-Stable :
      (b : Bool) (s' : Station) (c' : Channel)
      → Stable s c s' c'
      → Leaves cfg now draw i s c (after_frame i b s' c')
  unfolding after_frame
  after_frame-Stable true s' c' st = st
  after_frame-Stable false s' c' st = st

  finish_frame-Stable :
      {t : Turn Station} → finish_frame cfg now i s c ≡ ok t → Leaves cfg now draw i s c t
  unfolding finish_frame
  finish_frame-Stable e =
      let (r, er, et) =
        >>=-eq-ok (check_collision cfg now i s (record c { back_off_list = [] })) _ e in
      is_Stable cfg now draw i s c
        (after_frame-Stable r.was_sent r.self r.channel
          (check_collision-Stable cfg now draw i s (record c { back_off_list = [] }) er))
        et

  finish_slave-Stable :
      {t : Turn Station} → finish_slave cfg now i s c ≡ ok t → Leaves cfg now draw i s c t
  unfolding finish_slave
  finish_slave-Stable e =
      let (r, er, et) = >>=-eq-ok (check_collision cfg now i s c) _ e in
      let st = check_collision-Stable cfg now draw i s c er in
      subst (Leaves cfg now draw i s c) (ok-injective et) st

  same_channel :
      {t₀ t : Turn Station}
      → HasFrame s
      → ok t₀ ≡ ok t
      → (t₀.self.frame_to_send ≡ s.frame_to_send)
      → (t₀.self.cw_max ≡ s.cw_max)
      → (t₀.self.cw_min ≡ s.cw_min)
      → (t₀.channel.n_of_stations ≡ c.n_of_stations)
      → (t₀.channel.backoffs ≡ c.backoffs)
      → (t₀.channel.back_off_list_nr ≡ c.back_off_list_nr)
      → Leaves cfg now draw i s c t
  same_channel h e f m l n b nr =
      is_Stable cfg now draw i s c
        (record {
          frame = rw f h;
          cw_max = m;
          cw_min = l;
          n_of_stations = n;
          back_off_list_nr = nr;
          keys = λ d. rw b refl;
        })
        e

  run_from-Stable :
      (pc : Pc) (v : Event) {t : Turn Station}
      → (pc ≢ boot → HasFrame s)
      → run_from pc v cfg now draw i s c ≡ ok t
      → Leaves cfg now draw i s c t
  unfolding run_from start_counting begin_send seize
  run_from-Stable boot done h e = next_frame-Stable cfg now draw i s c e
  run_from-Stable lock_wait interrupted h e =
      is_Stable cfg now draw i s c (interrupt-Stable cfg now draw i s c (h λ p. cc)) e
  run_from-Stable counting done h e = finish_counting-Stable cfg now draw i s c (h λ p. cc) e
  run_from-Stable counting interrupted h e =
      is_Stable cfg now draw i s c (interrupt-Stable cfg now draw i s c (h λ p. cc)) e
  run_from-Stable sending done h e = finish_frame-Stable e
  run_from-Stable slave_sending done h e = finish_slave-Stable e
  run_from-Stable (sent true) done h e = next_frame-Stable cfg now draw i s c e
  run_from-Stable (sent false) done h e = begin_back_off-Stable cfg now draw i s c (h λ p. cc) e
  run_from-Stable waited done h e = same_channel (h λ p. cc) e refl refl refl refl refl refl
  run_from-Stable queue_wait done h e = same_channel (h λ p. cc) e refl refl refl refl refl refl
  run_from-Stable queue_wait too_late h e = same_channel (h λ p. cc) e refl refl refl refl refl refl
  run_from-Stable queue_wait interrupted h e =
      same_channel (h λ p. cc) e refl refl refl refl refl refl
  run_from-Stable own_lock_wait done h e = same_channel (h λ p. cc) e refl refl refl refl refl refl
  run_from-Stable own_lock_wait interrupted h e =
      same_channel (h λ p. cc) e refl refl refl refl refl refl
  run_from-Stable sending interrupted h e = same_channel (h λ p. cc) e refl refl refl refl refl refl
  run_from-Stable acking done h e = same_channel (h λ p. cc) e refl refl refl refl refl refl
  run_from-Stable acking interrupted h e = same_channel (h λ p. cc) e refl refl refl refl refl refl
  run_from-Stable missing_ack done h e = same_channel (h λ p. cc) e refl refl refl refl refl refl
  run_from-Stable missing_ack interrupted h e =
      same_channel (h λ p. cc) e refl refl refl refl refl refl
  run_from-Stable (slave_ack b) done h e = same_channel (h λ p. cc) e refl refl refl refl refl refl
  run_from-Stable lock_wait done h e = same_channel (h λ p. cc) e refl refl refl refl refl refl
  run_from-Stable _ _ h e = cc

  pub resume-Stable :
      (v : Event) {t : Turn Station}
      → Ready s
      → resume v cfg now draw i s c ≡ ok t
      → Stable s c t.self t.channel
  unfolding resume
  resume-Stable v h e = run_from-Stable s.pc v h e
