-- ===== src/Gnb/Backoff.antt =====
-- The process of a `Gnb`: its back-off in both modes. `gap` is the module's variable,
-- and `start` its other one, which `wait_back_off` shares among all gNBs by `global start`.
use implementing_5g_nr_u_lte.Common.{
  ℕ, zero, suc, ◌+◌, ◌-◌, ◌*◌, ◌/◌, Bool, true, false, ◌&&◌, Option, some, List, [], ◌∷◌, ◌++◌, ℤ,
  pos, negsuc, pos_part, ◌+ℤ◌, ◌-ℤ◌, sub_ℕ, leb, ltb, leb_ℤ, if◌then◌else◌, Outcome, ok, raised,
  or_raise, ◌>>=◌, value_error, name_error, assertion_error, no_end, remove,
}
use implementing_5g_nr_u_lte.Data.{ConfigNr, Channel}
use implementing_5g_nr_u_lte.Station.{on_air}
use implementing_5g_nr_u_lte.Gnb.{
  Gnb, Pc, gap_lock_wait, gap_wait, busy_wait, gap_counting, rs_lock_wait, rs_counting, waited,
  generate_new_back_off_time,
}

-- As `Turn`, with the module's variable `start`, none while it is not assigned.
pub record TurnNr : Type 0 where
  pub self : Gnb
  pub channel : Channel
  pub start : Option ℕ
  pub interrupts : List ℕ
  pub interrupts_nr : List ℕ

abbrev pub turn : Gnb → Channel → Option ℕ → TurnNr
turn g c start = record {
  self = g;
  channel = c;
  start = start;
  interrupts = [];
  interrupts_nr = [];
}

abbrev pub prioritization_period : ConfigNr → ℕ
prioritization_period cfg = cfg.deter_period + cfg.m * cfg.observation_slot_duration

-- `while self.back_off_time > -1`, in either mode.
abbrev pub loop_test : Bool → ℤ → Pc
loop_test true (pos n) = gap_lock_wait
loop_test false (pos n) = rs_lock_wait
loop_test gap (negsuc n) = waited

-- `wait_back_off_gap` or `wait_back_off` up to the first yield.
unfoldable pub begin_back_off : Bool → ConfigNr → ℕ → Gnb → Channel → Option ℕ → Outcome TurnNr
begin_back_off gap cfg draw g c start = generate_new_back_off_time cfg draw c >>= λ (time, c').
    let total = if gap then time + prioritization_period cfg else time in
    ok (turn (record g { back_off_time = pos total; pc = loop_test gap (pos total) }) c' start)

-- `while back_off_time >= time_to_next_sync_slot: time_to_next_sync_slot += duration`, with fuel.
unfoldable pub align : ℕ → ℕ → ℤ → ℤ → Outcome ℤ
align zero duration back_off time = raised no_end
align (suc fuel) duration back_off time =
    let rest = align fuel duration back_off (time +ℤ pos duration) in
    if leb_ℤ time back_off then rest else ok time

-- Rounds that are enough where the duration is not 0.
abbrev pub align_fuel : ℤ → ℤ → ℕ
align_fuel back_off time = pos_part (back_off -ℤ time) + 2

-- The lock was free: choose the gap so that the back-off ends on a boundary. The gap that is waited
-- is `time_to_next_sync_slot - back_off_time`, which the assertion wants not to be negative.
unfoldable pub start_gap : ConfigNr → ℕ → Gnb → Channel → Option ℕ → Outcome TurnNr
start_gap cfg now g c start = do
  let time = sub_ℕ g.next_sync_slot_boundry now
  t ← align (align_fuel g.back_off_time time) cfg.synchronization_slot_duration g.back_off_time time
  if leb_ℤ (pos 0) (t -ℤ g.back_off_time)
      then ok (turn (record g { time_to_next_sync_slot = t; pc = gap_wait }) c start)
      else raised assertion_error

-- The gap is over: count down if nobody transmits, else wait for the lock once more.
unfoldable pub finish_gap : ℕ → ℕ → Gnb → Channel → Option ℕ → TurnNr
finish_gap now i g c start =
    let g' = record g { first_interrupt = true; start_nr = now } in
    if ltb 0 (on_air c)
    then turn (record g' { pc = busy_wait }) c start
    else turn (record g' { waiting_backoff = true; pc = gap_counting })
        (record c { back_off_list_nr = c.back_off_list_nr ++ i ∷ [] }) start

-- The back-off has run down, in the gap mode.
unfoldable pub finish_gap_counting : ℕ → Gnb → Channel → Option ℕ → Outcome TurnNr
finish_gap_counting i g c start = do
  l ← or_raise (remove i c.back_off_list_nr) value_error
  ok (
      turn
        (record g {
          back_off_time = negsuc 0;
          waiting_backoff = false;
          pc = loop_test true (negsuc 0);
        })
        (record c { back_off_list_nr = l }) start)

-- The observation slots that are complete after `already_waited`, and what an interrupt takes off.
unfoldable pub slots_waited : ConfigNr → ℕ → ℕ
slots_waited cfg already_waited =
    (already_waited - prioritization_period cfg) / cfg.observation_slot_duration

unfoldable pub counted_down : ConfigNr → ℕ → ℕ
counted_down cfg already_waited =
    if leb already_waited (prioritization_period cfg)
    then prioritization_period cfg
    else slots_waited cfg already_waited * cfg.observation_slot_duration + prioritization_period cfg

-- The `except simpy.Interrupt` of `wait_back_off_gap`: keep what is left, with a new prioritization
-- period before it.
unfoldable pub freeze_gap : ConfigNr → ℕ → Gnb → Gnb
freeze_gap cfg now g =
    if g.first_interrupt && g.waiting_backoff
    then record g {
      back_off_time =
          g.back_off_time
          -ℤ pos (counted_down cfg (now - g.start_nr))
          +ℤ pos (prioritization_period cfg);
      first_interrupt = false;
      waiting_backoff = false;
    }
    else g

unfoldable pub interrupt_gap : ConfigNr → ℕ → Gnb → Channel → Option ℕ → TurnNr
interrupt_gap cfg now g c start =
    let g' = freeze_gap cfg now g in
    turn (record g' { pc = loop_test true g'.back_off_time }) c start

-- `wait_back_off`: the channel is idle. The time goes into the variable of the module.
unfoldable pub start_counting : ConfigNr → ℕ → ℕ → Gnb → Channel → TurnNr
start_counting cfg now i g c =
    turn
      (record g {
        first_interrupt = true;
        back_off_time = g.back_off_time +ℤ pos (prioritization_period cfg);
        pc = rs_counting;
      })
      (record c { back_off_list_nr = c.back_off_list_nr ++ i ∷ [] }) (some now)

unfoldable pub finish_counting : ℕ → Gnb → Channel → Option ℕ → Outcome TurnNr
finish_counting i g c start = do
  l ← or_raise (remove i c.back_off_list_nr) value_error
  ok (
      turn (record g { back_off_time = negsuc 0; pc = loop_test false (negsuc 0) })
        (record c { back_off_list_nr = l }) start)

-- The `except simpy.Interrupt` of `wait_back_off`, which reads the variable of the module.
unfoldable pub freeze : ConfigNr → ℕ → Gnb → Option ℕ → Outcome Gnb
freeze cfg now g start =
    if g.first_interrupt
    then (or_raise start name_error >>= λ t. ok (record g {
      back_off_time = g.back_off_time -ℤ pos (counted_down cfg (now - t));
      first_interrupt = false;
      waiting_backoff = false;
    }))
    else ok g

unfoldable pub interrupt_back_off : ConfigNr → ℕ → Gnb → Channel → Option ℕ → Outcome TurnNr
interrupt_back_off cfg now g c start = freeze cfg now g start >>= λ g'.
    ok (turn (record g' { pc = loop_test false g'.back_off_time }) c start)
