-- ===== src/Station/Freeze.antt =====
-- The back-off timer of a station refines a counter of idle slots.
use implementing_5g_nr_u_lte.Common.{
  ℕ, ◌+◌, ◌-◌, ◌*◌, ◌/◌, ◌≤◌, ◌<◌, ◌≡◌, refl, ap, ◌∙◌, arith, true, false, inl, inr, Bool-cases,
  leb, leb→le, leb-false→lt, List, [], ◌∷◌, pos, pos-add, pos-sub,
}
use implementing_5g_nr_u_lte.Data.{Channel}
use implementing_5g_nr_u_lte.Station.{Station, t_difs, t_slot}
use implementing_5g_nr_u_lte.Station.Process.{start_counting, slots_waited, freeze}

-- An interrupt after `time` keeps the slots that are not complete: with `r` slots and DIFS to go,
-- the complete ones are taken off, DIFS is taken off, and no slot is lost or counted twice.
pub freeze_lem :
    (s : Station) (now r time : ℕ)
    → s.first_interrupt ≡ true
    → s.back_off_time ≡ pos (r * t_slot + t_difs)
    → now ≡ s.start + time
    → time ≤ r * t_slot + t_difs
    → ((freeze now s).back_off_time ≡ pos ((r - slots_waited time) * t_slot))
      × (slots_waited time ≤ r)
      × ((freeze now s).first_interrupt ≡ false)
unfolding freeze slots_waited
freeze_lem s now r time first timer clock within =
    let e : now - s.start ≡ time = omega arith in
    let early = pos-sub (r * t_slot + t_difs) t_difs (omega arith) in
    let late = pos-sub (r * t_slot + t_difs) ((time - t_difs) / t_slot * t_slot + t_difs) in
    elim (Bool-cases (leb time t_difs)) [
      | inl le ↦
          let k = leb→le _ _ le in
          rw (first, e, le, timer) (early ∙ ap pos (omega arith), omega arith, refl)
      | inr gt ↦
          let k = leb-false→lt _ _ gt in
          rw (first, e, gt, timer) (late (omega arith) ∙ ap pos (omega arith), omega arith, refl)
    ]

-- A countdown that an interrupt ends: when it starts, and after which time it is interrupted. That
-- is within DIFS, or after DIFS, some whole slots and a part of the next slot.
pub data Countdown : Type 0 where
  in_difs : (now time : ℕ) → Countdown
  in_slots : (now slots more : ℕ) → Countdown

begins : Countdown → ℕ
begins (in_difs now time) = now
begins (in_slots now slots more) = now

lasts : Countdown → ℕ
lasts (in_difs now time) = time
lasts (in_slots now slots more) = t_difs + slots * t_slot + more

abbrev pub whole_slots : Countdown → ℕ
whole_slots (in_difs now time) = 0
whole_slots (in_slots now slots more) = slots

-- The contention of a station that is interrupted again and again.
pub contend : ℕ → List Countdown → Station → Channel → Station
contend i [] s c = s
contend i (w ∷ rest) s c =
    let t = start_counting (begins w) i s c in
    contend i rest (freeze (begins w + lasts w) t.self) t.channel

-- The countdown ends within DIFS, or within a slot and with no more than `r` slots.
abbrev pub Ends : ℕ → Countdown → Type 0
Ends r (in_difs now time) = time ≤ t_difs
Ends r (in_slots now slots more) = (more < t_slot) × (slots * t_slot + more ≤ r * t_slot)

-- No countdown is longer than the timer that it runs, with `r` slots on it at first.
abbrev pub Fits : ℕ → List Countdown → Type 0
Fits r [] = Unit {0}
Fits r (w ∷ rest) = Ends r w × Fits (r - whole_slots w) rest

abbrev pub all_slots : List Countdown → ℕ
all_slots [] = 0
all_slots (w ∷ rest) = whole_slots w + all_slots rest

slots_waited_lem : (r : ℕ) (w : Countdown) → Ends r w → slots_waited (lasts w) ≡ whole_slots w
unfolding slots_waited lasts
slots_waited_lem r (in_difs now time) h = omega arith
slots_waited_lem r (in_slots now slots more) h = omega arith

lasts_le : (r : ℕ) (w : Countdown) → Ends r w → lasts w ≤ r * t_slot + t_difs
unfolding lasts
lasts_le r (in_difs now time) h = omega arith
lasts_le r (in_slots now slots more) h = omega arith

counting_timer :
    (now i r : ℕ) (s : Station) (c : Channel)
    → s.back_off_time ≡ pos (r * t_slot)
    → let s' = (start_counting now i s c).self in
      (s'.back_off_time ≡ pos (r * t_slot + t_difs))
      × (s'.first_interrupt ≡ true)
      × (s'.start ≡ now)
unfolding start_counting
counting_timer now i r s c h = rw h (pos-add _ _, refl, refl)

-- However often a station with `r` slots on its timer is interrupted, no countdown being longer
-- than its timer, the whole slots that passed after DIFS in all its countdowns are taken off the
-- timer, and nothing else: the parts of slots and DIFS that an interrupt cuts are not.
pub contend_lem :
    (i r : ℕ) (ws : List Countdown) (s : Station) (c : Channel)
    → s.back_off_time ≡ pos (r * t_slot)
    → Fits r ws
    → ((contend i ws s c).back_off_time ≡ pos ((r - all_slots ws) * t_slot)) × (all_slots ws ≤ r)
unfolding contend
contend_lem i r [] s c h f =
    let e : r ≡ r - 0 = omega arith in (h ∙ ap (λ k. pos (k * t_slot)) e, omega arith)
contend_lem i r (w ∷ rest) s c h f =
    let t = start_counting (begins w) i s c in
    let (timer, first, start) = counting_timer (begins w) i r s c h in
    let within = lasts_le r w f.0 in
    let frozen =
      freeze_lem t.self (begins w + lasts w) r (lasts w) first timer (omega (arith, start))
        within in
    let (left, few, _) = rw (slots_waited_lem r w f.0) at frozen in
    let more =
      contend_lem i (r - whole_slots w) rest (freeze (begins w + lasts w) t.self) t.channel left
        f.1 in
    let sum : r - whole_slots w - all_slots rest ≡ r - (whole_slots w + all_slots rest) =
      omega arith in
    (more.0 ∙ ap (λ k. pos (k * t_slot)) sum, omega (arith, few, more.1))
