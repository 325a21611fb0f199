-- ===== src/Gnb/Timer.antt =====
-- The back-off timer of a gNB, in both modes.
use native.Mathlib.Nat.{div-lt_iff_lt-mul, le-div_iff_mul-le}
use implementing_5g_nr_u_lte.Common.{
  ℕ, suc, ◌+◌, ◌-◌, ◌*◌, ◌/◌, ◌≤◌, ◌<◌, ◌≡◌, ◌⊎◌, refl, ap, ◌∙◌, arith, true, false, Bool-cases,
  inl, inr, leb, leb→le, le→leb, pos, ◌+ℤ◌, ◌-ℤ◌, pos-add, pos-sub, add-sub, ok,
}
use implementing_5g_nr_u_lte.Data.{ConfigNr, Channel}
use implementing_5g_nr_u_lte.Gnb.{Gnb}
use implementing_5g_nr_u_lte.Gnb.Backoff.{
  prioritization_period, slots_waited, counted_down, freeze_gap, freeze, start_counting,
}

quotient_le : (a s r : ℕ) → 0 < s → a ≤ r * s → a / s ≤ r
quotient_le a s r h k =
    let below : a / s < suc r = (div-lt_iff_lt-mul h).1 (omega arith) in omega arith

-- Of `r` slots after the prioritization period, `time` counts down the complete ones.
counted_down_lem :
    (cfg : ConfigNr) (r time : ℕ)
    → 0 < cfg.observation_slot_duration
    → time ≤ r * cfg.observation_slot_duration + prioritization_period cfg
    → (counted_down cfg time
        ≡ slots_waited cfg time * cfg.observation_slot_duration + prioritization_period cfg)
      × (slots_waited cfg time ≤ r)
unfolding counted_down slots_waited
counted_down_lem cfg r time h within =
    let pp = prioritization_period cfg in
    let s = cfg.observation_slot_duration in
    let few = quotient_le (time - pp) s r h (omega arith) in
    elim (Bool-cases (leb time pp)) [
      | inl le ↦
          let k = leb→le _ _ le in
          let none_yet = quotient_le (time - pp) s 0 h (omega arith) in
          let zero_slots = ap (λ (q : ℕ). q * s) (let e : (time - pp) / s ≡ 0 = omega arith in e) in
          rw le (omega (arith, zero_slots), few)
      | inr gt ↦ rw gt (refl, few)
    ]

times_sub : (r q s : ℕ) → q ≤ r → (r - q) * s ≡ r * s - q * s
times_sub r q s h =
    let e : r ≡ q + (r - q) = omega arith in let f = ap (λ (x : ℕ). x * s) e in omega (arith, f)

-- A countdown of `time` is within the prioritization period, or after it and `k` whole observation
-- slots it is within the next slot.
abbrev pub HasSlots : ConfigNr → (k time : ℕ) → Type 0
HasSlots cfg k time =
    let s = cfg.observation_slot_duration in
    let pp = prioritization_period cfg in
    ((k ≡ 0) × (time ≤ pp)) ⊎ ((k * s + pp ≤ time) × (time < suc k * s + pp))

slots_waited_lem :
    (cfg : ConfigNr) (k time : ℕ)
    → 0 < cfg.observation_slot_duration
    → HasSlots cfg k time
    → slots_waited cfg time ≡ k
unfolding slots_waited
slots_waited_lem cfg k time h (inl (none_yet, early)) =
    let few =
      quotient_le (time - prioritization_period cfg) cfg.observation_slot_duration 0 h
        (omega arith) in
    omega arith
slots_waited_lem cfg k time h (inr (low, high)) =
    let pp = prioritization_period cfg in
    let s = cfg.observation_slot_duration in
    let least : k ≤ (time - pp) / s = (le-div_iff_mul-le h).1 (omega arith) in
    let most : (time - pp) / s < suc k = (div-lt_iff_lt-mul h).1 (omega arith) in omega arith

-- In the gap mode an interrupt within a countdown of `r` observation slots, which last, takes off
-- the `k` slots that are whole, keeps the others and puts a new prioritization period before them.
pub freeze_gap_lem :
    (cfg : ConfigNr) (g : Gnb) (now r k time : ℕ)
    → 0 < cfg.observation_slot_duration
    → g.first_interrupt ≡ true
    → g.waiting_backoff ≡ true
    → g.back_off_time ≡ pos (r * cfg.observation_slot_duration + prioritization_period cfg)
    → now ≡ g.start_nr + time
    → time ≤ r * cfg.observation_slot_duration + prioritization_period cfg
    → HasSlots cfg k time
    → ((freeze_gap cfg now g).back_off_time
        ≡ pos ((r - k) * cfg.observation_slot_duration + prioritization_period cfg))
      × (k ≤ r)
      × ((freeze_gap cfg now g).waiting_backoff ≡ false)
unfolding freeze_gap
freeze_gap_lem cfg g now r k time h first waiting timer clock within slots =
    let e : now - g.start_nr ≡ time = omega arith in
    let pp = prioritization_period cfg in
    let s = cfg.observation_slot_duration in
    let (down, few) =
      rw (slots_waited_lem cfg k time h slots) at (counted_down_lem cfg r time h within) in
    let split = times_sub r k s few in
    let room : k * s ≤ r * s = grind arith in
    let left = pos-sub (r * s + pp) (k * s + pp) (omega arith) in
    let sum : r * s + pp - (k * s + pp) + pp ≡ (r - k) * s + pp = omega arith in
    rw (first, waiting, e, timer, down)
      (ap (λ z. z +ℤ pos pp) left ∙ pos-add _ _ ∙ ap pos sum, few, refl)

-- Without the gap mode the start of the countdown is one variable for all gNBs. If another gNB `j`
-- starts to count after gNB `i`, an interrupt of `i` is reckoned from the start of `j`.
pub shared_start :
    (cfg : ConfigNr) (t₁ t₂ now i j : ℕ) (g₁ g₂ : Gnb) (c : Channel)
    → let u₁ = start_counting cfg t₁ i g₁ c in
      let u₂ = start_counting cfg t₂ j g₂ u₁.channel in
      (g' : Gnb) × (freeze cfg now u₁.self u₂.start ≡ ok g')
      × (g'.back_off_time ≡ u₁.self.back_off_time -ℤ pos (counted_down cfg (now - t₂)))
unfolding start_counting freeze
shared_start cfg t₁ t₂ now i j g₁ g₂ c = (_, refl, refl)

-- So the slots that gNB `i` has counted down are lost: if slots last and the other gNB was still in
-- its prioritization period, the back-off of `i` is as long as before its countdown, although it
-- waited for a slot or more.
pub shared_start_loses :
    (cfg : ConfigNr) (t₁ t₂ now i j : ℕ) (g₁ g₂ : Gnb) (c : Channel)
    → 0 < cfg.observation_slot_duration
    → now ≤ t₂ + prioritization_period cfg
    → t₁ + prioritization_period cfg + cfg.observation_slot_duration ≤ now
    → let u₁ = start_counting cfg t₁ i g₁ c in
      let u₂ = start_counting cfg t₂ j g₂ u₁.channel in
      (g' : Gnb) × (freeze cfg now u₁.self u₂.start ≡ ok g')
      × (g'.back_off_time ≡ g₁.back_off_time)
      × (1 ≤ slots_waited cfg (now - t₁))
unfolding start_counting freeze counted_down slots_waited
shared_start_loses cfg t₁ t₂ now i j g₁ g₂ c h late early =
    let le = le→leb (now - t₂) (prioritization_period cfg) (omega arith) in
    (_, refl, rw le (add-sub _ _), (le-div_iff_mul-le h).1 (omega arith))
