-- ===== src/Gnb/Alignment.antt =====
-- The gap mode ends each back-off on a boundary of the synchronization slots.
use implementing_5g_nr_u_lte.Common.{
  ℕ, zero, suc, ◌+◌, ◌*◌, ◌<◌, ◌≡◌, ◌⊎◌, inl, inr, refl, ap, arith, Bool-cases, leb→le, le→leb,
  leb-false→lt, Option, ℤ, pos, pos_part, neg_part, leb_ℤ, sub_ℕ, ◌≤ℤ◌, ◌+ℤ◌, ◌-ℤ◌, int_laws,
  parts_apart, ok, raised, no_end,
}
use implementing_5g_nr_u_lte.Data.{ConfigNr, Channel}
use implementing_5g_nr_u_lte.Gnb.{Gnb, gap_wait}
use implementing_5g_nr_u_lte.Gnb.Backoff.{TurnNr, turn, align, align_fuel, start_gap}

infix 50 ◌<ℤ◌
abbrev pub ◌<ℤ◌ : ℤ → ℤ → Type 0
a <ℤ b = pos_part a + neg_part b < pos_part b + neg_part a

-- `t` is the first time after the back-off that lies a whole number of slots after `time`.
pub record Aligned (duration : ℕ) (back_off time t : ℤ) : Type 0 where
  pub after : back_off <ℤ t
  pub slots : ℕ
  pub whole : t ≡ time +ℤ pos (slots * duration)
  pub least : (slots ≡ 0) ⊎ (t ≤ℤ back_off +ℤ pos duration)

Aligned-here : (d : ℕ) (b t : ℤ) → b <ℤ t → Aligned d b t t
Aligned-here d b t h = record { after = h; slots = 0; whole = omega int_laws; least = inl refl }

Aligned-next :
    (d : ℕ) (b time t : ℤ) → time ≤ℤ b → Aligned d b (time +ℤ pos d) t → Aligned d b time t
Aligned-next d b time t h a =
    let p = ap pos_part a.whole in
    let n = ap neg_part a.whole in
    record {
      after = a.after;
      slots = suc a.slots;
      whole = omega (int_laws, p, n);
      least = inr (elim a.least [
        | inl z ↦ let e = ap (λ (k : ℕ). k * d) z in omega (int_laws, p, n, e)
        | inr le ↦ le
      ]);
    }

-- With slots that last, the search ends within its fuel, at the first boundary after the back-off.
pub align_lem :
    (fuel d : ℕ) (b time : ℤ)
    → 0 < d
    → 0 < fuel
    → (time ≤ℤ b → pos_part (b -ℤ time) + 1 < fuel)
    → (t : ℤ) × (align fuel d b time ≡ ok t) × Aligned d b time t
unfolding align
align_lem zero d b time hd hf h = absurd (omega arith)
align_lem (suc fuel) d b time hd hf h = elim (Bool-cases (leb_ℤ time b)) [
  | inl le ↦
      let k = leb→le _ _ le in
      let room = h k in
      let apart = parts_apart (b -ℤ (time +ℤ pos d)) in
      let (t, e, a) =
        align_lem fuel d b (time +ℤ pos d) hd (omega (int_laws, room))
          (λ m. omega (int_laws, room)) in
      (t, rw le e, Aligned-next d b time t k a)
  | inr gt ↦ (time, rw gt, Aligned-here d b time (leb-false→lt _ _ gt))
]

-- With slots of no length it never ends once the back-off reaches past the boundary.
pub align_stuck : (fuel : ℕ) (b time : ℤ) → time ≤ℤ b → align fuel 0 b time ≡ raised no_end
unfolding align
align_stuck zero b time h = refl
align_stuck (suc fuel) b time h =
    let e : time +ℤ pos 0 ≡ time = omega int_laws in
    rw (le→leb _ _ h, e) (align_stuck fuel b time h)

-- If slots last, the search for a boundary ends and the gap mode's assertion does not fail. The gap
-- that follows is not negative, and after it the back-off reaches exactly to a boundary of the
-- gNB's slots, the first one that lies strictly after the end of the back-off without a gap: a
-- boundary that the back-off would reach exactly is passed over.
pub start_gap_lem :
    (cfg : ConfigNr) (now : ℕ) (g : Gnb) (c : Channel) (st : Option ℕ)
    → 0 < cfg.synchronization_slot_duration
    → (t : TurnNr) × (start_gap cfg now g c st ≡ ok t)
      × (pos 0 ≤ℤ t.self.time_to_next_sync_slot -ℤ g.back_off_time)
      × Aligned cfg.synchronization_slot_duration g.back_off_time
          (sub_ℕ g.next_sync_slot_boundry now)
          t.self.time_to_next_sync_slot
      × (t.self.back_off_time ≡ g.back_off_time)
      × (t.self.pc ≡ gap_wait)
unfolding start_gap
start_gap_lem cfg now g c st h =
    let time = sub_ℕ g.next_sync_slot_boundry now in
    let (t, e, a) =
      align_lem (align_fuel g.back_off_time time) cfg.synchronization_slot_duration g.back_off_time
        time h (omega arith) (λ _. omega arith) in
    let after = a.after in
    let fits : pos 0 ≤ℤ t -ℤ g.back_off_time = omega int_laws in
    (
      turn (record g { time_to_next_sync_slot = t; pc = gap_wait }) c st,
      rw (e, le→leb _ _ fits) refl,
      fits,
      a,
      refl,
      refl,
    )
