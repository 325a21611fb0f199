-- ===== src/Simulation/Lock/Signals.antt =====
-- The invariant of gNBs that send reservation signals: who counts down is listed, while a gNB sends
-- whoever counts down has an interrupt on its way, and who has set out to count has set `start`.
use implementing_5g_nr_u_lte.Common.{
  ℕ, ◌<◌, ◌≤◌, ◌≡◌, ◌≢◌, refl, sym, arith, true, false, List, [], ◌∷◌, ◌++◌, ok, inl, inr,
  Bool-cases, ==→eq, ◌==◌, count, count-append, count-append_self, count-remove_other, ◌∙◌, subst,
}
use implementing_5g_nr_u_lte.Data.{Event, done}
use implementing_5g_nr_u_lte.Gnb.{Gnb}
use implementing_5g_nr_u_lte.Gnb
use implementing_5g_nr_u_lte.Gnb.Process.{resume}
use implementing_5g_nr_u_lte.Gnb.Backoff.{TurnNr}
use implementing_5g_nr_u_lte.Gnb.Contending.{
  signals, idle, quiet, joins, leaves, seizes, clears, Effect, Contends, HasStart, resume-Contends,
}
use implementing_5g_nr_u_lte.World.{World, put_gnb, alive_gnbs}
use implementing_5g_nr_u_lte.Simulation.{gnb_runs}
use implementing_5g_nr_u_lte.Simulation.Ledger.{update_all}
use implementing_5g_nr_u_lte.Simulation.Lock.{Holder, nru, waits_nr}
use implementing_5g_nr_u_lte.Simulation.Lock.Guards.{Guarded, at_update}

pub record Signalling (top : ℕ) (w : World) : Type 0 where
  pub mode : w.gap ≡ false
  pub points : (i : ℕ) → signals (w.gnbs i).pc ≡ true
  pub cw_max : (i : ℕ) → (w.gnbs i).cw_max ≤ top
  pub listed : (i : ℕ) → (w.gnbs i).pc ≡ Gnb.rs_counting → 0 < count i w.channel.back_off_list_nr
  pub warned :
      (k i : ℕ)
      → (w.gnbs k).pc ≡ Gnb.sending
      → (w.gnbs i).pc ≡ Gnb.rs_counting
      → 0 < count i w.pending_nr
  pub has_start : (i : ℕ) → HasStart (w.gnbs i) w.start

-- A live gNB of a list is among those that get an interrupt, as often as it stands there.
count-alive_gnbs :
    (w : World) (i : ℕ) (is : List ℕ)
    → (w.gnbs i).pc ≡ Gnb.rs_counting
    → count i (alive_gnbs w is) ≡ count i is
unfolding alive_gnbs count
count-alive_gnbs w i [] h = refl
count-alive_gnbs w i (j ∷ is) h = elim (Bool-cases (j == i)) [
  | inl e ↦ rw (==→eq j i e, h) (ground (arith, count-alive_gnbs w i is h))
  | inr e ↦ ground (arith, e, count-alive_gnbs w i is h)
]

nru-injective : {i j : ℕ} → nru i ≡ nru j → i ≡ j
nru-injective e = cc

idle-signals : (pc : Gnb.Pc) → idle pc ≡ true → signals pc ≡ true
idle-signals pc h = ground arith

-- A run of gNB `i` that leaves `pending_nr` as the interrupts of gNBs on their way.
module _ (top : ℕ) (w : World) (h : Holder) (guard : Guarded w h) (inv : Signalling top w)
    (i draw : ℕ) (v : Event) {t : TurnNr} (runs : gnb_runs v draw i w ≡ ok t)
    (has : v ≡ done → waits_nr (w.gnbs i).pc ≡ true → h ≡ nru i)
    (settled : v ≡ done → w.pending_nr ≡ []) (pending pending_nr : List ℕ)
    (kept : (j : ℕ) → i ≢ j → count j w.pending_nr ≤ count j pending_nr)
    (called : v ≡ done
      → (j : ℕ) → count j (alive_gnbs w t.interrupts_nr) ≤ count j pending_nr) where
  gnb-Contends : Contends i (w.gnbs i).pc v (w.gnbs i) w.channel w.start t
  gnb-Contends =
      resume-Contends w.nru_config w.now draw i (w.gnbs i) w.channel w.start v (inv.points i) (
        subst (λ gap. resume v gap w.nru_config w.now draw i (w.gnbs i) w.channel w.start ≡ ok t)
          inv.mode runs)

  ran : Effect i (w.gnbs i).pc v w.channel t
  ran = let k = gnb-Contends in k.effect

  self_signals : signals t.self.pc ≡ true
  self_signals = elim ran [
    | quiet idle _ ↦ idle-signals _ idle
    | joins _ _ p _ ↦ rw p refl
    | leaves idle _ ↦ idle-signals _ idle
    | seizes _ _ p _ _ ↦ rw p refl
    | clears _ _ idle _ ↦ idle-signals _ idle
  ]

  none_counts : v ≡ done → (w.gnbs i).pc ≡ Gnb.sending → (j : ℕ) → (w.gnbs j).pc ≢ Gnb.rs_counting
  unfolding count
  none_counts d p j c = let k = rw (settled d) at inv.warned i j p c in elim k [ ]

  others_listed :
      (j : ℕ) → i ≢ j → (w.gnbs j).pc ≡ Gnb.rs_counting → 0 < count j t.channel.back_off_list_nr
  others_listed j ne c = elim ran [
    | quiet _ l ↦ rw l (inv.listed j c)
    | joins _ _ _ l ↦
        rw (l, count-append j w.channel.back_off_list_nr (i ∷ [])) (omega (arith, inv.listed j c))
    | leaves _ r ↦ rw (count-remove_other i j _ ne r) (inv.listed j c)
    | seizes _ _ _ l _ ↦ rw l (inv.listed j c)
    | clears p d _ _ ↦ elim (none_counts d p j c) [ ]
  ]

  counting_joined :
      t.self.pc ≡ Gnb.rs_counting
      → (v ≡ done)
        × ((w.gnbs i).pc ≡ Gnb.rs_lock_wait)
        × (t.channel.back_off_list_nr ≡ w.channel.back_off_list_nr ++ i ∷ [])
  counting_joined c = elim ran [
    | quiet idle _ ↦ cc
    | joins p d _ l ↦ (d, p, l)
    | leaves idle _ ↦ cc
    | seizes _ _ p _ _ ↦ cc
    | clears _ _ idle _ ↦ cc
  ]

  sending_seized :
      t.self.pc ≡ Gnb.sending → (v ≡ done) × (t.interrupts_nr ≡ w.channel.back_off_list_nr)
  sending_seized c = elim ran [
    | quiet idle _ ↦ cc
    | joins _ _ p _ ↦ cc
    | leaves idle _ ↦ cc
    | seizes _ d _ _ l ↦ (d, l)
    | clears _ _ idle _ ↦ cc
  ]

  self_listed : t.self.pc ≡ Gnb.rs_counting → 0 < count i t.channel.back_off_list_nr
  self_listed c =
      let (_, _, l) = counting_joined c in
      rw (l, count-append_self i w.channel.back_off_list_nr) (omega arith)

  -- Nobody starts to count down while another gNB sends.
  self_warned : (k : ℕ) → i ≢ k → (w.gnbs k).pc ≡ Gnb.sending → t.self.pc ≢ Gnb.rs_counting
  self_warned k ne p c =
      let (d, q, _) = counting_joined c in
      ne (nru-injective (sym (has d (rw q refl)) ∙ guard.gnb_has k (rw p refl)))

  -- Who starts to send calls everybody who counts down.
  others_warned :
      (j : ℕ) → t.self.pc ≡ Gnb.sending → (w.gnbs j).pc ≡ Gnb.rs_counting → 0 < count j pending_nr
  others_warned j p c =
      let (d, l) = sending_seized p in
      let near = called d j in
      let enough = rw (l, count-alive_gnbs w j w.channel.back_off_list_nr c) at near in
      omega (arith, enough, inv.listed j c)

  starts : (j : ℕ) → HasStart (w.gnbs j) w.start → HasStart (w.gnbs j) t.start
  starts j s f = let k = gnb-Contends in k.start_kept (s f)

  pub gnb-Signalling :
      Signalling top (record (put_gnb i t w) { pending = pending; pending_nr = pending_nr })
  unfolding put_gnb
  gnb-Signalling =
      let k = gnb-Contends in
      record {
        mode = inv.mode;
        points =
            update_all (λ (g : Gnb). signals g.pc ≡ true) w.gnbs i t.self inv.points self_signals;
        cw_max =
            update_all (λ (g : Gnb). g.cw_max ≤ top) w.gnbs i t.self inv.cw_max
              (rw k.cw_max (inv.cw_max i));
        listed = λ j.
            at_update w.gnbs i j t.self (λ g. g.pc ≡ Gnb.rs_counting) _
              (λ e c. rw (← e) (self_listed c)) (others_listed j);
        warned = λ k j p c.
            at_update w.gnbs i k t.self (λ g. g.pc ≡ Gnb.sending) _
              (λ e p.
                at_update w.gnbs i j t.self (λ g. g.pc ≡ Gnb.rs_counting) _ (λ _ c. cc)
                  (λ _ c. others_warned j p c) c)
              (λ ne p.
                at_update w.gnbs i j t.self (λ g. g.pc ≡ Gnb.rs_counting) _
                  (λ _ c. elim (self_warned k ne p c) [ ])
                  (λ ne' c. omega (arith, inv.warned k j p c, kept j ne')) c)
              p;
        has_start =
            update_all (λ (g : Gnb). HasStart g t.start) w.gnbs i t.self
              (λ j. starts j (inv.has_start j)) (k.start_set (inv.has_start i));
      }
