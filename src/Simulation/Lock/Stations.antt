-- ===== src/Simulation/Lock/Stations.antt =====
-- Runs of stations keep the invariant of the lock.
use implementing_5g_nr_u_lte.Common.{
  ℕ, ◌<◌, ◌≤◌, ◌≡◌, ◌≢◌, refl, sym, arith, true, List, [], ◌∷◌, ◌++◌, ok, inl, inr, Bool-cases,
  ==→eq, ◌==◌, count, count-append, count-append_self, count-remove_other, ◌∙◌,
}
use implementing_5g_nr_u_lte.Data.{Turn, Event, done}
use implementing_5g_nr_u_lte.Station.{Station}
use implementing_5g_nr_u_lte.Station
use implementing_5g_nr_u_lte.Station.Waiting as StationWaiting
use implementing_5g_nr_u_lte.Station.Waiting.{quiet, joins, leaves, seizes, answers}
use implementing_5g_nr_u_lte.World.{World, put_station, alive_stations}
use implementing_5g_nr_u_lte.Simulation.{station_runs}
use implementing_5g_nr_u_lte.Simulation.Lock.{Holder, wifi, waits, inside, released}
use implementing_5g_nr_u_lte.Simulation.Lock.Guards.{Guarded, at_update}

-- A live station of a list is among those that get an interrupt, as often as it stands there.
count-alive_stations :
    (w : World) (i : ℕ) (is : List ℕ)
    → (w.stations i).pc ≡ Station.counting
    → count i (alive_stations w is) ≡ count i is
unfolding alive_stations count
count-alive_stations w i [] h = refl
count-alive_stations w i (j ∷ is) h = elim (Bool-cases (j == i)) [
  | inl e ↦ rw (==→eq j i e, h) (ground (arith, count-alive_stations w i is h))
  | inr e ↦ ground (arith, e, count-alive_stations w i is h)
]

released_other : (i j : ℕ) (pc : Station.Pc) → i ≢ j → released i pc (wifi j) ≡ wifi j
released_other i j pc ne = ground arith

released_self : (i : ℕ) (pc : Station.Pc) → inside pc ≡ true → released i pc (wifi i) ≡ wifi i
released_self i pc h = ground arith

idle-outside : (pc : Station.Pc) → StationWaiting.idle pc ≡ true → inside pc ≢ true
idle-outside pc h e = ground arith

counting-outside : (pc : Station.Pc) → pc ≡ Station.counting → inside pc ≢ true
counting-outside pc h e = ground arith

wifi-injective : {i j : ℕ} → wifi i ≡ wifi j → i ≡ j
wifi-injective e = cc

-- A run of station `i` that leaves `pending` as the interrupts on their way.
module _ (w : World) (h : Holder) (inv : Guarded w h) (i draw : ℕ) (v : Event) {t : Turn Station}
    (runs : station_runs v draw i w ≡ ok t)
    (has : v ≡ done → waits (w.stations i).pc ≡ true → h ≡ wifi i)
    (settled : v ≡ done → w.pending ≡ []) (pending pending_nr : List ℕ)
    (kept : (j : ℕ) → i ≢ j → count j w.pending ≤ count j pending)
    (called : v ≡ done → (j : ℕ) → count j (alive_stations w t.interrupts) ≤ count j pending) where
  station-Effect : StationWaiting.Effect i (w.stations i).pc v w.channel t
  station-Effect =
      StationWaiting.resume-Effect w.wifi_config w.now draw i (w.stations i) w.channel v runs

  self_has : inside t.self.pc ≡ true → h ≡ wifi i
  self_has into = elim station-Effect [
    | quiet idle _ ↦ elim (idle-outside _ idle into) [ ]
    | joins _ _ c _ ↦ elim (counting-outside _ c into) [ ]
    | leaves idle _ ↦ elim (idle-outside _ idle into) [ ]
    | seizes p d _ _ _ ↦ has d (rw p refl)
    | answers p _ _ _ _ ↦ inv.station_has i (rw p refl)
  ]

  none_counts :
      v ≡ done
      → (w.stations i).pc ≡ Station.sending
      → (j : ℕ) → (w.stations j).pc ≢ Station.counting
  unfolding count
  none_counts d p j c = let k = rw (settled d) at inv.warned i j p c in elim k [ ]

  -- Whoever counts down after the run is listed, the station itself or another.
  others_listed :
      (j : ℕ) → i ≢ j → (w.stations j).pc ≡ Station.counting → 0 < count j t.channel.back_off_list
  others_listed j ne c = elim station-Effect [
    | quiet _ l ↦ rw l (inv.listed j c)
    | joins _ _ _ l ↦
        rw (l, count-append j w.channel.back_off_list (i ∷ [])) (omega (arith, inv.listed j c))
    | leaves _ r ↦ rw (count-remove_other i j _ ne r) (inv.listed j c)
    | seizes _ _ _ l _ ↦ rw l (inv.listed j c)
    | answers p d _ _ _ ↦ elim (none_counts d p j c) [ ]
  ]

  counting_joined :
      t.self.pc ≡ Station.counting
      → (v ≡ done)
        × ((w.stations i).pc ≡ Station.lock_wait)
        × (t.channel.back_off_list ≡ w.channel.back_off_list ++ i ∷ [])
  counting_joined c = elim station-Effect [
    | quiet idle _ ↦ cc
    | joins p d _ l ↦ (d, p, l)
    | leaves idle _ ↦ cc
    | seizes _ _ p _ _ ↦ cc
    | answers _ _ b p _ ↦ ground arith
  ]

  sending_seized :
      t.self.pc ≡ Station.sending → (v ≡ done) × (t.interrupts ≡ w.channel.back_off_list)
  sending_seized c = elim station-Effect [
    | quiet idle _ ↦ cc
    | joins _ _ p _ ↦ cc
    | leaves idle _ ↦ cc
    | seizes _ d _ _ l ↦ (d, l)
    | answers _ _ b p _ ↦ ground arith
  ]

  self_listed : t.self.pc ≡ Station.counting → 0 < count i t.channel.back_off_list
  self_listed c =
      let (_, _, l) = counting_joined c in
      rw (l, count-append_self i w.channel.back_off_list) (omega arith)

  -- Nobody starts to count down while another station sends.
  self_warned : (k : ℕ) → i ≢ k → (w.stations k).pc ≡ Station.sending → t.self.pc ≢ Station.counting
  self_warned k ne p c =
      let (d, q, _) = counting_joined c in
      ne (wifi-injective (sym (has d (rw q refl)) ∙ inv.station_has k (rw p refl)))

  -- Who starts to send calls everybody who counts down.
  others_warned :
      (j : ℕ)
      → t.self.pc ≡ Station.sending
      → (w.stations j).pc ≡ Station.counting
      → 0 < count j pending
  others_warned j p c =
      let (d, l) = sending_seized p in
      let near = called d j in
      let enough = rw (l, count-alive_stations w j w.channel.back_off_list c) at near in
      omega (arith, enough, inv.listed j c)

  pub station-Guarded :
      Guarded
        (record (put_station i t w) { pending = pending; pending_nr = pending_nr })
        (released i t.self.pc h)
  unfolding put_station
  station-Guarded = record {
    station_has = λ j.
        at_update w.stations i j t.self (λ s. inside s.pc ≡ true) _
          (λ e into. rw (self_has into, ← e) (released_self i _ into))
          (λ ne into. rw (inv.station_has j into) (released_other i j _ ne));
    gnb_has = λ j into. rw (inv.gnb_has j into) refl;
    listed = λ j.
        at_update w.stations i j t.self (λ s. s.pc ≡ Station.counting) _
          (λ e c. rw (← e) (self_listed c)) (others_listed j);
    warned = λ k j p c.
        at_update w.stations i k t.self (λ s. s.pc ≡ Station.sending) _
          (λ e p.
            at_update w.stations i j t.self (λ s. s.pc ≡ Station.counting) _ (λ _ c. cc)
              (λ _ c. others_warned j p c) c)
          (λ ne p.
            at_update w.stations i j t.self (λ s. s.pc ≡ Station.counting) _
              (λ _ c. elim (self_warned k ne p c) [ ])
              (λ ne' c. omega (arith, inv.warned k j p c, kept j ne')) c)
          p;
  }
