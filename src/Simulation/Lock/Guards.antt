-- ===== src/Simulation/Lock/Guards.antt =====
-- The invariant of the lock: only its holder is past its request, who counts down is listed, and
-- while a station sends, whoever counts down has an interrupt on its way. Runs of gNBs keep it.
use implementing_5g_nr_u_lte.Common.{
  ℕ, ◌<◌, ◌≤◌, ◌≡◌, ◌≢◌, refl, arith, true, List, ok, inl, inr, Bool-cases, ==→eq, ==-false→ne,
  ◌==◌, count, update,
}
use implementing_5g_nr_u_lte.Data.{Event, done}
use implementing_5g_nr_u_lte.Station.{Station}
use implementing_5g_nr_u_lte.Station
use implementing_5g_nr_u_lte.Gnb
use implementing_5g_nr_u_lte.Gnb.Backoff.{TurnNr}
use implementing_5g_nr_u_lte.Gnb.Waiting as GnbWaiting
use implementing_5g_nr_u_lte.World.{World, put_gnb}
use implementing_5g_nr_u_lte.Simulation.{gnb_runs}
use implementing_5g_nr_u_lte.Simulation.Lock.{
  Holder, wifi, nru, waits_nr, inside, inside_nr, released_nr,
}

pub record Guarded (w : World) (h : Holder) : Type 0 where
  pub station_has : (i : ℕ) → inside (w.stations i).pc ≡ true → h ≡ wifi i
  pub gnb_has : (i : ℕ) → inside_nr (w.gnbs i).pc ≡ true → h ≡ nru i
  pub listed : (i : ℕ) → (w.stations i).pc ≡ Station.counting → 0 < count i w.channel.back_off_list
  pub warned :
      (k i : ℕ)
      → (w.stations k).pc ≡ Station.sending
      → (w.stations i).pc ≡ Station.counting
      → 0 < count i w.pending

-- The node is at one program counter, the others are where they were.
pub at_update :
    {A : Type 0} (f : ℕ → A) (i j : ℕ) (a : A) (P : A → Type 0) (Q : Type 0)
    → (i ≡ j → P a → Q)
    → (i ≢ j → P (f j) → Q)
    → P (update f i a j)
    → Q
at_update f i j a P Q self other p = elim (Bool-cases (i == j)) [
  | inl e ↦ self (==→eq i j e) (rw e at p)
  | inr e ↦ other (==-false→ne i j e) (rw e at p)
]

idle-outside_nr : (pc : Gnb.Pc) → GnbWaiting.idle pc ≡ true → inside_nr pc ≢ true
idle-outside_nr pc h e = ground arith

released_nr_other : (i j : ℕ) (pc : Gnb.Pc) → i ≢ j → released_nr i pc (nru j) ≡ nru j
released_nr_other i j pc ne = ground arith

released_nr_self : (i : ℕ) (pc : Gnb.Pc) → inside_nr pc ≡ true → released_nr i pc (nru i) ≡ nru i
released_nr_self i pc h = ground arith

-- A run of gNB `i`.
module _ (w : World) (h : Holder) (inv : Guarded w h) (i draw : ℕ) (v : Event) {t : TurnNr}
    (runs : gnb_runs v draw i w ≡ ok t) (has : v ≡ done → waits_nr (w.gnbs i).pc ≡ true → h ≡ nru i)
    (pending pending_nr : List ℕ) (kept : (j : ℕ) → count j w.pending ≤ count j pending) where
  gnb-Effect : GnbWaiting.Effect (w.gnbs i).pc v w.channel t
  gnb-Effect =
      GnbWaiting.resume-Effect w.nru_config w.now draw i (w.gnbs i) w.channel w.start v w.gap runs

  same_list : t.channel.back_off_list ≡ w.channel.back_off_list
  same_list = let l = GnbWaiting.spares gnb-Effect in l.back_off_list

  gnb_self_has : inside_nr t.self.pc ≡ true → h ≡ nru i
  gnb_self_has into = elim gnb-Effect [
    | GnbWaiting.quiet idle _ ↦ elim (idle-outside_nr _ idle into) [ ]
    | GnbWaiting.seizes p d _ ↦ has d (rw p refl)
  ]

  pub gnb-Guarded :
      Guarded
        (record (put_gnb i t w) { pending = pending; pending_nr = pending_nr })
        (released_nr i t.self.pc h)
  unfolding put_gnb
  gnb-Guarded = record {
    station_has = λ j into. rw (inv.station_has j into) refl;
    gnb_has = λ j.
        at_update w.gnbs i j t.self (λ g. inside_nr g.pc ≡ true) _
          (λ e into. rw (gnb_self_has into, ← e) (released_nr_self i _ into))
          (λ ne into. rw (inv.gnb_has j into) (released_nr_other i j _ ne));
    listed = λ j c. rw same_list (inv.listed j c);
    warned = λ k j p c. omega (arith, inv.warned k j p c, kept j);
  }
