-- ===== src/Simulation/Ledger.antt =====
-- The books of a simulation, and the runs of nodes that keep them.
use implementing_5g_nr_u_lte.Common.{
  ℕ, ◌+◌, ◌*◌, ◌≤◌, ◌<◌, ◌≡◌, inl, inr, ap, subst, arith, pos, sum_of, sum_of-update, update,
  Bool-cases, ==→eq, ==-false→ne, pos-add, ◌+ℤ◌, ◌==◌, ◌∙◌,
}
use implementing_5g_nr_u_lte.Data.{Channel, Turn}
use implementing_5g_nr_u_lte.Station.{Station}
use implementing_5g_nr_u_lte.Station.Accounts as StationAccounts
use implementing_5g_nr_u_lte.Gnb.{Gnb}
use implementing_5g_nr_u_lte.Gnb.Accounts as GnbAccounts
use implementing_5g_nr_u_lte.World.{World, put_station, put_gnb}
use implementing_5g_nr_u_lte.Gnb.Backoff.{TurnNr}

-- The time on the air of a gNB is that of whole transmissions, no more than were counted as sent.
abbrev pub Occupied : ℕ → Gnb → Channel → ℕ → Type 0
Occupied mcot g c i =
    (k : ℕ) × (k ≤ g.succeeded_transmissions)
    × (GnbAccounts.occupancy c i ≡ pos (k * (mcot * 1000)))

pub record Consistent (n m : ℕ) (w : World) : Type 0 where
  pub stations_sound : (i : ℕ) → StationAccounts.IsSound w.wifi_config (w.stations i)
  pub gnbs_sound : (i : ℕ) → GnbAccounts.IsSound w.nru_config.mcot (w.gnbs i)
  pub succeeded :
      w.channel.succeeded_transmissions
      ≡ sum_of (λ (s : Station). s.succeeded_transmissions) n w.stations
  pub failed :
      w.channel.failed_transmissions ≡ sum_of (λ (s : Station). s.failed_transmissions) n w.stations
  pub bytes : w.channel.bytes_sent ≡ w.wifi_config.data_size * w.channel.succeeded_transmissions
  pub airtime : (i : ℕ) → w.channel.airtime_data i ≡ 5400 * (w.stations i).succeeded_transmissions
  pub succeeded_nr :
      w.channel.succeeded_transmissions_nr
      ≡ sum_of (λ (g : Gnb). g.succeeded_transmissions) m w.gnbs
  pub failed_nr :
      w.channel.failed_transmissions_nr ≡ sum_of (λ (g : Gnb). g.failed_transmissions) m w.gnbs
  pub occupied : (i : ℕ) → Occupied w.nru_config.mcot (w.gnbs i) w.channel i

-- A property of all members of a family after an update.
pub update_all {ℓ κ} :
    {A : Type ℓ} (P : A → Type κ) (f : ℕ → A) (i : ℕ) (a : A)
    → ((j : ℕ) → P (f j))
    → P a
    → (j : ℕ) → P (update f i a j)
update_all P f i a h x j = elim (Bool-cases (i == j)) [ inl e ↦ rw e x | inr e ↦ rw e (h j) ]

module _ (n m : ℕ) (w : World) (con : Consistent n m w) where
  pub put_station-Consistent :
      (i : ℕ) (t : Turn Station)
      → i < n
      → StationAccounts.Kept w.wifi_config i (w.stations i) t.self w.channel t.channel
      → Consistent n m (put_station i t w)
  unfolding put_station
  put_station-Consistent i t lt kept =
      let b = kept.booked in
      record {
        stations_sound =
            update_all (StationAccounts.IsSound w.wifi_config) w.stations i t.self
              con.stations_sound kept.sound;
        gnbs_sound = con.gnbs_sound;
        succeeded = omega (
          arith,
          con.succeeded,
          b.succeeded,
          sum_of-update (λ (s : Station). s.succeeded_transmissions) n w.stations i t.self lt,
        );
        failed = omega (
          arith,
          con.failed,
          b.failed,
          sum_of-update (λ (s : Station). s.failed_transmissions) n w.stations i t.self lt,
        );
        bytes =
            omega
              (arith, b.bytes, con.bytes, ap (λ (x : ℕ). w.wifi_config.data_size * x) b.succeeded);
        airtime = λ j. ground (arith, b.other_airtime j, con.airtime j, con.airtime i);
        succeeded_nr = b.succeeded_nr ∙ con.succeeded_nr;
        failed_nr = b.failed_nr ∙ con.failed_nr;
        occupied =
            λ j. let (k, le, e) = con.occupied j in (k, le, rw (b.airtime_nr, b.control_nr) e);
      }

  Occupied-self :
      (i : ℕ) (t : TurnNr)
      → GnbAccounts.Kept w.nru_config.mcot i (w.gnbs i) t.self w.channel t.channel
      → Occupied w.nru_config.mcot t.self t.channel i
  Occupied-self i t kept =
      let b = kept.booked in
      let (k, le, e) = con.occupied i in
      elim b.on_the_air [
        | inl same ↦ (k, omega (arith, le, b.grows), same ∙ e)
        | inr (more, one) ↦ (
          k + 1,
          omega (arith, le, one),
          more
              ∙ ap (λ z. z +ℤ pos (w.nru_config.mcot * 1000)) e
              ∙ pos-add _ _
              ∙ ap pos (omega arith),
        )
      ]

  Occupied-put :
      (i : ℕ) (t : TurnNr)
      → GnbAccounts.Kept w.nru_config.mcot i (w.gnbs i) t.self w.channel t.channel
      → (j : ℕ) → Occupied w.nru_config.mcot (update w.gnbs i t.self j) t.channel j
  Occupied-put i t kept j = elim (Bool-cases (i == j)) [
    | inl e ↦
        rw e (
          subst (Occupied w.nru_config.mcot t.self t.channel) (==→eq i j e)
            (Occupied-self i t kept))
    | inr e ↦
        let o = kept.booked.others j (==-false→ne i j e) in
        let (k, le, h) = con.occupied j in rw e (k, le, rw (o.0, o.1) h)
  ]

  pub put_gnb-Consistent :
      (i : ℕ) (t : TurnNr)
      → i < m
      → GnbAccounts.Kept w.nru_config.mcot i (w.gnbs i) t.self w.channel t.channel
      → Consistent n m (put_gnb i t w)
  unfolding put_gnb
  put_gnb-Consistent i t lt kept =
      let b = kept.booked in
      record {
        stations_sound = con.stations_sound;
        gnbs_sound =
            update_all (GnbAccounts.IsSound w.nru_config.mcot) w.gnbs i t.self con.gnbs_sound
              kept.sound;
        succeeded = b.wifi.0 ∙ con.succeeded;
        failed = b.wifi.1 ∙ con.failed;
        bytes = rw (b.wifi.2, b.wifi.0) con.bytes;
        airtime = λ j. ap (λ f. f j) b.wifi.3 ∙ con.airtime j;
        succeeded_nr = omega (
          arith,
          con.succeeded_nr,
          b.succeeded,
          sum_of-update (λ (g : Gnb). g.succeeded_transmissions) m w.gnbs i t.self lt,
        );
        failed_nr = omega (
          arith,
          con.failed_nr,
          b.failed,
          sum_of-update (λ (g : Gnb). g.failed_transmissions) m w.gnbs i t.self lt,
        );
        occupied = Occupied-put i t kept;
      }
