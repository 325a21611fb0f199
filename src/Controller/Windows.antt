-- ===== src/Controller/Windows.antt =====
-- What the controller does to the contention windows.
use implementing_5g_nr_u_lte.Common.{
  ℕ, ◌+◌, ◌-◌, ◌≤◌, min, max, ◌≡◌, refl, true, false, ℤ, arith, Bool-cases, inl, inr, ◌⊎◌, ◌-ℤ◌,
}
use implementing_5g_nr_u_lte.World.{World}
use implementing_5g_nr_u_lte.Controller.{
  Controller, Ratio, exceeds, move_windows, adjust_if_unfair, unfair, monitor_and_adjust,
  adjust_contention_windows, calculate_jains_fairness, increase_wifi_cw, decrease_wifi_cw,
  increase_nru_cw, decrease_nru_cw, set_wifi_cw, set_nru_cw, wifi_total, nru_total,
}

-- A window within the controller's limits.
abbrev pub InRange : Controller → ℕ → ℕ → Type 0
InRange k cw_min cw_max =
    (k.min_cw ≤ cw_min) × (cw_min ≤ k.max_cw) × (cw_min ≤ cw_max) × (cw_max ≤ k.max_cw)

pub record IsTuned (k : Controller) (w : World) : Type 0 where
  pub limits : k.min_cw ≤ k.max_cw
  pub wifi : InRange k w.wifi_config.cw_min w.wifi_config.cw_max
  pub nru : InRange k w.nru_config.cw_min w.nru_config.cw_max

-- Every node has the window of its configuration.
pub record IsSynced (w : World) : Type 0 where
  pub wifi :
      (i : ℕ)
      → ((w.stations i).cw_min ≡ w.wifi_config.cw_min)
        × ((w.stations i).cw_max ≡ w.wifi_config.cw_max)
  pub nru :
      (i : ℕ)
      → ((w.gnbs i).cw_min ≡ w.nru_config.cw_min) × ((w.gnbs i).cw_max ≡ w.nru_config.cw_max)

module _ (k : Controller) (w : World) where
  move_windows-IsTuned : (a b : ℤ) → IsTuned k w → IsTuned k (move_windows k a b w)
  unfolding move_windows increase_wifi_cw decrease_wifi_cw increase_nru_cw decrease_nru_cw
      set_wifi_cw set_nru_cw
  move_windows-IsTuned a b t = ground arith

  move_windows-IsSynced : (a b : ℤ) → IsSynced w → IsSynced (move_windows k a b w)
  unfolding move_windows increase_wifi_cw decrease_wifi_cw increase_nru_cw decrease_nru_cw
      set_wifi_cw set_nru_cw
  move_windows-IsSynced a b y = record {
    wifi = λ i. ground (arith, y.wifi i);
    nru = λ i. ground (arith, y.nru i);
  }

  -- An adjustment moves the windows of both kinds in opposite directions, by a step that stops at
  -- the limits: the kind whose airtime exceeds the other's by a tenth waits longer and the other
  -- one less. If neither exceeds the other, nothing changes. The windows are within the limits
  -- before.
  pub move_windows_lem :
      (wifi nru : ℤ)
      → IsTuned k w
      → let w' = move_windows k wifi nru w in
        let step = k.adjustment_step in
        ((exceeds wifi nru ≡ true)
          × (w'.wifi_config.cw_min ≡ min (w.wifi_config.cw_min + step) k.max_cw)
          × (w'.nru_config.cw_min ≡ max (w.nru_config.cw_min - step) k.min_cw))
        ⊎ ((exceeds nru wifi ≡ true)
            × (w'.wifi_config.cw_min ≡ max (w.wifi_config.cw_min - step) k.min_cw)
            × (w'.nru_config.cw_min ≡ min (w.nru_config.cw_min + step) k.max_cw))
        ⊎ ((exceeds wifi nru ≡ false) × (exceeds nru wifi ≡ false) × (w' ≡ w))
  unfolding move_windows increase_wifi_cw decrease_wifi_cw increase_nru_cw decrease_nru_cw
      set_wifi_cw set_nru_cw
  move_windows_lem a b t = elim (Bool-cases (exceeds a b)) [
    | inl e ↦ inl (e, ground arith, ground arith)
    | inr e ↦ elim (Bool-cases (exceeds b a)) [
      | inl f ↦ inr (inl (f, ground arith, ground arith))
      | inr f ↦ inr (inr (e, f, ground arith))
    ]
  ]

  -- What a measurement leaves: tuned and equal windows, the same clock and channel.
  pub record Measured (r : Controller × World) : Type 0 where
    pub tuned : IsTuned r.0 r.1
    pub synced : IsSynced r.1
    pub channel : r.1.channel ≡ w.channel
    pub now : r.1.now ≡ w.now

  move_windows-channel :
      (a b : ℤ)
      → ((move_windows k a b w).channel ≡ w.channel) × ((move_windows k a b w).now ≡ w.now)
  unfolding move_windows increase_wifi_cw decrease_wifi_cw increase_nru_cw decrease_nru_cw
      set_wifi_cw set_nru_cw
  move_windows-channel a b = ground arith

  adjust-Measured :
      (a b : ℤ) (f : Ratio)
      → IsTuned k w
      → IsSynced w
      → Measured (adjust_contention_windows k a b f w)
  unfolding adjust_contention_windows
  adjust-Measured a b f t y = record {
    tuned =
        let h = move_windows-IsTuned a b t in
        record { limits = h.limits; wifi = h.wifi; nru = h.nru };
    synced = move_windows-IsSynced a b y;
    channel = (move_windows-channel a b).0;
    now = (move_windows-channel a b).1;
  }

  adjust_if_unfair-Measured :
      (a b : ℤ) → IsTuned k w → IsSynced w → Measured (adjust_if_unfair k a b w)
  unfolding adjust_if_unfair
  adjust_if_unfair-Measured a b t y = elim (Bool-cases (unfair k a b)) [
    | inl e ↦ rw e (adjust-Measured a b (calculate_jains_fairness a b) t y)
    | inr e ↦ rw e (record { tuned = t; synced = y; channel = refl; now = refl })
  ]

  -- Where they are so before, a measurement keeps the windows within the controller's limits and
  -- equal to those of the nodes, leaves the clock and the channel alone, and notes the totals that
  -- it saw.
  pub monitor_and_adjust_lem :
      IsTuned k w
      → IsSynced w
      → let r = monitor_and_adjust k w in
        Measured r × (r.0.last_wifi_airtime ≡ wifi_total w) × (r.0.last_nru_airtime ≡ nru_total w)
  unfolding monitor_and_adjust
  monitor_and_adjust_lem t y =
      let h =
        adjust_if_unfair-Measured (wifi_total w -ℤ k.last_wifi_airtime)
          (nru_total w -ℤ k.last_nru_airtime) t y in
      (
        record {
          tuned = record { limits = h.tuned.limits; wifi = h.tuned.wifi; nru = h.tuned.nru };
          synced = h.synced;
          channel = h.channel;
          now = h.now;
        },
        refl,
        refl,
      )
