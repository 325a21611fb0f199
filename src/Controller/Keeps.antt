-- ===== src/Controller/Keeps.antt =====
-- What the setting of either contention window keeps, a measurement of the controller keeps.
use implementing_5g_nr_u_lte.Common.{ℕ, ℤ, ltb, if_intro, ◌-ℤ◌}
use implementing_5g_nr_u_lte.World.{World}
use implementing_5g_nr_u_lte.Controller.{
  Controller, monitor_and_adjust, move_windows, adjust_if_unfair, unfair, adjust_contention_windows,
  set_wifi_cw, set_nru_cw, increase_wifi_cw, decrease_wifi_cw, increase_nru_cw, decrease_nru_cw,
  exceeds, wifi_total, nru_total,
}

module _ {ℓ} (P : World → Type ℓ) (k : Controller)
    (wifi_kept : (cw : ℕ) (w : World) → P w → P (set_wifi_cw k cw w))
    (nru_kept : (cw : ℕ) (w : World) → P w → P (set_nru_cw k cw w)) where
  move_windows_keeps : (w : World) (a b : ℤ) → P w → P (move_windows k a b w)
  unfolding move_windows increase_wifi_cw decrease_wifi_cw increase_nru_cw decrease_nru_cw
  move_windows_keeps w a b h =
      if_intro P (exceeds a b)
        (if_intro P (ltb k.min_cw (increase_wifi_cw k w).nru_config.cw_min)
          (nru_kept _ _ (wifi_kept _ w h)) (wifi_kept _ w h))
        (if_intro P (exceeds b a)
          (nru_kept _ _ (if_intro P (ltb k.min_cw w.wifi_config.cw_min) (wifi_kept _ w h) h)) h)

  pub monitor_and_adjust_keeps : (w : World) → P w → P (monitor_and_adjust k w).1
  unfolding monitor_and_adjust adjust_if_unfair adjust_contention_windows
  monitor_and_adjust_keeps w h =
      if_intro (λ (r : Controller × World). P r.1)
        (unfair k (wifi_total w -ℤ k.last_wifi_airtime) (nru_total w -ℤ k.last_nru_airtime))
        (move_windows_keeps w _ _ h) h
