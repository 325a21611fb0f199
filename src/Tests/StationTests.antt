-- ===== src/Tests/StationTests.antt =====
-- The contention of a station and of a gNB on concrete inputs.
use implementing_5g_nr_u_lte.Common.{
  value_error, List, inr, ◌+◌, ◌-◌, ◌*◌, ◌≤◌, ◌≡◌, refl, arith, true, false, none, [], ◌∷◌, pos,
  ◌-ℤ◌, sub_ℕ, ◌≤ℤ◌, ok, raised, no_end,
}
use implementing_5g_nr_u_lte.Data.{default_config, default_config_nr, Channel}
use implementing_5g_nr_u_lte.Window.{new_backoffs}
use implementing_5g_nr_u_lte.Station.{Station, new_station, t_slot}
use implementing_5g_nr_u_lte.Station.Freeze.{
  Countdown, in_difs, in_slots, contend, contend_lem, all_slots,
}
use implementing_5g_nr_u_lte.Gnb.{Gnb, new_gnb, sync_offset, gap_wait}
use implementing_5g_nr_u_lte.Gnb.Backoff as GnbBackoff
use implementing_5g_nr_u_lte.Gnb.Backoff.{
  TurnNr, prioritization_period, align, start_gap, freeze_gap, freeze, slots_waited,
}
use implementing_5g_nr_u_lte.Gnb.Alignment.{Aligned, align_stuck, start_gap_lem}
use implementing_5g_nr_u_lte.Gnb.Timer.{freeze_gap_lem, shared_start_loses}
use implementing_5g_nr_u_lte.World.{new_channel}

abbrev channel : Channel
channel = new_channel 2 2 (new_backoffs 63 2)

-- Five slots to go.
abbrev counting_station : Station
counting_station = record (new_station default_config) { back_off_time = pos (5 * t_slot) }

-- The first countdown ends after DIFS and two slots and a half, the second one within DIFS.
abbrev countdowns : List Countdown
countdowns = in_slots 100 2 4 ∷ in_difs 900 20 ∷ []

contend_lem_example :
    ((contend 0 countdowns counting_station channel).back_off_time
      ≡ pos ((5 - all_slots countdowns) * t_slot))
    × (all_slots countdowns ≤ 5)
contend_lem_example =
    contend_lem 0 5 countdowns counting_station channel refl
      ((omega arith, omega arith), (omega arith, tt))

-- An offset from 5 to 3 cannot be drawn.
sync_offset_empty :
    sync_offset (record default_config_nr { min_sync_slot_desync = 5; max_sync_slot_desync = 3 }) 4
    ≡ raised value_error
unfolding sync_offset
sync_offset_empty = refl

-- Ten slots after the prioritization period, with a boundary in 60 microseconds.
abbrev waiting_gnb : Gnb
waiting_gnb = record (new_gnb default_config_nr) {
  back_off_time = pos (10 * 9 + 43);
  next_sync_slot_boundry = 1060;
  first_interrupt = true;
  waiting_backoff = true;
  start_nr = 500;
}

start_gap_lem_example :
    (t : TurnNr) × (start_gap default_config_nr 1000 waiting_gnb channel none ≡ ok t)
    × (pos 0 ≤ℤ t.self.time_to_next_sync_slot -ℤ waiting_gnb.back_off_time)
    × Aligned default_config_nr.synchronization_slot_duration waiting_gnb.back_off_time
        (sub_ℕ waiting_gnb.next_sync_slot_boundry 1000)
        t.self.time_to_next_sync_slot
    × (t.self.back_off_time ≡ waiting_gnb.back_off_time)
    × (t.self.pc ≡ gap_wait)
start_gap_lem_example = start_gap_lem default_config_nr 1000 waiting_gnb channel none (omega arith)

align_stuck_example : align 1000 0 (pos 133) (pos 60) ≡ raised no_end
align_stuck_example = align_stuck 1000 (pos 133) (pos 60) (omega arith)

-- Interrupted after the prioritization period and two slots and a half.
freeze_gap_lem_example :
    ((freeze_gap default_config_nr 566 waiting_gnb).back_off_time ≡ pos ((10 - 2) * 9 + 43))
    × (2 ≤ 10)
    × ((freeze_gap default_config_nr 566 waiting_gnb).waiting_backoff ≡ false)
freeze_gap_lem_example =
    freeze_gap_lem default_config_nr waiting_gnb 566 10 2 66 (omega arith) refl refl refl refl
      (omega arith) (inr (omega arith, omega arith))

-- The second gNB starts to count 70 microseconds after the first one, which is interrupted 30
-- later.
shared_start_loses_example :
    let u₁ = GnbBackoff.start_counting default_config_nr 100 0 waiting_gnb channel in
    let u₂ =
      GnbBackoff.start_counting default_config_nr 170 1 (new_gnb default_config_nr) u₁.channel in
    (g : Gnb) × (freeze default_config_nr 200 u₁.self u₂.start ≡ ok g)
    × (g.back_off_time ≡ waiting_gnb.back_off_time)
    × (1 ≤ slots_waited default_config_nr (200 - 100))
shared_start_loses_example =
    shared_start_loses default_config_nr 100 170 200 0 1 waiting_gnb (new_gnb default_config_nr)
      channel (omega arith) (omega arith) (omega arith)
