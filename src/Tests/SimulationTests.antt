-- ===== src/Tests/SimulationTests.antt =====
-- A simulation of one Wi-Fi station and one gNB.
use implementing_5g_nr_u_lte.Common.{
  ℕ, ◌+◌, ◌*◌, ◌≤◌, ◌<◌, arith, ◌≡◌, refl, true, none, some, sum_of, List, [], ◌∷◌, ok, Outcome,
  raised, key_error, ◌⊎◌, ◌+ℤ◌, ◌-ℤ◌, remove,
}
use implementing_5g_nr_u_lte.Data.{default_config, default_config_nr, done, Frame, Turn}
use implementing_5g_nr_u_lte.Station.{Station}
use implementing_5g_nr_u_lte.Gnb.{Gnb}
use implementing_5g_nr_u_lte.Gnb.Backoff.{TurnNr, turn}
use implementing_5g_nr_u_lte.Window.{upper_limit, store_draw, new_backoffs}
use implementing_5g_nr_u_lte.Station
use implementing_5g_nr_u_lte.Gnb
use implementing_5g_nr_u_lte.World.{
  World, new_world, put_station, put_gnb, alive_stations, alive_gnbs,
}
use implementing_5g_nr_u_lte.Simulation.{Simulation, station_runs, gnb_runs}
use implementing_5g_nr_u_lte.Simulation.Keys.{station_draw_lem, gnb_draw_lem}
use implementing_5g_nr_u_lte.Simulation.Outcomes.{
  initial, counts_add_up, airtime_adds_up, retries_bounded, no_latency, occupancy_is_whole,
  gnb_failures_never_reset,
}
use implementing_5g_nr_u_lte.Simulation.Ledger.{Occupied}
use implementing_5g_nr_u_lte.Simulation.Schedule.{Run, started, station_goes, gnb_goes, time_goes}

abbrev pub start_state : Simulation
start_state = initial 1 1 true default_config default_config_nr (new_backoffs 63 1) none

abbrev times {ℓ} : {A : Type ℓ} → List ℕ → (ℕ → A → A) → A → A
times [] f a = a
times (x ∷ xs) f a = times xs f (f x a)

-- The station draws 2 slots, counts them down and sends a frame, up to the end of the ACK.
pub frame_sent : Run 1 1 start_state
unfolding station_goes time_goes
frame_sent = times (2 ∷ 0 ∷ 0 ∷ 0 ∷ 0 ∷ 0 ∷ 0 ∷ 0 ∷ []) (station_goes 0) (started 1 1 start_state)

abbrev pub sent_world : World
sent_world = frame_sent.last.world

frame_sent_result :
    (sent_world.channel.bytes_sent ≡ 1472)
    × (sent_world.channel.airtime_data 0 ≡ 5400)
    × ((sent_world.stations 0).pc ≡ Station.sent true)
unfolding frame_sent new_world Station.new_station Gnb.new_gnb Station.largest_draw upper_limit
    Station.Process.resume Station.Process.next_frame Station.Process.begin_back_off
    Station.generate_new_back_off_time store_draw new_backoffs put_station put_gnb alive_stations
    alive_gnbs Station.generate_new_frame Station.Process.start_counting
    Station.Process.finish_counting remove Station.Process.begin_send Station.Process.seize
    Station.Process.finish_frame Station.Process.after_frame Station.check_collision
    Station.sent_completed Station.complete_frame Station.deliver_packet ◌+ℤ◌
frame_sent_result = (refl, refl, refl)

abbrev sent_frame : Frame
sent_frame = record {
  frame_time = 5400;
  station_name = 0;
  data_size = 1472;
  t_start = 0;
  number_of_retransmissions = 0;
  t_end = some 0;
  t_to_send = some 0;
}

frame_sent-frame : (sent_world.stations 0).frame_to_send ≡ some sent_frame
unfolding frame_sent new_world Station.new_station Gnb.new_gnb Station.largest_draw upper_limit
    Station.Process.resume Station.Process.next_frame Station.Process.begin_back_off
    Station.generate_new_back_off_time store_draw new_backoffs put_station put_gnb alive_stations
    alive_gnbs Station.generate_new_frame Station.Process.start_counting
    Station.Process.finish_counting remove Station.Process.begin_send Station.Process.seize
    Station.Process.finish_frame Station.Process.after_frame Station.check_collision
    Station.sent_completed Station.complete_frame Station.deliver_packet ◌+ℤ◌
frame_sent-frame = refl

pub frame_sent-attempts :
    0 < sent_world.channel.failed_transmissions + sent_world.channel.succeeded_transmissions
unfolding frame_sent new_world Station.new_station Gnb.new_gnb Station.largest_draw upper_limit
    Station.Process.resume Station.Process.next_frame Station.Process.begin_back_off
    Station.generate_new_back_off_time store_draw new_backoffs put_station put_gnb alive_stations
    alive_gnbs Station.generate_new_frame Station.Process.start_counting
    Station.Process.finish_counting remove Station.Process.begin_send Station.Process.seize
    Station.Process.finish_frame Station.Process.after_frame Station.check_collision
    Station.sent_completed Station.complete_frame Station.deliver_packet ◌+ℤ◌
frame_sent-attempts = omega arith

counts_add_up_example :
    (sent_world.channel.succeeded_transmissions
      ≡ sum_of (λ (s : Station). s.succeeded_transmissions) 1 sent_world.stations)
    × (sent_world.channel.failed_transmissions
        ≡ sum_of (λ (s : Station). s.failed_transmissions) 1 sent_world.stations)
    × (sent_world.channel.succeeded_transmissions_nr
        ≡ sum_of (λ (g : Gnb). g.succeeded_transmissions) 1 sent_world.gnbs)
    × (sent_world.channel.failed_transmissions_nr
        ≡ sum_of (λ (g : Gnb). g.failed_transmissions) 1 sent_world.gnbs)
counts_add_up_example =
    counts_add_up 1 1 true default_config default_config_nr (new_backoffs 63 1) none
      frame_sent.reach

airtime_adds_up_example :
    (sent_world.channel.bytes_sent
      ≡ sent_world.wifi_config.data_size * sent_world.channel.succeeded_transmissions)
    × (sent_world.channel.airtime_data 0 ≡ 5400 * (sent_world.stations 0).succeeded_transmissions)
airtime_adds_up_example =
    airtime_adds_up 1 1 true default_config default_config_nr (new_backoffs 63 1) none
      frame_sent.reach 0

retries_bounded_example :
    ((sent_world.stations 0).failed_transmissions_in_row ≤ sent_world.wifi_config.r_limit)
    × (sent_frame.number_of_retransmissions ≤ sent_world.wifi_config.r_limit)
retries_bounded_example =
    retries_bounded 1 1 true default_config default_config_nr (new_backoffs 63 1) none
      frame_sent.reach 0 frame_sent-frame

no_latency_example :
    ((sent_world.stations 0).total_latency ≡ 0)
    × ((sent_world.stations 0).packet_count ≡ 0)
    × ((sent_world.gnbs 0).total_latency ≡ 0)
    × ((sent_world.gnbs 0).packet_count ≡ 0)
no_latency_example =
    no_latency 1 1 true default_config default_config_nr (new_backoffs 63 1) none frame_sent.reach 0

-- The station draws its next back-off, and the draw is larger than the table.
station_draw_lem_example :
    ((70 ≤ 63) × (u : Turn Station) × (station_runs done 70 0 sent_world ≡ ok u))
    ⊎ ((63 < 70) × (station_runs done 70 0 sent_world ≡ raised key_error))
station_draw_lem_example =
    station_draw_lem 1 1 63 true default_config default_config_nr none frame_sent.reach 0 70
      (rw frame_sent_result.2 refl)

-- The gNB sends a transmission alone, in the gap mode.
pub transmission_sent : Run 1 1 start_state
unfolding gnb_goes time_goes
transmission_sent =
    times (3 ∷ 0 ∷ 0 ∷ 0 ∷ 0 ∷ 0 ∷ 0 ∷ 0 ∷ []) (gnb_goes 0) (started 1 1 start_state)

transmission_sent_result : (transmission_sent.last.world.gnbs 0).succeeded_transmissions ≡ 1
unfolding transmission_sent new_world Station.new_station Gnb.new_gnb Station.largest_draw
    upper_limit Station.Process.resume Station.Process.next_frame Station.Process.begin_back_off
    Station.generate_new_back_off_time store_draw new_backoffs put_station put_gnb alive_stations
    alive_gnbs Station.generate_new_frame Station.Process.start_counting
    Station.Process.finish_counting remove Station.Process.begin_send Station.Process.seize
    Station.Process.finish_frame Station.Process.after_frame Station.check_collision
    Station.sent_completed Station.complete_frame Station.deliver_packet ◌+ℤ◌ Gnb.largest_draw
    Gnb.Process.resume Gnb.Backoff.begin_back_off Gnb.generate_new_back_off_time
    Gnb.Backoff.start_gap Gnb.Backoff.align Gnb.Backoff.finish_gap Gnb.Backoff.finish_gap_counting
    Gnb.Process.begin_send Gnb.gen_new_transmission Gnb.Process.seize
    Gnb.Process.finish_transmission Gnb.Process.after_transmission Gnb.check_collision
    Gnb.sent_completed Gnb.complete_transmission Gnb.sent_failed Gnb.fail_transmission ◌-ℤ◌
transmission_sent_result = refl

transmission_sent-sent : (transmission_sent.last.world.gnbs 0).pc ≡ Gnb.sent true
unfolding transmission_sent new_world Station.new_station Gnb.new_gnb Station.largest_draw
    upper_limit Station.Process.resume Station.Process.next_frame Station.Process.begin_back_off
    Station.generate_new_back_off_time store_draw new_backoffs put_station put_gnb alive_stations
    alive_gnbs Station.generate_new_frame Station.Process.start_counting
    Station.Process.finish_counting remove Station.Process.begin_send Station.Process.seize
    Station.Process.finish_frame Station.Process.after_frame Station.check_collision
    Station.sent_completed Station.complete_frame Station.deliver_packet ◌+ℤ◌ Gnb.largest_draw
    Gnb.Process.resume Gnb.Backoff.begin_back_off Gnb.generate_new_back_off_time
    Gnb.Backoff.start_gap Gnb.Backoff.align Gnb.Backoff.finish_gap Gnb.Backoff.finish_gap_counting
    Gnb.Process.begin_send Gnb.gen_new_transmission Gnb.Process.seize
    Gnb.Process.finish_transmission Gnb.Process.after_transmission Gnb.check_collision
    Gnb.sent_completed Gnb.complete_transmission Gnb.sent_failed Gnb.fail_transmission ◌-ℤ◌
transmission_sent-sent = refl

gnb_draw_lem_example :
    ((70 ≤ 63) × (u : TurnNr) × (gnb_runs done 70 0 transmission_sent.last.world ≡ ok u))
    ⊎ ((63 < 70) × (gnb_runs done 70 0 transmission_sent.last.world ≡ raised key_error))
gnb_draw_lem_example =
    gnb_draw_lem 1 1 63 true default_config default_config_nr none transmission_sent.reach 0 70
      (rw transmission_sent-sent refl)

occupancy_is_whole_example :
    Occupied transmission_sent.last.world.nru_config.mcot
      (transmission_sent.last.world.gnbs 0)
      transmission_sent.last.world.channel
      0
occupancy_is_whole_example =
    occupancy_is_whole 1 1 true default_config default_config_nr (new_backoffs 63 1) none
      transmission_sent.reach 0

-- The station and the gNB end their back-offs at once, and the gNB transmits.
collision : Run 1 1 start_state
unfolding station_goes gnb_goes time_goes
collision = times (3 ∷ 0 ∷ 0 ∷ []) (gnb_goes 0) (
    times (0 ∷ 0 ∷ 0 ∷ 0 ∷ []) (station_goes 0)
      (times (3 ∷ 0 ∷ 0 ∷ 0 ∷ []) (gnb_goes 0) (started 1 1 start_state)))

abbrev result_or : TurnNr → Outcome TurnNr → TurnNr
result_or d (ok t) = t
result_or d (raised e) = d

abbrev idle_turn : TurnNr
idle_turn = turn (collision.last.world.gnbs 0) collision.last.world.channel none

abbrev failed_turn : TurnNr
failed_turn = result_or idle_turn (gnb_runs done 0 0 collision.last.world)

collision_runs : gnb_runs done 0 0 collision.last.world ≡ ok failed_turn
unfolding collision new_world Station.new_station Gnb.new_gnb Station.largest_draw upper_limit
    Station.Process.resume Station.Process.next_frame Station.Process.begin_back_off
    Station.generate_new_back_off_time store_draw new_backoffs put_station put_gnb alive_stations
    alive_gnbs Station.generate_new_frame Station.Process.start_counting
    Station.Process.finish_counting remove Station.Process.begin_send Station.Process.seize
    Station.Process.finish_frame Station.Process.after_frame Station.check_collision
    Station.sent_completed Station.complete_frame Station.deliver_packet ◌+ℤ◌ Gnb.largest_draw
    Gnb.Process.resume Gnb.Backoff.begin_back_off Gnb.generate_new_back_off_time
    Gnb.Backoff.start_gap Gnb.Backoff.align Gnb.Backoff.finish_gap Gnb.Backoff.finish_gap_counting
    Gnb.Process.begin_send Gnb.gen_new_transmission Gnb.Process.seize
    Gnb.Process.finish_transmission Gnb.Process.after_transmission Gnb.check_collision
    Gnb.sent_completed Gnb.complete_transmission Gnb.sent_failed Gnb.fail_transmission ◌-ℤ◌
collision_runs = refl

collision_fails :
    failed_turn.self.failed_transmissions ≡ (collision.last.world.gnbs 0).failed_transmissions + 1
unfolding collision new_world Station.new_station Gnb.new_gnb Station.largest_draw upper_limit
    Station.Process.resume Station.Process.next_frame Station.Process.begin_back_off
    Station.generate_new_back_off_time store_draw new_backoffs put_station put_gnb alive_stations
    alive_gnbs Station.generate_new_frame Station.Process.start_counting
    Station.Process.finish_counting remove Station.Process.begin_send Station.Process.seize
    Station.Process.finish_frame Station.Process.after_frame Station.check_collision
    Station.sent_completed Station.complete_frame Station.deliver_packet ◌+ℤ◌ Gnb.largest_draw
    Gnb.Process.resume Gnb.Backoff.begin_back_off Gnb.generate_new_back_off_time
    Gnb.Backoff.start_gap Gnb.Backoff.align Gnb.Backoff.finish_gap Gnb.Backoff.finish_gap_counting
    Gnb.Process.begin_send Gnb.gen_new_transmission Gnb.Process.seize
    Gnb.Process.finish_transmission Gnb.Process.after_transmission Gnb.check_collision
    Gnb.sent_completed Gnb.complete_transmission Gnb.sent_failed Gnb.fail_transmission ◌-ℤ◌
collision_fails = refl

gnb_failures_never_reset_example :
    failed_turn.self.failed_transmissions_in_row
    ≡ (collision.last.world.gnbs 0).failed_transmissions_in_row + 1
gnb_failures_never_reset_example =
    gnb_failures_never_reset 1 1 true default_config default_config_nr (new_backoffs 63 1) none
      collision.reach 0 0 done collision_runs collision_fails
