-- ===== src/Tests/LockTests.antt =====
-- Two stations that contend for the channel, up to the frame of the first.
use implementing_5g_nr_u_lte.Common.{
  count, ◌⊎◌, raised, value_error, ℕ, ◌≤◌, ◌<◌, ◌≡◌, refl, true, false, none, List, [], ◌∷◌, ok, ℤ,
  ◌+ℤ◌, ◌-ℤ◌, remove, arith, if◌then◌else◌,
}
use implementing_5g_nr_u_lte.Data.{default_config, default_config_nr, done, Turn}
use implementing_5g_nr_u_lte.Station.{Station}
use implementing_5g_nr_u_lte.Station
use implementing_5g_nr_u_lte.Station.Process.{request_of, timeout}
use implementing_5g_nr_u_lte.Gnb
use implementing_5g_nr_u_lte.Window.{upper_limit, store_draw, new_backoffs}
use implementing_5g_nr_u_lte.World.{
  World, new_world, put_station, put_gnb, alive_stations, alive_gnbs,
}
use implementing_5g_nr_u_lte.Gnb.Backoff.{TurnNr}
use implementing_5g_nr_u_lte.Simulation.Lock.Release.{gnb_gives_lock_back}
use implementing_5g_nr_u_lte.Simulation.{station_runs, gnb_runs}
use implementing_5g_nr_u_lte.Simulation.Lock.{
  Locked, wifi, nobody, inside, released, inside_nr, released_nr,
}
use implementing_5g_nr_u_lte.Simulation.GapProgress.{gap_gnb_goes_on}
use implementing_5g_nr_u_lte.Simulation.Lock.Exclusion.{LockReach-Reach, unlocked, one_transmitter}
use implementing_5g_nr_u_lte.Simulation.Lock.Progress.{waits_left, station_goes_on, lock_given_back}
use implementing_5g_nr_u_lte.Simulation.Lock.Schedule.{LockRun, started, station_goes, gnb_goes}

abbrev start_state : Locked
start_state = unlocked 2 1 false default_config default_config_nr (new_backoffs 63 2) none

abbrev times : List ℕ → ℕ → LockRun 2 1 start_state → LockRun 2 1 start_state
times [] i r = r
times (draw ∷ draws) i r = times draws i (station_goes i draw r)

-- Both stations count down, and the first of them gets to send.
contending : LockRun 2 1 start_state
unfolding station_goes
contending = times (5 ∷ 0 ∷ []) 1 (times (2 ∷ 0 ∷ []) 0 (started 2 1 start_state))

sending : LockRun 2 1 start_state
unfolding station_goes contending
sending = times (0 ∷ 0 ∷ 0 ∷ 0 ∷ []) 0 contending

abbrev contending_world : World
contending_world = contending.last.simulation.world

abbrev sending_world : World
sending_world = sending.last.simulation.world

contending_result : (contending_world.stations 1).pc ≡ Station.counting
unfolding contending new_world Station.new_station Gnb.new_gnb Station.largest_draw upper_limit
    Station.Process.resume Station.Process.next_frame Station.Process.begin_back_off
    Station.generate_new_back_off_time store_draw new_backoffs put_station put_gnb alive_stations
    alive_gnbs Station.generate_new_frame Station.Process.start_counting ◌+ℤ◌
contending_result = refl

sending_result :
    ((sending_world.stations 0).pc ≡ Station.sending) × (sending_world.pending ≡ 1 ∷ [])
unfolding sending contending new_world Station.new_station Gnb.new_gnb Station.largest_draw
    upper_limit Station.Process.resume Station.Process.next_frame Station.Process.begin_back_off
    Station.generate_new_back_off_time store_draw new_backoffs put_station put_gnb alive_stations
    alive_gnbs Station.generate_new_frame Station.Process.start_counting
    Station.Process.finish_counting remove Station.Process.begin_send Station.Process.seize ◌+ℤ◌
sending_result = (refl, refl)

zero_drawn : 0 ≤ Station.largest_draw (contending_world.stations 1)
zero_drawn = omega arith

is_inside : inside (sending_world.stations 0).pc ≡ true
is_inside = rw sending_result.0 refl

one_transmitter_example : wifi 0 ≡ wifi 0
one_transmitter_example =
    one_transmitter 2 1 false default_config default_config_nr (new_backoffs 63 2) none
      sending.reach (wifi 0) (wifi 0) is_inside is_inside

station_goes_on_example : (u : Turn Station) × (station_runs done 0 1 contending_world ≡ ok u)
station_goes_on_example =
    station_goes_on 2 1 63 false default_config default_config_nr none (omega arith) tt
      contending.reach 1 0 zero_drawn

lock_given_back_example :
    let s = sending_world.stations 0 in
    (delay : ℤ) × (request_of s s.pc ≡ timeout delay)
    × (u : Turn Station) × (station_runs done 0 0 sending_world ≡ ok u)
    × (waits_left u.self.pc < waits_left s.pc)
    × (released 0 u.self.pc sending.last.holder ≡ (if inside u.self.pc then wifi 0 else nobody))
lock_given_back_example =
    lock_given_back 2 1 63 false default_config default_config_nr none (omega arith) tt
      sending.reach 0 is_inside

-- The gNB transmits alone, in the mode of reservation signals.
abbrev gnb_times : List ℕ → LockRun 2 1 start_state → LockRun 2 1 start_state
gnb_times [] r = r
gnb_times (draw ∷ draws) r = gnb_times draws (gnb_goes 0 draw r)

transmitting : LockRun 2 1 start_state
unfolding gnb_goes
transmitting = gnb_times (3 ∷ 0 ∷ 0 ∷ 0 ∷ 0 ∷ 0 ∷ []) (started 2 1 start_state)

abbrev transmitting_world : World
transmitting_world = transmitting.last.simulation.world

transmitting_result : inside_nr (transmitting_world.gnbs 0).pc ≡ true
unfolding transmitting new_world Station.new_station Gnb.new_gnb Gnb.largest_draw upper_limit
    Gnb.Process.resume Gnb.Backoff.begin_back_off Gnb.generate_new_back_off_time store_draw
    new_backoffs put_station put_gnb alive_stations alive_gnbs Gnb.gen_new_transmission
    Gnb.Backoff.start_counting Gnb.Backoff.finish_counting remove Gnb.Process.begin_send
    Gnb.Process.seize ◌+ℤ◌ ◌-ℤ◌
transmitting_result = refl

gnb_gives_lock_back_example :
    (u : TurnNr) × (gnb_runs done 0 0 transmitting_world ≡ ok u)
    × (released_nr 0 u.self.pc transmitting.last.holder ≡ nobody)
gnb_gives_lock_back_example =
    gnb_gives_lock_back 2 1 false default_config default_config_nr (new_backoffs 63 2) none
      transmitting.reach 0 0 transmitting_result

-- The gNB in the gap mode, up to its countdown.
abbrev gap_state : Locked
gap_state = unlocked 2 1 true default_config default_config_nr (new_backoffs 63 2) none

abbrev gap_times : List ℕ → LockRun 2 1 gap_state → LockRun 2 1 gap_state
gap_times [] r = r
gap_times (draw ∷ draws) r = gap_times draws (gnb_goes 0 draw r)

counting_down : LockRun 2 1 gap_state
unfolding gnb_goes
counting_down = gap_times (3 ∷ 0 ∷ 0 ∷ []) (started 2 1 gap_state)

abbrev counting_world : World
counting_world = counting_down.last.simulation.world

counting_down_result : (counting_world.gnbs 0).pc ≡ Gnb.gap_counting
unfolding counting_down new_world Station.new_station Gnb.new_gnb Gnb.largest_draw upper_limit
    Gnb.Process.resume Gnb.Backoff.begin_back_off Gnb.generate_new_back_off_time store_draw
    new_backoffs put_station put_gnb alive_stations alive_gnbs Gnb.Backoff.start_gap
    Gnb.Backoff.align Gnb.Backoff.finish_gap ◌+ℤ◌ ◌-ℤ◌
counting_down_result = refl

gap_gnb_goes_on_example :
    ((u : TurnNr) × (gnb_runs done 0 0 counting_world ≡ ok u))
    ⊎ ((gnb_runs done 0 0 counting_world ≡ raised value_error)
        × ((counting_world.gnbs 0).pc ≡ Gnb.gap_counting)
        × (count 0 counting_world.channel.back_off_list_nr ≡ 0))
gap_gnb_goes_on_example =
    gap_gnb_goes_on 2 1 63 default_config default_config_nr none (omega arith) (omega arith)
      (omega arith) tt (LockReach-Reach counting_down.reach) 0 0 (omega arith)
