-- ===== src/Gnb/Accounts.antt =====
-- What one run of a gNB's process does to its counters and to the channel's books.
use implementing_5g_nr_u_lte.Common.{
  ℕ, ◌+◌, ◌*◌, ◌≤◌, ◌≡◌, ◌≢◌, ◌⊎◌, Bool, true, Option, none, some, ℤ, pos, ◌+ℤ◌,
}
use implementing_5g_nr_u_lte.Data.{TransmissionNr, Channel}
use implementing_5g_nr_u_lte.Gnb.{Gnb, Pc, queue_wait, own_lock_wait, sending, slave_sending}

-- The books that a run of a gNB leaves alone.
abbrev WifiBooks : Channel → Channel → Type 0
WifiBooks c c' =
    (c'.succeeded_transmissions ≡ c.succeeded_transmissions)
    × (c'.failed_transmissions ≡ c.failed_transmissions)
    × (c'.bytes_sent ≡ c.bytes_sent)
    × (c'.airtime_data ≡ c.airtime_data)

-- A transmission that is not checked yet: no failure is counted for it, and its reservation signal
-- and its data fill the time that the configuration gives.
abbrev pub Unchecked : ℕ → Option TransmissionNr → Type 0
Unchecked mcot none = ⊥
Unchecked mcot (some t) =
    (t.number_of_retransmissions ≡ 0) × (t.airtime +ℤ t.rs_time ≡ pos (mcot * 1000))

-- From the start of `send_transmission` to its check.
abbrev pub TransmissionOk : ℕ → Pc → Option TransmissionNr → Type 0
TransmissionOk mcot queue_wait o = Unchecked mcot o
TransmissionOk mcot own_lock_wait o = Unchecked mcot o
TransmissionOk mcot sending o = Unchecked mcot o
TransmissionOk mcot slave_sending o = Unchecked mcot o
TransmissionOk mcot _ o = Unit

pub record IsSound (mcot : ℕ) (g : Gnb) : Type 0 where
  pub transmission : TransmissionOk mcot g.pc g.transmission_to_send
  pub no_latency : g.total_latency ≡ 0
  pub no_count : g.packet_count ≡ 0

-- What gNB `i` has on the air in the books: data and reservation signals.
abbrev pub occupancy : Channel → ℕ → ℤ
occupancy c i = c.airtime_data_nr i +ℤ c.airtime_control_nr i

-- The counters of the channel move with those of the gNB. A failure always adds to the failures in
-- a row. The time on the air stays, or grows by one whole transmission with one success.
pub record Booked (mcot i : ℕ) (g g' : Gnb) (c c' : Channel) : Type 0 where
  pub succeeded :
      c'.succeeded_transmissions_nr + g.succeeded_transmissions
      ≡ c.succeeded_transmissions_nr + g'.succeeded_transmissions
  pub failed :
      c'.failed_transmissions_nr + g.failed_transmissions
      ≡ c.failed_transmissions_nr + g'.failed_transmissions
  pub row :
      g'.failed_transmissions ≡ g.failed_transmissions + 1
      → g'.failed_transmissions_in_row ≡ g.failed_transmissions_in_row + 1
  pub grows : g.succeeded_transmissions ≤ g'.succeeded_transmissions
  pub on_the_air :
      (occupancy c' i ≡ occupancy c i)
      ⊎ ((occupancy c' i ≡ occupancy c i +ℤ pos (mcot * 1000))
          × (g'.succeeded_transmissions ≡ g.succeeded_transmissions + 1))
  pub others :
      (j : ℕ)
      → i ≢ j
      → (c'.airtime_data_nr j ≡ c.airtime_data_nr j)
        × (c'.airtime_control_nr j ≡ c.airtime_control_nr j)
  pub wifi : WifiBooks c c'

pub record Kept (mcot i : ℕ) (g g' : Gnb) (c c' : Channel) : Type 0 where
  pub sound : IsSound mcot g'
  pub booked : Booked mcot i g g' c c'

-- The transmission as the check leaves it.
abbrev pub Timed : ℕ → Option TransmissionNr → Type 0
Timed mcot none = Unit
Timed mcot (some t) = t.airtime +ℤ t.rs_time ≡ pos (mcot * 1000)

-- What a check of a transmission leaves.
pub record Ended (mcot : ℕ) (g g' : Gnb) (c c' : Channel) (was_sent : Bool) : Type 0 where
  pub timed : Timed mcot g'.transmission_to_send
  pub no_latency : g'.total_latency ≡ 0
  pub no_count : g'.packet_count ≡ 0
  pub succeeded :
      c'.succeeded_transmissions_nr + g.succeeded_transmissions
      ≡ c.succeeded_transmissions_nr + g'.succeeded_transmissions
  pub failed :
      c'.failed_transmissions_nr + g.failed_transmissions
      ≡ c.failed_transmissions_nr + g'.failed_transmissions
  pub row :
      g'.failed_transmissions ≡ g.failed_transmissions + 1
      → g'.failed_transmissions_in_row ≡ g.failed_transmissions_in_row + 1
  pub grows : g.succeeded_transmissions ≤ g'.succeeded_transmissions
  pub success : was_sent ≡ true → g'.succeeded_transmissions ≡ g.succeeded_transmissions + 1
  pub data_nr : c'.airtime_data_nr ≡ c.airtime_data_nr
  pub control_nr : c'.airtime_control_nr ≡ c.airtime_control_nr
  pub wifi : WifiBooks c c'
