-- ===== src/Station/Accounts.antt =====
-- What one run of a station's process does to its counters and to the channel's books.
use implementing_5g_nr_u_lte.Common.{
  ℕ, ◌+◌, ◌*◌, ◌≤◌, ◌≡◌, ◌≢◌, refl, ap, arith, Bool, true, false, Option, none, some, [],
}
use implementing_5g_nr_u_lte.Data.{Config, Frame, Channel}
use implementing_5g_nr_u_lte.Station.{Station, Pc, boot, acking, slave_ack, sent}

-- The frame to send has the fixed length and the payload of the configuration, and was retried
-- within the limit and at least as often as the failures in a row tell.
abbrev pub FrameOk : Config → ℕ → Option Frame → Type 0
FrameOk cfg row none = row ≡ 0
FrameOk cfg row (some f) =
    (f.frame_time ≡ 5400)
    × (f.data_size ≡ cfg.data_size)
    × (row ≤ f.number_of_retransmissions)
    × (f.number_of_retransmissions ≤ cfg.r_limit)

-- After a success, and before the first frame, no failure is counted.
abbrev pub RowOk : Pc → ℕ → Type 0
RowOk boot row = row ≡ 0
RowOk acking row = row ≡ 0
RowOk (slave_ack true) row = row ≡ 0
RowOk (sent true) row = row ≡ 0
RowOk _ row = Unit

pub record IsSound (cfg : Config) (s : Station) : Type 0 where
  pub frame : FrameOk cfg s.failed_transmissions_in_row s.frame_to_send
  pub row : RowOk s.pc s.failed_transmissions_in_row
  pub no_packets : s.packet_queue ≡ []
  pub no_latency : s.total_latency ≡ 0
  pub no_count : s.packet_count ≡ 0

-- The books of the channel move with the counters of station `i`, and with nothing else.
pub record Booked (cfg : Config) (i : ℕ) (s s' : Station) (c c' : Channel) : Type 0 where
  pub succeeded :
      c'.succeeded_transmissions + s.succeeded_transmissions
      ≡ c.succeeded_transmissions + s'.succeeded_transmissions
  pub failed :
      c'.failed_transmissions + s.failed_transmissions
      ≡ c.failed_transmissions + s'.failed_transmissions
  pub bytes :
      c'.bytes_sent + cfg.data_size * s.succeeded_transmissions
      ≡ c.bytes_sent + cfg.data_size * s'.succeeded_transmissions
  pub airtime :
      c'.airtime_data i + 5400 * s.succeeded_transmissions
      ≡ c.airtime_data i + 5400 * s'.succeeded_transmissions
  pub other_airtime : (j : ℕ) → i ≢ j → c'.airtime_data j ≡ c.airtime_data j
  pub succeeded_nr : c'.succeeded_transmissions_nr ≡ c.succeeded_transmissions_nr
  pub failed_nr : c'.failed_transmissions_nr ≡ c.failed_transmissions_nr
  pub airtime_nr : c'.airtime_data_nr ≡ c.airtime_data_nr
  pub control_nr : c'.airtime_control_nr ≡ c.airtime_control_nr

pub record Kept (cfg : Config) (i : ℕ) (s s' : Station) (c c' : Channel) : Type 0 where
  pub sound : IsSound cfg s'
  pub booked : Booked cfg i s s' c c'

-- A station without its pc: what the two ends of a transmission keep.
pub record Ended (cfg : Config) (i : ℕ) (s s' : Station) (c c' : Channel) (was_sent : Bool)
    : Type 0 where
  pub frame : FrameOk cfg s'.failed_transmissions_in_row s'.frame_to_send
  pub row : was_sent ≡ true → s'.failed_transmissions_in_row ≡ 0
  pub no_packets : s'.packet_queue ≡ []
  pub no_latency : s'.total_latency ≡ 0
  pub no_count : s'.packet_count ≡ 0
  pub booked : Booked cfg i s s' c c'

-- The channel may differ in what `Booked` does not read.
abbrev SameBooks : Channel → Channel → Type 0
SameBooks c c' =
    (c'.succeeded_transmissions ≡ c.succeeded_transmissions)
    × (c'.failed_transmissions ≡ c.failed_transmissions)
    × (c'.bytes_sent ≡ c.bytes_sent)
    × (c'.airtime_data ≡ c.airtime_data)
    × (c'.succeeded_transmissions_nr ≡ c.succeeded_transmissions_nr)
    × (c'.failed_transmissions_nr ≡ c.failed_transmissions_nr)
    × (c'.airtime_data_nr ≡ c.airtime_data_nr)
    × (c'.airtime_control_nr ≡ c.airtime_control_nr)

pub Ended-Kept :
    (cfg : Config) (i : ℕ) (s s' : Station) (c₀ c c' c₁ : Channel) (b : Bool) (pc : Pc)
    → SameBooks c₀ c
    → SameBooks c' c₁
    → RowOk pc s'.failed_transmissions_in_row
    → Ended cfg i s s' c c' b
    → Kept cfg i s (record s' { pc = pc }) c₀ c₁
Ended-Kept cfg i s s' c₀ c c' c₁ b pc m n row e = record {
  sound = record {
    frame = e.frame;
    row = row;
    no_packets = e.no_packets;
    no_latency = e.no_latency;
    no_count = e.no_count;
  };
  booked = ground (arith, ap (λ f. f i) m.3, ap (λ f. f i) n.3);
}

pub same_books : (c : Channel) → SameBooks c c
same_books c = (refl, refl, refl, refl, refl, refl, refl, refl)

pub slave_row : (b : Bool) (n : ℕ) → (b ≡ true → n ≡ 0) → RowOk (slave_ack b) n
slave_row true n h = h refl
slave_row false n h = tt
