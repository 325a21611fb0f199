-- ===== src/Metrics/Sinr.antt =====
-- `Channel.calculate_sinr`, and the averages that `run_simulation` takes of it. What Python's
-- floats do is a parameter.
use implementing_5g_nr_u_lte.Common.{
  ℕ, zero, suc, ◌≡◌, refl, Bool, false, not, ◌&&◌, List, [], ◌∷◌, ◌++◌, map, ℤ, pos, negsuc, ltb,
  ◌==◌, if◌then◌else◌, for_each, range_from, count, Bool-cases, inl, inr,
}
use implementing_5g_nr_u_lte.Data.{Channel}
pub mod Sources

-- Python's floats, as far as the signal powers need them.
pub record Floats : Type 1 where
  pub Float : Type 0
  pub of_nat : ℕ → Float
  pub plus : Float → Float → Float
  pub over : Float → Float → Float
  pub is_positive : Float → Bool
  pub ten_to_tenth : ℤ → Float  -- `10 ** (x / 10)`
  pub ten_log10 : Float → Float  -- `10 * math.log10(x)`

pub data Node : Type 0 where
  station : ℕ → Node
  gnb : ℕ → Node

-- `a == b` for two node objects.
abbrev pub same_node : Node → Node → Bool
same_node (station i) (station j) = i == j
same_node (gnb i) (gnb j) = i == j
same_node _ _ = false

abbrev pub listed : ℕ → List ℕ → Bool
listed i xs = ltb 0 (count i xs)

-- `other in self.tx_list`, or in `tx_list_NR` for a gNB.
abbrev pub is_transmitting : Channel → Node → Bool
is_transmitting c (station i) = listed i c.tx_list
is_transmitting c (gnb i) = listed i c.tx_list_nr

-- `list(stations.values()) + list(gnbs.values())`
abbrev pub all_nodes : ℕ → ℕ → List Node
all_nodes n m = map station (range_from 0 n) ++ map gnb (range_from 0 m)

-- The default noise floor of -95 dBm, and the 23 dBm that both constructors of a node set.
abbrev pub noise_floor_dbm : ℤ
noise_floor_dbm = negsuc 94

abbrev pub transmit_power_dbm : ℤ
transmit_power_dbm = pos 23

module _ (f : Floats) where
  open f use {Float, of_nat, plus, over, is_positive, ten_to_tenth, ten_log10}

  abbrev pub disturbs : Channel → Node → Node → Bool
  disturbs c node other = not (same_node other node) && is_transmitting c other

  -- One round of the loop over the other nodes.
  abbrev pub add_interference : Channel → Node → Node → Float → Float
  add_interference c node other power =
      if disturbs c node other then plus power (ten_to_tenth transmit_power_dbm) else power

  unfoldable pub calculate_sinr : Channel → Node → List Node → Float
  calculate_sinr c node others =
      let interference = for_each others (add_interference c node) (of_nat 0) in
      let total = plus interference (ten_to_tenth noise_floor_dbm) in
      if is_positive total
      then ten_log10 (over (ten_to_tenth transmit_power_dbm) total)
      else of_nat 100

  abbrev pub sum_sinr : Channel → List Node → List Node → Float
  sum_sinr c nodes others =
      for_each nodes (λ node sum. plus sum (calculate_sinr c node others)) (of_nat 0)

  -- `wifi_sinr` and `nru_sinr`
  unfoldable pub wifi_sinr : ℕ → ℕ → Channel → Float
  wifi_sinr n m c =
      if ltb 0 n
      then over (sum_sinr c (map station (range_from 0 n)) (all_nodes n m)) (of_nat n)
      else of_nat 0

  unfoldable pub nru_sinr : ℕ → ℕ → Channel → Float
  nru_sinr n m c =
      if ltb 0 m
      then over (sum_sinr c (map gnb (range_from 0 m)) (all_nodes n m)) (of_nat m)
      else of_nat 0
