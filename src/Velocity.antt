-- ===== src/Velocity.antt =====
-- monitor/src/monitoring/velocity.rs: network and CPU speeds of each server, one point per collection cycle. The
-- locks make each call atomic; the wall clock is an argument; a server's name is a text. `HashMap` is an association list.
mod Tests
pub mod History
pub mod Servers
pub mod Response
use azad_server_box.Prelude.{
  ℕ, ◌-◌, Bool, true, false, ◌&&◌, Option, none, some, List, [], ◌∷◌, map, if◌then◌else◌, ltb,
  length, drop, Text, text_eq, codes, ◌++◌,
}
use azad_server_box.Prelude.Map.{Map, lookup, insert}
use azad_server_box.TimeSeries.{TimeSeries, TimeSeriesData, new_series, add_point}
use azad_server_box.TimeSeries.Floats.{Float, ℤ, pos}
use azad_server_box.TimeSeries.Network.{
  NetworkTimeSeries, new_network, update_network, get_rx_speed, get_tx_speed, get_total_rx,
  get_total_tx, network_is_ready,
}
use azad_server_box.TimeSeries.Cpu.{
  CpuCoreTime, CpuTimeSeries, new_cpu, update_cpu, get_average_usage_percent, cpu_is_ready,
}

-- `VelocityMetrics` of timeseries.rs, whose fields `VelocityData` of velocity.rs shares.
pub record VelocityData (F G : Type 0) : Type 0 where
  pub timestamp : ℕ
  pub network_rx_speed : Option F
  pub network_tx_speed : Option F
  pub cpu_usage_percent : Option G

pub record VelocityMetrics (F G : Type 0) : Type 0 where
  pub timestamp : ℕ
  pub network_rx_speed : Option F
  pub network_tx_speed : Option F
  pub cpu_usage_percent : Option G

pub record VelocityProcessor (F G : Type 0) : Type 0 where
  pub network_series : NetworkTimeSeries
  pub cpu_series : CpuTimeSeries G
  pub metrics_history : TimeSeries (VelocityData F G)

pub record VelocityManager (F G : Type 0) : Type 0 where
  pub processors : Map Text (VelocityProcessor F G)

module _ {F G : Type 0} where
  abbrev pub new_metrics : ℕ → VelocityMetrics F G
  new_metrics now = record {
    timestamp = now;
    network_rx_speed = none;
    network_tx_speed = none;
    cpu_usage_percent = none;
  }

  abbrev pub with_network_speed : VelocityMetrics F G → Option F → Option F → VelocityMetrics F G
  with_network_speed m rx_speed tx_speed = record m {
    network_rx_speed = rx_speed;
    network_tx_speed = tx_speed;
  }

  abbrev pub with_cpu_usage : VelocityMetrics F G → Option G → VelocityMetrics F G
  with_cpu_usage m cpu_usage = record m { cpu_usage_percent = cpu_usage }

  abbrev pub new_processor : VelocityProcessor F G
  new_processor = record {
    network_series = new_network;
    cpu_series = new_cpu;
    metrics_history = new_series 1000;
  }

  unfoldable pub get_velocity_history : VelocityProcessor F G → Option ℕ → List (VelocityData F G)
  get_velocity_history p none = map (λ point. point.value) p.metrics_history.points
  get_velocity_history p (some limit) =
      let values = map (λ point. point.value) p.metrics_history.points in
      if ltb limit (length values) then drop (length values - limit) values else values

  unfoldable pub get_network_totals : VelocityProcessor F G → Option (ℕ × ℕ)
  get_network_totals p = elim (get_total_rx p.network_series) [
    | none ↦ none
    | some rx ↦ elim (get_total_tx p.network_series) [ none ↦ none | some tx ↦ some (rx, tx) ]
  ]

  unfoldable pub is_ready : VelocityProcessor F G → Bool
  unfolding network_is_ready cpu_is_ready
  is_ready p = network_is_ready p.network_series && cpu_is_ready p.cpu_series

  abbrev pub new_manager : VelocityManager F G
  new_manager = record { processors = [] }

-- f64 for the network, f32 for the CPU.
module _ {F G : Type 0} (f64 : Float F) (f32 : Float G) where
  abbrev pub velocity_of : NetworkTimeSeries → CpuTimeSeries G → ℕ → VelocityData F G
  velocity_of network cpu timestamp = record {
    timestamp = timestamp;
    network_rx_speed = get_rx_speed f64 network;
    network_tx_speed = get_tx_speed f64 network;
    cpu_usage_percent = get_average_usage_percent f32 cpu;
  }

  unfoldable pub update :
      VelocityProcessor F G → ℕ → ℕ → List (CpuCoreTime G) → ℕ → VelocityProcessor F G
  unfolding update_network update_cpu add_point
  update p rx_bytes tx_bytes core_times timestamp =
      let network = update_network p.network_series rx_bytes tx_bytes timestamp in
      let cpu = update_cpu p.cpu_series core_times timestamp in
      record {
        network_series = network;
        cpu_series = cpu;
        metrics_history = add_point p.metrics_history (velocity_of network cpu timestamp) timestamp;
      }

  unfoldable pub get_current_velocity : VelocityProcessor F G → ℕ → VelocityMetrics F G
  get_current_velocity p now =
      with_cpu_usage
        (with_network_speed (new_metrics now) (get_rx_speed f64 p.network_series)
          (get_tx_speed f64 p.network_series))
        (get_average_usage_percent f32 p.cpu_series)

-- The calls of `VelocityManager`, by the server's name.
module _ {F G : Type 0} where
  unfoldable pub processor_or_new : Option (VelocityProcessor F G) → VelocityProcessor F G
  processor_or_new none = new_processor
  processor_or_new (some p) = p

  unfoldable pub network_totals_of : VelocityManager F G → Text → Option (ℕ × ℕ)
  network_totals_of m server_name = elim (lookup server_name m.processors) [
    | none ↦ none
    | some processor ↦ get_network_totals processor
  ]

  unfoldable pub is_ready_of : VelocityManager F G → Text → Bool
  is_ready_of m server_name = elim (lookup server_name m.processors) [
    | none ↦ false
    | some processor ↦ is_ready processor
  ]

  unfoldable pub get_server_velocity_history :
      VelocityManager F G → Text → Option ℕ → List (VelocityData F G)
  get_server_velocity_history m server_name limit = elim (lookup server_name m.processors) [
    | none ↦ []
    | some processor ↦ get_velocity_history processor limit
  ]

module _ {F G : Type 0} (f64 : Float F) (f32 : Float G) where
  unfoldable pub update_server_metrics :
      VelocityManager F G → Text → ℕ → ℕ → List (CpuCoreTime G) → ℕ → VelocityManager F G
  unfolding processor_or_new
  update_server_metrics m server_name rx_bytes tx_bytes core_times timestamp = record {
    processors =
        insert server_name
          (update f64 f32 (processor_or_new (lookup server_name m.processors)) rx_bytes tx_bytes
            core_times timestamp)
          m.processors;
  }

  unfoldable pub get_server_velocity : VelocityManager F G → Text → ℕ → VelocityMetrics F G
  get_server_velocity m server_name now = elim (lookup server_name m.processors) [
    | none ↦ new_metrics now
    | some processor ↦ get_current_velocity f64 f32 processor now
  ]
