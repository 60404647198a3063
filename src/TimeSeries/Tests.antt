-- ===== src/TimeSeries/Tests.antt =====
-- Inputs for timeseries.rs.
use azad_server_box.Prelude.{ℕ, ◌*◌, ◌+◌, ◌≡◌, ◌↔◌, refl, some, ◌-◌, ◌≤◌}
use azad_server_box.TimeSeries.{TimeSeriesData}
use azad_server_box.TimeSeries.Floats.{pos}
use azad_server_box.TimeSeries.Fractions.{
  Ratio, fractions, fractions-PositiveSeconds, fractions-WholeMilliseconds,
}
use azad_server_box.TimeSeries.Network.{
  new_network, update_network, get_rx_speed, get_rx_speed_iff, seconds,
}
use azad_server_box.TimeSeries.Cpu.{CpuCoreTime}

-- Two seconds apart, 500 bytes more: 500 over 2000/1000.
get_rx_speed_iff_example :
    (get_rx_speed fractions (update_network (update_network new_network 100 7 0) 600 9 2000000000)
      ≡ some (500 * 1000, 1 * 2000))
    ↔ ((0 + 1000000 ≤ 2000000000)
        × (100 ≤ 600)
        × ((500 * 1000, 1 * 2000)
            ≡ fractions.div (fractions.of_int (pos (600 - 100))) (seconds fractions 0 2000000000)))
get_rx_speed_iff_example =
    get_rx_speed_iff fractions fractions-PositiveSeconds fractions-WholeMilliseconds new_network 100
      7 0 600 9 2000000000 (500 * 1000, 1 * 2000)

speed_is_reported :
    get_rx_speed fractions (update_network (update_network new_network 100 7 0) 600 9 2000000000)
    ≡ some (500 * 1000, 1 * 2000)
unfolding get_rx_speed update_network
speed_is_reported = refl

abbrev core : ℕ → CpuCoreTime Ratio
core n = record { used = n; total = n + n; usage_percent = some (n, 100) }

abbrev point : ℕ → TimeSeriesData ℕ
point n = record { timestamp = n; value = n * n }
