-- ===== src/Velocity/Tests.antt =====
-- Inputs for velocity.rs.
use azad_server_box.Prelude.{◌≡◌, ℕ, ◌*◌, List, [], ◌∷◌, some, Text, codes}
use azad_server_box.Prelude.Map.{lookup}
use azad_server_box.Prelude.{text_eq}
use azad_server_box.TimeSeries.Fractions.{Ratio, fractions}
use azad_server_box.Velocity.{VelocityManager, new_manager, processor_or_new}
use azad_server_box.Velocity.History.{Cycle, run_cycles}
use azad_server_box.Velocity.Servers.{run_servers, cycles_of, servers-separate}

abbrev cycle : ℕ → Cycle Ratio
cycle n = record {
  rx_bytes = n;
  tx_bytes = n;
  core_times = record { used = n; total = 100; usage_percent = some (n, 100) } ∷ [];
  timestamp = 1000000000 * n;
}

abbrev both : List (Text × Cycle Ratio)
both = (codes "a", cycle 1) ∷ (codes "b", cycle 5) ∷ (codes "a", cycle 3) ∷ []

abbrev empty : VelocityManager Ratio Ratio
empty = new_manager

servers-separate_example :
    processor_or_new (lookup (codes "a") (run_servers fractions fractions empty both).processors)
    ≡ run_cycles fractions fractions
        (processor_or_new (lookup (codes "a") empty.processors))
        (cycles_of fractions fractions (codes "a") both)
servers-separate_example = servers-separate fractions fractions empty (codes "a") both
