-- ===== src/Velocity/Servers.antt =====
-- `VelocityManager` of monitor/src/monitoring/velocity.rs: servers do not mix.
use azad_server_box.Prelude.{
  ℕ, ◌≡◌, refl, ap, ◌∙◌, Bool-cases, inl, inr, Option, some, List, [], ◌∷◌, if◌then◌else◌, Text,
  text_eq, text_beq, text_beq_iff, ◌==◌,
}
use azad_server_box.Prelude.Map.{lookup, insert, lookup-insert}
use azad_server_box.TimeSeries.Floats.{Float}
use azad_server_box.TimeSeries.Cpu.{CpuCoreTime}
use azad_server_box.Velocity.{
  VelocityProcessor, VelocityManager, processor_or_new, update_server_metrics, get_server_velocity,
  get_server_velocity_history, get_velocity_history, get_current_velocity,
}
use azad_server_box.Velocity.History.{Cycle, run_cycle, run_cycles, newest-history}

module _ {F G : Type 0} (f64 : Float F) (f32 : Float G) where
  abbrev pub run_servers : VelocityManager F G → List (Text × Cycle G) → VelocityManager F G
  run_servers m [] = m
  run_servers m ((name, c) ∷ calls) =
      run_servers
        (update_server_metrics f64 f32 m name c.rx_bytes c.tx_bytes c.core_times c.timestamp) calls

  abbrev pub cycles_of : Text → List (Text × Cycle G) → List (Cycle G)
  cycles_of server [] = []
  cycles_of server ((name, c) ∷ calls) =
      let rest = cycles_of server calls in if name == server then c ∷ rest else rest

  lookup-update :
      (m : VelocityManager F G) (server name : Text) (c : Cycle G)
      → processor_or_new (
          lookup server
            (update_server_metrics f64 f32 m name c.rx_bytes c.tx_bytes c.core_times
              c.timestamp).processors)
        ≡ (if name == server
            then run_cycle f64 f32 (processor_or_new (lookup server m.processors)) c
            else processor_or_new (lookup server m.processors))
  unfolding update_server_metrics processor_or_new
  lookup-update m server name c =
      ap processor_or_new (
        lookup-insert name server
          (run_cycle f64 f32 (processor_or_new (lookup name m.processors)) c) m.processors)
      ∙ elim (Bool-cases (text_beq name server)) [
        | inl e ↦ let same = (text_beq_iff name server).0 e in rw (e, same) refl
        | inr e ↦ rw e refl
      ]

  -- However the cycles of several servers are interleaved, each server's processor is what its own cycles alone make of it.
  pub servers-separate :
      (m : VelocityManager F G) (server : Text) (calls : List (Text × Cycle G))
      → processor_or_new (lookup server (run_servers m calls).processors)
        ≡ run_cycles f64 f32
            (processor_or_new (lookup server m.processors))
            (cycles_of server calls)
  servers-separate m server [] = refl
  servers-separate m server ((name, c) ∷ calls) =
      let rest =
        servers-separate
          (update_server_metrics f64 f32 m name c.rx_bytes c.tx_bytes c.core_times c.timestamp)
          server calls in
      rest
      ∙ rw (lookup-update m server name c)
          (elim (Bool-cases (text_beq name server)) [ inl e ↦ rw e refl | inr e ↦ rw e refl ])

  history_found :
      (m : VelocityManager F G) (server : Text) (p : VelocityProcessor F G) (limit : Option ℕ)
      → lookup server m.processors ≡ some p
      → get_server_velocity_history m server limit ≡ get_velocity_history p limit
  unfolding get_server_velocity_history
  history_found m server p limit h = rw (h, get_server_velocity_history) refl

  velocity_found :
      (m : VelocityManager F G) (server : Text) (p : VelocityProcessor F G) (now : ℕ)
      → lookup server m.processors ≡ some p
      → get_server_velocity f64 f32 m server now ≡ get_current_velocity f64 f32 p now
  unfolding get_server_velocity
  velocity_found m server p now h = rw (h, get_server_velocity) refl

  -- The newest point of a server's history is what its current velocity reports, but for the time, after any update.
  pub newest-velocity :
      (m : VelocityManager F G) (server : Text) (rx_bytes tx_bytes : ℕ)
      (core_times : List (CpuCoreTime G)) (timestamp now : ℕ)
      → let next = update_server_metrics f64 f32 m server rx_bytes tx_bytes core_times timestamp in
        let v = get_server_velocity f64 f32 next server now in
        get_server_velocity_history next server (some 1)
        ≡ record {
          timestamp = timestamp;
          network_rx_speed = v.network_rx_speed;
          network_tx_speed = v.network_tx_speed;
          cpu_usage_percent = v.cpu_usage_percent;
        }
          ∷ []
  unfolding update_server_metrics get_current_velocity
  newest-velocity m server rx_bytes tx_bytes core_times timestamp now =
      let c : Cycle G = record {
        rx_bytes = rx_bytes;
        tx_bytes = tx_bytes;
        core_times = core_times;
        timestamp = timestamp;
      } in
      let p = run_cycle f64 f32 (processor_or_new (lookup server m.processors)) c in
      let found : lookup server (insert server p m.processors) ≡ some p =
        lookup-insert server server p m.processors
        ∙ rw ((text_beq_iff server server).1 refl) refl in
      let next = update_server_metrics f64 f32 m server rx_bytes tx_bytes core_times timestamp in
      rw (history_found next server p (some 1) found, velocity_found next server p now found)
        (newest-history f64 f32 (processor_or_new (lookup server m.processors)) c)
