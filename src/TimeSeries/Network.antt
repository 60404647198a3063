-- ===== src/TimeSeries/Network.antt =====
-- `NetworkTimeSeries` of monitor/src/monitoring/timeseries.rs: two byte counters and the speeds that follow from them.
use azad_server_box.Prelude.{
  ℕ, ◌+◌, ◌-◌, ◌≤◌, ◌≡◌, ◌↔◌, Bool, true, false, ◌&&◌, Option, none, some, if◌then◌else◌,
  checked_sub, arith,
}
use azad_server_box.Prelude.Try.{◌>>?◌}
use azad_server_box.TimeSeries.{TimeSequence, new_sequence, update_sequence, sequence_is_ready}
use azad_server_box.TimeSeries.Floats.{pos, Float, PositiveSeconds, WholeMilliseconds}

pub record NetworkTimeSeries : Type 0 where
  pub rx_bytes : TimeSequence ℕ
  pub tx_bytes : TimeSequence ℕ
  pub timestamps : TimeSequence ℕ

abbrev pub new_network : NetworkTimeSeries
new_network = record { rx_bytes = new_sequence; tx_bytes = new_sequence; timestamps = new_sequence }

unfoldable pub update_network : NetworkTimeSeries → ℕ → ℕ → ℕ → NetworkTimeSeries
update_network s rx_bytes tx_bytes timestamp = record {
  rx_bytes = update_sequence s.rx_bytes rx_bytes;
  tx_bytes = update_sequence s.tx_bytes tx_bytes;
  timestamps = update_sequence s.timestamps timestamp;
}

abbrev pub get_total_rx : NetworkTimeSeries → Option ℕ
get_total_rx s = s.rx_bytes.new

abbrev pub get_total_tx : NetworkTimeSeries → Option ℕ
get_total_tx s = s.tx_bytes.new

unfoldable pub network_is_ready : NetworkTimeSeries → Bool
network_is_ready s = sequence_is_ready s.rx_bytes && sequence_is_ready s.tx_bytes

module _ {F : Type 0} (o : Float F) where
  unfoldable pub seconds : ℕ → ℕ → F
  seconds old new = o.div (o.of_int (o.num_milliseconds old new)) (o.of_int (pos 1000))

  unfoldable pub elapsed_seconds : NetworkTimeSeries → Option F
  unfolding seconds
  elapsed_seconds s = s.timestamps.old >>? λ old. s.timestamps.new >>? λ new.
      if o.gt (seconds old new) (o.of_int (pos 0)) then some (seconds old new) else none

  unfoldable pub speed : NetworkTimeSeries → TimeSequence ℕ → Option F
  unfolding elapsed_seconds
  speed s counter = elapsed_seconds s >>? λ elapsed. counter.new >>? λ new. counter.old >>? λ old.
      checked_sub new old >>? λ diff. some (o.div (o.of_int (pos diff)) elapsed)

  unfoldable pub get_rx_speed : NetworkTimeSeries → Option F
  unfolding speed
  get_rx_speed s = speed s s.rx_bytes

  unfoldable pub get_tx_speed : NetworkTimeSeries → Option F
  unfolding speed
  get_tx_speed s = speed s s.tx_bytes

speed_at :
    {F : Type 0} (before after : ℕ) (b : Bool) (t : F) (f : ℕ → F → F) (x : F)
    → (((if b then some t else none) >>? λ elapsed.
          checked_sub after before >>? λ diff. some (f diff elapsed))
        ≡ some x)
      ↔ ((b ≡ true) × (before ≤ after) × (x ≡ f (after - before) t))
speed_at before after true t f x = ground arith
speed_at before after false t f x = ground arith

module _ {F : Type 0} (o : Float F) (positive : PositiveSeconds o) (whole : WholeMilliseconds o)
    (s : NetworkTimeSeries) (rx tx now next_rx next_tx next : ℕ) (x : F) where
  -- Where a number of seconds is above zero exactly when its milliseconds are, and whole milliseconds exactly when one has
  -- passed: after two samples a receive speed is reported exactly where at least a millisecond lies between them and the counter did
  -- not go backwards, and it is then the difference of the counters over the seconds that passed between the samples.
  pub get_rx_speed_iff :
      (get_rx_speed o (update_network (update_network s rx tx now) next_rx next_tx next) ≡ some x)
      ↔ ((now + 1000000 ≤ next)
          × (rx ≤ next_rx)
          × (x ≡ o.div (o.of_int (pos (next_rx - rx))) (seconds o now next)))
  unfolding get_rx_speed update_network
  get_rx_speed_iff =
      let gate = positive (o.num_milliseconds now next) in
      let later = whole now next in
      let value =
        speed_at rx next_rx (o.gt (seconds o now next) (o.of_int (pos 0))) (seconds o now next)
          (λ d t. o.div (o.of_int (pos d)) t) x in
      (
        λ h. let (b, k, e) = value.0 h in (later.0 (gate.0 b), k, e),
        λ (l, k, e). value.1 (gate.1 (later.1 l), k, e),
      )
