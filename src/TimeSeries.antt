-- ===== src/TimeSeries.antt =====
-- monitor/src/monitoring/timeseries.rs: the bounded history of points and the pair of the last two samples. An instant is
-- a number of nanoseconds.
mod Tests
pub mod Floats
pub mod Fractions
pub mod Network
pub mod Cpu
pub mod History
use azad_server_box.Prelude.{
  ℕ, Bool, ◌&&◌, true, false, Option, none, some, List, [], ◌∷◌, ◌++◌, if◌then◌else◌, leb, length,
  is_empty, drop,
}

pub record TimeSeriesData {ℓ} (A : Type ℓ) : Type ℓ where
  pub timestamp : ℕ
  pub value : A

pub record TimeSeries {ℓ} (A : Type ℓ) : Type ℓ where
  pub points : List (TimeSeriesData A)
  pub max_points : ℕ

abbrev pub new_series {ℓ} : {A : Type ℓ} → ℕ → TimeSeries A
new_series max_points = record { points = []; max_points = max_points }

-- `pop_front` when full, then `push_back`.
unfoldable pub add_point {ℓ} : {A : Type ℓ} → TimeSeries A → A → ℕ → TimeSeries A
add_point series value timestamp = record series {
  points =
      (if leb series.max_points (length series.points) then drop 1 series.points else series.points)
      ++ record { timestamp = timestamp; value = value } ∷ [];
}

abbrev pub get_data {ℓ} : {A : Type ℓ} → TimeSeries A → List (TimeSeriesData A)
get_data series = series.points

abbrev pub len {ℓ} : {A : Type ℓ} → TimeSeries A → ℕ
len series = length series.points

abbrev pub is_empty_series {ℓ} : {A : Type ℓ} → TimeSeries A → Bool
is_empty_series series = is_empty series.points

abbrev pub clear {ℓ} : {A : Type ℓ} → TimeSeries A → TimeSeries A
clear series = record series { points = [] }

pub record TimeSequence {ℓ} (A : Type ℓ) : Type ℓ where
  pub old : Option A
  pub new : Option A

abbrev pub new_sequence {ℓ} : {A : Type ℓ} → TimeSequence A
new_sequence = record { old = none; new = none }

abbrev pub update_sequence {ℓ} : {A : Type ℓ} → TimeSequence A → A → TimeSequence A
update_sequence s value = record { old = s.new; new = some value }

abbrev pub is_some {ℓ} : {A : Type ℓ} → Option A → Bool
is_some none = false
is_some (some a) = true

abbrev pub sequence_is_ready {ℓ} : {A : Type ℓ} → TimeSequence A → Bool
sequence_is_ready s = is_some s.old && is_some s.new
