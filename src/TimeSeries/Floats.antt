-- ===== src/TimeSeries/Floats.antt =====
-- The floating-point operations and instants that monitor/src/monitoring/timeseries.rs and velocity.rs use. The numbers of
-- the hardware and the clock's differences are a parameter.
use azad_server_box.Prelude.{ℕ, ◌+◌, ◌≤◌, suc, ◌≡◌, ◌↔◌, Bool, true}

pub data ℤ : Type 0 where
  pos : ℕ → ℤ
  negsuc : ℕ → ℤ

-- `num_milliseconds` is the one of chrono, of the time from the first instant to the second.
pub record Float (F : Type 0) : Type 0 where
  pub num_milliseconds : ℕ → ℕ → ℤ
  pub of_int : ℤ → F
  pub plus : F → F → F
  pub times : F → F → F
  pub div : F → F → F
  pub gt : F → F → Bool
  pub ge : F → F → Bool
  pub clamp : F → F → F → F

-- A number of milliseconds over 1000 is above zero exactly where the number is.
abbrev pub PositiveSeconds : {F : Type 0} → Float F → Type 0
PositiveSeconds o =
    (z : ℤ)
    → (o.gt (o.div (o.of_int z) (o.of_int (pos 1000))) (o.of_int (pos 0)) ≡ true)
      ↔ ((n : ℕ) × (z ≡ pos (suc n)))

-- Whole milliseconds are above zero exactly where the second instant is at least one later.
abbrev pub WholeMilliseconds : {F : Type 0} → Float F → Type 0
WholeMilliseconds o =
    (old new : ℕ) → ((n : ℕ) × (o.num_milliseconds old new ≡ pos (suc n))) ↔ (old + 1000000 ≤ new)
