-- ===== src/Velocity/Response.antt =====
-- What the API answers of a server's velocity (monitor/src/monitoring/velocity.rs).
use azad_server_box.Prelude.{ℕ, ◌*◌, Bool, Option, none, some, ◌++◌, if◌then◌else◌, Text, codes}
use azad_server_box.TimeSeries.Floats.{Float, pos}

pub record NetworkSpeedInfo (F : Type 0) : Type 0 where
  pub rx_speed : Option F
  pub tx_speed : Option F
  pub rx_speed_formatted : Option Text
  pub tx_speed_formatted : Option Text
  pub rx_total : Option ℕ
  pub tx_total : Option ℕ

pub record VelocityAnalysisResponse (F G : Type 0) : Type 0 where
  pub timestamp : ℕ
  pub network : NetworkSpeedInfo F
  pub cpu_usage_percent : Option G
  pub is_ready : Bool

-- `{:.2}` of a number is a parameter.
module _ {F : Type 0} (f64 : Float F) (two_decimals : F → Text) where
  abbrev number : ℕ → F
  number n = f64.of_int (pos n)

  unfoldable pub format_speed : F → Text
  format_speed speed =
      if f64.ge speed (number (1024 * 1024 * 1024))
      then two_decimals (f64.div speed (number (1024 * 1024 * 1024))) ++ codes " GB/s"
      else if f64.ge speed (number (1024 * 1024))
      then two_decimals (f64.div speed (number (1024 * 1024))) ++ codes " MB/s"
      else if f64.ge speed (number 1024)
      then two_decimals (f64.div speed (number 1024)) ++ codes " KB/s"
      else two_decimals speed ++ codes " B/s"

  abbrev formatted : Option F → Option Text
  formatted none = none
  formatted (some speed) = some (format_speed speed)

  unfoldable pub new_speed_info : Option F → Option F → Option ℕ → Option ℕ → NetworkSpeedInfo F
  new_speed_info rx_speed tx_speed rx_total tx_total = record {
    rx_speed = rx_speed;
    tx_speed = tx_speed;
    rx_speed_formatted = formatted rx_speed;
    tx_speed_formatted = formatted tx_speed;
    rx_total = rx_total;
    tx_total = tx_total;
  }

abbrev pub new_response :
    {F G : Type 0} → ℕ → NetworkSpeedInfo F → Option G → Bool → VelocityAnalysisResponse F G
new_response now network_info cpu_usage_percent is_ready = record {
  timestamp = now;
  network = network_info;
  cpu_usage_percent = cpu_usage_percent;
  is_ready = is_ready;
}
