-- ===== src/Alerts/Causes.antt =====
-- Why a rule of monitor/src/monitoring/rules.rs raises an alert.
use azad_server_box.Prelude.{
  ◌≡◌, Bool, true, not, Option, none, some, Text, text_eq, codes, ◌==◌, ok,
}
use azad_server_box.Alerts.{F64, Threshold, parse, is_true}
use azad_server_box.Alerts.Rules.{MonitoringRule, Judged, is_level}

module _ {F : Type 0} (f64 : F64 F) (to_lowercase : Text → Text) where
  -- The threshold parses to one of the fitting types that the value meets.
  abbrev pub HasCause : Bool → Text → F → Type 0
  HasCause level threshold v =
      (t : Threshold F) × (parse f64 to_lowercase threshold ≡ ok t)
      × (is_level f64 to_lowercase t.threshold_type ≡ level)
      × (is_true f64 to_lowercase t v ≡ true)

  -- An alert has a cause.
  IsJustified : Bool → Text → Judged F → Type 0
  IsJustified level threshold j = j.0 ≡ true → HasCause level threshold j.1

  -- The types that a rule is judged by: speeds and sizes for the network, percent and temperature for the others.
  abbrev pub expects_level : MonitoringRule → Bool
  expects_level rule = not (rule.monitor_type == codes "network")

  AllJustified : Bool → Text → Option (Judged F) → Type 0
  AllJustified level threshold none = Unit
  AllJustified level threshold (some j) = IsJustified level threshold j
