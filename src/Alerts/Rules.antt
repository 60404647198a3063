-- ===== src/Alerts/Rules.antt =====
-- The rules of monitor/src/monitoring/rules.rs: which reading a rule judges, and the message it raises. Warnings of the log are
-- left out.
use azad_server_box.Prelude.{
  ℕ, ◌+◌, ◌*◌, ◌-◌, ◌^◌, Bool, true, false, ◌||◌, ◌&&◌, not, Option, none, some, List, [], ◌∷◌,
  ◌++◌, if◌then◌else◌, leb, ltb, nat_beq, all, is_empty, get_elem?, Text, text_eq, codes, ◌==◌, ok,
  err,
}
use azad_server_box.Prelude.Strings.{strip_prefix}
use azad_server_box.Alerts.{F64, ThresholdType, percent, size, speed, temperature, parse, is_true}

pub record MonitoringRule : Type 0 where
  pub name : Text
  pub monitor_type : Text
  pub threshold : Text
  pub matcher : Text

-- What the rules read of the metrics and of the velocity of the server; `velocity` is none where the manager has none.
pub record Readings (F : Type 0) : Type 0 where
  pub cpu_usage : F
  pub cpu_cores : List (Option F)
  pub memory_usage : F
  pub memory_free : ℕ
  pub memory_total : ℕ
  pub swap_usage : F
  pub disk_usage : F
  pub temperature_reading : Option F
  pub velocity : Option (Option F × Option F)

-- `parse::<usize>()` on 64 bits
abbrev pub digit_value : ℕ → ℕ → ℕ
digit_value n c = n * 10 + (c - b'0')

abbrev pub number_of : ℕ → Text → ℕ
number_of n [] = n
number_of n (c ∷ s) = number_of (digit_value n c) s

abbrev pub without_plus : Text → Text
without_plus [] = []
without_plus (c ∷ s) = if nat_beq c b'+' then s else c ∷ s

unfoldable pub parse_usize : Text → Option ℕ
parse_usize s =
    let digits = without_plus s in
    if is_empty digits || not (all (λ c. leb b'0' c && leb c b'9') digits)
    then none
    else if ltb (number_of 0 digits) (2 ^ 64)
    then some (number_of 0 digits)
    else none

-- Whether a rule alerts, the value and its text.
abbrev pub Judged : Type 0 → Type 0
Judged F = Bool × F × Text

unfoldable pub message_of : MonitoringRule → Text → Text
message_of rule formatted =
    codes "Alert: "
    ++ rule.name
    ++ codes " - "
    ++ rule.matcher
    ++ codes " "
    ++ formatted
    ++ codes " (threshold: "
    ++ rule.threshold
    ++ codes ")"

module _ {F : Type 0} (f64 : F64 F) (to_lowercase : Text → Text) where
  abbrev pub number : ℕ → F
  number n = f64.of_nat n

  -- The types that a kind of rule is judged by.
  abbrev pub is_level : ThresholdType → Bool
  is_level percent = true
  is_level temperature = true
  is_level size = false
  is_level speed = false

  unfoldable pub should_trigger_alert : Text → F → Bool
  should_trigger_alert threshold value = elim (parse f64 to_lowercase threshold) [
    | ok t ↦ if is_level t.threshold_type then is_true f64 to_lowercase t value else false
    | err _ ↦ false
  ]

  unfoldable pub should_trigger_speed_alert : Text → F → Bool
  should_trigger_speed_alert threshold value = elim (parse f64 to_lowercase threshold) [
    | ok t ↦ if is_level t.threshold_type then false else is_true f64 to_lowercase t value
    | err _ ↦ false
  ]

  abbrev pub two_decimals : F → Text
  two_decimals v = f64.print 2 v ++ codes "%"

  -- A reading in percent, judged.
  abbrev pub judged : Text → F → Judged F
  judged threshold usage = (should_trigger_alert threshold usage, usage, two_decimals usage)

  abbrev pub no_reading : Judged F
  no_reading = (false, number 0, codes "0.00%")

  -- What is left of the matcher behind `cpu`.
  unfoldable pub check_core : MonitoringRule → Readings F → Text → Judged F
  check_core rule r index = elim (parse_usize index) [
    | none ↦ no_reading
    | some i ↦ elim (get_elem? r.cpu_cores i) [
      | none ↦ no_reading
      | some core ↦ elim core [
        | none ↦ (false, number 0, codes "--")
        | some usage ↦ judged rule.threshold usage
      ]
    ]
  ]

  unfoldable pub check_cpu_rule : MonitoringRule → Readings F → Judged F
  check_cpu_rule rule r =
      if rule.matcher == codes "cpu" || is_empty rule.matcher
      then judged rule.threshold r.cpu_usage
      else elim (strip_prefix (codes "cpu") rule.matcher) [
        | some index ↦ check_core rule r index
        | none ↦ no_reading
      ]

  unfoldable pub check_memory_rule : MonitoringRule → Readings F → Judged F
  check_memory_rule rule r =
      if rule.matcher == codes "used" || rule.matcher == codes "memory" || is_empty rule.matcher
      then judged rule.threshold r.memory_usage
      else if rule.matcher == codes "free"
      then judged rule.threshold (f64.minus (number 100) r.memory_usage)
      else if rule.matcher == codes "avail"
      then judged rule.threshold
          (f64.times (f64.div (number r.memory_free) (number r.memory_total)) (number 100))
      else no_reading

  unfoldable pub check_swap_rule : MonitoringRule → Readings F → Judged F
  check_swap_rule rule r =
      if rule.matcher == codes "used" || rule.matcher == codes "swap" || is_empty rule.matcher
      then judged rule.threshold r.swap_usage
      else if rule.matcher == codes "free"
      then judged rule.threshold (f64.minus (number 100) r.swap_usage)
      else no_reading

  unfoldable pub check_disk_rule : MonitoringRule → Readings F → Judged F
  check_disk_rule rule r = judged rule.threshold r.disk_usage

  abbrev pub speed_or_zero : Option F → F
  speed_or_zero none = number 0
  speed_or_zero (some v) = v

  unfoldable pub network_value : Text → Option F × Option F → F
  network_value matcher (rx, tx) =
      if matcher == codes "rx" || matcher == codes "in"
      then speed_or_zero rx
      else if matcher == codes "tx" || matcher == codes "out"
      then speed_or_zero tx
      else f64.plus (speed_or_zero rx) (speed_or_zero tx)

  unfoldable pub format_network_speed : F → Text
  format_network_speed v =
      if f64.le (number (1024 * 1024 * 1024)) v
      then f64.print 2 (f64.div v (number (1024 * 1024 * 1024))) ++ codes " GB/s"
      else if f64.le (number (1024 * 1024)) v
      then f64.print 2 (f64.div v (number (1024 * 1024))) ++ codes " MB/s"
      else if f64.le (number 1024) v
      then f64.print 2 (f64.div v (number 1024)) ++ codes " KB/s"
      else f64.print 2 v ++ codes " B/s"

  unfoldable pub check_network_rule : MonitoringRule → Readings F → Judged F
  check_network_rule rule r = elim r.velocity [
    | none ↦ (false, number 0, codes "0 B/s")
    | some speeds ↦ (
      should_trigger_speed_alert rule.threshold (network_value rule.matcher speeds),
      network_value rule.matcher speeds,
      format_network_speed (network_value rule.matcher speeds),
    )
  ]

  unfoldable pub check_temperature_rule : MonitoringRule → Readings F → Judged F
  check_temperature_rule rule r = elim r.temperature_reading [
    | none ↦ (false, number 0, codes "N/A")
    | some v ↦ (should_trigger_alert rule.threshold v, v, f64.print 1 v ++ (0xb0 ∷ codes "C"))
  ]

  -- The match on the type of the monitor; none is an unknown one.
  unfoldable pub check_rule : MonitoringRule → Readings F → Option (Judged F)
  check_rule rule r =
      if rule.monitor_type == codes "cpu"
      then some (check_cpu_rule rule r)
      else if rule.monitor_type == codes "memory"
      then some (check_memory_rule rule r)
      else if rule.monitor_type == codes "swap"
      then some (check_swap_rule rule r)
      else if rule.monitor_type == codes "disk"
      then some (check_disk_rule rule r)
      else if rule.monitor_type == codes "network"
      then some (check_network_rule rule r)
      else if rule.monitor_type == codes "temperature" || rule.monitor_type == codes "temp"
      then some (check_temperature_rule rule r)
      else none

  -- The message of `check_enhanced_rule`; none where it raises no alert.
  unfoldable pub check_enhanced_rule : MonitoringRule → Readings F → Option Text
  check_enhanced_rule rule r = elim (check_rule rule r) [
    | none ↦ none
    | some (alert, value, formatted) ↦ if alert then some (message_of rule formatted) else none
  ]

  -- The loop over the rules: the messages in their order.
  unfoldable pub check_rules : List MonitoringRule → Readings F → List Text
  check_rules [] r = []
  check_rules (rule ∷ rules) r =
      let rest = check_rules rules r in
      elim (check_enhanced_rule rule r) [ none ↦ rest | some message ↦ message ∷ rest ]
