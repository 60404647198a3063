-- ===== src/Alerts/Tests.antt =====
-- Inputs for the rules of alerts, with natural numbers in place of floating point.
use azad_server_box.Prelude.{
  ℕ, ◌+◌, ◌-◌, ◌*◌, ◌/◌, ◌≡◌, refl, ◌&&◌, ◌||◌, not, none, some, [], ◌∷◌, if◌then◌else◌, leb, ltb,
  nat_beq, all, is_empty, Text, text_eq, codes, ok,
}
use azad_server_box.Prelude.Strings.{strip_text_suffix, to_ascii_lowercase}
use azad_server_box.Alerts.{
  F64, greater_or_equal, greater, percent, speed, is_size_suffix, find_suffix, remove_char,
  size_parse, value_of, parse, type_of, operator_of, parse_value, is_true, compare,
}
use azad_server_box.Alerts.Parsing.{print, parse-print}
use azad_server_box.Alerts.Rules.{
  MonitoringRule, Readings, number_of, should_trigger_alert, check_temperature_rule, check_rule,
  check_rules, message_of, check_enhanced_rule,
}

-- Digits only, and no decimals printed.
whole : F64 ℕ
whole = record {
  parse = λ s.
      if is_empty s || not (all (λ c. leb b'0' c && leb c b'9') s)
      then none
      else some (number_of 0 s);
  print = λ places. λ v. (b'0' + v / 10) ∷ (b'0' + v - v / 10 * 10) ∷ [];
  of_nat = λ n. n;
  to_u64 = λ n. n;
  plus = λ a. λ b. a + b;
  minus = λ a. λ b. a - b;
  times = λ a. λ b. a * b;
  div = λ a. λ b. a / b;
  lt = ltb;
  le = leb;
  eq = nat_beq;
}

abbrev hot : MonitoringRule
hot = record {
  name = codes "hot";
  monitor_type = codes "temp";
  threshold = codes ">=70C";
  matcher = [];
}

abbrev readings : Readings ℕ
readings = record {
  cpu_usage = 50;
  cpu_cores = some 90 ∷ none ∷ [];
  memory_usage = 40;
  memory_free = 1;
  memory_total = 2;
  swap_usage = 0;
  disk_usage = 10;
  temperature_reading = some 75;
  velocity = some (some 2000, none);
}

hot_alerts :
    check_rules whole to_ascii_lowercase (hot ∷ []) readings
    ≡ codes "Alert: hot -  75°C (threshold: >=70C)" ∷ []
unfolding check_rules check_enhanced_rule check_rule check_temperature_rule should_trigger_alert
    parse type_of operator_of parse_value value_of is_true compare strip_text_suffix
    to_ascii_lowercase is_size_suffix message_of whole
hot_alerts = refl

ten_megabytes :
    parse whole to_ascii_lowercase (codes ">10m/s")
    ≡ ok (record { threshold_type = speed; value = 10485760; compare_type = greater })
unfolding parse type_of operator_of parse_value value_of size_parse find_suffix remove_char
    strip_text_suffix to_ascii_lowercase is_size_suffix whole
ten_megabytes = refl

parse-print_example :
    parse whole to_ascii_lowercase (print greater_or_equal (codes "70") percent)
    ≡ ok (record { threshold_type = percent; value = 70; compare_type = greater_or_equal })
unfolding to_ascii_lowercase value_of is_size_suffix whole
parse-print_example =
    parse-print whole to_ascii_lowercase greater_or_equal b'7' (codes "0") percent 70
      (refl, (refl, tt)) tt refl refl

abbrev hot_message : Text
hot_message = message_of hot (codes "75°C")
