-- ===== src/Alerts/Sources.antt =====
-- Which reading a rule of monitor/src/monitoring/rules.rs judges.
use azad_server_box.Prelude.{
  ℕ, ◌≡◌, refl, ◌⊎◌, inl, inr, Bool, true, false, ◌||◌, Bool-cases, Option-cases, Option, none,
  some, if◌then◌else◌, is_empty, get_elem?, Text, text_eq, text_beq, text_beq_iff, codes, ◌==◌,
  arith,
}
use azad_server_box.Prelude.Strings.{strip_prefix}
use azad_server_box.Alerts.{F64}
use azad_server_box.Alerts.Rules.{
  MonitoringRule, Readings, judged, no_reading, parse_usize, Judged, check_core, check_cpu_rule,
  check_memory_rule, check_swap_rule, check_disk_rule, check_network_rule, check_temperature_rule,
  check_rule, speed_or_zero, network_value,
}

module _ {F : Type 0} (f64 : F64 F) (to_lowercase : Text → Text) (r : Readings F) where
  -- The values that each monitor is judged by.
  abbrev pub CpuValue : F → Type 0
  CpuValue v = (v ≡ r.cpu_usage) ⊎ ((i : ℕ) × (get_elem? r.cpu_cores i ≡ some (some v)))

  abbrev pub MemoryValue : F → Type 0
  MemoryValue v =
      (v ≡ r.memory_usage)
      ⊎ ((v ≡ f64.minus (f64.of_nat 100) r.memory_usage)
          ⊎ (v
              ≡ f64.times (f64.div (f64.of_nat r.memory_free) (f64.of_nat r.memory_total))
                  (f64.of_nat 100)))

  abbrev pub SwapValue : F → Type 0
  SwapValue v = (v ≡ r.swap_usage) ⊎ (v ≡ f64.minus (f64.of_nat 100) r.swap_usage)

  -- A speed that is missing counts as 0.
  abbrev pub NetworkValue : F → Type 0
  NetworkValue v =
      (rx tx : Option F) × (r.velocity ≡ some (rx, tx))
      × ((v ≡ speed_or_zero f64 to_lowercase rx)
          ⊎ ((v ≡ speed_or_zero f64 to_lowercase tx)
              ⊎ (v
                  ≡ f64.plus (speed_or_zero f64 to_lowercase rx)
                      (speed_or_zero f64 to_lowercase tx))))

  abbrev pub TemperatureValue : F → Type 0
  TemperatureValue v = r.temperature_reading ≡ some v

  abbrev pub IsWarm : Text → Type 0
  IsWarm monitor = (monitor ≡ codes "temperature") ⊎ (monitor ≡ codes "temp")

  -- A value that was read for a rule of this monitor.
  pub data IsReading (monitor : Text) (v : F) : Type 0 where
    of_cpu : monitor ≡ codes "cpu" → CpuValue v → IsReading monitor v
    of_memory : monitor ≡ codes "memory" → MemoryValue v → IsReading monitor v
    of_swap : monitor ≡ codes "swap" → SwapValue v → IsReading monitor v
    of_disk : monitor ≡ codes "disk" → v ≡ r.disk_usage → IsReading monitor v
    of_network : monitor ≡ codes "network" → NetworkValue v → IsReading monitor v
    of_temperature : IsWarm monitor → TemperatureValue v → IsReading monitor v

  -- An alert is about a value of this kind.
  abbrev Concerns : (F → Type 0) → Judged F → Type 0
  Concerns P j = j.0 ≡ true → P j.1

  never : {A : Type 0} → false ≡ true → A
  never h = absurd (ground (arith, h))

  -- A branch that judges a value, or leaves it to the rest.
  judged_if :
      (P : F → Type 0) (b : Bool) (threshold : Text) (v : F) (k : Judged F)
      → P v
      → Concerns P k
      → Concerns P (if b then judged f64 to_lowercase threshold v else k)
  judged_if P true threshold v k p c = λ h. p
  judged_if P false threshold v k p c = c

  check_core-Concerns :
      (rule : MonitoringRule) (index : Text)
      → Concerns CpuValue (check_core f64 to_lowercase rule r index)
  unfolding check_core
  check_core-Concerns rule index = elim (Option-cases (parse_usize index)) [
    | inl e ↦ rw (e, check_core) (λ h. never h)
    | inr (i, e) ↦ elim (Option-cases (get_elem? r.cpu_cores i)) [
      | inl f ↦ rw (e, check_core, f) (λ h. never h)
      | inr (core, f) ↦ elim (Option-cases core) [
        | inl g ↦ rw (e, check_core, f, g) (λ h. never h)
        | inr (usage, g) ↦
            let there : get_elem? r.cpu_cores i ≡ some (some usage) = cc (f, g) in
            rw (e, check_core, f, g) (λ h. inr (i, there))
      ]
    ]
  ]

  check_cpu_rule-Concerns :
      (rule : MonitoringRule) → Concerns CpuValue (check_cpu_rule f64 to_lowercase rule r)
  unfolding check_cpu_rule
  check_cpu_rule-Concerns rule =
      judged_if CpuValue (rule.matcher == codes "cpu" || is_empty rule.matcher) rule.threshold
        r.cpu_usage _ (inl refl) (behind (strip_prefix (codes "cpu") rule.matcher))
    where
      behind :
          (o : Option Text)
          → Concerns CpuValue (elim o [
            | some index ↦ check_core f64 to_lowercase rule r index
            | none ↦ no_reading f64 to_lowercase
          ])
      behind none = λ h. never h
      behind (some index) = check_core-Concerns rule index

  check_memory_rule-Concerns :
      (rule : MonitoringRule) → Concerns MemoryValue (check_memory_rule f64 to_lowercase rule r)
  unfolding check_memory_rule
  check_memory_rule-Concerns rule =
      judged_if MemoryValue
        (rule.matcher == codes "used" || rule.matcher == codes "memory" || is_empty rule.matcher)
        rule.threshold _ _ (inl refl)
        (judged_if MemoryValue (rule.matcher == codes "free") rule.threshold _ _ (inr (inl refl)) (
          judged_if MemoryValue (rule.matcher == codes "avail") rule.threshold _ _ (inr (inr refl))
            (λ h. never h)))

  check_swap_rule-Concerns :
      (rule : MonitoringRule) → Concerns SwapValue (check_swap_rule f64 to_lowercase rule r)
  unfolding check_swap_rule
  check_swap_rule-Concerns rule =
      judged_if SwapValue
        (rule.matcher == codes "used" || rule.matcher == codes "swap" || is_empty rule.matcher)
        rule.threshold _ _ (inl refl)
        (judged_if SwapValue (rule.matcher == codes "free") rule.threshold _ _ (inr refl)
          (λ h. never h))

  check_network_rule-Concerns :
      (rule : MonitoringRule) → Concerns NetworkValue (check_network_rule f64 to_lowercase rule r)
  unfolding check_network_rule network_value
  check_network_rule-Concerns rule = elim (Option-cases r.velocity) [
    | inl e ↦ rw (e, check_network_rule) (λ h. never h)
    | inr ((rx, tx), e) ↦
        rw (e, check_network_rule, network_value)
          (λ h. (
            rx,
            tx,
            refl,
            elim (Bool-cases (rule.matcher == codes "rx" || rule.matcher == codes "in")) [
              | inl a ↦ rw a (inl refl)
              | inr a ↦
                  elim (Bool-cases (rule.matcher == codes "tx" || rule.matcher == codes "out")) [
                    | inl b ↦ rw (a, b) (inr (inl refl))
                    | inr b ↦ rw (a, b) (inr (inr refl))
                  ]
            ],
          ))
  ]

  check_temperature_rule-Concerns :
      (rule : MonitoringRule)
      → Concerns TemperatureValue (check_temperature_rule f64 to_lowercase rule r)
  unfolding check_temperature_rule
  check_temperature_rule-Concerns rule = elim (Option-cases r.temperature_reading) [
    | inl e ↦ rw (e, check_temperature_rule) (λ h. never h)
    | inr (v, e) ↦ rw (e, check_temperature_rule) (λ h. refl)
  ]

  abbrev pub AllConcern : Text → Option (Judged F) → Type 0
  AllConcern monitor none = Unit
  AllConcern monitor (some j) = Concerns (IsReading monitor) j

  -- A branch of the match on the monitor.
  when_named :
      (monitor name : Text) (P : F → Type 0) (j : Judged F) (k : Option (Judged F))
      → ((v : F) → monitor ≡ name → P v → IsReading monitor v)
      → Concerns P j
      → AllConcern monitor k
      → AllConcern monitor (if monitor == name then some j else k)
  when_named monitor name P j k reading c rest = elim (Bool-cases (text_beq monitor name)) [
    | inl e ↦ rw e (λ h. reading j.1 ((text_beq_iff monitor name).0 e) (c h))
    | inr e ↦ rw e rest
  ]

  -- The last branch, which has two names.
  warm :
      (rule : MonitoringRule) (a b : Bool)
      → (a ≡ true → IsWarm rule.monitor_type)
      → (b ≡ true → IsWarm rule.monitor_type)
      → AllConcern rule.monitor_type
          (if a || b then some (check_temperature_rule f64 to_lowercase rule r) else none)
  warm rule true b ha hb = λ h. of_temperature (ha refl) (check_temperature_rule-Concerns rule h)
  warm rule false true ha hb =
      λ h. of_temperature (hb refl) (check_temperature_rule-Concerns rule h)
  warm rule false false ha hb = tt

  pub check_rule-AllConcern :
      (rule : MonitoringRule) → AllConcern rule.monitor_type (check_rule f64 to_lowercase rule r)
  unfolding check_rule check_disk_rule
  check_rule-AllConcern rule =
      let kind = rule.monitor_type in
      when_named kind (codes "cpu") CpuValue _ _ (λ v. of_cpu) (check_cpu_rule-Concerns rule)
        (when_named kind (codes "memory") MemoryValue _ _ (λ v. of_memory)
          (check_memory_rule-Concerns rule)
          (when_named kind (codes "swap") SwapValue _ _ (λ v. of_swap)
            (check_swap_rule-Concerns rule)
            (when_named kind (codes "disk") (λ v. v ≡ r.disk_usage) _ _ (λ v. of_disk) (λ h. refl)
              (when_named kind (codes "network") NetworkValue _ _ (λ v. of_network)
                (check_network_rule-Concerns rule)
                (warm rule (text_beq kind (codes "temperature")) (text_beq kind (codes "temp"))
                  (λ e. inl ((text_beq_iff kind (codes "temperature")).0 e))
                  (λ e. inr ((text_beq_iff kind (codes "temp")).0 e)))))))
