-- ===== src/TimeSeries/Cpu.antt =====
-- `CpuTimeSeries` of monitor/src/monitoring/timeseries.rs: one pair of samples for each core, and the usage of the machine.
use azad_server_box.Prelude.{
  ℕ, zero, suc, ◌≡◌, ◌≢◌, refl, Bool, true, not, ◌&&◌, Option, none, some, List, [], ◌∷◌,
  if◌then◌else◌, nat_beq, checked_sub, length, get_elem?, is_empty, all, arith, Bool-cases, inl,
  inr, ◌+◌, ltb,
}
use azad_server_box.Prelude.Try.{◌>>?◌}
use azad_server_box.TimeSeries.{
  TimeSequence, new_sequence, update_sequence, sequence_is_ready, is_some,
}
use azad_server_box.TimeSeries.Floats.{pos, Float}

pub data SystemType : Type 0 where
  linux bsd windows : SystemType

pub record CpuCoreTime (F : Type 0) : Type 0 where
  pub used : ℕ
  pub total : ℕ
  pub usage_percent : Option F

pub record CpuTimeSeries (F : Type 0) : Type 0 where
  pub cores : List (TimeSequence (CpuCoreTime F))
  pub last_update : Option ℕ

module _ {F : Type 0} where
  abbrev pub new_cpu : CpuTimeSeries F
  new_cpu = record { cores = []; last_update = none }

  -- `resize_with`: the first n, with empty pairs behind them where there are fewer.
  abbrev resize : ℕ → List (TimeSequence (CpuCoreTime F)) → List (TimeSequence (CpuCoreTime F))
  resize zero cores = []
  resize (suc n) [] = new_sequence ∷ resize n []
  resize (suc n) (c ∷ cores) = c ∷ resize n cores

  -- The loop over the zipped cores and samples.
  abbrev update_each :
      List (TimeSequence (CpuCoreTime F))
      → List (CpuCoreTime F)
      → List (TimeSequence (CpuCoreTime F))
  update_each [] times = []
  update_each (c ∷ cores) [] = c ∷ cores
  update_each (c ∷ cores) (t ∷ times) = update_sequence c t ∷ update_each cores times

  abbrev sized :
      List (TimeSequence (CpuCoreTime F))
      → List (CpuCoreTime F)
      → List (TimeSequence (CpuCoreTime F))
  sized cores times =
      if nat_beq (length times) (length cores) then cores else resize (length times) cores

  unfoldable pub update_cpu : CpuTimeSeries F → List (CpuCoreTime F) → ℕ → CpuTimeSeries F
  update_cpu s [] timestamp = s
  update_cpu s (t ∷ times) timestamp = record {
    cores = update_each (sized s.cores (t ∷ times)) (t ∷ times);
    last_update = some timestamp;
  }

  abbrev core_usage : TimeSequence (CpuCoreTime F) → Option F
  core_usage c = c.new >>? λ time. time.usage_percent

  unfoldable pub get_core_usage_percent : CpuTimeSeries F → ℕ → Option F
  get_core_usage_percent s core_index = get_elem? s.cores core_index >>? λ core. core_usage core

  unfoldable pub cpu_is_ready : CpuTimeSeries F → Bool
  cpu_is_ready s = not (is_empty s.cores) && all sequence_is_ready s.cores

module _ {F : Type 0} (o : Float F) where
  abbrev percent : F → F
  percent ratio =
      o.clamp (o.of_int (pos 0)) (o.of_int (pos 100)) (o.times ratio (o.of_int (pos 100)))

  abbrev ratio : ℕ → ℕ → F
  ratio used total = o.div (o.of_int (pos used)) (o.of_int (pos total))

  unfoldable pub core_usage_percent : SystemType → Option (CpuCoreTime F) → CpuCoreTime F → Option F
  core_usage_percent linux prev now = prev >>? λ before.
      checked_sub now.total before.total >>? λ total_diff.
      checked_sub now.used before.used >>? λ used_diff.
      if nat_beq total_diff 0 then none else some (percent (ratio used_diff total_diff))
  core_usage_percent _ prev now =
      if nat_beq now.total 0 then none else some (percent (ratio now.used now.total))

  -- The loop of `get_average_usage_percent`, over the cores from the first.
  abbrev add_usages : List (TimeSequence (CpuCoreTime F)) → F → ℕ → F × ℕ
  add_usages [] sum count = (sum, count)
  add_usages (c ∷ cores) sum count = elim (core_usage c) [
    | none ↦ add_usages cores sum count
    | some usage ↦ add_usages cores (o.plus sum usage) (count + 1)
  ]

  unfoldable pub get_average_usage_percent : CpuTimeSeries F → Option F
  get_average_usage_percent s =
      if is_empty s.cores
      then none
      else let total = add_usages s.cores (o.of_int (pos 0)) 0 in
        if ltb 0 total.1 then some (o.div total.0 (o.of_int (pos total.1))) else none

module _ {F : Type 0} where
  length-resize :
      (n : ℕ) (cores : List (TimeSequence (CpuCoreTime F))) → length (resize n cores) ≡ n
  length-resize zero cores = refl
  length-resize (suc n) [] = ground (arith, length-resize n [])
  length-resize (suc n) (c ∷ cores) = ground (arith, length-resize n cores)

  length-sized :
      (cores : List (TimeSequence (CpuCoreTime F))) (times : List (CpuCoreTime F))
      → length (sized cores times) ≡ length times
  length-sized cores times = elim (Bool-cases (nat_beq (length times) (length cores))) [
    | inl e ↦ ground (arith, e)
    | inr e ↦ ground (arith, e, length-resize (length times) cores)
  ]

  usage_update_each :
      (cores : List (TimeSequence (CpuCoreTime F))) (times : List (CpuCoreTime F)) (i : ℕ)
      → length cores ≡ length times
      → (get_elem? (update_each cores times) i >>? λ core. core_usage core)
        ≡ (get_elem? times i >>? λ time. time.usage_percent)
  usage_update_each [] [] i h = refl
  usage_update_each [] (t ∷ times) i h = absurd (ground (arith, h))
  usage_update_each (c ∷ cores) [] i h = absurd (ground (arith, h))
  usage_update_each (c ∷ cores) (t ∷ times) zero h = refl
  usage_update_each (c ∷ cores) (t ∷ times) (suc i) h =
      usage_update_each cores times i (omega arith)

  -- After a sample that is not empty the usage of every core is the one that the sample carries, and an index past the sample
  -- has none, however many cores there were before.
  pub usage-update_cpu :
      (s : CpuTimeSeries F) (times : List (CpuCoreTime F)) (timestamp i : ℕ)
      → times ≢ []
      → get_core_usage_percent (update_cpu s times timestamp) i
        ≡ (get_elem? times i >>? λ time. time.usage_percent)
  unfolding get_core_usage_percent update_cpu
  usage-update_cpu s [] timestamp i h = absurd (h refl)
  usage-update_cpu s (t ∷ times) timestamp i h =
      usage_update_each (sized s.cores (t ∷ times)) (t ∷ times) i (length-sized s.cores (t ∷ times))

  abbrev has_new : TimeSequence (CpuCoreTime F) → Bool
  has_new c = is_some c.new

  update_each-has_new :
      (cores : List (TimeSequence (CpuCoreTime F))) (times : List (CpuCoreTime F))
      → length cores ≡ length times
      → (all has_new (update_each cores times) ≡ true)
        × (length (update_each cores times) ≡ length times)
  update_each-has_new [] times h = (refl, h)
  update_each-has_new (c ∷ cores) [] h = absurd (ground (arith, h))
  update_each-has_new (c ∷ cores) (t ∷ times) h =
      let (new, same) = update_each-has_new cores times (omega arith) in (new, omega (arith, same))

  update_each-ready :
      (cores : List (TimeSequence (CpuCoreTime F))) (times : List (CpuCoreTime F))
      → all has_new cores ≡ true
      → length cores ≡ length times
      → all sequence_is_ready (update_each cores times) ≡ true
  update_each-ready [] times h l = refl
  update_each-ready (c ∷ cores) [] h l = absurd (ground (arith, l))
  update_each-ready (c ∷ cores) (t ∷ times) h l = elim (Bool-cases (is_some c.new)) [
    | inl e ↦ rw e (update_each-ready cores times (ground (arith, h, e)) (omega arith))
    | inr e ↦ absurd (ground (arith, h, e))
  ]

  sized-same :
      (cores : List (TimeSequence (CpuCoreTime F))) (times : List (CpuCoreTime F))
      → length cores ≡ length times
      → sized cores times ≡ cores
  sized-same cores times h = ground (arith, h)

  all_ready :
      (cores : List (TimeSequence (CpuCoreTime F))) (n : ℕ)
      → length cores ≡ suc n
      → all sequence_is_ready cores ≡ true
      → (not (is_empty cores) && all sequence_is_ready cores) ≡ true
  all_ready [] n l h = absurd (ground (arith, l))
  all_ready (c ∷ cores) n l h = h

  -- Two samples in a row of the same machine, neither of them empty, make the series ready, whatever it held before; an
  -- empty one between them changes nothing.
  pub two_samples-ready :
      (s : CpuTimeSeries F) (a : CpuCoreTime F) (before : List (CpuCoreTime F)) (b : CpuCoreTime F)
      (after : List (CpuCoreTime F)) (t u v : ℕ)
      → length before ≡ length after
      → cpu_is_ready (update_cpu (update_cpu (update_cpu s (a ∷ before) t) [] u) (b ∷ after) v)
        ≡ true
  unfolding cpu_is_ready update_cpu
  two_samples-ready s a before b after t u v h =
      let (new, same) =
        update_each-has_new (sized s.cores (a ∷ before)) (a ∷ before)
          (length-sized s.cores (a ∷ before)) in
      let held = update_each (sized s.cores (a ∷ before)) (a ∷ before) in
      let alike : length held ≡ length (b ∷ after) = omega (arith, same) in
      all_ready (update_each (sized held (b ∷ after)) (b ∷ after)) (length after)
        (update_each-has_new (sized held (b ∷ after)) (b ∷ after) (length-sized held (b ∷ after))).1
        (rw (sized-same held (b ∷ after) alike) (update_each-ready held (b ∷ after) new alike))
