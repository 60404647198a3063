-- ===== src/Velocity/History.antt =====
-- The velocity history of monitor/src/monitoring/velocity.rs against the readings of all cycles.
use azad_server_box.Prelude.{
  ℕ, zero, suc, false, ◌-◌, min, ◌≡◌, refl, sym, ap, ◌∙◌, Bool-cases, inl, inr, none, some, List,
  [], ◌∷◌, ◌++◌, map, arith, leb, ltb, length, drop, if◌then◌else◌, drop-drop, length-drop,
  length-append,
}
use azad_server_box.TimeSeries.{TimeSeriesData, add_point}
use azad_server_box.TimeSeries.Floats.{Float}
use azad_server_box.TimeSeries.Network.{NetworkTimeSeries, new_network, update_network}
use azad_server_box.TimeSeries.Cpu.{CpuCoreTime, CpuTimeSeries, new_cpu, update_cpu}
use azad_server_box.TimeSeries.History.{last, add_points, add_points-history}
use azad_server_box.Velocity.{
  VelocityData, VelocityProcessor, new_processor, update, get_velocity_history, velocity_of,
}

-- What one collection cycle hands to the processor.
pub record Cycle (G : Type 0) : Type 0 where
  pub rx_bytes : ℕ
  pub tx_bytes : ℕ
  pub core_times : List (CpuCoreTime G)
  pub timestamp : ℕ

map-drop {ℓ κ} :
    {A : Type ℓ} {B : Type κ} (f : A → B) (n : ℕ) (xs : List A)
    → map f (drop n xs) ≡ drop n (map f xs)
map-drop f zero xs = refl
map-drop f (suc n) [] = refl
map-drop f (suc n) (x ∷ xs) = map-drop f n xs

length-map {ℓ κ} :
    {A : Type ℓ} {B : Type κ} (f : A → B) (xs : List A) → length (map f xs) ≡ length xs
length-map f [] = refl
length-map f (x ∷ xs) = ground (arith, length-map f xs)

last-last {ℓ} : {A : Type ℓ} (a b : ℕ) (xs : List A) → last a (last b xs) ≡ last (min a b) xs
last-last a b xs =
    let e = length-drop (length xs - b) xs in
    drop-drop (length (last b xs) - a) (length xs - b) xs ∙ ap (λ k. drop k xs) (omega (arith, e))

map-last {ℓ κ} :
    {A : Type ℓ} {B : Type κ} (f : A → B) (n : ℕ) (xs : List A)
    → map f (last n xs) ≡ last n (map f xs)
map-last f n xs = map-drop f (length xs - n) xs ∙ rw (length-map f xs) refl

last-all {ℓ} : {A : Type ℓ} (n : ℕ) (xs : List A) → ltb n (length xs) ≡ false → last n xs ≡ xs
last-all n xs h = let e : length xs - n ≡ 0 = ground (arith, h) in rw e refl

pub history-limit :
    {F G : Type 0} (p : VelocityProcessor F G) (limit : ℕ)
    → get_velocity_history p (some limit) ≡ last limit (get_velocity_history p none)
unfolding get_velocity_history
history-limit p limit =
    let values = map (λ point. point.value) p.metrics_history.points in
    elim (Bool-cases (ltb limit (length values))) [
      | inl e ↦ rw e refl
      | inr e ↦ rw e (sym (last-all limit values e))
    ]

last-snoc {ℓ κ} :
    {A : Type ℓ} {B : Type κ} (f : A → B) (xs : List A) (x : A)
    → last 1 (map f (xs ++ x ∷ [])) ≡ f x ∷ []
last-snoc f [] x = refl
last-snoc f (y ∷ xs) x =
    let l = length-map f (xs ++ x ∷ []) in
    let k = length-append xs (x ∷ []) in
    let e : length (map f (y ∷ xs ++ x ∷ [])) - 1 ≡ suc (length (map f (xs ++ x ∷ [])) - 1) =
      omega (arith, l, k) in
    ap (λ n. drop n (map f (y ∷ xs ++ x ∷ []))) e ∙ last-snoc f xs x

module _ {F G : Type 0} (f64 : Float F) (f32 : Float G) where
  abbrev pub run_cycle : VelocityProcessor F G → Cycle G → VelocityProcessor F G
  run_cycle p c = update f64 f32 p c.rx_bytes c.tx_bytes c.core_times c.timestamp

  abbrev pub run_cycles : VelocityProcessor F G → List (Cycle G) → VelocityProcessor F G
  run_cycles p [] = p
  run_cycles p (c ∷ cs) = run_cycles (run_cycle p c) cs

  -- The reading of each cycle, from the two series alone.
  abbrev pub readings :
      NetworkTimeSeries → CpuTimeSeries G → List (Cycle G) → List (VelocityData F G)
  readings network cpu [] = []
  readings network cpu (c ∷ cs) =
      let next = update_network network c.rx_bytes c.tx_bytes c.timestamp in
      let used = update_cpu cpu c.core_times c.timestamp in
      velocity_of f64 f32 next used c.timestamp ∷ readings next used cs

  stamped : VelocityData F G → TimeSeriesData (VelocityData F G)
  stamped v = record { timestamp = v.timestamp; value = v }

  run_cycles-add_points :
      (p : VelocityProcessor F G) (cs : List (Cycle G))
      → (run_cycles p cs).metrics_history
        ≡ add_points p.metrics_history (map stamped (readings p.network_series p.cpu_series cs))
  unfolding update stamped
  run_cycles-add_points p [] = refl
  run_cycles-add_points p (c ∷ cs) = run_cycles-add_points (run_cycle p c) cs

  map-stamped : (vs : List (VelocityData F G)) → map (λ point. point.value) (map stamped vs) ≡ vs
  unfolding stamped
  map-stamped [] = refl
  map-stamped (v ∷ vs) = ap (◌∷◌ v) (map-stamped vs)

  -- Asked for some number of readings, a processor answers the last of all its cycles' readings, in order, as many as are asked
  -- for and at most 1000: one reading for each cycle, taken after both series took the cycle's sample.
  pub history-readings :
      (cs : List (Cycle G)) (limit : ℕ)
      → get_velocity_history (run_cycles new_processor cs) (some limit)
        ≡ last (min limit 1000) (readings new_network new_cpu cs)
  unfolding get_velocity_history
  history-readings cs limit =
      let all_readings = readings new_network new_cpu cs in
      let kept : (run_cycles new_processor cs).metrics_history.points
          ≡ last 1000 (map stamped all_readings) =
        ap (λ s. s.points) (run_cycles-add_points new_processor cs)
        ∙ add_points-history 1000 (map stamped all_readings) in
      history-limit (run_cycles new_processor cs) limit
      ∙ ap (last limit) (
          ap (map (λ point. point.value)) kept
          ∙ map-last (λ point. point.value) 1000 (map stamped all_readings)
          ∙ ap (last 1000) (map-stamped all_readings))
      ∙ last-last limit 1000 all_readings

  pub newest-history :
      (p : VelocityProcessor F G) (c : Cycle G)
      → let next = run_cycle p c in
        get_velocity_history next (some 1)
        ≡ velocity_of f64 f32 next.network_series next.cpu_series c.timestamp ∷ []
  unfolding get_velocity_history update add_point stamped
  newest-history p c =
      let reading =
        velocity_of f64 f32 (run_cycle p c).network_series (run_cycle p c).cpu_series c.timestamp in
      let before = p.metrics_history.points in
      history-limit (run_cycle p c) 1
      ∙ last-snoc (λ (point : TimeSeriesData (VelocityData F G)). point.value)
          (if leb p.metrics_history.max_points (length before) then drop 1 before else before)
          (stamped reading)
