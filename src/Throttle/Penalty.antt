-- ===== src/Throttle/Penalty.antt =====
-- How the penalty of monitor/src/api/ratelimit.rs grows with the failures of a key.
use native.Mathlib.Nat.{pow-le-pow_right, one-le-pow}
use native.Mathlib.Decide.{dec_le}
use azad_server_box.Prelude.{
  ℕ, ◌+◌, ◌-◌, ◌*◌, ◌^◌, ◌≤◌, ◌<◌, min, ◌≡◌, arith, ltb, if◌then◌else◌, ap,
}
use azad_server_box.Throttle.{
  Entry, penalty, saturating_add, free_attempts, base_delay, max_delay, from_secs, duration_max,
}

-- The penalty without the cap on the shift and without the saturating product.
abbrev pub schedule : ℕ → ℕ
schedule f = if ltb free_attempts f then min (from_secs (2 ^ (f - 4))) max_delay else 0

delay : ℕ → ℕ
delay k = min (min (base_delay * 2 ^ min k 20) duration_max) max_delay

delay_lem : (k : ℕ) → delay k ≡ min (from_secs (2 ^ k)) max_delay
unfolding delay
delay_lem k = elim (dec_le k 20) [
  | yes h ↦ omega (arith, ap (λ j. 2 ^ j) (let e : min k 20 ≡ k = omega arith in e))
  | no h ↦ omega (
    arith,
    ap (λ j. 2 ^ j) (let e : min k 20 ≡ 20 = omega arith in e),
    pow-le-pow_right {n = 2} (omega arith) {i = 20} {j = k} (omega arith),
  )
]

-- The penalty of a key is nothing up to three failures and reservations, and then 2 ^ (f - 4) seconds,
-- five minutes at most: neither the cap on the shift nor the saturating product can be seen.
pub penalty-schedule : (e : Entry) → penalty e ≡ schedule (saturating_add e.failures e.in_flight)
unfolding penalty delay
penalty-schedule e =
    let f : ℕ = saturating_add e.failures e.in_flight in
    ground
      (arith, delay_lem (f - 3 - 1), ap (λ j. 2 ^ j) (let e : f - 3 - 1 ≡ f - 4 = omega arith in e))

pub penalty_bounded : (e : Entry) → penalty e ≤ max_delay
unfolding penalty
penalty_bounded e = ground arith

pub schedule_mono : (f g : ℕ) → f ≤ g → schedule f ≤ schedule g
schedule_mono f g h =
    ground (arith, pow-le-pow_right {n = 2} (omega arith) {i = f - 4} {j = g - 4} (omega arith))

-- More failures or reservations never shorten a penalty, and no penalty is longer than five minutes.
pub penalty_mono :
    (e e' : Entry)
    → e.failures + e.in_flight ≤ e'.failures + e'.in_flight
    → (penalty e ≤ penalty e') × (penalty e' ≤ max_delay)
penalty_mono e e' h =
    rw (penalty-schedule e, penalty-schedule e')
      (
        schedule_mono (saturating_add e.failures e.in_flight)
            (saturating_add e'.failures e'.in_flight) (omega arith),
        ground arith,
      )

-- A penalty below a second is none, and its key has had no more than the free attempts.
pub penalty_short : (e : Entry) → penalty e < base_delay → e.failures + e.in_flight ≤ free_attempts
unfolding penalty
penalty_short e h =
    ground
      (arith, one-le-pow (min (saturating_add e.failures e.in_flight - 3 - 1) 20) 2 (omega arith))
