-- ===== src/TimeSeries/Fractions.antt =====
-- Fractions in place of the floating-point numbers of timeseries.rs, for concrete inputs.
use azad_server_box.Prelude.{
  ℕ, zero, suc, ◌*◌, ◌+◌, ◌-◌, ◌/◌, ◌≤◌, ◌<◌, ◌≡◌, ◌↔◌, refl, Bool, Bool-cases, inl, inr, not, leb,
  ltb, if◌then◌else◌, arith,
}
use azad_server_box.TimeSeries.Floats.{ℤ, pos, negsuc, Float, PositiveSeconds, WholeMilliseconds}

abbrev neg : ℕ → ℤ
neg zero = pos 0
neg (suc n) = negsuc n

-- `(new - old).num_milliseconds()` of two instants in nanoseconds: whole milliseconds, towards zero.
abbrev num_milliseconds : ℕ → ℕ → ℤ
num_milliseconds old new =
    if leb old new then pos ((new - old) / 1000000) else neg ((old - new) / 1000000)

-- A numerator and a denominator; what is below zero counts as zero.
abbrev pub Ratio : Type 0
Ratio = ℕ × ℕ

abbrev above : Ratio → Ratio → Bool
above (a, b) (c, d) = ltb (c * b) (a * d)

abbrev of_int : ℤ → Ratio
of_int (pos n) = (n, 1)
of_int (negsuc n) = (0, 1)

abbrev pub fractions : Float Ratio
fractions = record {
  num_milliseconds = num_milliseconds;
  of_int = of_int;
  plus = λ x. λ y. (x.0 * y.1 + y.0 * x.1, x.1 * y.1);
  times = λ x. λ y. (x.0 * y.0, x.1 * y.1);
  div = λ x. λ y. (x.0 * y.1, x.1 * y.0);
  gt = above;
  ge = λ x. λ y. not (above y x);
  clamp = λ low. λ high. λ x. if above low x then low else if above x high then high else x;
}

pub fractions-PositiveSeconds : PositiveSeconds fractions
fractions-PositiveSeconds (pos zero) =
    (λ h. absurd (ground (arith, h)), λ (n, e). absurd (ground (arith, e)))
fractions-PositiveSeconds (pos (suc n)) = (λ h. (n, refl), λ h. ground arith)
fractions-PositiveSeconds (negsuc n) =
    (λ h. absurd (ground (arith, h)), λ (k, e). absurd (ground (arith, e)))

-- A number that is not negative, and 0 for the others.
abbrev floor_zero : ℤ → ℕ
floor_zero (pos n) = n
floor_zero (negsuc n) = 0

floor_zero-neg : (n : ℕ) → floor_zero (neg n) ≡ 0
floor_zero-neg zero = refl
floor_zero-neg (suc n) = refl

floor_zero_pos : (z : ℤ) → ((n : ℕ) × (z ≡ pos (suc n))) ↔ (0 < floor_zero z)
floor_zero_pos (pos zero) = (λ (n, e). absurd (ground arith), λ h. absurd (omega arith))
floor_zero_pos (pos (suc n)) = (λ h. omega arith, λ h. (n, refl))
floor_zero_pos (negsuc n) = (λ (n, e). absurd (ground arith), λ h. absurd (omega arith))

floor_zero-num_milliseconds :
    (old new : ℕ) → floor_zero (num_milliseconds old new) ≡ (new - old) / 1000000
floor_zero-num_milliseconds old new = elim (Bool-cases (leb old new)) [
  | inl e ↦ rw e refl
  | inr e ↦ rw (e, floor_zero-neg ((old - new) / 1000000)) (ground (arith, e))
]

-- Milliseconds are above zero exactly from a millisecond on.
num_milliseconds_pos :
    (old new : ℕ) → ((n : ℕ) × (num_milliseconds old new ≡ pos (suc n))) ↔ (old + 1000000 ≤ new)
num_milliseconds_pos old new =
    let e = floor_zero-num_milliseconds old new in
    let both = floor_zero_pos (num_milliseconds old new) in
    (λ h. let k = both.0 h in omega (arith, k, e), λ h. both.1 (omega (arith, h, e)))

pub fractions-WholeMilliseconds : WholeMilliseconds fractions
fractions-WholeMilliseconds = num_milliseconds_pos
