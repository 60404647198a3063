-- ===== src/Script/Decimal.antt =====
-- Numbers in decimal, as `format!` prints them with zeros in front.
use azad_server_box.Prelude.{
  ℕ, zero, suc, ◌+◌, ◌-◌, ◌/◌, ◌%◌, ◌<◌, ◌≤◌, ◌≡◌, refl, ap, ◌∙◌, inl, inr, List, [], ◌∷◌, ◌++◌,
  Bool-cases, ltb→lt, lt→ltb, sym, length-append, if◌then◌else◌, ltb, length, All, Text, arith,
}
use mathlib.Core.List.{append_assoc}

-- On fuel: as many digits as the number may have.
unfoldable pub decimal : ℕ → ℕ → Text
decimal zero n = []
decimal (suc fuel) n =
    let rest = decimal fuel (n / 10) in
    if ltb n 10 then (b'0' + n) ∷ [] else rest ++ (b'0' + n % 10) ∷ []

-- `n` zeros.
abbrev pub zeros : ℕ → Text
zeros zero = []
zeros (suc n) = b'0' ∷ zeros n

-- `{:0width}`
unfoldable pub pad : ℕ → Text → Text
pad width s = zeros (width - length s) ++ s

abbrev pub IsDigit : ℕ → Type 0
IsDigit c = (b'0' ≤ c) × (c ≤ b'9')

pub All-append {ℓ κ} :
    {A : Type ℓ} (P : A → Type κ) (xs ys : List A) → All P xs → All P ys → All P (xs ++ ys)
All-append P [] ys h k = k
All-append P (x ∷ xs) ys h k = (h.0, All-append P xs ys h.1 k)

zeros-IsDigit : (n : ℕ) → All IsDigit (zeros n)
zeros-IsDigit zero = tt
zeros-IsDigit (suc n) = ((omega arith, omega arith), zeros-IsDigit n)

decimal-IsDigit : (fuel n : ℕ) → All IsDigit (decimal fuel n)
unfolding decimal
decimal-IsDigit zero n = tt
decimal-IsDigit (suc fuel) n =
    let before = decimal-IsDigit fuel (n / 10) in
    elim (Bool-cases (ltb n 10)) [
      | inl e ↦ rw e ((omega arith, omega (arith, ltb→lt n 10 e)), tt)
      | inr e ↦ rw e (
          All-append IsDigit (decimal fuel (n / 10)) ((b'0' + n % 10) ∷ []) before
            (last_digit n, tt))
    ]
  where
    last_digit : (m : ℕ) → IsDigit (b'0' + m % 10)
    last_digit m = (omega arith, omega arith)

pub pad-IsDigit : (width fuel n : ℕ) → All IsDigit (pad width (decimal fuel n))
unfolding pad
pad-IsDigit width fuel n =
    All-append IsDigit (zeros (width - length (decimal fuel n))) (decimal fuel n) (zeros-IsDigit _)
      (decimal-IsDigit fuel n)

-- The last digits of a number.
unfoldable pub last_digits : ℕ → ℕ → Text
last_digits zero n = []
last_digits (suc width) n = last_digits width (n / 10) ++ (b'0' + n % 10) ∷ []

-- A number of at most `width + 1` digits.
abbrev Fits : ℕ → ℕ → Type 0
Fits zero n = n < 10
Fits (suc width) n = Fits width (n / 10)

zeros_snoc : (n : ℕ) → zeros n ++ b'0' ∷ [] ≡ b'0' ∷ zeros n
zeros_snoc zero = refl
zeros_snoc (suc n) = ap (◌∷◌ b'0') (zeros_snoc n)

last_digits-zeros : (width : ℕ) → last_digits width 0 ≡ zeros width
unfolding last_digits
last_digits-zeros zero = refl
last_digits-zeros (suc width) =
    ap (λ s. s ++ b'0' ∷ []) (last_digits-zeros width) ∙ zeros_snoc width

pad_snoc : (width : ℕ) (s : Text) (c : ℕ) → pad (suc width) (s ++ c ∷ []) ≡ pad width s ++ c ∷ []
unfolding pad
pad_snoc width s c =
    let fewer : suc width - length (s ++ c ∷ []) ≡ width - length s =
      omega (arith, length-append s (c ∷ [])) in
    rw fewer (sym (append_assoc (zeros (width - length s)) s (c ∷ [])))

decimal-digit : (fuel n : ℕ) → n < 10 → decimal (suc fuel) n ≡ (b'0' + n) ∷ []
unfolding decimal
decimal-digit fuel n h = rw (lt→ltb n 10 h) refl

decimal-digits :
    (fuel n : ℕ) → 10 ≤ n → decimal (suc fuel) n ≡ decimal fuel (n / 10) ++ (b'0' + n % 10) ∷ []
unfolding decimal
decimal-digits fuel n h = elim (Bool-cases (ltb n 10)) [
  | inl e ↦ absurd (omega (arith, ltb→lt n 10 e))
  | inr e ↦ rw e refl
]

-- A digit behind zeros.
zeros-last_digits :
    (width n : ℕ) → n < 10 → zeros width ++ (b'0' + n) ∷ [] ≡ last_digits (suc width) n
unfolding last_digits
zeros-last_digits width n h =
    let none_before : n / 10 ≡ 0 = omega arith in
    let last : n % 10 ≡ n = omega arith in
    rw (none_before, last) (ap (λ s. s ++ (b'0' + n) ∷ []) (sym (last_digits-zeros width)))

pad_digit : (width n : ℕ) → pad (suc width) ((b'0' + n) ∷ []) ≡ zeros width ++ (b'0' + n) ∷ []
unfolding pad
pad_digit width n =
    ap (λ k. zeros k ++ (b'0' + n) ∷ []) {x = suc width - 1} {y = width} (omega arith)

-- In enough columns a number is printed as its last digits.
pad-last_digits :
    (width fuel n : ℕ)
    → Fits width n
    → width ≤ fuel
    → pad (suc width) (decimal (suc fuel) n) ≡ last_digits (suc width) n
unfolding last_digits
pad-last_digits zero fuel n h k =
    ap (pad 1) (decimal-digit fuel n h) ∙ pad_digit 0 n ∙ zeros-last_digits 0 n h
pad-last_digits (suc width) zero n h k = absurd (omega arith)
pad-last_digits (suc width) (suc fuel) n h k = elim (Bool-cases (ltb n 10)) [
  | inl e ↦
      let small = ltb→lt n 10 e in
      ap (pad (suc (suc width))) (decimal-digit (suc fuel) n small)
      ∙ pad_digit (suc width) n
      ∙ zeros-last_digits (suc width) n small
  | inr e ↦
      ap (pad (suc (suc width))) (decimal-digits (suc fuel) n (ground (arith, e)))
      ∙ pad_snoc (suc width) (decimal (suc fuel) (n / 10)) (b'0' + n % 10)
      ∙ ap (λ s. s ++ (b'0' + n % 10) ∷ []) (pad-last_digits width fuel (n / 10) h (omega arith))
]

pub pad-decimal : (n : ℕ) → n < 100000 → pad 5 (decimal 10 n) ≡ last_digits 5 n
pad-decimal n h = pad-last_digits 4 9 n (omega arith) (omega arith)
