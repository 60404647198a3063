-- ===== src/Alerts.antt =====
-- The thresholds and rules of alerts: monitor/src/monitoring/size.rs, threshold.rs and rules.rs. A text is its list of
-- characters; floating-point numbers and Unicode's lower case are a parameter.
mod Tests
pub mod Parsing
pub mod Sizes
pub mod Rules
pub mod Sources
pub mod Causes
use azad_server_box.Prelude.{
  ℕ, zero, suc, ◌+◌, ◌-◌, ◌*◌, ◌^◌, ◌≤◌, Bool, true, false, ◌||◌, ◌&&◌, Option, none, some, List,
  [], ◌∷◌, ◌++◌, if◌then◌else◌, leb, ltb, nat_beq, any, is_empty, length, take, drop, Text, text_eq,
  codes, ◌==◌, Result, ok, err,
}
use azad_server_box.Prelude.Strings.{strip_text_suffix}

-- What the rules use of f64: `parse` of a text, `{:.n}`, the casts from and to u64, and arithmetic.
pub record F64 (F : Type 0) : Type 0 where
  pub parse : Text → Option F
  pub print : ℕ → F → Text
  pub of_nat : ℕ → F
  pub to_u64 : F → ℕ
  pub plus : F → F → F
  pub minus : F → F → F
  pub times : F → F → F
  pub div : F → F → F
  pub lt : F → F → Bool
  pub le : F → F → Bool
  pub eq : F → F → Bool

pub data Error : Type 0 where
  empty_threshold : Error
  invalid_threshold invalid_size : Text → Error

pub data CompareType : Type 0 where
  less less_or_equal equal greater_or_equal greater : CompareType

pub data ThresholdType : Type 0 where
  percent size speed temperature : ThresholdType

pub record Threshold (F : Type 0) : Type 0 where
  pub threshold_type : ThresholdType
  pub value : F
  pub compare_type : CompareType

abbrev pub suffixes : Text
suffixes = b'b' ∷ b'k' ∷ b'm' ∷ b'g' ∷ b't' ∷ []

unfoldable pub is_size_suffix : ℕ → Bool
is_size_suffix c = any (λ s. nat_beq s c) suffixes

-- The place of the first suffix that the text contains, from the place `n` on.
unfoldable pub find_suffix : ℕ → Text → Text → Option (ℕ × ℕ)
find_suffix n [] s = none
find_suffix n (suffix ∷ more) s =
    let rest = find_suffix (n + 1) more s in
    if any (λ c. nat_beq c suffix) s then some (n, suffix) else rest

-- `replace` of a character by nothing
unfoldable pub remove_char : ℕ → Text → Text
remove_char q [] = []
remove_char q (c ∷ s) = let rest = remove_char q s in if nat_beq c q then rest else c ∷ rest

abbrev pub text_contains : ℕ → Text → Bool
text_contains q s = any (λ c. nat_beq c q) s

abbrev pub last_char : Text → Option ℕ
last_char [] = none
last_char (c ∷ []) = some c
last_char (c ∷ d ∷ s) = last_char (d ∷ s)

abbrev pub ends_with_char : ℕ → Text → Bool
ends_with_char q s = elim (last_char s) [ none ↦ false | some c ↦ nat_beq c q ]

abbrev pub ends_with_size : Text → Bool
ends_with_size s = elim (last_char s) [ none ↦ false | some c ↦ is_size_suffix c ]

abbrev pub ends_with_text : Text → Text → Bool
ends_with_text suffix s = elim (strip_text_suffix suffix s) [ none ↦ false | some _ ↦ true ]

-- The type of a threshold, with the end of its number.
unfoldable pub type_of : Text → Option (ThresholdType × ℕ)
type_of s =
    if text_contains b'%' s
    then some (percent, length s - 1)
    else if ends_with_text (codes "/s") s
    then some (speed, length s - 2)
    else if ends_with_size s
    then some (size, length s)
    else if ends_with_char b'c' s
    then some (temperature, length s - 1)
    else none

-- What the first character is, with whether `=` follows.
abbrev pub compare_of : ℕ → Bool → CompareType × ℕ
compare_of c followed =
    if nat_beq c b'<'
    then (if followed then (less_or_equal, 2) else (less, 1))
    else if nat_beq c b'>'
    then (if followed then (greater_or_equal, 2) else (greater, 1))
    else if nat_beq c b'='
    then (equal, 1)
    else (less, 0)

unfoldable pub operator_of : Text → CompareType × ℕ
operator_of [] = (less, 0)
operator_of (c ∷ []) = compare_of c false
operator_of (c ∷ d ∷ s) = compare_of c (nat_beq d b'=')

module _ {F : Type 0} (f64 : F64 F) (to_lowercase : Text → Text) where
  unfoldable pub size_parse : Text → Result ℕ Error
  size_parse text =
      let s : Text = to_lowercase text in
      if s == codes "0" then ok 0 else elim (find_suffix 0 suffixes s) [
        | none ↦ err (invalid_size s)
        | some (nth, suffix) ↦ elim (f64.parse (remove_char suffix s)) [
          | none ↦ err (invalid_size s)
          | some number ↦ ok (f64.to_u64 (f64.times number (f64.of_nat (1024 ^ nth))))
        ]
      ]

  -- The number of a threshold `s` of a type.
  unfoldable pub value_of : ThresholdType → Text → Text → Result F Error
  value_of size s value_str = elim (size_parse value_str) [
    | ok n ↦ ok (f64.of_nat n)
    | err e ↦ err e
  ]
  value_of speed s value_str = elim (size_parse value_str) [
    | ok n ↦ ok (f64.of_nat n)
    | err e ↦ err e
  ]
  value_of percent s value_str = elim (f64.parse value_str) [
    | some v ↦ ok v
    | none ↦ err (invalid_threshold s)
  ]
  value_of temperature s value_str = elim (f64.parse value_str) [
    | some v ↦ ok v
    | none ↦ err (invalid_threshold s)
  ]

  -- The second half of `parse`, from the check of the bounds on.
  unfoldable pub parse_value :
      Text → ThresholdType → ℕ → CompareType → ℕ → Result (Threshold F) Error
  parse_value s kind end_idx compare_type start_idx =
      if leb end_idx start_idx
      then err (invalid_threshold s)
      else elim (value_of kind s (take (end_idx - start_idx) (drop start_idx s))) [
        | err e ↦ err e
        | ok value ↦
            ok (record { threshold_type = kind; value = value; compare_type = compare_type })
      ]

  unfoldable pub parse : Text → Result (Threshold F) Error
  parse text =
      let s : Text = to_lowercase text in
      if is_empty s then err empty_threshold else elim (type_of s) [
        | none ↦ err (invalid_threshold s)
        | some (kind, end_idx) ↦ parse_value s kind end_idx (operator_of s).0 (operator_of s).1
      ]

  unfoldable pub compare : CompareType → F → F → Bool
  compare less now value = f64.lt now value
  compare less_or_equal now value = f64.le now value
  compare equal now value = f64.eq now value
  compare greater_or_equal now value = f64.le value now
  compare greater now value = f64.lt value now

  unfoldable pub is_true : Threshold F → F → Bool
  is_true t now = compare t.compare_type now t.value
