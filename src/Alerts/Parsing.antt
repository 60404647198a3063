-- ===== src/Alerts/Parsing.antt =====
-- Thresholds read back from their parts (monitor/src/monitoring/threshold.rs and size.rs).
use azad_server_box.Prelude.{
  ℕ, ◌-◌, ◌≡◌, ◌≢◌, refl, sym, ap, subst, ◌∙◌, Bool, true, false, ◌||◌, ◌&&◌, none, some, [], ◌∷◌,
  ◌++◌, if◌then◌else◌, leb, nat_beq, any, is_empty, length, length-append, take, drop, All, Text,
  text_eq, codes, Result, ok, err, arith,
}
use mathlib.Core.Option.{some-injective}
use mathlib.Core.List.{append-nil, append_assoc}
use azad_server_box.Prelude.Strings.{strip_text_suffix, strip_text_suffix-append}
use azad_server_box.Alerts.{
  F64, Error, empty_threshold, invalid_threshold, CompareType, less, less_or_equal, equal,
  greater_or_equal, greater, ThresholdType, percent, size, speed, temperature, Threshold,
  is_size_suffix, text_contains, last_char, ends_with_char, ends_with_size, ends_with_text, type_of,
  operator_of, value_of, parse_value, parse,
}

abbrev pub operator_text : CompareType → Text
operator_text less = codes "<"
operator_text less_or_equal = codes "<="
operator_text equal = codes "="
operator_text greater_or_equal = codes ">="
operator_text greater = codes ">"

abbrev pub unit_text : ThresholdType → Text
unit_text percent = codes "%"
unit_text size = []
unit_text speed = codes "/s"
unit_text temperature = codes "c"

-- Digits, the point and the suffixes of sizes.
abbrev pub is_number_char : ℕ → Bool
is_number_char c = (leb b'0' c && leb c b'9') || nat_beq c b'.' || is_size_suffix c

abbrev pub print : CompareType → Text → ThresholdType → Text
print op body kind = operator_text op ++ (body ++ unit_text kind)

operator_of-print :
    (op : CompareType) (c : ℕ) (s : Text)
    → is_number_char c ≡ true
    → operator_of (operator_text op ++ c ∷ s) ≡ (op, length (operator_text op))
unfolding operator_of is_size_suffix
operator_of-print less c s h = ground (arith, h)
operator_of-print less_or_equal c s h = refl
operator_of-print equal c s h = refl
operator_of-print greater_or_equal c s h = refl
operator_of-print greater c s h = ground (arith, h)

any-append : (p : ℕ → Bool) (a b : Text) → any p (a ++ b) ≡ (any p a || any p b)
any-append p [] b = refl
any-append p (c ∷ a) b = ground (arith, any-append p a b)

take-append : (a b : Text) → take (length a) (a ++ b) ≡ a
take-append [] b = refl
take-append (c ∷ a) b = ap (◌∷◌ c) (take-append a b)

drop-append : (a b : Text) → drop (length a) (a ++ b) ≡ b
drop-append [] b = refl
drop-append (c ∷ a) b = drop-append a b

last_char-append : (a b : Text) (c : ℕ) → last_char b ≡ some c → last_char (a ++ b) ≡ some c
last_char-append [] b c h = h
last_char-append (d ∷ []) [] c h = absurd (ground (arith, h))
last_char-append (d ∷ []) (e ∷ b) c h = h
last_char-append (d ∷ e ∷ a) b c h = last_char-append (e ∷ a) b c h

-- A text whose last character is no `s` does not end with `/s`.
strip_text_suffix-last :
    (s : Text) (c : ℕ) → last_char s ≡ some c → c ≢ b's' → strip_text_suffix (codes "/s") s ≡ none
unfolding strip_text_suffix
strip_text_suffix-last [] c h n = refl
strip_text_suffix-last (d ∷ []) c h n = ground arith
strip_text_suffix-last (d ∷ e ∷ []) c h n = ground (arith, some-injective e c h, n)
strip_text_suffix-last (d ∷ e ∷ f ∷ s) c h n =
    ground (arith, strip_text_suffix-last (e ∷ f ∷ s) c h n)

number-no_percent :
    (body : Text) → All (λ c. is_number_char c ≡ true) body → text_contains b'%' body ≡ false
unfolding is_size_suffix
number-no_percent [] h = refl
number-no_percent (c ∷ body) h = ground (arith, number-no_percent body h.1, h.0)

last_char-append_one : (a : Text) (c : ℕ) → last_char (a ++ c ∷ []) ≡ some c
last_char-append_one a c = last_char-append a (c ∷ []) c refl

operator-no_percent : (op : CompareType) → text_contains b'%' (operator_text op) ≡ false
operator-no_percent less = refl
operator-no_percent less_or_equal = refl
operator-no_percent equal = refl
operator-no_percent greater_or_equal = refl
operator-no_percent greater = refl

-- A size ends with one of its suffixes.
abbrev pub IsBody : ThresholdType → Text → Type 0
IsBody size body = (c : ℕ) × (last_char body ≡ some c) × (is_size_suffix c ≡ true)
IsBody percent body = Unit
IsBody speed body = Unit
IsBody temperature body = Unit

contains-print :
    (op : CompareType) (body unit : Text)
    → All (λ c. is_number_char c ≡ true) body
    → text_contains b'%' (operator_text op ++ (body ++ unit)) ≡ text_contains b'%' unit
contains-print op body unit h =
    any-append (λ c. nat_beq c b'%') (operator_text op) (body ++ unit)
    ∙ rw
        (
          operator-no_percent op,
          any-append (λ c. nat_beq c b'%') body unit,
          number-no_percent body h,
        )
        refl

abbrev Unmarked : Text → Text → Type 0
Unmarked front unit = text_contains b'%' (front ++ unit) ≡ text_contains b'%' unit

suffix_not_s : (c : ℕ) → is_size_suffix c ≡ true → c ≢ b's'
unfolding is_size_suffix
suffix_not_s c f k = absurd (ground (arith, f, k))

type_of-size :
    (front : Text) (c : ℕ)
    → text_contains b'%' front ≡ false
    → last_char front ≡ some c
    → is_size_suffix c ≡ true
    → type_of front ≡ some (size, length front)
unfolding type_of
type_of-size front c u e f =
    rw
      (
        u,
        type_of,
        ends_with_text,
        strip_text_suffix-last front c e (suffix_not_s c f),
        ends_with_size,
        e,
        f,
      )
      refl

c_no_suffix : is_size_suffix b'c' ≡ false
unfolding is_size_suffix
c_no_suffix = refl

-- The type by the end of the text.
type_of-append :
    (front : Text) (kind : ThresholdType)
    → Unmarked front (unit_text kind)
    → IsBody kind front
    → type_of (front ++ unit_text kind) ≡ some (kind, length front)
unfolding type_of
type_of-append front percent u b =
    rw (u, type_of) (ap (λ n. some (percent, n)) (omega (arith, length-append front (codes "%"))))
type_of-append front speed u b =
    rw (u, type_of, ends_with_text, strip_text_suffix-append (codes "/s") front)
      (ap (λ n. some (speed, n)) (omega (arith, length-append front (codes "/s"))))
type_of-append front size u (c, e, f) =
    subst (λ s. type_of s ≡ some (size, length front)) (sym (append-nil front))
      (type_of-size front c (ap (text_contains b'%') (sym (append-nil front)) ∙ u) e f)
type_of-append front temperature u b =
    let last = last_char-append_one front b'c' in
    let not_speed =
      strip_text_suffix-last (front ++ codes "c") b'c' last (λ k. absurd (omega (arith, k))) in
    rw (u, type_of, ends_with_text, not_speed, ends_with_size, ends_with_char, last, c_no_suffix)
      (ap (λ n. some (temperature, n)) (omega (arith, length-append front (codes "c"))))

IsBody-append : (kind : ThresholdType) (a body : Text) → IsBody kind body → IsBody kind (a ++ body)
IsBody-append size a body (c, e, f) = (c, last_char-append a body c e, f)
IsBody-append percent a body b = tt
IsBody-append speed a body b = tt
IsBody-append temperature a body b = tt

type_of-print :
    (op : CompareType) (body : Text) (kind : ThresholdType)
    → All (λ c. is_number_char c ≡ true) body
    → IsBody kind body
    → type_of (print op body kind) ≡ some (kind, length (operator_text op ++ body))
type_of-print op body kind h b =
    let assoc = append_assoc (operator_text op) body (unit_text kind) in
    ap type_of (sym assoc)
    ∙ type_of-append (operator_text op ++ body) kind
        (ap (text_contains b'%') assoc ∙ contains-print op body (unit_text kind) h)
        (IsBody-append kind (operator_text op) body b)

print_nonempty : (op : CompareType) (s : Text) → is_empty (operator_text op ++ s) ≡ false
print_nonempty less s = refl
print_nonempty less_or_equal s = refl
print_nonempty equal s = refl
print_nonempty greater_or_equal s = refl
print_nonempty greater s = refl

take_exact : (a b : Text) (n : ℕ) → n ≡ length a → take n (a ++ b) ≡ a
take_exact a b n h = ap (λ k. take k (a ++ b)) h ∙ take-append a b

module _ {F : Type 0} (f64 : F64 F) (to_lowercase : Text → Text) where
  parse_value-print :
      (op : CompareType) (c : ℕ) (rest : Text) (kind : ThresholdType) (v : F)
      → let front = operator_text op in
        let s = print op (c ∷ rest) kind in
        value_of f64 to_lowercase kind s (c ∷ rest) ≡ ok v
        → parse_value f64 to_lowercase s kind (length (front ++ c ∷ rest)) op (length front)
          ≡ ok (record { threshold_type = kind; value = v; compare_type = op })
  unfolding parse_value
  parse_value-print op c rest kind v val =
      let front = operator_text op in
      let more : leb (length (front ++ c ∷ rest)) (length front) ≡ false =
        ground (arith, length-append front (c ∷ rest)) in
      let body : take (length (front ++ c ∷ rest) - length front)
            (drop (length front) (print op (c ∷ rest) kind))
          ≡ c ∷ rest =
        ap (take (length (front ++ c ∷ rest) - length front))
          (drop-append front (c ∷ (rest ++ unit_text kind)))
        ∙ take_exact (c ∷ rest) (unit_text kind) _
            (omega (arith, length-append front (c ∷ rest))) in
      rw (more, body, parse_value, val) refl

  parse-parts :
      (text s : Text) (kind : ThresholdType) (n : ℕ) (op : CompareType) (m : ℕ)
      (result : Result (Threshold F) Error)
      → to_lowercase text ≡ s
      → is_empty s ≡ false
      → type_of s ≡ some (kind, n)
      → operator_of s ≡ (op, m)
      → parse_value f64 to_lowercase s kind n op m ≡ result
      → parse f64 to_lowercase text ≡ result
  unfolding parse
  parse-parts text s kind n op m result low filled type operator value =
      subst
        (λ t.
          (if is_empty t then err empty_threshold else elim (type_of t) [
            | none ↦ err (invalid_threshold t)
            | some (kind, end_idx) ↦
                parse_value f64 to_lowercase t kind end_idx (operator_of t).0 (operator_of t).1
          ])
          ≡ result)
        (sym low) (rw (filled, type, operator) value)

  -- A threshold made of an operator, a number and the unit of a type, in lower case, is read as these: the operator and the type
  -- come back, and the value is the one that the number's text has for that type.
  pub parse-print :
      (op : CompareType) (c : ℕ) (rest : Text) (kind : ThresholdType) (v : F)
      → All (λ d. is_number_char d ≡ true) (c ∷ rest)
      → IsBody kind (c ∷ rest)
      → to_lowercase (print op (c ∷ rest) kind) ≡ print op (c ∷ rest) kind
      → value_of f64 to_lowercase kind (print op (c ∷ rest) kind) (c ∷ rest) ≡ ok v
      → parse f64 to_lowercase (print op (c ∷ rest) kind)
        ≡ ok (record { threshold_type = kind; value = v; compare_type = op })
  parse-print op c rest kind v h b low val =
      let s = print op (c ∷ rest) kind in
      parse-parts s s kind (length (operator_text op ++ c ∷ rest)) op (length (operator_text op)) _
        low (print_nonempty op (c ∷ (rest ++ unit_text kind)))
        (type_of-print op (c ∷ rest) kind h b) (operator_of-print op c (rest ++ unit_text kind) h.0)
        (parse_value-print op c rest kind v val)
