-- ===== src/Script/Order.antt =====
-- The order of the files of custom commands (crates/sbm_parser/src/script.rs): the one of their places.
use azad_server_box.Prelude.Strings.{text_ltb}
use azad_server_box.Prelude.{
  ℕ, zero, suc, ◌+◌, ◌/◌, ◌%◌, ◌<◌, ◌≡◌, refl, ◌∙◌, true, Bool-cases, inl, inr, [], ◌∷◌, ◌++◌, ltb,
  ltb→lt, Text, arith,
}
use mathlib.Core.List.{append_assoc}
use azad_server_box.Script.Decimal.{last_digits, pad-decimal}
use azad_server_box.Script.{Base64, custom_cmd_file_name}

text_ltb-append : (s x y : Text) → text_ltb (s ++ x) (s ++ y) ≡ text_ltb x y
text_ltb-append [] x y = refl
text_ltb-append (c ∷ s) x y = ground (arith, text_ltb-append s x y)

text_ltb-heads : (c d : ℕ) (x y : Text) → c < d → text_ltb (c ∷ x) (d ∷ y) ≡ true
text_ltb-heads c d x y h = ground arith

-- A number of at most so many digits.
abbrev Below : ℕ → ℕ → Type 0
Below zero n = n < 1
Below (suc width) n = Below width (n / 10)

last_digits-sorted :
    (width n m : ℕ) (x y : Text)
    → n < m
    → Below width m
    → text_ltb (last_digits width n ++ x) (last_digits width m ++ y) ≡ true
unfolding last_digits
last_digits-sorted zero n m x y h b = absurd (omega arith)
last_digits-sorted (suc width) n m x y h b =
    let c = b'0' + n % 10 in
    let d = b'0' + m % 10 in
    rw
      (
        append_assoc (last_digits width (n / 10)) (c ∷ []) x,
        append_assoc (last_digits width (m / 10)) (d ∷ []) y,
      )
      (elim (Bool-cases (ltb (n / 10) (m / 10))) [
        | inl e ↦ last_digits-sorted width (n / 10) (m / 10) (c ∷ x) (d ∷ y) (ltb→lt _ _ e) b
        | inr e ↦
            let same : n / 10 ≡ m / 10 = ground (arith, e) in
            let last : c < d = omega (arith, same) in
            rw same (
              text_ltb-append (last_digits width (m / 10)) (c ∷ x) (d ∷ y)
              ∙ text_ltb-heads c d x y last)
      ])

-- Below 100000 the files sort as their places do, whatever the names are.
pub file_name-sorted :
    (b64 : Base64) (a b : ℕ) (x y : Text)
    → a < b
    → b < 100000
    → text_ltb (custom_cmd_file_name b64 a x) (custom_cmd_file_name b64 b y) ≡ true
unfolding custom_cmd_file_name
file_name-sorted b64 a b x y h k =
    rw (pad-decimal a (omega arith), pad-decimal b k) (last_digits-sorted 5 a b _ _ h (omega arith))
