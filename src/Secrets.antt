-- ===== src/Secrets.antt =====
-- monitor/src/utils/secrets.rs: random credentials in hexadecimal and the comparison of secrets. The
-- bytes that the system's generator returns are an argument. A `&str` is its UTF-8 bytes.
mod Tests
use Prim.Native.Nat.{bit_xor, bit_or, bitwise, digits, differ, bit_xor-bitwise, bit_or-bitwise}
use azad_server_box.Prelude.{
  ℕ, zero, suc, ◌+◌, ◌-◌, ◌*◌, ◌/◌, ◌%◌, ◌≤◌, ◌<◌, max, ◌≡◌, ◌≢◌, ◌↔◌, refl, sym, ap, ◌∙◌, Bool,
  true, false, ◌&&◌, Option, none, some, List, [], ◌∷◌, ◌++◌, arith, ltb, nat_beq, nat_beq_iff,
  if◌then◌else◌, length, All, Text, Result, ok, err,
}

-- `{:x}` of one digit
unfoldable pub hex_digit : ℕ → ℕ
hex_digit d = if ltb d 10 then b'0' + d else b'a' + (d - 10)

-- Two digits for each byte.
unfoldable pub hex : List ℕ → Text
unfolding hex_digit
hex [] = []
hex (b ∷ bs) = hex_digit (b / 16) ∷ hex_digit (b % 16) ∷ hex bs

-- `random_hex`, over the bytes that `getrandom::fill` gives; none is its failure.
unfoldable pub random_hex : Option (List ℕ) → Option Text
unfolding hex
random_hex none = none
random_hex (some bytes) = some (hex bytes)

-- The loop of `constant_time_eq` over the zipped bytes.
unfoldable pub fold_diff : ℕ → Text → Text → ℕ
fold_diff diff (x ∷ xs) (y ∷ ys) = fold_diff (bit_or diff (bit_xor x y)) xs ys
fold_diff diff _ _ = diff

unfoldable pub constant_time_eq : Text → Text → Bool
unfolding fold_diff
constant_time_eq a b = if nat_beq (length a) (length b) then nat_beq (fold_diff 0 a b) 0 else false

xor_digits : (n a b : ℕ) → a ≤ n → digits (λ c. c) differ n a b ≡ 0 → a ≡ b
xor_digits zero zero b h e = sym e
xor_digits zero (suc a) b h e = absurd (omega arith)
xor_digits (suc n) zero b h e = sym e
xor_digits (suc n) (suc a) b h e = ground (arith, e, xor_digits n (suc a / 2) (b / 2) (omega arith))

differ_self : (a : ℕ) → differ a a ≡ 0
differ_self zero = refl
differ_self (suc a) = differ_self a

xor_digits_self : (n a : ℕ) → a ≤ n → digits (λ c. c) differ n a a ≡ 0
xor_digits_self zero zero h = refl
xor_digits_self zero (suc a) h = absurd (omega arith)
xor_digits_self (suc n) zero h = refl
xor_digits_self (suc n) (suc a) h =
    ground (arith, xor_digits_self n (suc a / 2) (omega arith), differ_self (suc a % 2))

or_digits : (n a b : ℕ) → a ≤ n → digits (λ c. c) max n a b ≡ 0 → (a ≡ 0) × (b ≡ 0)
or_digits zero zero b h e = (refl, e)
or_digits zero (suc a) b h e = absurd (omega arith)
or_digits (suc n) zero b h e = (refl, e)
or_digits (suc n) (suc a) b h e = ground (arith, e, or_digits n (suc a / 2) (b / 2) (omega arith))

bit_xor-zero : (a b : ℕ) → bit_xor a b ≡ 0 → a ≡ b
bit_xor-zero a b e = xor_digits a a b (omega arith) (sym (bit_xor-bitwise a b) ∙ e)

bit_xor_self : (a : ℕ) → bit_xor a a ≡ 0
bit_xor_self a = bit_xor-bitwise a a ∙ xor_digits_self a a (omega arith)

bit_or-zero : (a b : ℕ) → bit_or a b ≡ 0 → (a ≡ 0) × (b ≡ 0)
bit_or-zero a b e = or_digits a a b (omega arith) (sym (bit_or-bitwise a b) ∙ e)

fold_diff-zero :
    (d : ℕ) (a b : Text) → length a ≡ length b → fold_diff d a b ≡ 0 → (d ≡ 0) × (a ≡ b)
unfolding fold_diff
fold_diff-zero d [] [] l h = (h, refl)
fold_diff-zero d [] (y ∷ ys) l h = cc
fold_diff-zero d (x ∷ xs) [] l h = cc
fold_diff-zero d (x ∷ xs) (y ∷ ys) l h =
    let (both, rest) = fold_diff-zero (bit_or d (bit_xor x y)) xs ys (omega arith) h in
    let (first, same) = bit_or-zero d (bit_xor x y) both in
    (first, cc (bit_xor-zero x y same, rest))

fold_diff_self : (a : Text) → fold_diff 0 a a ≡ 0
unfolding fold_diff
fold_diff_self [] = refl
fold_diff_self (x ∷ xs) = rw (bit_xor_self x) (fold_diff_self xs)

-- The comparison that looks at every byte accepts exactly the equal texts.
pub constant_time_eq_iff : (a b : Text) → (constant_time_eq a b ≡ true) ↔ (a ≡ b)
unfolding constant_time_eq
constant_time_eq_iff a b = (
  λ h. (fold_diff-zero 0 a b (ground arith) (ground arith)).1,
  λ e. rw e (ground (arith, fold_diff_self b)),
)

-- No byte of a credential is the dot that separates an id from its secret.
abbrev pub NoDot : Text → Type 0
NoDot s = All (λ c. c ≢ b'.') s

pub hex-NoDot : (bytes : List ℕ) → NoDot (hex bytes)
unfolding hex
hex-NoDot [] = tt
hex-NoDot (b ∷ bs) = (ground arith, (ground arith, hex-NoDot bs))
