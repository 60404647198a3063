-- ===== src/Prelude/Strings.antt =====
-- The operations of `str` that several components use, on a text as a list of characters.
use Prim.Native.Nat.{ℕ, ◌+◌}
use mathlib.Core.Path.{◌≡◌, refl, ap}
use mathlib.Core.Logic.{◌≢◌, inl, inr}
use mathlib.Core.Option.{Option, none, some}
use mathlib.Core.Bool.{Bool, true, false, ◌&&◌, ◌||◌}
use mathlib.Core.List.{List, [], ◌∷◌, ◌++◌}
use native.Mathlib.Omega.{arith}
use azad_server_box.Prelude.Tests.{Bool-cases, nat_beq, leb, ltb, if◌then◌else◌}
use azad_server_box.Prelude.Lists.{All, is_empty, length, length-append}
use azad_server_box.Prelude.Equality.{Text, text_beq, text_beq_iff, text_eq, ◌==◌}

-- `str::split_once` at a character
unfoldable pub split_once : ℕ → Text → Option (Text × Text)
split_once sep [] = none
split_once sep (c ∷ s) =
    let rest = split_once sep s in
    if nat_beq c sep
    then some ([], s)
    else elim rest [ none ↦ none | some (a, b) ↦ some (c ∷ a, b) ]

-- A text whose first part has no separator splits where it was joined.
pub split_once-append :
    (sep : ℕ) (a b : Text) → All (λ c. c ≢ sep) a → split_once sep (a ++ sep ∷ b) ≡ some (a, b)
unfolding split_once
split_once-append sep [] b h = ground arith
split_once-append sep (c ∷ a) b h = ground (arith, split_once-append sep a b h.1)

-- `char::is_whitespace`: the code points with the property White_Space.
unfoldable pub is_whitespace : ℕ → Bool
is_whitespace c =
    (leb 9 c && leb c 13)
    || nat_beq c 32
    || nat_beq c 0x85
    || nat_beq c 0xa0
    || nat_beq c 0x1680
    || (leb 0x2000 c && leb c 0x200a)
    || nat_beq c 0x2028
    || nat_beq c 0x2029
    || nat_beq c 0x202f
    || nat_beq c 0x205f
    || nat_beq c 0x3000

unfoldable pub trim_start : Text → Text
unfolding is_whitespace
trim_start [] = []
trim_start (c ∷ s) = let rest = trim_start s in if is_whitespace c then rest else c ∷ s

unfoldable pub trim_end : Text → Text
unfolding is_whitespace
trim_end [] = []
trim_end (c ∷ s) =
    let rest = trim_end s in if is_whitespace c && is_empty rest then [] else c ∷ rest

-- `str::trim`
unfoldable pub trim : Text → Text
unfolding trim_start trim_end
trim s = trim_end (trim_start s)

-- `to_ascii_lowercase`
unfoldable pub to_ascii_lowercase : Text → Text
to_ascii_lowercase [] = []
to_ascii_lowercase (c ∷ s) = (if leb b'A' c && leb c b'Z' then c + 32 else c) ∷ to_ascii_lowercase s

unfoldable pub strip_prefix : Text → Text → Option Text
strip_prefix [] s = some s
strip_prefix (p ∷ ps) [] = none
strip_prefix (p ∷ ps) (c ∷ s) = let rest = strip_prefix ps s in if nat_beq p c then rest else none

-- `str::split_once` at a text
unfoldable pub split_once_text : Text → Text → Option (Text × Text)
unfolding strip_prefix
split_once_text sep [] = elim (strip_prefix sep []) [ none ↦ none | some b ↦ some ([], b) ]
split_once_text sep (c ∷ s) =
    let rest = split_once_text sep s in
    elim (strip_prefix sep (c ∷ s)) [
      | some b ↦ some ([], b)
      | none ↦ elim rest [ none ↦ none | some (a, b) ↦ some (c ∷ a, b) ]
    ]

unfoldable pub starts_with : Text → Text → Bool
unfolding strip_prefix
starts_with prefix s = elim (strip_prefix prefix s) [ none ↦ false | some _ ↦ true ]

-- The last character, if it is the given one, taken off.
unfoldable pub strip_suffix : ℕ → Text → Option Text
strip_suffix q [] = none
strip_suffix q (c ∷ []) = if nat_beq c q then some [] else none
strip_suffix q (c ∷ d ∷ s) = elim (strip_suffix q (d ∷ s)) [
  | none ↦ none
  | some rest ↦ some (c ∷ rest)
]

-- The text without a suffix, if it ends with it.
unfoldable pub strip_text_suffix : Text → Text → Option Text
strip_text_suffix suffix [] = if is_empty suffix then some [] else none
strip_text_suffix suffix (c ∷ s) =
    let rest = strip_text_suffix suffix s in
    if c ∷ s == suffix then some [] else elim rest [ none ↦ none | some before ↦ some (c ∷ before) ]

-- A text ends with what was put behind it.
pub strip_text_suffix-append : (suffix s : Text) → strip_text_suffix suffix (s ++ suffix) ≡ some s
unfolding strip_text_suffix
strip_text_suffix-append [] [] = refl
strip_text_suffix-append (c ∷ suffix) [] = rw ((text_beq_iff (c ∷ suffix) (c ∷ suffix)).1 refl) refl
strip_text_suffix-append suffix (c ∷ s) = elim (Bool-cases (text_beq (c ∷ s ++ suffix) suffix)) [
  | inl e ↦ absurd (
      omega
        (arith, ap length ((text_beq_iff (c ∷ s ++ suffix) suffix).0 e), length-append s suffix))
  | inr e ↦ rw (e, strip_text_suffix-append suffix s) refl
]

-- `str::contains` with a text
unfoldable pub contains_text : Text → Text → Bool
unfolding starts_with
contains_text needle [] = is_empty needle
contains_text needle (c ∷ s) = starts_with needle (c ∷ s) || contains_text needle s

abbrev pub onto_head : ℕ → List Text → List Text
onto_head c [] = (c ∷ []) ∷ []
onto_head c (t ∷ ts) = (c ∷ t) ∷ ts

-- `str::split` at a character: one piece more than there are separators.
unfoldable pub split : ℕ → Text → List Text
split sep [] = [] ∷ []
split sep (c ∷ s) = let rest = split sep s in if nat_beq c sep then [] ∷ rest else onto_head c rest

-- The last character taken off where it is the given one.
unfoldable pub pop_char : ℕ → Text → Text
unfolding strip_suffix
pop_char q s = elim (strip_suffix q s) [ none ↦ s | some rest ↦ rest ]

abbrev pub drop_last_empty : List Text → List Text
drop_last_empty [] = []
drop_last_empty ([] ∷ []) = []
drop_last_empty ((c ∷ s) ∷ []) = (c ∷ s) ∷ []
drop_last_empty (a ∷ b ∷ more) = a ∷ drop_last_empty (b ∷ more)

-- `str::split_terminator` at a character: no piece behind the last separator where nothing stands there.
unfoldable pub split_terminator : ℕ → Text → List Text
unfolding split
split_terminator sep s = drop_last_empty (split sep s)

-- Texts compared character by character, as a directory is sorted.
abbrev pub text_ltb : Text → Text → Bool
text_ltb [] [] = false
text_ltb [] (d ∷ t) = true
text_ltb (c ∷ s) [] = false
text_ltb (c ∷ s) (d ∷ t) = let rest = text_ltb s t in if nat_beq c d then rest else ltb c d
