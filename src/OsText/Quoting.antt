-- ===== src/OsText/Quoting.antt =====
-- Quoted values of os-release (crates/sbm_parser/src/common.rs).
use azad_server_box.Prelude.{
  ℕ, ◌≡◌, refl, sym, ap, ◌∙◌, false, Bool-cases, inl, inr, some, List, [], ◌∷◌, ◌++◌, if◌then◌else◌,
  nat_beq, any, is_empty, Text, arith,
}
use azad_server_box.Prelude.Strings.{
  is_whitespace, trim, trim_start, trim_end, strip_prefix, strip_suffix,
}
use azad_server_box.OsText.{
  is_escaped, unescape_chars, unescape_double_quoted, unquote_trimmed, unquote, value_of,
  find_value,
}
use mathlib.Core.List.{append_assoc}

-- Shell quoting: a backslash before each of the four characters.
abbrev pub escape : Text → Text
escape [] = []
escape (c ∷ s) = if is_escaped c then b'\\' ∷ c ∷ escape s else c ∷ escape s

abbrev pub quoted : Text → Text
quoted s = b'"' ∷ escape s ++ b'"' ∷ []

unescape_cons :
    (c : ℕ) (s : Text) → nat_beq c b'\\' ≡ false → unescape_chars (c ∷ s) ≡ c ∷ unescape_chars s
unfolding unescape_chars
unescape_cons c [] h = refl
unescape_cons c (d ∷ s) h = rw h refl

unescape_chars-plain : (s : Text) → any (λ c. nat_beq c b'\\') s ≡ false → unescape_chars s ≡ s
unfolding unescape_chars
unescape_chars-plain [] h = refl
unescape_chars-plain (c ∷ s) h =
    unescape_cons c s (ground (arith, h)) ∙ ap (◌∷◌ c) (unescape_chars-plain s (ground (arith, h)))

unescape-chars : (s : Text) → unescape_double_quoted s ≡ unescape_chars s
unfolding unescape_double_quoted
unescape-chars s = elim (Bool-cases (any (λ c. nat_beq c b'\\') s)) [
  | inl e ↦ rw e refl
  | inr e ↦ rw e (sym (unescape_chars-plain s e))
]

unescape_chars-escape : (s : Text) → unescape_chars (escape s) ≡ s
unfolding unescape_chars
unescape_chars-escape [] = refl
unescape_chars-escape (c ∷ s) = elim (Bool-cases (is_escaped c)) [
  | inl e ↦ rw e (rw e (ap (◌∷◌ c) (unescape_chars-escape s)))
  | inr e ↦
      rw e (unescape_cons c (escape s) (ground (arith, e)) ∙ ap (◌∷◌ c) (unescape_chars-escape s))
]

snoc_full : (s : Text) (q : ℕ) → is_empty (s ++ q ∷ []) ≡ false
snoc_full [] q = refl
snoc_full (c ∷ s) q = refl

trim_end-keeps : (s : Text) (q : ℕ) → is_whitespace q ≡ false → trim_end (s ++ q ∷ []) ≡ s ++ q ∷ []
unfolding trim_end
trim_end-keeps [] q h = rw h refl
trim_end-keeps (c ∷ s) q h = rw (trim_end-keeps s q h, snoc_full s q) (ground arith)

strip_suffix-append : (q : ℕ) (s : Text) → strip_suffix q (s ++ q ∷ []) ≡ some s
unfolding strip_suffix
strip_suffix-append q [] = ground arith
strip_suffix-append q (c ∷ []) = ground arith
strip_suffix-append q (c ∷ d ∷ s) = rw (strip_suffix-append q (d ∷ s)) refl

-- Reading a value that was written in double quotes, with a backslash before each character that the shell would
-- otherwise read, gives the value back.
pub unquote-quoted : (s : Text) → unquote (quoted s) ≡ s
unfolding unquote unquote_trimmed trim trim_start
unquote-quoted s =
    rw
      (
        trim_end-keeps (escape s) b'"' (ground arith),
        strip_suffix-append b'"' (escape s),
        unquote_trimmed,
      )
      (unescape-chars (escape s) ∙ unescape_chars-escape s)

strip_prefix-append : (p s : Text) → strip_prefix p (p ++ s) ≡ some s
unfolding strip_prefix
strip_prefix-append [] s = refl
strip_prefix-append (c ∷ p) s = rw (strip_prefix-append p s) (ground arith)

-- A line of os-release: the key, an equals sign and the quoted value.
abbrev pub assignment : Text → Text → Text
assignment key value = key ++ b'=' ∷ quoted value

trim_start-keeps : (c : ℕ) (s : Text) → is_whitespace c ≡ false → trim_start (c ∷ s) ≡ c ∷ s
unfolding trim_start
trim_start-keeps c s h = rw h refl

trim-assignment :
    (c : ℕ) (key value : Text)
    → is_whitespace c ≡ false
    → trim (assignment (c ∷ key) value) ≡ assignment (c ∷ key) value
unfolding trim
trim-assignment c key value h =
    let line = c ∷ key ++ b'=' ∷ b'"' ∷ escape value in
    let shape : assignment (c ∷ key) value ≡ line ++ b'"' ∷ [] =
      ap (◌∷◌ c) (sym (append_assoc key (b'=' ∷ b'"' ∷ escape value) (b'"' ∷ []))) in
    ap trim_end (trim_start-keeps c (key ++ b'=' ∷ quoted value) h ∙ shape)
    ∙ trim_end-keeps line b'"' (ground arith)
    ∙ sym shape

value_of-assignment : (key value : Text) → value_of key (assignment key value) ≡ some (quoted value)
unfolding value_of strip_prefix
value_of-assignment key value = rw (strip_prefix-append key (b'=' ∷ quoted value)) (ground arith)

find_value_cons :
    (key line v : Text) (more : List Text)
    → value_of key (trim line) ≡ some v
    → find_value key (line ∷ more) ≡ some (unquote v)
unfolding find_value
find_value_cons key line v more h = rw (h, find_value) refl

-- A key that does not begin with white space has the value that its first line assigns, whatever lines follow.
pub find_value-assignment :
    (c : ℕ) (key value : Text) (more : List Text)
    → is_whitespace c ≡ false
    → find_value (c ∷ key) (assignment (c ∷ key) value ∷ more) ≡ some value
find_value-assignment c key value more h =
    find_value_cons (c ∷ key) (assignment (c ∷ key) value) (quoted value) more (
      ap (value_of (c ∷ key)) (trim-assignment c key value h) ∙ value_of-assignment (c ∷ key) value)
    ∙ ap some (unquote-quoted value)
