-- ===== src/Script/Names.antt =====
-- The files of custom commands (crates/sbm_parser/src/script.rs): their names carry the command's name and its place.
use azad_server_box.Prelude.{
  ℕ, ◌-◌, ◌≡◌, ◌≢◌, refl, ap, ◌∙◌, true, false, none, some, [], ◌∷◌, ◌++◌, all, All, is_empty,
  length, Text, text_eq, codes, arith,
}
use mathlib.Core.List.{append-nil}
use azad_server_box.Prelude.Strings.{
  split_once-append, strip_prefix, strip_text_suffix, strip_text_suffix-append,
}
use azad_server_box.TimeSeries.Cpu.{SystemType, linux, bsd, windows}
use azad_server_box.Script.Decimal.{pad, zeros, decimal, IsDigit, pad-IsDigit, All-append}
use azad_server_box.Script.{
  Base64, IsLawful, is_url_safe, custom_cmd_file_ext, custom_cmd_file_name, decode_marker_name,
  name_from_stem, custom_cmd_name_from_file, custom_cmd_name_from_file_for, is_digit,
}

-- A text with no dot does not end with an extension.
strip_text_suffix-no_dot :
    (s : Text) → All (λ c. c ≢ b'.') s → strip_text_suffix (codes ".ps1") s ≡ none
unfolding strip_text_suffix
strip_text_suffix-no_dot [] h = refl
strip_text_suffix-no_dot (c ∷ s) h = ground (arith, strip_text_suffix-no_dot s h.1)

all-is_digit : (s : Text) → All IsDigit s → all is_digit s ≡ true
all-is_digit [] h = refl
all-is_digit (c ∷ s) h = ground (arith, all-is_digit s h.1)

no_underscore : (s : Text) → All IsDigit s → All (λ c. c ≢ b'_') s
no_underscore [] h = tt
no_underscore (c ∷ s) h = (λ e. absurd (omega (arith, h.0, e)), no_underscore s h.1)

digits-no_dot : (s : Text) → All IsDigit s → All (λ c. c ≢ b'.') s
digits-no_dot [] h = tt
digits-no_dot (c ∷ s) h = (λ e. absurd (omega (arith, h.0, e)), digits-no_dot s h.1)

url_safe-no_dot : (s : Text) → All (λ c. is_url_safe c ≡ true) s → All (λ c. c ≢ b'.') s
url_safe-no_dot [] h = tt
url_safe-no_dot (c ∷ s) h = (λ e. absurd (ground (arith, h.0, e)), url_safe-no_dot s h.1)

is_empty-append : (s : Text) (c : ℕ) (t : Text) → is_empty (s ++ c ∷ t) ≡ false
is_empty-append [] c t = refl
is_empty-append (d ∷ s) c t = refl

is_empty-pad : (s : Text) → is_empty (pad 5 s) ≡ false
unfolding pad
is_empty-pad [] = refl
is_empty-pad (c ∷ s) = is_empty-append (zeros (5 - length (c ∷ s))) c s

module _ (b64 : Base64) (law : IsLawful b64) where
  stem-name :
      (digits name : Text)
      → All IsDigit digits
      → is_empty digits ≡ false
      → name_from_stem b64 (digits ++ b'_' ∷ b64.encode name) ≡ some name
  unfolding name_from_stem decode_marker_name strip_prefix
  stem-name digits name h n =
      rw
        (
          split_once-append b'_' digits (b64.encode name) (no_underscore digits h),
          n,
          all-is_digit digits h,
        )
        (law.decode_encode name)

  stem-no_dot :
      (order : ℕ) (name : Text) → All (λ c. c ≢ b'.') (custom_cmd_file_name b64 order name)
  unfolding custom_cmd_file_name
  stem-no_dot order name =
      let digits = pad 5 (decimal 10 order) in
      All-append (λ c. c ≢ b'.') digits (b'_' ∷ b64.encode name)
        (digits-no_dot digits (pad-IsDigit 5 10 order))
        (
          λ e. absurd (omega (arith, e)),
          url_safe-no_dot (b64.encode name) (law.encode_alphabet name),
        )

  name_from_stem-file_name :
      (order : ℕ) (name : Text)
      → name_from_stem b64 (custom_cmd_file_name b64 order name) ≡ some name
  unfolding custom_cmd_file_name
  name_from_stem-file_name order name =
      stem-name (pad 5 (decimal 10 order)) name (pad-IsDigit 5 10 order)
        (is_empty-pad (decimal 10 order))

  name_from_file-stem :
      (order : ℕ) (name : Text)
      → custom_cmd_name_from_file b64 (custom_cmd_file_name b64 order name) ≡ some name
  unfolding custom_cmd_name_from_file
  name_from_file-stem order name =
      rw (strip_text_suffix-no_dot (custom_cmd_file_name b64 order name) (stem-no_dot order name))
        (name_from_stem-file_name order name)

  unix_file :
      (order : ℕ) (name : Text)
      → custom_cmd_name_from_file_for b64 linux (custom_cmd_file_name b64 order name) ≡ some name
  unfolding custom_cmd_name_from_file_for
  unix_file order name =
      rw
        (
          strip_text_suffix-no_dot (custom_cmd_file_name b64 order name) (stem-no_dot order name),
          custom_cmd_name_from_file_for,
        )
        (name_from_file-stem order name)

  -- The name of a command comes back from the name of its file on every system, whatever the name holds and whichever place the
  -- command has.
  pub name_from_file-file_name :
      (system : SystemType) (order : ℕ) (name : Text)
      → custom_cmd_name_from_file_for b64 system
          (custom_cmd_file_name b64 order name ++ custom_cmd_file_ext system)
        ≡ some name
  unfolding custom_cmd_name_from_file_for
  name_from_file-file_name windows order name =
      rw (strip_text_suffix-append (codes ".ps1") (custom_cmd_file_name b64 order name))
        (name_from_file-stem order name)
  name_from_file-file_name linux order name =
      ap (custom_cmd_name_from_file_for b64 linux)
        (append-nil (custom_cmd_file_name b64 order name))
      ∙ unix_file order name
  name_from_file-file_name bsd order name =
      ap (custom_cmd_name_from_file_for b64 bsd) (append-nil (custom_cmd_file_name b64 order name))
      ∙ unix_file order name
