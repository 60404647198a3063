-- ===== src/Script.antt =====
-- crates/sbm_parser/src/script.rs: the names of files and markers, and the sections of a script's output. Base64 is a
-- library of its own: its functions are a parameter, and what is relied on are named laws.
mod Tests
pub mod Decimal
pub mod Names
pub mod Order
pub mod Segments
pub mod Lines
pub mod Markers
pub mod Sections
pub mod Printing
use azad_server_box.Prelude.{
  ℕ, ◌-◌, ◌≡◌, Bool, true, false, not, ◌&&◌, ◌||◌, Option, none, some, List, [], ◌∷◌, ◌++◌,
  if◌then◌else◌, leb, nat_beq, all, All, is_empty, length, Text, codes,
}
use azad_server_box.Prelude.Try.{◌>>?◌}
use azad_server_box.Prelude.Strings.{split_once, strip_prefix, strip_text_suffix}
use azad_server_box.TimeSeries.Cpu.{SystemType, linux, bsd, windows}
use azad_server_box.Script.Decimal.{pad, decimal}

-- The engines `URL_SAFE` and `STANDARD`, each with the conversion between texts and bytes around it; `standard_lossy` decodes
-- with replacement of what is not UTF-8.
pub record Base64 : Type 0 where
  pub encode : Text → Text
  pub decode : Text → Option Text
  pub standard_encode : Text → Text
  pub standard_lossy : Text → Option Text

abbrev pub is_alphanumeric : ℕ → Bool
is_alphanumeric c =
    (leb b'0' c && leb c b'9') || (leb b'A' c && leb c b'Z') || (leb b'a' c && leb c b'z')

-- The alphabets of RFC 4648, with the padding.
abbrev pub is_url_safe : ℕ → Bool
is_url_safe c = is_alphanumeric c || nat_beq c b'-' || nat_beq c b'_' || nat_beq c b'='

abbrev pub is_standard : ℕ → Bool
is_standard c = is_alphanumeric c || nat_beq c b'+' || nat_beq c b'/' || nat_beq c b'='

-- Decoding undoes encoding, and encoded texts keep to their alphabet.
pub record IsLawful (b64 : Base64) : Type 0 where
  pub decode_encode : (s : Text) → b64.decode (b64.encode s) ≡ some s
  pub encode_alphabet : (s : Text) → All (λ c. is_url_safe c ≡ true) (b64.encode s)
  pub standard_decode_encode : (s : Text) → b64.standard_lossy (b64.standard_encode s) ≡ some s
  pub standard_alphabet : (s : Text) → All (λ c. is_standard c ≡ true) (b64.standard_encode s)

abbrev pub separator : Text
separator = codes "SrvBoxSep"

abbrev pub custom_cmd_separator : Text
custom_cmd_separator = codes "SrvBoxCusCmdSep"

abbrev pub encoded_name_prefix : Text
encoded_name_prefix = codes "b64."

abbrev pub custom_cmd_output_prefix : Text
custom_cmd_output_prefix = codes "SrvBoxCusCmdOut."

abbrev pub custom_cmd_file_ext : SystemType → Text
custom_cmd_file_ext windows = codes ".ps1"
custom_cmd_file_ext linux = []
custom_cmd_file_ext bsd = []

abbrev pub or_else {ℓ} : {A : Type ℓ} → Option A → A → A
or_else none x = x
or_else (some y) x = y

abbrev pub is_digit : ℕ → Bool
is_digit c = leb b'0' c && leb c b'9'

module _ (b64 : Base64) where
  unfoldable pub custom_cmd_file_name : ℕ → Text → Text
  custom_cmd_file_name order name = pad 5 (decimal 10 order) ++ b'_' ∷ b64.encode name

  unfoldable pub decode_marker_name : Text → Option Text
  decode_marker_name encoded = strip_prefix encoded_name_prefix encoded >>? b64.decode

  -- What follows the removal of the extension.
  unfoldable pub name_from_stem : Text → Option Text
  name_from_stem stem = split_once b'_' stem >>? λ parts.
      if is_empty parts.0 || not (all is_digit parts.0)
      then none
      else decode_marker_name (encoded_name_prefix ++ parts.1)

  unfoldable pub custom_cmd_name_from_file : Text → Option Text
  custom_cmd_name_from_file file_name =
      name_from_stem (or_else (strip_text_suffix (codes ".ps1") file_name) file_name)

  unfoldable pub custom_cmd_name_from_file_for : SystemType → Text → Option Text
  custom_cmd_name_from_file_for windows file_name =
      strip_text_suffix (codes ".ps1") file_name >>? λ stem. custom_cmd_name_from_file stem
  custom_cmd_name_from_file_for linux file_name =
      elim (strip_text_suffix (codes ".ps1") file_name) [
        | none ↦ custom_cmd_name_from_file file_name
        | some _ ↦ none
      ]
  custom_cmd_name_from_file_for bsd file_name = elim (strip_text_suffix (codes ".ps1") file_name) [
    | none ↦ custom_cmd_name_from_file file_name
    | some _ ↦ none
  ]

  unfoldable pub cmd_marker : Text → Text
  cmd_marker key = separator ++ (codes "." ++ (encoded_name_prefix ++ b64.encode key))

  unfoldable pub custom_cmd_marker : Text → Text
  custom_cmd_marker name =
      custom_cmd_separator ++ (codes "." ++ (encoded_name_prefix ++ b64.encode name))

unfoldable pub custom_result_key : Text → Text
custom_result_key name = custom_cmd_separator ++ (codes "." ++ name)

unfoldable pub custom_result_name : Text → Option Text
custom_result_name key = strip_prefix custom_cmd_separator key >>? λ rest.
    strip_prefix (codes ".") rest >>? λ name. if is_empty name then none else some name
